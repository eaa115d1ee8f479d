-- ===== src/View/Tests.antt =====
-- src/kvspace.c, a token for the key `/a` of a small store.
use kvspace_c.Prelude.{◌≡◌, ◌≢◌, ◌↔◌, refl, false, some, [], codes, arith}
use kvspace_c.Registry.{gone}
use kvspace_c.Ring.{Viewer, reserve, tail_blocked}
use kvspace_c.Values.{head_of, reference_of}
use kvspace_c.Art.Tree.{follow}
use kvspace_c.Store.{Gens, gens_at, value_of}
use kvspace_c.Store.Tests.{small_wire, small_store}
use kvspace_c.View.{
  Token, done, view_from_ref, view_of_node, inline_head, view_check, view_write, view_del, leaf_ref,
  del_checked,
}
use kvspace_c.View.Fresh.{Current, view_check_iff, view_from_ref-Current}
use kvspace_c.View.Writing.{ViewWritten, view_write-ViewWritten}
use kvspace_c.View.Deleting.{ViewDeleted, view_del-ViewDeleted, view_del-kept}

abbrev pub token : Token
token = record {
  head = 64;
  value_len = 5;
  cap = 64;
  body_cap = 48;
  struct_gen = 4;
  value_gen = 6;
  store_id = 7;
  node_id = 1;
  epoch = 3;
}

made : view_from_ref small_wire small_store (leaf_ref 1) ≡ some token
unfolding view_from_ref view_of_node inline_head follow value_of gens_at head_of reference_of
made = refl

token-Current : Current small_store token
token-Current = view_from_ref-Current small_wire small_store (leaf_ref 1) made

view_from_ref-Current_example : Current small_store token
view_from_ref-Current_example = view_from_ref-Current small_wire small_store (leaf_ref 1) made

view_check_iff_example : (view_check small_store token ≡ done) ↔ Current small_store token
view_check_iff_example = view_check_iff small_store token

view_write-ViewWritten_example :
    let (a, tok', st') = view_write small_wire small_store token (codes "HELLO") in
    (a ≡ done)
    × Current st' tok'
    × ((g : Gens) × (gens_at small_store 1 ≡ some g)
        × ViewWritten small_store token g (codes "HELLO") st')
view_write-ViewWritten_example =
    view_write-ViewWritten small_wire small_store token (codes "HELLO") token-Current refl
      (omega arith)

abbrev pub viewer : Viewer
viewer = record { procs = λ pid. gone; slots = []; claim = 1; reclaim_unavailable = false }

reserved : (reserve viewer small_store.ring).0 ≡ some 0
unfolding reserve tail_blocked
reserved = refl

view_del-ViewDeleted_example :
    let (a, st') = view_del viewer small_store token in
    (a ≡ done)
    × ViewDeleted viewer small_store token st'
    × ((t : Token) → t.node_id ≡ token.node_id → view_check st' t ≢ done)
view_del-ViewDeleted_example = view_del-ViewDeleted viewer small_store token token-Current reserved

-- A token with another epoch.
abbrev old_token : Token
old_token = record token { epoch = 2 }

not_deleted : (view_del viewer small_store old_token).0 ≢ done
unfolding view_del view_check del_checked value_of gens_at
not_deleted h = cc h

old_token_kept : (view_del viewer small_store old_token).1 ≡ small_store
old_token_kept = view_del-kept viewer small_store old_token not_deleted
