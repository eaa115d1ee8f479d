-- ===== src/View.antt =====
-- src/kvspace.c, view tokens: `kvspaceShmViewFromRef`, `kvspaceShmViewResolve`,
-- `kvspaceShmResolvePrefix`, `kvspaceShmViewResolveFrom`, `kvspaceShmViewCheck`,
-- `kvspaceShmViewWrite`, `kvspaceShmViewDel` and `kvspaceShmViewRefresh`. A handle is one that no
-- other step of the program changes while a function runs, so that the compare-and-swap of
-- `kvspaceShmViewDel` succeeds.
pub mod Fresh
pub mod Writing
pub mod Deleting
pub mod Tests
use kvspace_c.Prelude.{
  ℕ, zero, suc, ◌+◌, ◌-◌, Bool, true, false, not, ◌&&◌, ◌||◌, Option, none, some, [], ◌∷◌, ltb, leb,
  ◌==◌, if◌then◌else◌, length, take, drop, Bytes,
}
use kvspace_c.Allocator.{Allocator}
use kvspace_c.Art.Node.{child}
use kvspace_c.Art.Tree.{Node, Heap, Slab, is_moved, pfx_shared, follow, write}
use kvspace_c.Regions.{Os}
use kvspace_c.Ring.{Ring, Viewer, reserve, commit}
use kvspace_c.Values.{
  Wire, head_len, int32_len, reference_of, is_inline, head_of, bytes_at, write_at,
}
use kvspace_c.Store.{
  Store, Gens, Ref, view_guard, id_of, value_of, capacity, gens_at, put_gens, bump_value,
  list_gen_bump, resolve_ref, written,
}
use kvspace_c.Store.Refs.{walk_from, null_ref}

-- `kvspaceViewToken_t`; `head` is the offset of the value, the body stands 16 bytes behind it, and
-- `epoch` is the field `_pad`.
pub record Token : Type 0 where
  pub head : ℕ
  pub value_len : ℕ
  pub cap : ℕ
  pub body_cap : ℕ
  pub struct_gen : ℕ
  pub value_gen : ℕ
  pub store_id : ℕ
  pub node_id : ℕ
  pub epoch : ℕ

-- The answers 0, 1 and -1.
pub data Answer : Type 0 where
  done stale refused : Answer

-- The loop of `kvspaceShmResolvePrefix`, and of `p2_node_at`: the node in which what is left of a
-- path ends, with the bytes of its prefix that it covers. A turn takes one unit of fuel.
unfoldable pub prefix_loop : ℕ → Heap → Option ℕ → Bytes → Option (ℕ × ℕ)
prefix_loop zero h o rest = none
prefix_loop (suc fuel) h none rest = none
prefix_loop (suc fuel) h (some nid) rest = elim (h nid) [
  | none ↦ none
  | some x ↦
      let s = pfx_shared x.prefix rest in
      let deeper = λ (b : ℕ) (t : Bytes). prefix_loop fuel h (child x.body b) t in
      if is_moved x.body || (not (s == length x.prefix) && not (s == length rest))
      then none
      else elim (drop s rest) [ [] ↦ some (nid, s) | b ∷ t ↦ deeper b t ]
]

-- What is left of `rel` once the rest of a prefix is taken off; `none` where they differ.
unfoldable pub take_off : Bytes → Bytes → Option Bytes
take_off [] rel = some rel
take_off (x ∷ p) [] = some []
take_off (x ∷ p) (b ∷ rel) = let rest = take_off p rel in if b == x then rest else none

abbrev pub leaf_ref : ℕ → Ref
leaf_ref id = record null_ref { block_id = id }

-- `art_val_cas(h, &hv, 0)`: the node keeps neither value nor box.
abbrev pub without_value : Node → Node
without_value x = record x { has_value = false; off = 0 }

module _ {A : Allocator} where
  -- The token for the value at `off` of the node `id`.
  abbrev pub token_of : Wire → Store A → ℕ → ℕ → Bytes → Gens → Token
  token_of w st id off head g = record {
    head = off;
    value_len = w.body_len head;
    cap = capacity st off;
    body_cap = capacity st off - head_len;
    struct_gen = g.struct_gen;
    value_gen = g.value_gen;
    store_id = st.store_id;
    node_id = id;
    epoch = st.recovery_epoch;
  }

  -- The value at `off` seen as one that a token may stand for: it is complete and no reference.
  unfoldable pub inline_head : Wire → Store A → ℕ → Option Bytes
  inline_head w st off =
      let cap = capacity st off in
      if ltb cap 1 then none else elim (head_of w (bytes_at st.bytes off (int32_len cap))) [
        | none ↦ none
        | some head ↦
            if is_inline (reference_of w (bytes_at st.bytes off cap)) then some head else none
      ]

  unfoldable pub view_of_node : Wire → Store A → ℕ → Option Token
  unfolding inline_head
  view_of_node w st id = elim (value_of st id) [
    | none ↦ none
    | some off ↦ elim (inline_head w st off) [
      | none ↦ none
      | some head ↦ elim (gens_at st id) [
        | none ↦ none
        | some g ↦ some (token_of w st id off head g)
      ]
    ]
  ]

  abbrev pub followed_id : Store A → Ref → Option ℕ
  followed_id st ref = elim (id_of ref.block_id) [ none ↦ none | some b ↦ follow st.slab.nodes b ]

  -- `kvspaceShmViewFromRef`
  unfoldable pub view_from_ref : Wire → Store A → Ref → Option Token
  unfolding view_of_node
  view_from_ref w st ref =
      if not (ref.gen == 0) || view_guard st
      then none
      else elim (followed_id st ref) [ none ↦ none | some id ↦ view_of_node w st id ]

  -- `kvspaceShmViewResolve`
  unfoldable pub view_resolve : Os → Wire → Store A → Bytes → Option Token × Store A
  unfolding view_from_ref
  view_resolve os w st key =
      let (r, st') = resolve_ref os st key in
      if view_guard st
      then (none, st)
      else elim r [ none ↦ (none, st') | some ref ↦ (view_from_ref w st' ref, st') ]

  unfoldable pub resolve_prefix : Store A → Bytes → Option Ref
  unfolding prefix_loop
  resolve_prefix st path =
      if view_guard st
      then none
      else elim (prefix_loop (length path + 1) st.slab.nodes st.root path) [
        | none ↦ none
        | some (nid, s) ↦ some (record null_ref { block_id = nid; depth = s })
      ]

  -- `p2_node_at`
  unfoldable pub node_at : Store A → Bytes → Option ℕ
  unfolding prefix_loop
  node_at st key = elim (prefix_loop (length key + 1) st.slab.nodes st.root key) [
    | none ↦ none
    | some (nid, s) ↦ some nid
  ]

  -- The node for what is left of `rel` below the node `id`.
  abbrev pub node_below : Store A → ℕ → Node → Bytes → Option ℕ
  node_below st id x [] = some id
  node_below st id x (b ∷ t) = walk_from st (child x.body b) t

  abbrev pub view_of_leaf : Wire → Store A → Option ℕ → Option Token
  view_of_leaf w st none = none
  view_of_leaf w st (some id) = view_from_ref w st (leaf_ref id)

  -- `kvspaceShmViewResolveFrom`
  unfoldable pub view_resolve_from : Wire → Store A → Ref → Bytes → Option Token
  unfolding take_off
  view_resolve_from w st parent rel = if view_guard st then none else elim (followed_id st parent) [
    | none ↦ none
    | some pid ↦ elim (st.slab.nodes pid) [
      | none ↦ none
      | some x ↦ elim (take_off (drop parent.depth x.prefix) rel) [
        | none ↦ none
        | some rest ↦ view_of_leaf w st (node_below st pid x rest)
      ]
    ]
  ]

  -- Whether the node of a token has the value for which the token was made.
  abbrev pub same_value : Store A → Token → Bool
  same_value st tok = elim (value_of st tok.node_id) [ none ↦ false | some off ↦ tok.head == off ]

  abbrev pub same_struct : Store A → Token → Bool
  same_struct st tok = elim (gens_at st tok.node_id) [
    | none ↦ false
    | some g ↦ g.struct_gen == tok.struct_gen
  ]

  -- `kvspaceShmViewCheck`
  unfoldable pub view_check : Store A → Token → Answer
  view_check st tok =
      if view_guard st
      then refused
      else if tok.store_id == st.store_id
          && tok.epoch == st.recovery_epoch
          && same_struct st tok
          && same_value st tok
      then done
      else stale

  -- The write of `kvspaceShmViewWrite`, between two increments of the value generation.
  unfoldable pub body_written : Store A → Token → Bytes → Store A
  body_written st tok buf =
      bump_value 1 tok.node_id (written (bump_value 1 tok.node_id st) (tok.head + head_len) buf)

  -- `kvspaceShmViewWrite`: the answer, the token and the store.
  unfoldable pub write_checked : Wire → Store A → Token → Bytes → Answer → Answer × Token × Store A
  unfolding body_written
  write_checked w st tok buf refused = (refused, tok, st)
  write_checked w st tok buf stale = (stale, tok, st)
  write_checked w st tok buf done =
      let n = length buf in
      if n == w.body_len (bytes_at st.bytes tok.head head_len) && leb n tok.body_cap
      then (done, record tok { value_len = n }, body_written st tok buf)
      else (stale, tok, st)

  -- A handle whose check is refused answers -1 by its own guard; a stale token answers 1.
  unfoldable pub view_write : Wire → Store A → Token → Bytes → Answer × Token × Store A
  unfolding write_checked
  view_write w st tok buf = write_checked w st tok buf (view_check st tok)

  abbrev pub clear_value : ℕ → Store A → Store A
  clear_value id st = elim (st.slab.nodes id) [
    | none ↦ st
    | some x ↦ record st {
      slab = record st.slab { nodes = write st.slab.nodes id (without_value x) };
    }
  ]

  -- The end of `kvspaceShmViewDel`, once the ring has an entry or none.
  unfoldable pub del_reserved : Store A → Token → ℕ → Option ℕ × Ring → Answer × Store A
  del_reserved st tok off (none, ring) = (refused, record st { ring = ring })
  del_reserved st tok off (some idx, ring) = (
    done,
    list_gen_bump (record (bump_value 2 tok.node_id (clear_value tok.node_id st)) {
      ring = commit st.recovery_epoch idx off tok.cap ring;
    }),
  )

  unfoldable pub del_checked : Viewer → Store A → Token → Answer → Answer × Store A
  unfolding del_reserved
  del_checked v st tok refused = (refused, st)
  del_checked v st tok stale = (stale, st)
  del_checked v st tok done = elim (value_of st tok.node_id) [
    | none ↦ (stale, st)
    | some off ↦ del_reserved st tok off (reserve v st.ring)
  ]

  -- `kvspaceShmViewDel`
  unfoldable pub view_del : Viewer → Store A → Token → Answer × Store A
  unfolding del_checked
  view_del v st tok = del_checked v st tok (view_check st tok)

  -- `kvspaceShmViewRefresh`: the token stays as it is where the key cannot be resolved.
  unfoldable pub view_refresh : Os → Wire → Store A → Token → Bytes → Bool × Token × Store A
  unfolding view_resolve
  view_refresh os w st tok key =
      let (t, st') = view_resolve os w st key in
      elim t [ none ↦ (false, tok, st') | some tok' ↦ (true, tok', st') ]
