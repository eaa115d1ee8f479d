-- ===== src/Delete/Tests.antt =====
-- src/kvspace.c, deletions from a small store.
use kvspace_c.Prelude.{
  List, ℕ, ◌+◌, ◌%◌, ◌≡◌, ◌≢◌, ◌↔◌, refl, true, false, some, none, [], ◌∷◌, codes, arith, Bytes,
  All,
}
use kvspace_c.Art.Node.{child, assoc}
use kvspace_c.Art.Tree.{find2, walk_loop, pfx_shared}
use kvspace_c.Ring.{reserve, tail_blocked, u64}
use kvspace_c.Regions.{kv_sync, sync_art, sync_gens, sync_head, sync_data, region_map}
use kvspace_c.Store.{search, sync}
use kvspace_c.Store.Tests.{small_store, grants}
use kvspace_c.View.Tests.{viewer}
use kvspace_c.Delete.{del, del_local, del_scanned, del_key, art_del}
use kvspace_c.Delete.KeyLaws.{del_local-search, del-kept}
use kvspace_c.Delete.Shrinking.{Shrinks}
use kvspace_c.Delete.TreeLaws.{Gone, Spared, del_scanned-Gone}

found : search small_store (codes "/a") ≡ some 1
unfolding search find2 walk_loop pfx_shared child assoc
found = refl

reserved : (reserve viewer small_store.ring).0 ≡ some 0
unfolding reserve tail_blocked
reserved = refl

del_local-search_example :
    let (ok, st') = del_local viewer small_store (codes "/a") in
    (ok ≡ true)
    × (search st' (codes "/a") ≡ none)
    × ((k : Bytes) (l : ℕ) → (search st' k ≡ some l) ↔ ((search small_store k ≡ some l) × (l ≢ 1)))
    × (st'.list_gen ≡ (small_store.list_gen + 1) % u64)
del_local-search_example =
    del_local-search viewer small_store (codes "/a") found reserved (omega arith)

absent : (del grants viewer small_store (codes "/z")).0 ≡ false
unfolding del sync kv_sync sync_art sync_gens sync_head sync_data region_map del_local del_key
    art_del pfx_shared child assoc
absent = refl

del-kept_example :
    (del grants viewer small_store (codes "/z")).1
    ≡ record small_store { regions = (kv_sync grants small_store.regions).1 }
del-kept_example = del-kept grants viewer small_store (codes "/z") absent

abbrev both_keys : List Bytes
both_keys = codes "/a" ∷ codes "/b" ∷ []

del_scanned-Gone_example :
    let (ok, st') = del_scanned viewer [] small_store (some both_keys) in
    Shrinks small_store st'
    × (ok ≡ true → All (Gone [] st') both_keys)
    × (All (Spared []) both_keys → (ok ≡ true) × (st' ≡ small_store))
del_scanned-Gone_example = del_scanned-Gone viewer [] small_store both_keys
