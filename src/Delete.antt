-- ===== src/Delete.antt =====
-- src/kvspace.c, deletion: `art_del`, `shm_del_key`, `kvspaceShmDel` and `kvspaceShmDeltree`.
-- `garb_reserve`, the compare-and-swap and `garb_commit` run with no other step between them, so that
-- the swap succeeds.
pub mod Clearing
pub mod KeyLaws
pub mod Shrinking
pub mod TreeLaws
mod Tests
use kvspace_c.Prelude.{
  ℕ, zero, suc, ◌+◌, Bool, true, false, not, ◌&&◌, ◌||◌, Option, none, some, List, [], ◌∷◌, ltb,
  leb, ◌==◌, if◌then◌else◌, length, drop, Bytes, bytes_eq,
}
use kvspace_c.Allocator.{Allocator}
use kvspace_c.Art.Node.{child}
use kvspace_c.Art.Scan.{scan_keys}
use kvspace_c.Art.Tree.{Node, Heap, pfx_shared}
use kvspace_c.Keys.{slash, reserved_meta_path, subtree_key, deltree_base}
use kvspace_c.Regions.{Os}
use kvspace_c.Ring.{Ring, Viewer, reserve, commit}
use kvspace_c.Values.{Wire}
use kvspace_c.Store.{
  Store, sync, has, capacity, bump_struct, bump_value, list_gen_bump, is_ptr_key, key_limit,
}
use kvspace_c.View.{clear_value}

-- What `art_del` did: a hard error (-1), nothing, or a deletion (`*del` set).
pub data Deletion : Type 0 where
  hard missing deleted : Deletion

abbrev pub is_deleted : Deletion → Bool
is_deleted hard = false
is_deleted missing = false
is_deleted deleted = true

-- Whether `kvspaceShmDeltree` deletes a key that it scanned.
abbrev pub in_tree : Bytes → Bytes → Bool
in_tree base key =
    subtree_key base key && not (reserved_meta_path key) && ltb (length key) key_limit

-- What the loop has seen so far: whether every deletion was without a hard error, and whether a key
-- was deleted.
abbrev pub seen : Deletion → Bool × Bool → Bool × Bool
seen hard (rc, any) = (false, any)
seen missing (rc, any) = (rc, any)
seen deleted (rc, any) = (rc, true)

-- Where the keys of a base are looked for.
abbrev pub scan_base : Bytes → Bytes
scan_base [] = slash
scan_base (c ∷ base) = c ∷ base

module _ {A : Allocator} where
  -- The end of `art_del`, once the ring has an entry or none.
  unfoldable pub del_value : Store A → ℕ → ℕ → Option ℕ × Ring → Deletion × Store A
  del_value st nid off (none, ring) = (hard, record st { ring = ring })
  del_value st nid off (some idx, ring) = (
    deleted,
    record (bump_struct nid (bump_value 2 nid (clear_value nid st))) {
      ring = commit st.recovery_epoch idx off (capacity st off) ring;
    },
  )

  -- `art_del` at the node where the key ends.
  unfoldable pub del_here : Viewer → Store A → ℕ → Node → Deletion × Store A
  unfolding del_value
  del_here v st nid x = elim (has x) [
    | none ↦ (missing, st)
    | some off ↦ del_value st nid off (reserve v st.ring)
  ]

  -- `art_del`; a turn takes one unit of fuel. The node that it returns is the one that it is called
  -- with, so that the root stays as it is.
  unfoldable pub art_del : ℕ → Viewer → Store A → Option ℕ → Bytes → Deletion × Store A
  unfolding del_here pfx_shared
  art_del zero v st o rest = (missing, st)
  art_del (suc fuel) v st none rest = (hard, st)
  art_del (suc fuel) v st (some nid) rest = elim (st.slab.nodes nid) [
    | none ↦ (hard, st)
    | some x ↦
        let deeper = λ (c : ℕ) (t : Bytes). art_del fuel v st (some c) t in
        if pfx_shared x.prefix rest == length x.prefix
        then elim (drop (length x.prefix) rest) [
          | [] ↦ del_here v st nid x
          | b ∷ t ↦ elim (child x.body b) [ none ↦ (missing, st) | some c ↦ deeper c t ]
        ]
        else (missing, st)
  ]

  -- `shm_del_key`
  unfoldable pub del_key : Viewer → Store A → Bytes → Deletion × Store A
  unfolding art_del
  del_key v st key = art_del (length key + 2) v st st.root key

  -- `kvspaceShmDel` behind `kv_sync`: whether it returns 0.
  unfoldable pub del_local : Viewer → Store A → Bytes → Bool × Store A
  unfolding del_key
  del_local v st key =
      let (d, st') = del_key v st key in
      if leb key_limit (length key)
      then (false, st)
      else if is_deleted d
      then (true, list_gen_bump st')
      else (false, st')

  -- `kvspaceShmDel`
  unfoldable pub del : Os → Viewer → Store A → Bytes → Bool × Store A
  unfolding del_local sync
  del os v st key = let (ok, st') = sync os st in if ok then del_local v st' key else (false, st')

  -- The loop of `kvspaceShmDeltree` over the keys.
  unfoldable pub del_keys :
      Viewer → Bytes → List Bytes → Bool × Bool → Store A → (Bool × Bool) × Store A
  unfolding del_key
  del_keys v base [] acc st = (acc, st)
  del_keys v base (k ∷ ks) acc st =
      let next = λ (a : Bool × Bool) (s : Store A). del_keys v base ks a s in
      let (d, st') = del_key v st k in if in_tree base k then next (seen d acc) st' else next acc st

  -- The end of `kvspaceShmDeltree`, for the keys that were scanned.
  unfoldable pub del_scanned : Viewer → Bytes → Store A → Option (List Bytes) → Bool × Store A
  unfolding del_keys
  del_scanned v base st none = (false, st)
  del_scanned v base st (some ks) =
      let ((rc, any), st') = del_keys v base ks (true, false) st in
      (rc, if any then list_gen_bump st' else st')

  -- The end of `kvspaceShmDeltree`, behind its guards: a pointer itself is deleted, and nothing else.
  unfoldable pub del_base : Os → Wire → Viewer → Store A → Bytes → Bool × Store A
  unfolding del_scanned scan_keys is_ptr_key del bytes_eq
  del_base os w v st prefix =
      let base = deltree_base prefix in
      let (ok, st1) = del os v st base in
      if ltb 0 (length prefix) && is_ptr_key w st prefix
      then del os v st prefix
      else if ltb 0 (length base) && not (length base == length prefix) && is_ptr_key w st base
      then (ok, (del os v st1 prefix).1)
      else del_scanned v base st (scan_keys st.slab.nodes st.root (scan_base base))

  -- `kvspaceShmDeltree`
  unfoldable pub deltree : Os → Wire → Viewer → Store A → Bytes → Bool × Store A
  unfolding del_base sync
  deltree os w v st prefix =
      let (ok, st') = sync os st in
      if reserved_meta_path prefix
      then (false, st)
      else if not ok || leb key_limit (length prefix)
      then (false, st')
      else if ltb 0 (length (deltree_base prefix)) && reserved_meta_path (deltree_base prefix)
      then (false, st')
      else del_base os w v st' prefix
