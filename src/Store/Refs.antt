-- ===== src/Store/Refs.antt =====
-- src/kvspace.c, `ref_leaf`, `kvspaceShmResolveRef`, `kvspaceShmGetByRef`, `kvspaceShmXvalueBodyView`
-- and `is_ptr_key`. A key that may be null is an `Option`.
use kvspace_c.Prelude.{
  ℕ, ◌+◌, ◌-◌, Bool, true, false, not, ◌&&◌, ◌||◌, Option, none, some, [], ◌∷◌, ltb, leb, ◌==◌,
  if◌then◌else◌, length, drop, Bytes,
}
use kvspace_c.Allocator.{Allocator}
use kvspace_c.Art.Node.{child}
use kvspace_c.Art.Tree.{Node, is_moved, follow, walk_loop, find_dir}
use kvspace_c.Keys.{reserved_meta_path, last_key_sep, is_vthread_status_key, is_char_langtype}
use kvspace_c.Regions.{Os}
use kvspace_c.Values.{Wire, head_len, reference_of, is_inline, is_ptr, head_of, bytes_at}
use kvspace_c.Store.State.{
  Store, Ref, id_of, sync, search, value_of, capacity, read_value, read_value_ro,
}
use kvspace_c.Store.Reading.{get}

module _ {A : Allocator} (st : Store A) where
  -- `art_walk` from a child, for what is left of a key.
  abbrev pub walk_from : Option ℕ → Bytes → Option ℕ
  walk_from o rest = elim (walk_loop (length rest + 2) st.slab.nodes o rest 0 none) [
    | none ↦ none
    | some r ↦ r.0
  ]

  -- From the directory node `id`, which stands for the first `d` bytes of a key that has `rest`
  -- behind them.
  abbrev pub below : ℕ → Node → Bytes → Option ℕ
  below id x [] = follow st.slab.nodes id
  below id x (b ∷ t) = if is_moved x.body then none else walk_from (child x.body b) t

  -- `ref_leaf`: the leaf and the reference, whose block is brought up to date.
  unfoldable pub ref_leaf : Ref → Option Bytes → Option ℕ × Ref
  ref_leaf ref key = elim (id_of ref.block_id) [
    | none ↦ (none, ref)
    | some b ↦ elim (follow st.slab.nodes b) [
      | none ↦ (none, ref)
      | some id ↦
          let ref' = record ref { block_id = id } in
          if ref.gen == 0 then (some id, ref') else elim key [
            | none ↦ (none, ref')
            | some k ↦ if ltb (length k) ref.gen then (none, ref') else elim (st.slab.nodes id) [
              | none ↦ (none, ref')
              | some x ↦ (below id x (drop ref.gen k), ref')
            ]
          ]
    ]
  ]

  -- The offset of the value of a node, where there is one.
  abbrev pub value_of_leaf : Option ℕ → Option ℕ
  value_of_leaf none = none
  value_of_leaf (some id) = value_of st id

abbrev pub null_ref : Ref
null_ref = record { block_id = 0; gen = 0; parent_id = 0; depth = 0 }

-- The reference to a leaf, with the directory node that was found on the way, if its depth is not 0.
abbrev pub ref_to : ℕ → Option (ℕ × ℕ) → Ref
ref_to id none = record { block_id = id; gen = 0; parent_id = 0; depth = 0 }
ref_to id (some (dn, d)) =
    if ltb 0 d
    then record { block_id = id; gen = 0; parent_id = dn; depth = d }
    else record { block_id = id; gen = 0; parent_id = 0; depth = 0 }

abbrev pub ref_found : Option (Option ℕ × Option (ℕ × ℕ)) → Option Ref
ref_found none = none
ref_found (some (none, dir)) = none
ref_found (some (some id, dir)) = some (ref_to id dir)

-- `kvspaceShmResolveRef` behind `kv_sync`.
unfoldable pub resolve_local : {A : Allocator} → Store A → Bytes → Option Ref
resolve_local st key = elim (last_key_sep key) [
  | none ↦ ref_found (find_dir st.slab.nodes st.root key 0 0)
  | some (sep, len) ↦ ref_found (find_dir st.slab.nodes st.root key sep len)
]

-- `kvspaceShmResolveRef`: the reference, or `none` for -1.
unfoldable pub resolve_ref : Os → {A : Allocator} → Store A → Bytes → Option Ref × Store A
unfolding resolve_local sync
resolve_ref os st key =
    let (ok, st') = sync os st in
    if reserved_meta_path key
    then (none, st)
    else if ok
    then (resolve_local st' key, st')
    else (none, st')

-- The value that a read of a leaf finds.
unfoldable pub leaf_value : Wire → {A : Allocator} → Store A → Option ℕ → Option (ℕ × ℕ)
leaf_value w st leaf = elim (value_of_leaf st leaf) [
  | none ↦ none
  | some off ↦ elim (read_value_ro w st off) [ none ↦ none | some rl ↦ some (off, rl) ]
]

-- The result of `kvspaceShmGetByRef`: the value, the reference as it stands then, and the store.
abbrev pub ByRef : Allocator → Type 0
ByRef A = Option (ℕ × ℕ) × Ref × Store A

-- What `kvspaceShmResolveRef` leaves in the reference of a key that is not reserved.
abbrev pub renewed : Option Ref → Ref
renewed none = null_ref
renewed (some r) = r

-- `kvspaceShmGetByRef` when the reference has no value: a read by the key.
unfoldable pub get_fallback : Os → Wire → {A : Allocator} → Store A → Ref → Option Bytes → ByRef A
get_fallback os w st ref none = (none, ref, st)
get_fallback os w st ref (some key) =
    let (v, st1) = get os w st key false in
    let (r, st2) = resolve_ref os st1 key in
    if ref.gen == 0
    then elim v [ none ↦ (none, ref, st1) | some x ↦ (some x, renewed r, st2) ]
    else (none, ref, st)

-- `kvspaceShmGetByRef`
unfoldable pub get_by_ref : Os → Wire → {A : Allocator} → Store A → Ref → Option Bytes → ByRef A
unfolding ref_leaf leaf_value get_fallback sync
get_by_ref os w st ref key =
    let (ok, st') = sync os st in
    let (leaf, ref') = ref_leaf st' ref key in
    if ok
    then elim (leaf_value w st' leaf) [
      | some v ↦ (some v, ref', st')
      | none ↦ get_fallback os w st' ref' key
    ]
    else (none, ref, st')

-- `kvspaceXvalueBodyView_t`, with the head as an offset; the body stands 16 bytes behind it.
pub record BodyView : Type 0 where
  pub head : ℕ
  pub body : ℕ
  pub cap : ℕ
  pub body_cap : ℕ

abbrev pub status_max_len : ℕ
status_max_len = 16

abbrev pub status_min_cap : ℕ
status_min_cap = 80

-- The test of `kvspaceShmXvalueBodyView` on a value of `rl` bytes at `off`.
unfoldable pub viewable : Wire → {A : Allocator} → Store A → Bytes → ℕ → ℕ → Bool
viewable w st key off rl =
    let v = bytes_at st.bytes off rl in
    let cap = capacity st off in
    elim (head_of w v) [
      | none ↦ false
      | some head ↦ elim (w.effective_len v) [
        | none ↦ false
        | some effective ↦
            is_inline (reference_of w v)
            && leb head_len cap
            && leb effective (cap - head_len)
            && (not (is_vthread_status_key key)
                || (leb status_min_cap cap
                    && leb effective status_max_len
                    && is_char_langtype (w.langtype v)))
      ]
    ]

-- `kvspaceShmXvalueBodyView` behind `kv_sync`.
unfoldable pub body_view_local : Wire → {A : Allocator} → Store A → Ref → Bytes → Option BodyView
unfolding ref_leaf viewable
body_view_local w st ref key = elim (value_of_leaf st (ref_leaf st ref (some key)).0) [
  | none ↦ none
  | some off ↦ elim (read_value w st off) [
    | none ↦ none
    | some rl ↦
        let cap = capacity st off in
        if viewable w st key off rl
        then some
            (record { head = off; body = off + head_len; cap = cap; body_cap = cap - head_len })
        else none
  ]
]

unfoldable pub body_view :
    Os → Wire → {A : Allocator} → Store A → Ref → Bytes → Option BodyView × Store A
unfolding body_view_local sync
body_view os w st ref key =
    let (ok, st') = sync os st in
    if ref.gen == 0
    then (if ok then (body_view_local w st' ref key, st') else (none, st'))
    else (none, st)

-- `is_ptr_key`
unfoldable pub is_ptr_key : Wire → {A : Allocator} → Store A → Bytes → Bool
is_ptr_key w st key = elim (value_of_leaf st (search st key)) [
  | none ↦ false
  | some off ↦ elim (read_value w st off) [
    | none ↦ false
    | some rl ↦
        let v = bytes_at st.bytes off rl in
        ltb 0 rl
        && is_ptr (reference_of w v)
        && elim (head_of w v) [ none ↦ false | some head ↦ true ]
  ]
]
