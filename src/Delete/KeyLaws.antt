-- ===== src/Delete/KeyLaws.antt =====
-- src/kvspace.c, `shm_del_key` and `kvspaceShmDel`: which key is gone afterwards.
use kvspace_c.Prelude.{
  ℕ, zero, suc, ◌+◌, ◌%◌, ◌<◌, ◌≡◌, ◌≢◌, ◌↔◌, refl, sym, ap, ◌∙◌, true, false, Option, none, some,
  ◌==◌, length, drop, leb, arith, Bytes, Bool-cases, Option-cases, inl, inr, ==_iff, ==_refl,
}
use kvspace_c.Allocator.{Allocator}
use kvspace_c.Art.Node.{child}
use kvspace_c.Art.Tree.{Node, Heap, write, pfx_shared}
use kvspace_c.Art.Tree.Lookup.{List-cases}
use kvspace_c.Regions.{Os, kv_sync}
use kvspace_c.Ring.{Ring, Viewer, reserve, commit, u64}
use kvspace_c.Ring.Writer.{reserve-none}
use kvspace_c.Store.{
  Store, sync, capacity, search, value_of, bump_struct, bump_value, list_gen_bump, key_limit,
}
use kvspace_c.Store.GensLaws.{bump_value-rest, bump_struct-rest}
use kvspace_c.Store.SearchLaws.{Cleared, search-Cleared}
use kvspace_c.View.{clear_value, without_value}
use kvspace_c.View.Deleting.{clear_value-eq}
use kvspace_c.Delete.{deleted, del, del_value, del_here, del_key, del_local, is_deleted, art_del}
use kvspace_c.Delete.Clearing.{del_key-DeletesAt}

-- Clearing the value of a node keeps the shape of the tree.
write-Cleared :
    (h : Heap) (leaf : ℕ) (x : Node)
    → h leaf ≡ some x
    → Cleared leaf h (write h leaf (without_value x))
write-Cleared h leaf x g = record {
  there = λ i y e. elim (Bool-cases (i == leaf)) [
    | inl same ↦
        let q : y ≡ x = at-leaf i y same e in
        (without_value x, rw same refl, ap (λ (n : Node). n.prefix) q, ap (λ (n : Node). n.body) q)
    | inr other ↦ (y, rw other e, refl, refl)
  ];
  back = λ i y e. elim (Bool-cases (i == leaf)) [
    | inl same ↦
        let q : without_value x ≡ y = written i y same e in
        (
          x,
          rw ((==_iff i leaf).0 same) g,
          sym (ap (λ (n : Node). n.prefix) q),
          sym (ap (λ (n : Node). n.body) q),
        )
    | inr other ↦ (y, rw other at e, refl, refl)
  ];
  gone = λ y e.
      let q : without_value x ≡ y = written leaf y (==_refl leaf) e in
      sym (ap (λ (n : Node). n.has_value) q);
  elsewhere = λ i ne. ground arith;
}
  where
    at-leaf : (i : ℕ) (y : Node) → (i == leaf) ≡ true → h i ≡ some y → y ≡ x
    at-leaf i y same e =
        let f : h i ≡ some x = rw ((==_iff i leaf).0 same) g in
        let q : some y ≡ some x = sym e ∙ f in cc q

    written :
        (i : ℕ) (y : Node)
        → (i == leaf) ≡ true
        → write h leaf (without_value x) i ≡ some y
        → without_value x ≡ y
    written i y same e = let q : some (without_value x) ≡ some y = rw same at e in cc q

module _ {A : Allocator} where
  -- What a deletion of the value of `leaf` leaves: the node has no value, its box is committed to the
  -- ring at the entry that was reserved, and no byte and no generation of the key set changed.
  pub record Removed (v : Viewer) (st : Store A) (leaf : ℕ) (st' : Store A) : Type 0 where
    pub cleared : Cleared leaf st.slab.nodes st'.slab.nodes
    pub root : st'.root ≡ st.root
    pub committed :
        (off idx : ℕ) × (value_of st leaf ≡ some off)
        × ((reserve v st.ring).0 ≡ some idx)
        × (st'.ring ≡ commit st.recovery_epoch idx off (capacity st off) (reserve v st.ring).1)
    pub bytes : st'.bytes ≡ st.bytes
    pub list_gen : st'.list_gen ≡ st.list_gen

  abbrev bumped : ℕ → Store A → Store A
  bumped leaf st = bump_struct leaf (bump_value 2 leaf (clear_value leaf st))

  -- The bumps and the clearing change nothing else.
  bumped-rest :
      (st : Store A) (leaf : ℕ) {x : Node}
      → st.slab.nodes leaf ≡ some x
      → record st {
        slab = record st.slab { nodes = write st.slab.nodes leaf (without_value x) };
        gens = (bumped leaf st).gens;
      }
        ≡ bumped leaf st
  bumped-rest st leaf {x} g =
      let c = clear_value leaf st in
      let b = bump_value 2 leaf c in
      let one = (bump_struct-rest b leaf).0 in
      let two = (bump_value-rest 2 c leaf).0 in
      ap (λ (s : Store A). record s { gens = (bumped leaf st).gens })
        (sym (clear_value-eq st leaf g))
      ∙ ap (λ (s : Store A). record s { gens = (bumped leaf st).gens }) two
      ∙ one

  del_value-some :
      (st : Store A) (leaf off idx : ℕ) (o : Option ℕ × Ring)
      → o.0 ≡ some idx
      → del_value st leaf off o ≡ (
        deleted,
        record (bumped leaf st) { ring = commit st.recovery_epoch idx off (capacity st off) o.1 },
      )
  unfolding del_value
  del_value-some st leaf off idx (none, r) e = absurd (cc e)
  del_value-some st leaf off idx (some i, r) e =
      let q : i ≡ idx = cc e in
      ap
        (λ (k : ℕ). (
          deleted,
          record (bumped leaf st) { ring = commit st.recovery_epoch k off (capacity st off) r },
        ))
        q

  pub del_here-Removed :
      (v : Viewer) (st : Store A) (leaf idx : ℕ) (x : Node)
      → st.slab.nodes leaf ≡ some x
      → x.has_value ≡ true
      → (reserve v st.ring).0 ≡ some idx
      → ((del_here v st leaf x).0 ≡ deleted) × Removed v st leaf (del_here v st leaf x).1
  unfolding del_here value_of
  del_here-Removed v st leaf idx x g val r =
      let e = del_value-some st leaf x.off idx (reserve v st.ring) r in
      let rest = bumped-rest st leaf g in
      rw (del_here, val, e)
        (
          refl,
          rw (sym rest) (record {
            cleared = write-Cleared st.slab.nodes leaf x g;
            root = refl;
            committed = (x.off, idx, rw (value_of, g, val) refl, r, refl);
            bytes = refl;
            list_gen = refl;
          }),
        )

  -- Where a search finds the key and the ring has an entry, `shm_del_key` deletes the value of the
  -- node that the search finds.
  pub del_key-Removed :
      (v : Viewer) (st : Store A) (key : Bytes) {leaf idx : ℕ}
      → search st key ≡ some leaf
      → (reserve v st.ring).0 ≡ some idx
      → ((del_key v st key).0 ≡ deleted) × Removed v st leaf (del_key v st key).1
  del_key-Removed v st key {leaf} {idx} h r =
      let (x, g, val, e) = del_key-DeletesAt v st key h in
      rw e (del_here-Removed v st leaf idx x g val r)

  del_value-kept :
      (v : Viewer) (st : Store A) (leaf off : ℕ) (o : Option ℕ × Ring)
      → ((r : Ring) → o ≡ (none, r) → r ≡ st.ring)
      → (del_value st leaf off o).0 ≢ deleted
      → (del_value st leaf off o).1 ≡ st
  unfolding del_value
  del_value-kept v st leaf off (none, r) same h = ap (λ q. record st { ring = q }) (same r refl)
  del_value-kept v st leaf off (some idx, r) same h = absurd (h refl)

  del_here-kept :
      (v : Viewer) (st : Store A) (leaf : ℕ) (x : Node)
      → (del_here v st leaf x).0 ≢ deleted
      → (del_here v st leaf x).1 ≡ st
  unfolding del_here
  del_here-kept v st leaf x h = elim (Bool-cases x.has_value) [
    | inr e ↦ rw (del_here, e) refl
    | inl e ↦
        let kept =
          del_value-kept v st leaf x.off (reserve v st.ring) (λ r q. reserve-none v st.ring q) in
        rw (del_here, e) (kept (rw (del_here, e) at h))
  ]

  pub art_del-kept :
      (fuel : ℕ) (v : Viewer) (st : Store A) (o : Option ℕ) (rest : Bytes)
      → (art_del fuel v st o rest).0 ≢ deleted
      → (art_del fuel v st o rest).1 ≡ st
  unfolding art_del
  art_del-kept zero v st o rest h = refl
  art_del-kept (suc fuel) v st none rest h = refl
  art_del-kept (suc fuel) v st (some nid) rest h = elim (Option-cases (st.slab.nodes nid)) [
    | inl e ↦ rw (art_del, e) refl
    | inr (x, e) ↦ elim (Bool-cases (pfx_shared x.prefix rest == length x.prefix)) [
      | inr p ↦ rw (art_del, e, p) refl
      | inl p ↦ elim (List-cases (drop (length x.prefix) rest)) [
        | inl f ↦ rw (art_del, e, p, f) (del_here-kept v st nid x (rw (art_del, e, p, f) at h))
        | inr (b, t, f) ↦ elim (Option-cases (child x.body b)) [
          | inl k ↦ rw (art_del, e, p, f, k) refl
          | inr (c, k) ↦
              rw (art_del, e, p, f, k)
                (art_del-kept fuel v st (some c) t (rw (art_del, e, p, f, k) at h))
        ]
      ]
    ]
  ]

  -- The part of `kvspaceShmDel` behind `kv_sync` changes nothing when it does not return 0.
  del_local-kept :
      (v : Viewer) (st : Store A) (key : Bytes)
      → (del_local v st key).0 ≡ false
      → (del_local v st key).1 ≡ st
  unfolding del_local del_key
  del_local-kept v st key h = elim (Bool-cases (leb key_limit (length key))) [
    | inl long ↦ rw long refl
    | inr short ↦ elim (Bool-cases (is_deleted (del_key v st key).0)) [
      | inl d ↦ absurd (let q = rw (short, d) at h in cc q)
      | inr d ↦
          let kept =
            art_del-kept (length key + 2) v st st.root key
              (λ e. absurd (let q = rw e at d in cc q)) in
          rw (short, d) kept
    ]
  ]

  -- A `kvspaceShmDel` that does not return 0, since `kv_sync` failed or for want of the key or of an
  -- entry of the ring, leaves the store as `kv_sync` left it: only what the process has mapped may
  -- have changed, and no key, value, generation or entry of the ring.
  pub del-kept :
      (os : Os) (v : Viewer) (st : Store A) (key : Bytes)
      → (del os v st key).0 ≡ false
      → (del os v st key).1 ≡ record st { regions = (kv_sync os st.regions).1 }
  unfolding del sync
  del-kept os v st key h = elim (Bool-cases (kv_sync os st.regions).0) [
    | inl ok ↦ rw (del, ok) (del_local-kept v _ key (rw (del, ok) at h))
    | inr bad ↦ rw (del, bad) refl
  ]

  pub search-list_gen : (st : Store A) (key : Bytes) → search (list_gen_bump st) key ≡ search st key
  unfolding search
  search-list_gen st key = refl

  -- Behind `kv_sync`: where a search finds a key shorter than 1024 bytes and the ring has an entry,
  -- `kvspaceShmDel` returns 0. Then the key is not found any more, a search for any key finds what it found before,
  -- unless that was the node of the key, and the generation of the key set is raised.
  pub del_local-search :
      (v : Viewer) (st : Store A) (key : Bytes) {leaf idx : ℕ}
      → search st key ≡ some leaf
      → (reserve v st.ring).0 ≡ some idx
      → length key < key_limit
      → let (ok, st') = del_local v st key in
        (ok ≡ true)
        × (search st' key ≡ none)
        × ((k : Bytes) (l : ℕ) → (search st' k ≡ some l) ↔ ((search st k ≡ some l) × (l ≢ leaf)))
        × (st'.list_gen ≡ (st.list_gen + 1) % u64)
  unfolding del_local
  del_local-search v st key {leaf} h r short =
      let (d, rem) = del_key-Removed v st key h r in
      let st1 = (del_key v st key).1 in
      let iff = search-Cleared st st1 leaf rem.cleared rem.root in
      let fits : leb key_limit (length key) ≡ false = ground arith in
      rw (fits, d)
        (
          refl,
          elim (Option-cases (search (list_gen_bump st1) key)) [
            | inl n ↦ n
            | inr (l, f) ↦
                let (f', ne) = (iff key l).0 (sym (search-list_gen st1 key) ∙ f) in
                let q : some leaf ≡ some l = sym h ∙ f' in absurd (ne (cc q))
          ],
          λ k l. (
            λ f. (iff k l).0 (sym (search-list_gen st1 k) ∙ f),
            λ f. search-list_gen st1 k ∙ (iff k l).1 f,
          ),
          ap (λ g. (g + 1) % u64) rem.list_gen,
        )
