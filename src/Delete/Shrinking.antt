-- ===== src/Delete/Shrinking.antt =====
-- src/kvspace.c, `shm_del_key`: what it can make of the searches, whatever it answers.
use kvspace_c.Prelude.{
  ℕ, zero, suc, ◌+◌, ◌≡◌, ◌≢◌, refl, sym, ap, ◌∙◌, true, Option, none, some, length, drop, ◌==◌,
  Bytes, Bool-cases, Option-cases, inl, inr, ◌⊎◌,
}
use kvspace_c.Allocator.{Allocator}
use kvspace_c.Art.Node.{child}
use kvspace_c.Art.Tree.{Node, pfx_shared}
use kvspace_c.Art.Tree.Lookup.{List-cases}
use kvspace_c.Ring.{Ring, Viewer, reserve}
use kvspace_c.Store.{Store, search}
use kvspace_c.Store.SearchLaws.{search-Cleared}
use kvspace_c.Delete.{Deletion, hard, missing, deleted, del_value, del_here, art_del, del_key}
use kvspace_c.Delete.Clearing.{del_key-DeletesAt}
use kvspace_c.Delete.KeyLaws.{Removed, del_here-Removed, del_key-Removed, art_del-kept}

Deletion-cases : (d : Deletion) → (d ≡ deleted) ⊎ (d ≢ deleted)
Deletion-cases hard = inr (λ e. cc e)
Deletion-cases missing = inr (λ e. cc e)
Deletion-cases deleted = inl refl

module _ {A : Allocator} where
  -- Whatever is found in `st'` was found in `st`.
  abbrev pub Shrinks : Store A → Store A → Type 0
  Shrinks st st' = (k : Bytes) (l : ℕ) → search st' k ≡ some l → search st k ≡ some l

  -- A deletion ends at some node, or at none.
  art_del-ends :
      (fuel : ℕ) (v : Viewer) (st : Store A) (o : Option ℕ) (rest : Bytes)
      → (art_del fuel v st o rest).0 ≡ deleted
      → (leaf : ℕ) × (x : Node) × (st.slab.nodes leaf ≡ some x)
        × (art_del fuel v st o rest ≡ del_here v st leaf x)
  unfolding art_del
  art_del-ends zero v st o rest h = absurd (cc h)
  art_del-ends (suc fuel) v st none rest h = absurd (cc h)
  art_del-ends (suc fuel) v st (some nid) rest h = elim (Option-cases (st.slab.nodes nid)) [
    | inl e ↦ absurd (let q = rw (art_del, e) at h in cc q)
    | inr (x, e) ↦ elim (Bool-cases (pfx_shared x.prefix rest == length x.prefix)) [
      | inr p ↦ absurd (let q = rw (art_del, e, p) at h in cc q)
      | inl p ↦ elim (List-cases (drop (length x.prefix) rest)) [
        | inl f ↦ (nid, x, e, rw (art_del, e, p, f) refl)
        | inr (b, t, f) ↦ elim (Option-cases (child x.body b)) [
          | inl k ↦ absurd (let q = rw (art_del, e, p, f, k) at h in cc q)
          | inr (c, k) ↦
              let (leaf, y, g, q) =
                art_del-ends fuel v st (some c) t (rw (art_del, e, p, f, k) at h) in
              (leaf, y, g, rw (art_del, e, p, f, k) q)
        ]
      ]
    ]
  ]

  del_value-idx :
      (st : Store A) (leaf off : ℕ) (o : Option ℕ × Ring)
      → (del_value st leaf off o).0 ≡ deleted
      → (idx : ℕ) × (o.0 ≡ some idx)
  unfolding del_value
  del_value-idx st leaf off (none, r) h = absurd (cc h)
  del_value-idx st leaf off (some idx, r) h = (idx, refl)

  del_here-idx :
      (v : Viewer) (st : Store A) (leaf : ℕ) (x : Node)
      → (del_here v st leaf x).0 ≡ deleted
      → (x.has_value ≡ true) × ((idx : ℕ) × ((reserve v st.ring).0 ≡ some idx))
  unfolding del_here
  del_here-idx v st leaf x h = elim (Bool-cases x.has_value) [
    | inr e ↦ absurd (let q = rw (del_here, e) at h in cc q)
    | inl e ↦ (e, del_value-idx st leaf x.off (reserve v st.ring) (rw (del_here, e) at h))
  ]

  del_value-hard :
      (st : Store A) (leaf off : ℕ) (o : Option ℕ × Ring)
      → o.0 ≡ none
      → (del_value st leaf off o).0 ≡ hard
  unfolding del_value
  del_value-hard st leaf off (none, r) h = refl
  del_value-hard st leaf off (some idx, r) h = absurd (cc h)

  del_here-hard :
      (v : Viewer) (st : Store A) (leaf : ℕ) (x : Node)
      → x.has_value ≡ true
      → (reserve v st.ring).0 ≡ none
      → (del_here v st leaf x).0 ≡ hard
  unfolding del_here
  del_here-hard v st leaf x val r =
      rw (del_here, val) (del_value-hard st leaf x.off (reserve v st.ring) r)

  pub del_key-Shrinks : (v : Viewer) (st : Store A) (key : Bytes) → Shrinks st (del_key v st key).1
  unfolding del_key
  del_key-Shrinks v st key = elim (Deletion-cases (del_key v st key).0) [
    | inr n ↦ let kept = art_del-kept (length key + 2) v st st.root key n in λ k l f. rw kept at f
    | inl d ↦
        let (leaf, x, g, e) = art_del-ends (length key + 2) v st st.root key d in
        let (val, (idx, r)) = del_here-idx v st leaf x (ap (λ z. z.0) (sym e) ∙ d) in
        let (_, rem) = del_here-Removed v st leaf idx x g val r in
        let rem' : Removed v st leaf (del_key v st key).1 = rw e rem in
        λ k l f. ((search-Cleared st (del_key v st key).1 leaf rem'.cleared rem'.root k l).0 f).0
  ]

  -- Without a hard error the key that was to be deleted is not found any more.
  pub del_key-gone :
      (v : Viewer) (st : Store A) (key : Bytes)
      → (del_key v st key).0 ≢ hard
      → search (del_key v st key).1 key ≡ none
  del_key-gone v st key n = elim (Option-cases (search st key)) [
    | inl e ↦ elim (Option-cases (search (del_key v st key).1 key)) [
      | inl f ↦ f
      | inr (l, f) ↦ absurd (let q = del_key-Shrinks v st key key l f in cc (q, e))
    ]
    | inr (leaf, e) ↦ elim (Option-cases (reserve v st.ring).0) [
      | inl r ↦
          let (x, g, val, at) = del_key-DeletesAt v st key e in
          absurd (n (ap (λ z. z.0) at ∙ del_here-hard v st leaf x val r))
      | inr (idx, r) ↦
          let (_, rem) = del_key-Removed v st key e r in
          elim (Option-cases (search (del_key v st key).1 key)) [
            | inl f ↦ f
            | inr (l, f) ↦
                let (f', ne) =
                  (search-Cleared st (del_key v st key).1 leaf rem.cleared rem.root key l).0 f in
                let q : some leaf ≡ some l = sym e ∙ f' in absurd (ne (cc q))
          ]
    ]
  ]
