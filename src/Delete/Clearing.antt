-- ===== src/Delete/Clearing.antt =====
-- src/kvspace.c, `art_del`: it comes to the node that `art_search` finds.
use kvspace_c.Prelude.{
  ℕ, zero, suc, ◌+◌, ◌≡◌, ◌≢◌, refl, sym, ap, ◌∙◌, true, Option, none, some, [], ◌∷◌, length, drop,
  ◌==◌, arith, Bytes, Bool-cases, Option-cases, inl, inr,
}
use kvspace_c.Allocator.{Allocator}
use kvspace_c.Art.Node.{child}
use kvspace_c.Art.Tree.{Node, Heap, pfx_shared, enters, walk_loop, find2}
use kvspace_c.Art.Tree.Lookup.{
  List-cases, walk-missing, walk-refused, walk-end, walk-down, walk-no_node, walk-no_fuel,
  value_at-some,
}
use kvspace_c.Ring.{Viewer}
use kvspace_c.Store.{Store, search}
use kvspace_c.Delete.{Deletion, del_here, art_del, del_key}

module _ {A : Allocator} (v : Viewer) (st : Store A) (fuel nid : ℕ) (rest : Bytes) (x : Node) where
  del-end :
      st.slab.nodes nid ≡ some x
      → enters x rest ≡ true
      → drop (length x.prefix) rest ≡ []
      → art_del (suc fuel) v st (some nid) rest ≡ del_here v st nid x
  unfolding art_del
  del-end g e f =
      let p : (pfx_shared x.prefix rest == length x.prefix) ≡ true = ground arith in
      rw (art_del, g, p, f) refl

  del-down :
      (b : ℕ) (t : Bytes) (c : ℕ)
      → st.slab.nodes nid ≡ some x
      → enters x rest ≡ true
      → drop (length x.prefix) rest ≡ b ∷ t
      → child x.body b ≡ some c
      → art_del (suc fuel) v st (some nid) rest ≡ art_del fuel v st (some c) t
  unfolding art_del
  del-down b t c g e f k =
      let p : (pfx_shared x.prefix rest == length x.prefix) ≡ true = ground arith in
      rw (art_del, g, p, f, k) refl

-- What the deletion does when a walk ends at a node with a value.
abbrev pub DeletesAt : {A : Allocator} → Viewer → Store A → ℕ → Deletion × Store A → Type 0
DeletesAt v st leaf r =
    (x : Node) × (st.slab.nodes leaf ≡ some x) × (x.has_value ≡ true) × (r ≡ del_here v st leaf x)

walk-none :
    (h : Heap) (fuel : ℕ) (rest : Bytes) (d : ℕ) (par : Option (ℕ × ℕ)) {leaf : ℕ}
    {par' : Option (ℕ × ℕ)}
    → walk_loop fuel h none rest d par ≢ some (some leaf, par')
walk-none h zero rest d par e = let q = walk-no_fuel h none rest d par in absurd (cc (q, e))
walk-none h (suc fuel) rest d par e = let q = walk-no_node h fuel rest d par in absurd (cc (q, e))

module _ {A : Allocator} (v : Viewer) (st : Store A) where
  walk-DeletesAt :
      (fuel : ℕ) (o : Option ℕ) (rest : Bytes) (d : ℕ) (par : Option (ℕ × ℕ)) {leaf : ℕ}
      {par' : Option (ℕ × ℕ)}
      → walk_loop fuel st.slab.nodes o rest d par ≡ some (some leaf, par')
      → DeletesAt v st leaf (art_del fuel v st o rest)
  walk-DeletesAt zero o rest d par e =
      let q = walk-no_fuel st.slab.nodes o rest d par in absurd (cc (q, e))
  walk-DeletesAt (suc fuel) none rest d par e =
      let q = walk-no_node st.slab.nodes fuel rest d par in absurd (cc (q, e))
  walk-DeletesAt (suc fuel) (some nid) rest d par {leaf} {par'} e =
      let h = st.slab.nodes in
      elim (Option-cases (h nid)) [
        | inl g ↦ let q = walk-missing h fuel nid rest d par g in absurd (cc (q, e))
        | inr (x, g) ↦ elim (Bool-cases (enters x rest)) [
          | inr no' ↦ let q = walk-refused h fuel nid rest d par x g no' in absurd (cc (q, e))
          | inl yes' ↦ elim (List-cases (drop (length x.prefix) rest)) [
            | inl f ↦
                let q = walk-end h fuel nid rest d par x g yes' f in
                let (same, val) = value_at-some nid leaf x (cc (q, e)) in
                (x, rw (sym same) g, val, rw (sym same) (del-end v st fuel nid rest x g yes' f))
            | inr (b, t, f) ↦
                let q = walk-down h fuel nid rest d par x g b t yes' f in
                elim (Option-cases (child x.body b)) [
                  | inl k ↦ absurd (walk-none h fuel t _ _ (rw k at (sym q ∙ e)))
                  | inr (c, k) ↦
                      let down = walk-DeletesAt fuel (some c) t _ _ (rw k at (sym q ∙ e)) in
                      rw (del-down v st fuel nid rest x b t c g yes' f k) down
                ]
          ]
        ]
      ]

  -- Where a search finds a node, `art_del` comes to it.
  pub del_key-DeletesAt :
      (key : Bytes) {leaf : ℕ} → search st key ≡ some leaf → DeletesAt v st leaf (del_key v st key)
  unfolding search del_key find2
  del_key-DeletesAt key {leaf} h = elim (Option-cases (find2 st.slab.nodes st.root key)) [
    | inl e ↦ absurd (let q = rw (search, e) at h in cc q)
    | inr ((o, p), e) ↦
        let q = rw (search, e) at h in
        walk-DeletesAt (length key + 2) st.root key 0 none {par' = p} (e ∙ ap (λ r. some (r, p)) q)
  ]
