-- ===== src/Art/Node/Search.antt =====
-- src/kvspace.c, the binary search of `art_child` and `art_rm` on a sorted node.
use kvspace_c.Prelude.{
  ℕ, zero, suc, ◌+◌, ◌-◌, ◌/◌, ◌≤◌, ◌<◌, ◌≡◌, ◌≢◌, refl, sym, ap, ◌∙◌, Option, some, none, List, [],
  ◌∷◌, arith, All, length, get_elem?, lt-length, ◌==◌, ltb, inl, inr, Bool-cases, false,
}
use kvspace_c.Art.Node.{Edge, assoc, bsearch, position, child_at}
use kvspace_c.Art.Node.Edges.{IsSorted, All-get, assoc-get, assoc-none, IsSorted-Distinct}

get-lt :
    (es : List Edge) (i j : ℕ) {x y : Edge}
    → IsSorted es
    → i < j
    → get_elem? es i ≡ some x
    → get_elem? es j ≡ some y
    → x.key < y.key
get-lt [] i j s lt g h = cc
get-lt (e ∷ es) i zero s lt g h = absurd (omega arith)
get-lt (e ∷ es) zero (suc j) {x} {y} (s, ss) lt g h =
    let r = All-get (λ z. e.key < z.key) es j s h in let same : e ≡ x = ground arith in rw same at r
get-lt (e ∷ es) (suc i) (suc j) (s, ss) lt g h = get-lt es i j ss (omega arith) g h

pub get_of_lt : (es : List Edge) (i : ℕ) → i < length es → (e : Edge) × (get_elem? es i ≡ some e)
get_of_lt [] i h = absurd (omega arith)
get_of_lt (e ∷ es) zero h = (e, refl)
get_of_lt (e ∷ es) (suc i) h = get_of_lt es i (omega arith)

get_elem?-All :
    (P : Edge → Type 0) (es : List Edge)
    → ((i : ℕ) (e : Edge) → get_elem? es i ≡ some e → P e)
    → All P es
get_elem?-All P [] h = tt
get_elem?-All P (e ∷ es) h = (h 0 e refl, get_elem?-All P es (λ i x g. h (suc i) x g))

-- What a search returns: the index of the byte, or `none` where no edge has it.
pub data Found (es : List Edge) (b : ℕ) : Option ℕ → Type 0 where
  at : (i : ℕ) (e : Edge) → get_elem? es i ≡ some e → e.key ≡ b → Found es b (some i)
  absent : All (λ x. x.key ≢ b) es → Found es b none

module _ (es : List Edge) (b : ℕ) (sorted : IsSorted es) where
  abbrev Below : ℕ → Type 0
  Below lo = (i : ℕ) (e : Edge) → i < lo → get_elem? es i ≡ some e → e.key < b

  abbrev Above : ℕ → Type 0
  Above hi = (i : ℕ) (e : Edge) → hi ≤ i → get_elem? es i ≡ some e → b < e.key

  bsearch-Found :
      (fuel lo hi : ℕ)
      → hi - lo < fuel
      → hi ≤ length es
      → Below lo
      → Above hi
      → Found es b (bsearch fuel es b lo hi)
  unfolding bsearch
  bsearch-Found zero lo hi f le below above = absurd (omega arith)
  bsearch-Found (suc fuel) lo hi f le below above = elim (Bool-cases (ltb lo hi)) [
    | inr empty ↦ rw empty (absent (get_elem?-All _ es (λ i e g. outside empty i e g)))
    | inl some_left ↦
        let m = (lo + hi - 1) / 2 in
        let lt : lo < hi = ground arith in
        let (e, g) = get_of_lt es m (omega arith) in
        elim (Bool-cases (e.key == b)) [
          | inl hit ↦ rw (some_left, g, hit) (at m e g (ground arith))
          | inr miss ↦ elim (Bool-cases (ltb e.key b)) [
            | inl low ↦
                rw (some_left, g, miss, low)
                  (bsearch-Found fuel (m + 1) hi (omega arith) le (below_mid m e g (ground arith))
                    above)
            | inr high ↦
                rw (some_left, g, miss, high)
                  (bsearch-Found fuel lo m (omega arith) (omega arith) below
                    (above_mid m e g (ground arith)))
          ]
        ]
  ]
    where
      outside : ltb lo hi ≡ false → (i : ℕ) (e : Edge) → get_elem? es i ≡ some e → e.key ≢ b
      outside empty i e g = elim (Bool-cases (ltb i lo)) [
        | inl low ↦ omega (arith, below i e (ground arith) g)
        | inr high ↦ omega (arith, above i e (ground arith) g)
      ]

      below_mid : (m : ℕ) (e : Edge) → get_elem? es m ≡ some e → e.key < b → Below (m + 1)
      below_mid m e g lt i x h gx = elim (Bool-cases (ltb i m)) [
        | inl low ↦ omega (arith, get-lt es i m sorted (ground arith) gx g)
        | inr high ↦ let same : i ≡ m = ground arith in let ex : e ≡ x = ground arith in rw ex at lt
      ]

      above_mid : (m : ℕ) (e : Edge) → get_elem? es m ≡ some e → b < e.key → Above m
      above_mid m e g lt i x h gx = elim (Bool-cases (ltb m i)) [
        | inl high ↦ omega (arith, get-lt es m i sorted (ground arith) g gx)
        | inr low ↦ let same : i ≡ m = ground arith in let ex : e ≡ x = ground arith in rw ex at lt
      ]

  -- The fuel of `position` is enough, and on a sorted node it finds the byte exactly where it is.
  pub position-Found : Found es b (position es b)
  unfolding position
  position-Found =
      bsearch-Found (length es + 1) 0 (length es) (omega arith) (omega arith)
        (λ i e lt g. absurd (omega arith)) (λ i e le g. absurd (omega (arith, lt-length es i g)))

-- On a sorted node the search agrees with looking at the edges one after the other.
pub child_at-position :
    (es : List Edge) (b : ℕ) → IsSorted es → child_at es (position es b) ≡ assoc es b
unfolding child_at
child_at-position es b s = go (position es b) (position-Found es b s)
  where
    go : (o : Option ℕ) → Found es b o → child_at es o ≡ assoc es b
    go none (absent h) = sym (assoc-none es b h)
    go (some i) (at j e g k) =
        let r = assoc-get es j (IsSorted-Distinct es s) g in
        rw (child_at, g) (sym r ∙ ap (assoc es) k)
