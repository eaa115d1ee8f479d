-- ===== src/Art/Node/Growth.antt =====
-- src/kvspace.c, `art_grow` from an `n16` to an `n48`, and from there to an `n256`.
use kvspace_c.Prelude.{
  ℕ, suc, ◌+◌, ◌-◌, ◌≤◌, ◌<◌, ◌≡◌, ◌≢◌, refl, sym, ap, ◌∙◌, Option, some, none, List, [], ◌∷◌,
  arith, All, length, get_elem?, map, lt-length, ◌==◌, ltb, ◌⊎◌, inl, inr, Bool-cases,
  if◌then◌else◌, get_elem?-map-some,
}
use kvspace_c.Art.Node.{Edge, assoc, put, find_index, index_edges, spread}
use kvspace_c.Art.Node.Edges.{Distinct, none-assoc, assoc-get, All-get}
use kvspace_c.Art.Node.Wide.{
  Indexed, Hit, hit, miss, find_index-Hit, length-map, index_edges_hit, index_edges_miss, get_some,
}
use kvspace_c.Art.Node.Dense.{through}

-- An edge that is found stands somewhere in the list.
pub assoc-place :
    (es : List Edge) (b c : ℕ)
    → assoc es b ≡ some c
    → (i : ℕ) × (e : Edge) × (get_elem? es i ≡ some e) × (e.key ≡ b) × (e.child ≡ c)
unfolding assoc
assoc-place [] b c h = cc
assoc-place (x ∷ es) b c h = elim (Bool-cases (x.key == b)) [
  | inl e ↦ (0, x, refl, ground arith, ground (arith, e))
  | inr e ↦ let (i, y, g, k, r) = assoc-place es b c (ground (arith, e)) in (suc i, y, g, k, r)
]

module _ (es : List Edge) (distinct : Distinct es) (small : length es ≤ 48)
    (bytes : All (λ e. e.key < 256) es) where
  abbrev numbers : ℕ → ℕ
  numbers = index_edges 0 es (λ b. 255)

  abbrev children : List ℕ
  children = map (λ (e : Edge). e.child) es

  size : length children ≡ length es
  size = length-map (λ (e : Edge). e.child) es

  -- A byte has no edge, or the number of its edge.
  data Numbered (b : ℕ) : Type 0 where
    unused : assoc es b ≡ none → numbers b ≡ 255 → Numbered b
    used : (i : ℕ) (e : Edge) → get_elem? es i ≡ some e → e.key ≡ b → numbers b ≡ i → Numbered b

  numbered : (b : ℕ) → Numbered b
  numbered b = go (assoc es b) refl
    where
      go : (o : Option ℕ) → assoc es b ≡ o → Numbered b
      go none q = unused q (index_edges_miss 0 es (λ _. 255) b (none-assoc es b q))
      go (some c) q =
          let (i, e, g, k, r) = assoc-place es b c q in
          used i e g k
            (sym (ap numbers k) ∙ index_edges_hit 0 es (λ _. 255) i distinct g ∙ omega arith)

  pub numbers-Indexed : Indexed numbers (length es)
  numbers-Indexed = record {
    in_range = λ b lt. elim (numbered b) [
      | unused q r ↦ inl r
      | used i e g k r ↦ inr (omega (arith, r, lt-length es i g))
    ];
    apart = λ b c ltb ltc some_b same. elim (numbered b) [
      | unused q r ↦ absurd (some_b r)
      | used i e g k r ↦ elim (numbered c) [
        | unused q s ↦ absurd (some_b (same ∙ s))
        | used j f h l s ↦ let ij : i ≡ j = sym r ∙ same ∙ s in same_edge i j ij e f g h k l
      ]
    ];
    reached = λ i h.
        let (e, g) = get_some es i h in
        (e.key, All-get _ es i bytes g, index_edges_hit 0 es (λ _. 255) i distinct g ∙ omega arith);
  }
    where
      same_edge :
          (i j : ℕ)
          → i ≡ j
          → (e f : Edge) → get_elem? es i ≡ some e
          → get_elem? es j ≡ some f
          → {b c : ℕ} → e.key ≡ b
          → f.key ≡ c
          → b ≡ c
      same_edge i j q e f g h k l =
          let ef : some e ≡ some f = sym g ∙ ap (get_elem? es) q ∙ h in ground (arith, ef, k, l)

  pub through-numbers : (b : ℕ) → through numbers children b ≡ assoc es b
  through-numbers b = elim (numbered b) [
    | unused q r ↦ ground (arith, q, r)
    | used i e g k r ↦
        let h = get_elem?-map-some (λ (x : Edge). x.child) es i g in
        let a = assoc-get es i distinct g in
        rw r (hits i (lt-length es i g) h ∙ sym a ∙ ap (assoc es) k)
  ]
    where
      hits :
          (i : ℕ) {v : Option ℕ}
          → i < length es
          → get_elem? children i ≡ v
          → (if i == 255 then none else get_elem? children i) ≡ v
      hits i lt h = ground (arith, small)

-- The children that `spread` has still to place, under the bytes that have their numbers.
abbrev placed : (ℕ → ℕ) → ℕ → List ℕ → (ℕ → Option ℕ) → ℕ → Option ℕ
placed index i cs m b =
    if ltb (index b) i
    then m b
    else if ltb (index b) (i + length cs)
    then get_elem? cs (index b - i)
    else m b

module _ (index : ℕ → ℕ) (n : ℕ) (small : n ≤ 48) (ok : Indexed index n) where
  spread_lem :
      (cs : List ℕ) (i : ℕ) (m : ℕ → Option ℕ) (b : ℕ)
      → i + length cs ≡ n
      → b < 256
      → spread index i cs m b ≡ placed index i cs m b
  unfolding spread
  spread_lem [] i m b size lt = ground arith
  spread_lem (c ∷ cs) i m b size lt =
      let (j, ltj, q) = ok.reached i (omega arith) in
      spread_lem cs (i + 1) _ b (omega arith) lt
      ∙ go (find_index index i 0 256) (find_index-Hit index i 0 256) j ltj q
    where
      go :
          (o : Option ℕ)
          → Hit index i 0 256 o
          → (j : ℕ) → j < 256
          → index j ≡ i
          → placed index (i + 1) cs (put m (elim o [ none ↦ 0 | some k ↦ k ]) (some c)) b
            ≡ placed index i (c ∷ cs) m b
      go none (miss h) j ltj q = absurd (h j (omega arith) (omega arith) q)
      go (some k) (hit k' ltk q) j ltj r = elim (put-cases_at k) [
        | inl (e, s) ↦ let at_b : index b ≡ i = sym (ap index e) ∙ q in front at_b s
        | inr (ne, s) ↦
            let away : index b ≢ i = λ u.
              ne (
                ok.apart k b (omega arith) lt (λ w. omega (arith, w, q, size, small))
                  (q ∙ sym u)) in
            rw s (behind away)
      ]
        where
          put-cases_at :
              (k : ℕ) → (k ≡ b × put m k (some c) b ≡ some c) ⊎ (k ≢ b × put m k (some c) b ≡ m b)
          put-cases_at k = elim (Bool-cases (b == k)) [
            | inl e ↦ inl (ground arith, ground arith)
            | inr e ↦ inr (ground arith, ground arith)
          ]

          front :
              index b ≡ i
              → put m k (some c) b ≡ some c
              → placed index (i + 1) cs (put m k (some c)) b ≡ placed index i (c ∷ cs) m b
          front e s = let zero_at : index b - i ≡ 0 = omega arith in rw (s, zero_at) (ground arith)

          behind :
              index b ≢ i
              → (if ltb (index b) (i + 1)
                  then m b
                  else if ltb (index b) (i + 1 + length cs)
                  then get_elem? cs (index b - (i + 1))
                  else m b)
                ≡ placed index i (c ∷ cs) m b
          behind ne = elim (Bool-cases (ltb (index b) i)) [
            | inl low ↦ ground arith
            | inr high ↦
                let next : index b - i ≡ suc (index b - (i + 1)) = ground arith in
                rw next (ground (arith, ne, high))
          ]

  pub spread-through :
      (cs : List ℕ) (b : ℕ)
      → length cs ≡ n
      → b < 256
      → spread index 0 cs (λ _. none) b ≡ through index cs b
  spread-through cs b size lt =
      spread_lem cs 0 _ b (omega arith) lt
      ∙ elim (ok.in_range b lt) [ inl u ↦ ground (arith, small) | inr s ↦ ground (arith, small) ]
