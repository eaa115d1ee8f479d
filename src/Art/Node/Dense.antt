-- ===== src/Art/Node/Dense.antt =====
-- src/kvspace.c, what `art_add`, `art_rm` and `art_grow` do to an `n48`.
use kvspace_c.Prelude.{
  ℕ, suc, ◌<◌, ◌≡◌, ◌≢◌, sym, ap, ◌∙◌, Option, some, none, List, [], ◌∷◌, ◌++◌, arith, length,
  get_elem?, ◌==◌, ◌⊎◌, inl, inr, Bool-cases, if◌then◌else◌,
}
use kvspace_c.Art.Node.{put}
use kvspace_c.Art.Node.Wide.{Indexed, put_self, put_ne, get_some, get_elem?-snoc, get_elem?-append}

-- The child of a byte through the index.
abbrev pub through : (ℕ → ℕ) → List ℕ → ℕ → Option ℕ
through index cs b = if index b == 255 then none else get_elem? cs (index b)

module _ (index : ℕ → ℕ) (b : ℕ) (v : ℕ) where
  -- The bytes that `put` leaves alone, and the one it does not.
  pub put-cases : (d : ℕ) → (b ≡ d × put index b v d ≡ v) ⊎ (b ≢ d × put index b v d ≡ index d)
  put-cases d = elim (Bool-cases (d == b)) [
    | inl e ↦ inl (ground arith, ground arith)
    | inr e ↦ inr (ground arith, ground arith)
  ]

pub through-none :
    (index : ℕ → ℕ) (cs : List ℕ) (b : ℕ)
    → Indexed index (length cs)
    → b < 256
    → through index cs b ≡ none
    → index b ≡ 255
through-none index cs b ok lt h = elim (ok.in_range b lt) [
  | inl e ↦ e
  | inr s ↦ let (c, g) = get_some cs (index b) s in ground (arith, g)
]

module _ (index : ℕ → ℕ) (cs : List ℕ) (b c : ℕ) (ok : Indexed index (length cs)) (lt : b < 256)
    (room : length cs < 48) (new : index b ≡ 255) where
  pub through-snoc :
      (d : ℕ)
      → d < 256
      → through (put index b (length cs)) (cs ++ c ∷ []) d
        ≡ (if b == d then some c else through index cs d)
  through-snoc d ltd = elim (put-cases index b (length cs) d) [
    | inl (e, q) ↦ rw (q, sym e) (let g = get_elem?-snoc cs c in ground (arith, g))
    | inr (ne, q) ↦ rw q (elim (ok.in_range d ltd) [
      | inl u ↦ ground arith
      | inr s ↦ let g = get_elem?-append cs (c ∷ []) (index d) s in ground (arith, g)
    ])
  ]

  pub Indexed-snoc : Indexed (put index b (length cs)) (suc (length cs))
  Indexed-snoc = record {
    in_range = λ d ltd. elim (put-cases index b (length cs) d) [
      | inl (e, q) ↦ inr (omega (arith, q))
      | inr (ne, q) ↦ elim (ok.in_range d ltd) [
        | inl u ↦ inl (q ∙ u)
        | inr s ↦ inr (omega (arith, q, s))
      ]
    ];
    apart = λ d e ltd lte some_d same. elim (put-cases index b (length cs) d) [
      | inl (p, q) ↦ elim (put-cases index b (length cs) e) [
        | inl (r, s) ↦ sym p ∙ r
        | inr (r, s) ↦ absurd (elim (ok.in_range e lte) [
          | inl u ↦ omega (arith, q, s, same, u)
          | inr u ↦ omega (arith, q, s, same, u)
        ])
      ]
      | inr (p, q) ↦ elim (put-cases index b (length cs) e) [
        | inl (r, s) ↦ absurd (elim (ok.in_range d ltd) [
          | inl u ↦ some_d (q ∙ u)
          | inr u ↦ omega (arith, q, s, same, u)
        ])
        | inr (r, s) ↦ ok.apart d e ltd lte (λ u. some_d (q ∙ u)) (sym q ∙ same ∙ s)
      ]
    ];
    reached = λ i h. elim (Bool-cases (i == length cs)) [
      | inl e ↦ (b, lt, put_self index b (length cs) ∙ ground arith)
      | inr e ↦
          let (d, ltd, q) = ok.reached i (ground arith) in
          (
            d,
            ltd,
            put_ne index b d (length cs) (λ r. omega (arith, ap index r, new, q, h, room)) ∙ q,
          )
    ];
  }
