-- ===== src/Art/Node/Removal.antt =====
-- src/kvspace.c, `art_rm` on an `n48`: the last child moves into the free place.
use kvspace_c.Prelude.{
  ℕ, suc, ◌≤◌, ◌<◌, ◌≡◌, ◌≢◌, refl, sym, ap, ◌∙◌, Option, some, none, List, arith, length, take,
  get_elem?, set, ◌==◌, inl, inr, Bool-cases, if◌then◌else◌, length-set, get_elem?-set_self,
  get_elem?-set_ne,
}
use kvspace_c.Art.Node.{put, find_index, n48, swap_last}
use kvspace_c.Art.Node.Wide.{
  Indexed, Hit, hit, miss, find_index-Hit, put_self, put_ne, get_elem?-take, length-take, get_some,
}
use kvspace_c.Art.Node.Dense.{through, put-cases}

-- An index with children is a map from bytes to children; here, that a byte was taken out of it.
pub record TakenOut (index : ℕ → ℕ) (cs : List ℕ) (b : ℕ) (index' : ℕ → ℕ) (cs' : List ℕ)
    : Type 0 where
  pub one_less : suc (length cs') ≡ length cs
  pub indexed : Indexed index' (length cs')
  pub same :
      (d : ℕ) → d < 256 → through index' cs' d ≡ (if b == d then none else through index cs d)

module _ (index : ℕ → ℕ) (cs : List ℕ) (b n : ℕ) (size : length cs ≡ suc n) (small : length cs ≤ 48)
    (ok : Indexed index (length cs)) (lt : b < 256) (has : index b ≢ 255) where
  -- A byte other than `b` has another number.
  other : (d : ℕ) → d < 256 → b ≢ d → index d ≢ index b
  other d ltd ne e = ne (ok.apart b d lt ltd has (sym e))

  -- The last child goes: its byte loses its number.
  pub last-TakenOut : index b ≡ n → TakenOut index cs b (put index b 255) (take n cs)
  last-TakenOut at_end = record {
    one_less = ap suc len ∙ sym size;
    indexed = rw len (record {
      in_range = λ d ltd. elim (put-cases index b 255 d) [
        | inl (e, q) ↦ inl q
        | inr (ne, q) ↦ elim (ok.in_range d ltd) [
          | inl u ↦ inl (q ∙ u)
          | inr s ↦ inr (omega (arith, q, s, size, other d ltd ne, at_end))
        ]
      ];
      apart = λ d e ltd lte some_d same. elim (put-cases index b 255 d) [
        | inl (p, q) ↦ absurd (some_d q)
        | inr (p, q) ↦ elim (put-cases index b 255 e) [
          | inl (r, s) ↦ absurd (some_d (same ∙ s))
          | inr (r, s) ↦ ok.apart d e ltd lte (λ u. some_d (q ∙ u)) (sym q ∙ same ∙ s)
        ]
      ];
      reached = λ i h.
          let (d, ltd, q) = ok.reached i (omega arith) in
          (d, ltd, put_ne index b d 255 (λ r. omega (arith, ap index r, at_end, q, h)) ∙ q);
    });
    same = λ d ltd. elim (put-cases index b 255 d) [
      | inl (e, q) ↦ rw (q, sym e) (ground arith)
      | inr (ne, q) ↦ rw q (elim (ok.in_range d ltd) [
        | inl u ↦ ground arith
        | inr s ↦
            let g = get_elem?-take n cs (index d) (omega (arith, other d ltd ne)) in
            ground (arith, g)
      ])
    ];
  }
    where
      len : length (take n cs) ≡ n
      len = length-take n cs (omega arith)

  -- The byte `j` of the last child takes over the number of `b`.
  module _ (j x : ℕ) (ltj : j < 256) (at_end : index j ≡ n) (last : get_elem? cs n ≡ some x)
      (inner : index b ≢ n) where
    abbrev moved_index : ℕ → ℕ
    moved_index = put (put index b 255) j (index b)

    abbrev moved_children : List ℕ
    moved_children = take n (set cs (index b) x)

    -- The three kinds of bytes.
    data Kind (d : ℕ) : Type 0 where
      gone : b ≡ d → moved_index d ≡ 255 → Kind d
      lifted : j ≡ d → moved_index d ≡ index b → Kind d
      kept : b ≢ d → j ≢ d → moved_index d ≡ index d → Kind d

    apart_j : b ≢ j
    apart_j e = inner (ap index e ∙ at_end)

    kind : (d : ℕ) → Kind d
    kind d = elim (put-cases (put index b 255) j (index b) d) [
      | inl (e, q) ↦ lifted e q
      | inr (ne, q) ↦ elim (put-cases index b 255 d) [
        | inl (f, r) ↦ gone f (q ∙ r)
        | inr (nf, r) ↦ kept nf ne (q ∙ r)
      ]
    ]

    number : index b < suc n
    number = elim (ok.in_range b lt) [ inl u ↦ absurd (has u) | inr s ↦ omega (arith, s, size) ]

    -- The byte with the last child is `j` alone.
    below : (d : ℕ) → d < 256 → j ≢ d → index d < length cs → index d < n
    below d ltd ne s = elim (Bool-cases (index d == n)) [
      | inl e ↦ absurd (
          ne (
            ok.apart j d ltj ltd (λ u. omega (arith, u, at_end, size, small))
              (at_end ∙ ground arith)))
      | inr e ↦ ground (arith, s, size)
    ]

    len : length moved_children ≡ n
    len = length-take n (set cs (index b) x) (omega (arith, length-set cs (index b) x, size))

    moved-Indexed : Indexed moved_index n
    moved-Indexed = record {
      in_range = λ d ltd. elim (kind d) [
        | gone e q ↦ inl q
        | lifted e q ↦ inr (omega (arith, q, number, inner))
        | kept nb nj q ↦ elim (ok.in_range d ltd) [
          | inl u ↦ inl (q ∙ u)
          | inr s ↦ inr (omega (arith, q, below d ltd nj s))
        ]
      ];
      apart = λ d e ltd lte some_d same. elim (kind d) [
        | gone p q ↦ absurd (some_d q)
        | lifted p q ↦ elim (kind e) [
          | gone r s ↦ absurd (some_d (same ∙ s))
          | lifted r s ↦ sym p ∙ r
          | kept nb nj s ↦ absurd (other e lte nb (sym s ∙ sym same ∙ q))
        ]
        | kept nb nj q ↦ elim (kind e) [
          | gone r s ↦ absurd (some_d (same ∙ s))
          | lifted r s ↦ absurd (other d ltd nb (sym q ∙ same ∙ s))
          | kept mb mj s ↦ ok.apart d e ltd lte (λ u. some_d (q ∙ u)) (sym q ∙ same ∙ s)
        ]
      ];
      reached = λ i h.
          let (d, ltd, q) = ok.reached i (omega arith) in
          elim (kind d) [
            | gone p r ↦ (j, ltj, put_self (put index b 255) j (index b) ∙ ap index p ∙ q)
            | lifted p r ↦ absurd (omega (arith, ap index p, at_end, q, h))
            | kept nb nj r ↦ (d, ltd, r ∙ q)
          ];
    }

    moved-same :
        (d : ℕ)
        → d < 256
        → through moved_index moved_children d ≡ (if b == d then none else through index cs d)
    moved-same d ltd = elim (kind d) [
      | gone p q ↦ rw (q, sym p) (ground arith)
      | lifted p q ↦
          let g = get_elem?-take n (set cs (index b) x) (index b) (omega (arith, number, inner)) in
          let f = get_elem?-set_self cs (index b) x (omega (arith, number, size)) in
          rw q (lifted-same d p g f)
      | kept nb nj q ↦ rw q (elim (ok.in_range d ltd) [
        | inl u ↦ ground arith
        | inr s ↦
            let g = get_elem?-take n (set cs (index b) x) (index d) (below d ltd nj s) in
            let f = get_elem?-set_ne cs x (λ e. other d ltd nb (sym e)) in ground (arith, g, f)
      ])
    ]
      where
        lifted-same :
            (d : ℕ)
            → j ≡ d
            → get_elem? moved_children (index b) ≡ get_elem? (set cs (index b) x) (index b)
            → get_elem? (set cs (index b) x) (index b) ≡ some x
            → (if index b == 255 then none else get_elem? moved_children (index b))
              ≡ (if b == d then none else through index cs d)
        lifted-same d p g f =
            rw (sym p, at_end, last, g, f) (ground (arith, has, apart_j, size, small))

    moved-TakenOut : TakenOut index cs b moved_index moved_children
    moved-TakenOut = record {
      one_less = ap suc len ∙ sym size;
      indexed = rw len moved-Indexed;
      same = moved-same;
    }

  -- `swap_last` finds that byte.
  pub swap_last-TakenOut :
      index b ≢ n
      → (index' : ℕ → ℕ) × (cs' : List ℕ) × (swap_last (put index b 255) cs (index b) n
          ≡ n48 index' cs')
        × TakenOut index cs b index' cs'
  unfolding swap_last
  swap_last-TakenOut inner =
      let (x, g) = get_some cs n (omega (arith, size)) in
      let (j, ltj, q) = ok.reached n (omega (arith, size)) in
      go x g (find_index (put index b 255) n 0 256) (find_index-Hit (put index b 255) n 0 256) j ltj
        q
    where
      go :
          (x : ℕ)
          → get_elem? cs n ≡ some x
          → (o : Option ℕ) → Hit (put index b 255) n 0 256 o
          → (j : ℕ) → j < 256
          → index j ≡ n
          → (index' : ℕ → ℕ) × (cs' : List ℕ) × (n48
                (elim o [ none ↦ put index b 255 | some j ↦ put (put index b 255) j (index b) ])
                (take n (elim (get_elem? cs n) [ none ↦ cs | some c ↦ set cs (index b) c ]))
              ≡ n48 index' cs')
            × TakenOut index cs b index' cs'
      go x g none (miss h) j ltj q =
          absurd (
            h j (omega arith) (omega arith)
              (put_ne index b j 255 (λ e. inner (ap index e ∙ q)) ∙ q))
      go x g (some k) (hit m ltk q) j ltj r = elim (put-cases index b 255 k) [
        | inl (e, s) ↦ absurd (omega (arith, q, s, size, small))
        | inr (ne, s) ↦ (
          put (put index b 255) k (index b),
          take n (set cs (index b) x),
          rw g refl,
          moved-TakenOut k x (omega arith) (sym s ∙ q) g inner,
        )
      ]
