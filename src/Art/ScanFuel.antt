-- ===== src/Art/ScanFuel.antt =====
-- src/kvspace.c, `art_collect_keys`: the buffer bounds how deep it goes.
use kvspace_c.Prelude.{
  ℕ, zero, suc, ◌+◌, ◌<◌, ◌≤◌, ◌≡◌, refl, sym, inl, inr, Option, none, List, [], ◌∷◌, ◌++◌, leb,
  true, length, Bytes, Bool-cases, Option-cases, arith, length-append,
}
use kvspace_c.Art.Node.{Edge}
use kvspace_c.Art.Tree.{Heap}
use kvspace_c.Art.Scan.{in_order, each, own_key, collect}

-- The loop over the children is the same for visits that agree on the paths that fit.
each-agree :
    (f g : ℕ → Bytes → List Bytes → Option (List Bytes)) (bcap : ℕ) (buf : Bytes)
    → ((c b : ℕ) (scan : List Bytes) → f c (buf ++ b ∷ []) scan ≡ g c (buf ++ b ∷ []) scan)
    → (es : List Edge) (scan : List Bytes) → each f bcap buf es scan ≡ each g bcap buf es scan
unfolding each
each-agree f g bcap buf h [] scan = refl
each-agree f g bcap buf h (e ∷ es) scan = elim (Bool-cases (leb bcap (length buf + 1))) [
  | inl t ↦ rw (each, t) refl
  | inr t ↦ elim (Option-cases (g e.child (buf ++ e.key ∷ []) scan)) [
    | inl v ↦ rw (each, t, h e.child e.key scan, v) refl
    | inr (mid, v) ↦ rw (each, t, h e.child e.key scan, v) (each-agree f g bcap buf h es mid)
  ]
]

-- Without fuel left and with the buffer full, a scan fails, as it does with fuel.
collect-full :
    (n : ℕ) (h : Heap) (bcap nid : ℕ) (buf : Bytes) (scan : List Bytes)
    → bcap < length buf + 1
    → collect n h bcap nid buf scan ≡ none
unfolding collect
collect-full zero h bcap nid buf scan q = refl
collect-full (suc n) h bcap nid buf scan q = elim (Option-cases (h nid)) [
  | inl e ↦ rw (collect, e) refl
  | inr (x, e) ↦
      let full : leb bcap (length buf + length x.prefix) ≡ true = ground arith in
      rw (collect, e, full) refl
]

-- Two amounts of fuel that exceed the room in the buffer give the same scan, failures included.
pub collect-enough :
    (n m : ℕ) (h : Heap) (bcap nid : ℕ) (buf : Bytes) (scan : List Bytes)
    → bcap < length buf + n + 1
    → bcap < length buf + m + 1
    → collect n h bcap nid buf scan ≡ collect m h bcap nid buf scan
unfolding collect
collect-enough zero m h bcap nid buf scan p q =
    sym (collect-full m h bcap nid buf scan (omega arith))
collect-enough (suc n) zero h bcap nid buf scan p q =
    collect-full (suc n) h bcap nid buf scan (omega arith)
collect-enough (suc n) (suc m) h bcap nid buf scan p q = elim (Option-cases (h nid)) [
  | inl e ↦ rw (collect, e) refl
  | inr (x, e) ↦ elim (Bool-cases (leb bcap (length buf + length x.prefix))) [
    | inl g ↦ rw (collect, e, g) refl
    | inr g ↦ elim (Option-cases (own_key x (buf ++ x.prefix) scan)) [
      | inl o ↦ rw (collect, e, g, o) refl
      | inr (mid, o) ↦
          rw (collect, e, g, o)
            (each-agree (collect n h bcap) (collect m h bcap) bcap (buf ++ x.prefix)
              (λ c b s.
                let longer : length buf + 1 ≤ length ((buf ++ x.prefix) ++ b ∷ []) =
                  omega
                    (arith, length-append buf x.prefix, length-append (buf ++ x.prefix) (b ∷ [])) in
                collect-enough n m h bcap c ((buf ++ x.prefix) ++ b ∷ []) s (omega arith)
                  (omega arith))
              (in_order x.body) mid)
    ]
  ]
]
