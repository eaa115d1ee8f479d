-- ===== src/Keys/Subtree.antt =====
-- src/kvspace.c, `subtree_key`: which keys a subtree holds.
use kvspace_c.Prelude.{
  ◌⊎◌, ◌↔◌, inl, inr, Bool-cases, ==_iff, ◌==◌, ℕ, ◌≡◌, ◌≢◌, refl, sym, ap, ◌∙◌, true, false, [],
  ◌∷◌, ◌++◌, arith, length, drop, drop-append, Bytes, append_assoc, starts_with, starts_with-append,
  starts_with_split,
}
use kvspace_c.Keys.{slash, dot, two_dots, boundary, subtree_key}

starts_with-append_right : (p s t : Bytes) → starts_with p s ≡ true → starts_with p (s ++ t) ≡ true
unfolding starts_with
starts_with-append_right [] s t h = refl
starts_with-append_right (x ∷ p) [] t h = cc
starts_with-append_right (x ∷ p) (k ∷ s) t h = ground (arith, starts_with-append_right p s t)

boundary-append : (r t : Bytes) → boundary r ≡ true → boundary t ≡ true → boundary (r ++ t) ≡ true
unfolding boundary
boundary-append [] t h k = k
boundary-append (c ∷ r) t h k =
    ground
      (arith, starts_with-append_right dot (c ∷ r) t, starts_with-append_right two_dots (c ∷ r) t)

-- A key of the subtree of `b` is `b` with a rest that is empty or begins with a separator.
pub subtree_key_split :
    (b key : Bytes)
    → b ≢ []
    → subtree_key b key ≡ true
    → (r : Bytes) × (key ≡ b ++ r) × (boundary r ≡ true)
unfolding subtree_key
subtree_key_split [] key ne h = absurd (ne refl)
subtree_key_split (c ∷ b) key ne h =
    let e : starts_with (c ∷ b) key ≡ true = ground arith in
    (drop (length (c ∷ b)) key, starts_with_split (c ∷ b) key e, ground arith)

pub subtree_key-append : (b r : Bytes) → b ≢ [] → subtree_key b (b ++ r) ≡ boundary r
unfolding subtree_key
subtree_key-append [] r ne = absurd (ne refl)
subtree_key-append (c ∷ b) r ne =
    ground (arith, starts_with-append (c ∷ b) r, ap boundary (drop-append (c ∷ b) r))

-- Subtrees nest: for a base `b` that is not empty, what belongs to the subtree of a key of the
-- subtree of `b` belongs to that of `b`.
pub subtree_key_trans :
    (b k key : Bytes)
    → b ≢ []
    → subtree_key b k ≡ true
    → subtree_key k key ≡ true
    → subtree_key b key ≡ true
subtree_key_trans b k key ne h g =
    let (r, ek, br) = subtree_key_split b k ne h in
    let k_ne : k ≢ [] = λ e. ne (nil b r (sym ek ∙ e)) in
    let (t, ekey, bt) = subtree_key_split k key k_ne g in
    let whole : key ≡ b ++ (r ++ t) = ekey ∙ ap (λ x. x ++ t) ek ∙ append_assoc b r t in
    rw whole (subtree_key-append b (r ++ t) ne ∙ boundary-append r t br bt)
  where
    nil : (x y : Bytes) → x ++ y ≡ [] → x ≡ []
    nil [] y e = refl
    nil (c ∷ x) y e = cc

-- A key that goes on behind a base `b` that is not empty with a byte other than `/`, 0xC2 and
-- 0xE2 is outside the subtree of `b`.
pub subtree_key-sibling :
    (b : Bytes) (c : ℕ) (r : Bytes)
    → b ≢ []
    → c ≢ b'/'
    → c ≢ 0xC2
    → c ≢ 0xE2
    → subtree_key b (b ++ c ∷ r) ≡ false
subtree_key-sibling b c r ne h1 h2 h3 =
    subtree_key-append b (c ∷ r) ne ∙ (unfold boundary starts_with in ground arith)

-- A rest at which a component ends: nothing, or what begins with `/`, U+00B7 or U+2025.
abbrev pub AtBoundary : Bytes → Type 0
AtBoundary r =
    (r ≡ [])
    ⊎ (((t : Bytes) × (r ≡ slash ++ t))
        ⊎ (((t : Bytes) × (r ≡ dot ++ t)) ⊎ ((t : Bytes) × (r ≡ two_dots ++ t))))

-- A key below a base: for the empty base an absolute path, otherwise the base itself or the base and
-- a rest that begins with a separator.
abbrev pub Below : Bytes → Bytes → Type 0
Below [] key = (t : Bytes) × (key ≡ slash ++ t)
Below (c ∷ b) key = (r : Bytes) × (key ≡ (c ∷ b) ++ r) × AtBoundary r

AtBoundary-boundary : (r : Bytes) → AtBoundary r → boundary r ≡ true
unfolding boundary starts_with
AtBoundary-boundary r (inl e) = rw e refl
AtBoundary-boundary r (inr (inl (t, e))) = rw e refl
AtBoundary-boundary r (inr (inr (inl (t, e)))) = rw e refl
AtBoundary-boundary r (inr (inr (inr (t, e)))) = rw e refl

boundary-AtBoundary : (r : Bytes) → boundary r ≡ true → AtBoundary r
unfolding boundary
boundary-AtBoundary [] h = inl refl
boundary-AtBoundary (c ∷ s) h = elim (Bool-cases (c == b'/')) [
  | inl e ↦ inr (inl (s, ap (λ x. x ∷ s) ((==_iff c b'/').0 e)))
  | inr n ↦ elim (Bool-cases (starts_with dot (c ∷ s))) [
    | inl e ↦ inr (inr (inl (drop 2 (c ∷ s), starts_with_split dot (c ∷ s) e)))
    | inr n' ↦ inr (inr (inr (drop 3 (c ∷ s), starts_with_split two_dots (c ∷ s) (ground arith))))
  ]
]

-- `subtree_key` holds exactly for the keys below the base.
pub subtree_key_iff : (base key : Bytes) → (subtree_key base key ≡ true) ↔ Below base key
unfolding subtree_key
subtree_key_iff [] [] = (λ h. absurd (cc h), λ (t, e). absurd (cc e))
subtree_key_iff [] (k ∷ key) =
    (λ h. (key, ap (λ x. x ∷ key) ((==_iff k b'/').0 h)), λ (t, e). first t e)
  where
    first : (t : Bytes) → k ∷ key ≡ slash ++ t → (k == b'/') ≡ true
    first t e = let q : k ≡ b'/' = cc e in rw q refl
subtree_key_iff (c ∷ b) key = (
  λ h.
      let (r, e, q) = subtree_key_split (c ∷ b) key (λ z. cc z) h in
      (r, e, boundary-AtBoundary r q),
  λ (r, e, q). rw e (subtree_key-append (c ∷ b) r (λ z. cc z) ∙ AtBoundary-boundary r q),
)
