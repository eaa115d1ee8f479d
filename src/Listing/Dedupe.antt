-- ===== src/Listing/Dedupe.antt =====
-- src/kvspace.c, the loop of `list_scan`: which names of the sorted scan a listing keeps.
use kvspace_c.Prelude.{
  ◌≡◌, ◌⊎◌, ◌↔◌, refl, sym, ◌∙◌, true, false, Option, none, some, List, [], ◌∷◌, ◌==◌, Bytes,
  bytes_eq_sound, Bool-cases, inl, inr,
}
use kvspace_c.Keys.{last_byte}
use kvspace_c.Listing.{bare, same_child, hidden, dedupe}

-- `b` is the name, without a final `/`, of an element.
abbrev pub Names : Bytes → List Bytes → Type 0
Names b [] = ⊥
Names b (x ∷ xs) = (bare x ≡ b) ⊎ Names b xs

-- The same, of an element that is not hidden.
abbrev pub NamesVisible : Bytes → Bytes → List Bytes → Type 0
NamesVisible pfx b [] = ⊥
NamesVisible pfx b (x ∷ xs) = ((hidden pfx x ≡ false) × (bare x ≡ b)) ⊎ NamesVisible pfx b xs

-- No two neighbours name the same child.
abbrev pub Apart : List Bytes → Type 0
Apart [] = Unit
Apart (x ∷ []) = Unit
Apart (x ∷ y ∷ ys) = (same_child x y ≡ false) × Apart (y ∷ ys)

module _ (pfx : Bytes) (k : Bytes) (ks : List Bytes) where
  dedupe-hidden :
      (prev : Option Bytes) → hidden pfx k ≡ true → dedupe pfx prev (k ∷ ks) ≡ dedupe pfx prev ks
  unfolding dedupe
  dedupe-hidden none e = rw (dedupe, e) refl
  dedupe-hidden (some l) e = rw (dedupe, e) refl

  dedupe-first : hidden pfx k ≡ false → dedupe pfx none (k ∷ ks) ≡ dedupe pfx (some k) ks
  unfolding dedupe
  dedupe-first e = rw (dedupe, e) refl

  dedupe-other :
      (l : Bytes)
      → hidden pfx k ≡ false
      → same_child l k ≡ false
      → dedupe pfx (some l) (k ∷ ks) ≡ l ∷ dedupe pfx (some k) ks
  unfolding dedupe
  dedupe-other l e f = rw (dedupe, e, f) refl

  -- Of two names for one child, one is kept.
  dedupe-same :
      (l : Bytes)
      → hidden pfx k ≡ false
      → same_child l k ≡ true
      → (m : Bytes) × (bare m ≡ bare l) × (dedupe pfx (some l) (k ∷ ks) ≡ dedupe pfx (some m) ks)
  unfolding dedupe
  dedupe-same l e f = elim (Bool-cases (last_byte k == b'/')) [
    | inl d ↦ (k, sym (bytes_eq_sound (bare l) (bare k) f), rw (dedupe, e, f, d) refl)
    | inr d ↦ (l, refl, rw (dedupe, e, f, d) refl)
  ]

-- The name kept last comes first in the result, under the name of the same child.
dedupe-head :
    (pfx : Bytes) (l : Bytes) (ks : List Bytes)
    → (m : Bytes) × (rest : List Bytes) × (bare m ≡ bare l) × (dedupe pfx (some l) ks ≡ m ∷ rest)
unfolding dedupe
dedupe-head pfx l [] = (l, [], refl, refl)
dedupe-head pfx l (k ∷ ks) = elim (Bool-cases (hidden pfx k)) [
  | inl h ↦
      let (m, rest, b, e) = dedupe-head pfx l ks in
      (m, rest, b, dedupe-hidden pfx k ks (some l) h ∙ e)
  | inr h ↦ elim (Bool-cases (same_child l k)) [
    | inr o ↦ (l, dedupe pfx (some k) ks, refl, dedupe-other pfx k ks l h o)
    | inl s ↦
        let (n, nb, step) = dedupe-same pfx k ks l h s in
        let (m, rest, b, e) = dedupe-head pfx n ks in (m, rest, b ∙ nb, step ∙ e)
  ]
]

same_child-bare :
    (a b b' : Bytes) → bare b' ≡ bare b → same_child a b ≡ false → same_child a b' ≡ false
same_child-bare a b b' e h = rw e h

dedupe-some-Apart : (pfx : Bytes) (l : Bytes) (ks : List Bytes) → Apart (dedupe pfx (some l) ks)
unfolding dedupe
dedupe-some-Apart pfx l [] = tt
dedupe-some-Apart pfx l (k ∷ ks) = elim (Bool-cases (hidden pfx k)) [
  | inl h ↦ rw (dedupe-hidden pfx k ks (some l) h) (dedupe-some-Apart pfx l ks)
  | inr h ↦ elim (Bool-cases (same_child l k)) [
    | inr o ↦
        let (m, rest, b, e) = dedupe-head pfx k ks in
        let ih = rw e at (dedupe-some-Apart pfx k ks) in
        rw (dedupe-other pfx k ks l h o, e) (same_child-bare l k m b o, ih)
    | inl s ↦ let (n, nb, step) = dedupe-same pfx k ks l h s in rw step (dedupe-some-Apart pfx n ks)
  ]
]

dedupe-Apart : (pfx : Bytes) (ks : List Bytes) → Apart (dedupe pfx none ks)
unfolding dedupe
dedupe-Apart pfx [] = tt
dedupe-Apart pfx (k ∷ ks) = elim (Bool-cases (hidden pfx k)) [
  | inl h ↦ rw (dedupe-hidden pfx k ks none h) (dedupe-Apart pfx ks)
  | inr h ↦ rw (dedupe-first pfx k ks h) (dedupe-some-Apart pfx k ks)
]

-- What stands behind a hidden name, and behind one that is not.
visible-hidden :
    (pfx : Bytes) (b k : Bytes) (ks : List Bytes)
    → hidden pfx k ≡ true
    → NamesVisible pfx b (k ∷ ks)
    → NamesVisible pfx b ks
visible-hidden pfx b k ks h (inl (v, e)) = absurd (cc (h, v))
visible-hidden pfx b k ks h (inr n) = n

visible-inv :
    (pfx : Bytes) (b k : Bytes) (ks : List Bytes)
    → NamesVisible pfx b (k ∷ ks)
    → (bare k ≡ b) ⊎ NamesVisible pfx b ks
visible-inv pfx b k ks (inl (v, e)) = inl e
visible-inv pfx b k ks (inr n) = inr n

visible-cons :
    (pfx : Bytes) (b k : Bytes) (ks : List Bytes)
    → hidden pfx k ≡ false
    → (bare k ≡ b) ⊎ NamesVisible pfx b ks
    → NamesVisible pfx b (k ∷ ks)
visible-cons pfx b k ks h (inl e) = inl (h, e)
visible-cons pfx b k ks h (inr n) = inr n

second {ℓ} : {P Q R : Type ℓ} → (Q → R) → P ⊎ Q → P ⊎ R
second f (inl p) = inl p
second f (inr q) = inr (f q)

first {ℓ} : {P Q R : Type ℓ} → (P → R) → P ⊎ Q → R ⊎ Q
first f (inl p) = inl (f p)
first f (inr q) = inr q

-- Both ways to name a child that was named already.
merge {ℓ} : {P P' Q : Type ℓ} → (P' → P) → P ⊎ (P' ⊎ Q) → P ⊎ Q
merge f (inl p) = inl p
merge f (inr (inl p)) = inl (f p)
merge f (inr (inr q)) = inr q

dedupe-some-Names :
    (pfx : Bytes) (b l : Bytes) (ks : List Bytes)
    → Names b (dedupe pfx (some l) ks) ↔ ((bare l ≡ b) ⊎ NamesVisible pfx b ks)
unfolding dedupe
dedupe-some-Names pfx b l [] = (λ n. n, λ n. n)
dedupe-some-Names pfx b l (k ∷ ks) = elim (Bool-cases (hidden pfx k)) [
  | inl h ↦
      let (to', from') = dedupe-some-Names pfx b l ks in
      rw (dedupe-hidden pfx k ks (some l) h)
        (λ n. second (λ v. inr v) (to' n), λ n. from' (second (visible-hidden pfx b k ks h) n))
  | inr h ↦ elim (Bool-cases (same_child l k)) [
    | inr o ↦
        let (to', from') = dedupe-some-Names pfx b k ks in
        rw (dedupe-other pfx k ks l h o) (
          second (λ n. visible-cons pfx b k ks h (to' n)),
          second (λ n. from' (visible-inv pfx b k ks n)),
        )
    | inl s ↦
        let same = bytes_eq_sound (bare l) (bare k) s in
        let (n, nb, step) = dedupe-same pfx k ks l h s in
        let (to', from') = dedupe-some-Names pfx b n ks in
        rw step (
          λ q. second (λ v. inr v) (first (λ e. sym nb ∙ e) (to' q)),
          λ q.
              from'
                (first (λ e. nb ∙ e) (merge (λ e. same ∙ e) (second (visible-inv pfx b k ks) q))),
        )
  ]
]

dedupe-Names :
    (pfx : Bytes) (b : Bytes) (ks : List Bytes)
    → Names b (dedupe pfx none ks) ↔ NamesVisible pfx b ks
unfolding dedupe
dedupe-Names pfx b [] = (λ n. n, λ n. n)
dedupe-Names pfx b (k ∷ ks) = elim (Bool-cases (hidden pfx k)) [
  | inl h ↦
      let (to', from') = dedupe-Names pfx b ks in
      rw (dedupe-hidden pfx k ks none h)
        (λ n. inr (to' n), λ n. from' (visible-hidden pfx b k ks h n))
  | inr h ↦
      let (to', from') = dedupe-some-Names pfx b k ks in
      rw (dedupe-first pfx k ks h)
        (λ n. visible-cons pfx b k ks h (to' n), λ n. from' (visible-inv pfx b k ks n))
]

-- No two neighbours of a listing name the same child, and it names exactly the children that the
-- scan names, but for hidden names.
pub dedupe-Listed :
    (pfx : Bytes) (ks : List Bytes)
    → Apart (dedupe pfx none ks)
      × ((b : Bytes) → Names b (dedupe pfx none ks) ↔ NamesVisible pfx b ks)
dedupe-Listed pfx ks = (dedupe-Apart pfx ks, λ b. dedupe-Names pfx b ks)
