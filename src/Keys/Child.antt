-- ===== src/Keys/Child.antt =====
-- src/kvspace.c, `child_name_len`, and src/durable_abi.c, `parse_shm_path`.
use kvspace_c.Prelude.{
  ℕ, zero, suc, ◌≤◌, ◌<◌, ◌≡◌, ◌↔◌, refl, ap, ap₂, ◌∙◌, Bool, true, false, Option, some, none, ◌||◌,
  ◌==◌, [], ◌∷◌, ◌++◌, arith, length, drop, Bytes, codes, starts_with, starts_with_split, bytes_eq,
  bytes_eq_iff, Bool-cases, inl, inr,
}
use kvspace_c.Keys.{dot, child_name_len, split_scheme, parse_shm_path}

-- Whether a separator begins here.
abbrev pub sep_at : Bytes → Bool
sep_at [] = false
sep_at (c ∷ s) = c == b'/' || starts_with dot (c ∷ s)

-- The length of a child's name is the index of the first separator, or the whole length where there
-- is none.
pub child_name_len_lem :
    (s : Bytes)
    → (child_name_len s ≤ length s)
      × ((i : ℕ) → i < child_name_len s → sep_at (drop i s) ≡ false)
      × (child_name_len s < length s → sep_at (drop (child_name_len s) s) ≡ true)
unfolding child_name_len
child_name_len_lem [] = (omega arith, (λ i h. absurd (omega arith)), λ h. absurd (omega arith))
child_name_len_lem (c ∷ s) = elim (Bool-cases (sep_at (c ∷ s))) [
  | inl e ↦ rw e (omega arith, (λ i h. absurd (omega arith)), λ h. e)
  | inr e ↦
      let (a, b, d) = child_name_len_lem s in rw e (omega arith, inside e b, λ h. d (omega arith))
]
  where
    inside :
        sep_at (c ∷ s) ≡ false
        → ((i : ℕ) → i < child_name_len s → sep_at (drop i s) ≡ false)
        → (i : ℕ) → i < suc (child_name_len s)
        → sep_at (drop i (c ∷ s)) ≡ false
    inside e b zero h = e
    inside e b (suc i) h = b i (omega arith)

abbrev pub scheme_sep : Bytes
scheme_sep = codes "://"

split_scheme-inv :
    (s : Bytes) {a b : Bytes} → split_scheme s ≡ some (a, b) → s ≡ a ++ scheme_sep ++ b
unfolding split_scheme
split_scheme-inv [] h = cc
split_scheme-inv (c ∷ s) {a} {b} h = elim (Bool-cases (starts_with scheme_sep (c ∷ s))) [
  | inl e ↦
      let whole = starts_with_split scheme_sep (c ∷ s) e in
      let ea : a ≡ [] = ground arith in
      let eb : b ≡ drop 3 (c ∷ s) = ground arith in rw (ea, eb) whole
  | inr e ↦ go (split_scheme s) refl (λ x y. split_scheme-inv s {a = x} {b = y}) e
]
  where
    go :
        (o : Option (Bytes × Bytes))
        → split_scheme s ≡ o
        → ((x y : Bytes) → split_scheme s ≡ some (x, y) → s ≡ x ++ scheme_sep ++ y)
        → starts_with scheme_sep (c ∷ s) ≡ false
        → c ∷ s ≡ a ++ scheme_sep ++ b
    go none q ih e = absurd (ground arith)
    go (some (x, y)) q ih e =
        let r = ih x y q in
        let ea : a ≡ c ∷ x = ground arith in
        let eb : b ≡ y = ground arith in rw (ea, eb) (ap (λ t. c ∷ t) r)

parse_shm_path-inv :
    (dsn p : Bytes) (osz : ℕ)
    → parse_shm_path dsn osz ≡ some p
    → (dsn ≡ codes "shm://" ++ p) × (0 < length p) × (length p < osz)
unfolding parse_shm_path
parse_shm_path-inv dsn p osz h = go (split_scheme dsn) refl
  where
    go :
        (o : Option (Bytes × Bytes))
        → split_scheme dsn ≡ o
        → (dsn ≡ codes "shm://" ++ p) × (0 < length p) × (length p < osz)
    go none q = absurd (ground arith)
    go (some (a, b)) q =
        let e : bytes_eq a (codes "shm") ≡ true = ground arith in
        let ea : a ≡ codes "shm" = (bytes_eq_iff a (codes "shm")).0 e in
        let eb : b ≡ p = ground arith in
        let r = split_scheme-inv dsn q in
        (r ∙ ap₂ (λ (x y : Bytes). x ++ scheme_sep ++ y) ea eb, ground arith, ground arith)

parse_shm_path-shm :
    (p : Bytes) (osz : ℕ)
    → 0 < length p
    → length p < osz
    → parse_shm_path (codes "shm://" ++ p) osz ≡ some p
unfolding parse_shm_path starts_with
parse_shm_path-shm p osz lo hi = ground arith

-- A DSN is accepted with path `p`, for a buffer of `osz` bytes, exactly when it is `shm://` followed
-- by `p`, and `p` is not empty and shorter than the buffer.
pub parse_shm_path_iff :
    (dsn p : Bytes) (osz : ℕ)
    → (parse_shm_path dsn osz ≡ some p)
      ↔ ((dsn ≡ codes "shm://" ++ p) × (0 < length p) × (length p < osz))
parse_shm_path_iff dsn p osz = (
  parse_shm_path-inv dsn p osz,
  λ (e, lo, hi). ap (λ d. parse_shm_path d osz) e ∙ parse_shm_path-shm p osz lo hi,
)
