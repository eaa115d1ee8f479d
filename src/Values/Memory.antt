-- ===== src/Values/Memory.antt =====
-- Reads and writes of byte ranges, and what the laws ask of the format of values.
use kvspace_c.Prelude.{
  ℕ, zero, suc, ◌+◌, ◌≤◌, ◌<◌, ◌≡◌, ◌⊎◌, inl, inr, ◌∙◌, refl, ap, some, [], ◌∷◌, ◌==◌,
  if◌then◌else◌, length, Bytes, arith, Option-cases,
}
use kvspace_c.Values.{Wire, Memory, bytes_at, write_at, head_len, head_of, parse_value, capped}

-- A byte outside a range.
abbrev pub Outside : ℕ → ℕ → ℕ → Type 0
Outside off n i = (i < off) ⊎ (off + n ≤ i)

-- A write leaves every byte outside its range as it was.
pub write_at-Outside :
    (m : Memory) (off : ℕ) (bs : Bytes) (i : ℕ)
    → Outside off (length bs) i
    → write_at m off bs i ≡ m i
write_at-Outside m off [] i out = refl
write_at-Outside m off (b ∷ bs) i out =
    write_at-Outside (λ j. if j == off then b else m j) (off + 1) bs i (past out) ∙ ground arith
  where
    past : Outside off (suc (length bs)) i → Outside (off + 1) (length bs) i
    past (inl lt) = inl (omega arith)
    past (inr le) = inr (omega arith)

-- What is written is read back.
pub bytes_at-write_at :
    (m : Memory) (off : ℕ) (bs : Bytes) → bytes_at (write_at m off bs) off (length bs) ≡ bs
bytes_at-write_at m off [] = refl
bytes_at-write_at m off (b ∷ bs) =
    let m' : Memory = λ j. if j == off then b else m j in
    let first : write_at m' (off + 1) bs off ≡ b =
      write_at-Outside m' (off + 1) bs off (inl (omega arith)) ∙ ground arith in
    rw (first, bytes_at-write_at m' (off + 1) bs) refl

pub length-bytes_at : (m : Memory) (off n : ℕ) → length (bytes_at m off n) ≡ n
length-bytes_at m off zero = refl
length-bytes_at m off (suc n) = ap suc (length-bytes_at m (off + 1) n)

-- Two memories that agree on a range read the same there.
pub bytes_at-agree :
    (m m' : Memory) (off n : ℕ)
    → ((i : ℕ) → off ≤ i → i < off + n → m i ≡ m' i)
    → bytes_at m off n ≡ bytes_at m' off n
bytes_at-agree m m' off zero h = refl
bytes_at-agree m m' off (suc n) h =
    rw
      (
        h off (omega arith) (omega arith),
        bytes_at-agree m m' (off + 1) n (λ i lo hi. h i (omega arith) (omega arith)),
      )
      refl

-- The effective length of a value lies within the bytes of the value behind its head.
abbrev pub Bounded : Wire → Type 0
Bounded w = (v : Bytes) (n : ℕ) → w.effective_len v ≡ some n → head_len + n ≤ length v

-- What `parse_value` returns is a length of a head at least, and within the bound.
pub parse_value-Within :
    (w : Wire) (m : Memory) (off bound : ℕ) {rl : ℕ}
    → parse_value w m off bound ≡ some rl
    → (0 < rl) × (rl ≤ bound)
unfolding parse_value
parse_value-Within w m off bound {rl} h =
    elim (Option-cases (head_of w (bytes_at m off (capped bound)))) [
      | inl e ↦ absurd (let q = rw (parse_value, e) at h in cc q)
      | inr (head, e) ↦ let q = rw (parse_value, e) at h in ground arith
    ]
