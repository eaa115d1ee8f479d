-- ===== src/Values.antt =====
-- src/xvalue_internal.h, and the checks of values in src/kvspace.c: `head_of`, `value_ok`,
-- `parse_value`, `frame_operand_ptr`. The format itself, `kvspace/xvalue_head.h`, is another
-- repository's: its functions are the fields of `Wire`.
pub mod Memory
use kvspace_c.Prelude.{
  ℕ, zero, suc, ◌+◌, ◌-◌, ◌%◌, ◌^◌, Bool, true, false, not, ◌&&◌, ◌||◌, Option, none, some, List,
  [], ◌∷◌, ltb, leb, ◌==◌, if◌then◌else◌, length, take, drop, codes, Bytes, bytes_eq, starts_with,
}
use kvspace_c.Keys.{split_last, status_prefix}

-- `kvspaceXvalueHeadTotalLen` (0 for a head that is not valid), `kvspaceXvalueHeadLen`,
-- `kvspaceXvalueHeadAttrsLen` and `kvspaceXvalueHeadLayout`, which read the 16 bytes of a head;
-- `kvspaceXvalueHeadScan` (the type of a value, `none` for an error),
-- `kvspaceXvalueHeadEffectiveLen` (`none` for an error) and `kvspaceXvalueHeadLangtypeBounded`,
-- which read a value.
pub record Wire : Type 0 where
  pub total_len : Bytes → ℕ
  pub body_len : Bytes → ℕ
  pub attrs_len : Bytes → ℕ
  pub layout : Bytes → ℕ
  pub scan : Bytes → Option Bytes
  pub effective_len : Bytes → Option ℕ
  pub langtype : Bytes → Bytes

-- `KVSPACE_XVALUE_HEAD_LEN`
abbrev pub head_len : ℕ
head_len = 16

-- `KVSPACE_XVALUE_REFERENCE_*`
pub data Reference : Type 0 where
  invalid inline ptr ext : Reference

abbrev pub is_inline : Reference → Bool
is_inline invalid = false
is_inline inline = true
is_inline ptr = false
is_inline ext = false

abbrev pub is_ptr : Reference → Bool
is_ptr invalid = false
is_ptr inline = false
is_ptr ptr = true
is_ptr ext = false

abbrev pub is_ext : Reference → Bool
is_ext invalid = false
is_ext inline = false
is_ext ptr = false
is_ext ext = true

-- What the first byte of a type says.
abbrev pub langtype_reference : Bytes → Reference
langtype_reference [] = inline
langtype_reference (c ∷ s) = if c == b'*' then ptr else if c == b'@' then ext else inline

module _ (w : Wire) where
  -- `kvspace_c_reference_of`
  unfoldable pub reference_of : Bytes → Reference
  reference_of wire = elim (w.scan wire) [ none ↦ invalid | some lt ↦ langtype_reference lt ]

  -- The total length of a value that is complete within its bytes.
  unfoldable pub complete : Bytes → Bool
  complete v =
      let total = w.total_len (take head_len v) in
      leb head_len (length v) && not (total == 0) && leb total (length v)

  abbrev pub attrs_of : Bytes → Bytes
  attrs_of v =
      let head = take head_len v in take (w.attrs_len head) (drop (head_len + w.body_len head) v)

  -- `kvspace_c_same_shape`, of two values that are not null.
  unfoldable pub same_shape : Bytes → Bytes → Bool
  unfolding complete bytes_eq
  same_shape l r =
      let lh = take head_len l in
      let rh = take head_len r in
      complete l
      && complete r
      && w.body_len lh == w.body_len rh
      && w.attrs_len lh == w.attrs_len rh
      && w.layout lh == w.layout rh
      && bytes_eq lh rh
      && bytes_eq (attrs_of l) (attrs_of r)

  -- `head_of`: the head of a value that is complete within its bytes.
  unfoldable pub head_of : Bytes → Option Bytes
  head_of v =
      let head = take head_len v in
      let total = w.total_len head in
      if ltb (length v) head_len
      then none
      else if total == 0 || ltb (length v) total
      then none
      else elim (w.effective_len (take total v)) [ none ↦ none | some n ↦ some head ]

  -- `value_ok`
  unfoldable pub value_ok : Bytes → Bool
  unfolding head_of
  value_ok v = elim (head_of v) [ none ↦ false | some head ↦ true ]

-- `INT32_MAX`
abbrev pub int32_max : ℕ
int32_max = 2 ^ 31 - 1

-- A length cast to `int32_t`, where a negative one counts as 0: `head_of` refuses both.
abbrev pub int32_len : ℕ → ℕ
int32_len n = let m = n % 2 ^ 32 in if leb m int32_max then m else 0

abbrev pub capped : ℕ → ℕ
capped n = if ltb int32_max n then int32_max else n

-- A mapped file: the byte at each offset.
abbrev pub Memory : Type 0
Memory = ℕ → ℕ

abbrev pub bytes_at : Memory → ℕ → ℕ → Bytes
bytes_at m off zero = []
bytes_at m off (suc n) = m off ∷ bytes_at m (off + 1) n

-- `memcpy` of bytes to an offset.
abbrev pub write_at : Memory → ℕ → Bytes → Memory
write_at m off [] = m
write_at m off (b ∷ bs) = write_at (λ i. if i == off then b else m i) (off + 1) bs

-- `parse_value` at an offset: the length of the value there, within `bound` bytes.
unfoldable pub parse_value : Wire → Memory → ℕ → ℕ → Option ℕ
unfolding head_of
parse_value w m off bound = elim (head_of w (bytes_at m off (capped bound))) [
  | none ↦ none
  | some head ↦
      let total = w.total_len head in
      if total == 0 || ltb (capped bound) total then none else some total
]

-- What `strtol` reads: the sign of the number, and what stands behind it.
pub data Sign : Type 0 where
  negative nought positive : Sign

abbrev pub is_positive : Sign → Bool
is_positive negative = false
is_positive nought = false
is_positive positive = true

abbrev pub is_nought : Sign → Bool
is_nought negative = false
is_nought nought = true
is_nought positive = false

-- Whether the rest of an operand's name is `]`, behind a column that is not 0.
abbrev pub column_ends : Sign × Bytes → Bool
column_ends (col, []) = false
column_ends (col, c ∷ s) = not (is_nought col) && c == b']' && length s == 0

abbrev pub row_ends : (Bytes → Sign × Bytes) → Sign × Bytes → Bool
row_ends strtol (row, []) = false
row_ends strtol (row, c ∷ s) = is_positive row && c == b',' && column_ends (strtol s)

abbrev pub slot_ends : (Bytes → Sign × Bytes) → Bytes → Bool
slot_ends strtol [] = false
slot_ends strtol (c ∷ s) = c == b'[' && row_ends strtol (strtol s)

-- `frame_operand_ptr`
unfoldable pub frame_operand_ptr : Wire → (Bytes → Sign × Bytes) → Bytes → Bytes → Bool
unfolding reference_of starts_with split_last
frame_operand_ptr w strtol key wire =
    is_ptr (reference_of w wire)
    && starts_with status_prefix key
    && elim (split_last key) [ none ↦ false | some (p, slot) ↦ slot_ends strtol slot ]
