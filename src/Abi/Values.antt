-- ===== src/Abi/Values.antt =====
-- src/durable_abi.c, the constructors of values, and `kvspaceWatch`.
use kvspace_c.Prelude.{
  ℕ, zero, suc, ◌+◌, ◌-◌, ◌*◌, ◌/◌, ◌%◌, ◌^◌, Bool, true, not, ◌&&◌, ◌||◌, Option, none, some, List,
  [], ◌∷◌, ltb, leb, ◌==◌, if◌then◌else◌, length, take, codes, Bytes, bytes_eq,
}
use kvspace_c.Values.{Wire, head_len, reference_of, is_inline}

-- `kvspaceXvalueHeadNewPtr` (target and its type), `kvspaceXvalueHeadNewSlack` (body, capacity, type)
-- and `kvspaceXvalueHeadNewScalar` (body, type); `none` for an error.
pub record Maker : Type 0 where
  pub new_ptr : Bytes → Bytes → Option Bytes
  pub new_slack : Bytes → ℕ → Bytes → Option Bytes
  pub new_scalar : Bytes → Bytes → Option Bytes

-- `finish`: a value too long for a 32-bit length is given up; `none` is the return value 1.
abbrev pub finish : Option Bytes → Option Bytes
finish none = none
finish (some v) = if ltb (2 ^ 32 - 1) (length v) then none else some v

-- `kvspaceNewPtr`, of arguments that are not null.
unfoldable pub new_ptr : Maker → Bytes → Bytes → Option Bytes
unfolding bytes_eq
new_ptr m kindexpr target =
    if bytes_eq kindexpr (codes "any") then none else finish (m.new_ptr target kindexpr)

-- `kvspaceNewChar`
unfoldable pub new_char : Maker → Bytes → Bytes → Option Bytes
new_char m bytes langtype = finish (m.new_slack bytes (length bytes) langtype)

-- `kvspaceNewBool`
unfoldable pub new_bool : Maker → ℕ → Bytes → Option Bytes
new_bool m v langtype = finish (m.new_scalar ((if v == 0 then 0 else 1) ∷ []) langtype)

-- The loop of `kvspaceNewInt64` and `kvspaceNewFloat64`: bytes `i` and on of a 64-bit word.
unfoldable pub raw_bytes : ℕ → ℕ → ℕ → Bytes
raw_bytes zero i v = []
raw_bytes (suc n) i v = v / 2 ^ (8 * i) % 256 ∷ raw_bytes n (i + 1) v

-- `kvspaceNewInt64` of the 64-bit word of its argument, and `kvspaceNewFloat64` of the bits of its.
unfoldable pub new_int64 : Maker → ℕ → Bytes → Option Bytes
unfolding raw_bytes
new_int64 m v langtype = finish (m.new_scalar (raw_bytes 8 0 v) langtype)

unfoldable pub new_float64 : Maker → ℕ → Bytes → Option Bytes
unfolding raw_bytes
new_float64 m bits langtype = finish (m.new_scalar (raw_bytes 8 0 bits) langtype)

-- `wire_is_none`, with the empty value for a null pointer.
unfoldable pub wire_is_none : Wire → Bytes → Bool
unfolding bytes_eq reference_of
wire_is_none w [] = true
wire_is_none w (c ∷ d) =
    let v = c ∷ d in
    leb head_len (length v)
    && is_inline (reference_of w v)
    && w.body_len (take head_len v) == 0
    && (length (w.langtype v) == 0 || bytes_eq (w.langtype v) (codes "None"))

-- What one turn of `kvspaceWatch` reads: the value, `[]` for none, and the time since the start.
abbrev pub Reading : Type 0
Reading = Bytes × ℕ

-- Whether a value is what is waited for.
abbrev pub awaited : Wire → Bytes → Bytes → Bool
awaited w target d =
    if wire_is_none w target then wire_is_none w d else not (length d == 0) && bytes_eq d target

-- What `kvspaceWatch` does with the readings: it is still waiting, its time is over, or it returns a
-- value.
pub data Watched : Type 0 where
  waiting timed_out : Watched
  arrived : Bytes → Watched

unfoldable pub watch : Wire → Bytes → ℕ → List Reading → Watched
unfolding wire_is_none bytes_eq
watch w target tick [] = waiting
watch w target tick ((d, elapsed) ∷ rs) =
    let next = watch w target tick rs in
    if awaited w target d then arrived d else if leb tick elapsed then timed_out else next
