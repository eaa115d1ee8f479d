-- ===== src/Abi/Numbers.antt =====
-- src/durable_abi.c, the bytes of a 64-bit number: little-endian, and read back.
use kvspace_c.Prelude.{
  ℕ, zero, suc, ◌+◌, ◌*◌, ◌/◌, ◌^◌, ◌<◌, ◌≡◌, refl, sym, ap, ◌∙◌, [], ◌∷◌, length, arith, Bytes,
}
use native.Mathlib.Nat.{div-div-eq-div-mul, two-pow-succ}
use kvspace_c.Abi.Values.{Maker, raw_bytes, new_int64, finish}

-- The number that bytes stand for, the lowest first.
abbrev pub le_value : Bytes → ℕ
le_value [] = 0
le_value (b ∷ bs) = b + 256 * le_value bs

-- How many numbers `n` bytes can stand for.
abbrev pub byte_limit : ℕ → ℕ
byte_limit zero = 1
byte_limit (suc n) = 256 * byte_limit n

eight-more : (k : ℕ) → 2 ^ (k + 8) ≡ 2 ^ k * 256
eight-more k =
    let e : k + 8 ≡ suc (suc (suc (suc (suc (suc (suc (suc k))))))) = omega arith in
    rw e (
      omega (
        arith,
        two-pow-succ k,
        two-pow-succ (suc k),
        two-pow-succ (suc (suc k)),
        two-pow-succ (suc (suc (suc k))),
        two-pow-succ (suc (suc (suc (suc k)))),
        two-pow-succ (suc (suc (suc (suc (suc k))))),
        two-pow-succ (suc (suc (suc (suc (suc (suc k)))))),
        two-pow-succ (suc (suc (suc (suc (suc (suc (suc k))))))),
      ))

shift-step : (i v : ℕ) → v / 2 ^ (8 * (i + 1)) ≡ v / 2 ^ (8 * i) / 256
shift-step i v =
    let e : 8 * (i + 1) ≡ 8 * i + 8 = omega arith in
    rw (e, eight-more (8 * i)) (sym (div-div-eq-div-mul v (2 ^ (8 * i)) 256))

raw_bytes-le_value :
    (n i v : ℕ) → v / 2 ^ (8 * i) < byte_limit n → le_value (raw_bytes n i v) ≡ v / 2 ^ (8 * i)
unfolding raw_bytes
raw_bytes-le_value zero i v h = omega arith
raw_bytes-le_value (suc n) i v h =
    let e = shift-step i v in
    let ih = raw_bytes-le_value n (i + 1) v (rw e (omega arith)) in omega (arith, ih, e)

-- The eight bytes of a 64-bit number, read back, are the number.
raw_bytes-round_trip : (v : ℕ) → v < 2 ^ 64 → le_value (raw_bytes 8 0 v) ≡ v
raw_bytes-round_trip v h =
    let e : v / 2 ^ (8 * 0) ≡ v = omega arith in raw_bytes-le_value 8 0 v (rw e h) ∙ e

length-raw_bytes : (n i v : ℕ) → length (raw_bytes n i v) ≡ n
unfolding raw_bytes
length-raw_bytes zero i v = refl
length-raw_bytes (suc n) i v = ap suc (length-raw_bytes n (i + 1) v)

-- `kvspaceNewInt64` makes its value from eight bytes that, read with the lowest first, are the 64-bit
-- word of its argument.
pub new_int64-bytes :
    (m : Maker) (v : ℕ) (langtype : Bytes)
    → v < 2 ^ 64
    → (raw : Bytes) × (length raw ≡ 8)
      × (le_value raw ≡ v)
      × (new_int64 m v langtype ≡ finish (m.new_scalar raw langtype))
unfolding new_int64
new_int64-bytes m v langtype h =
    (raw_bytes 8 0 v, length-raw_bytes 8 0 v, raw_bytes-round_trip v h, refl)
