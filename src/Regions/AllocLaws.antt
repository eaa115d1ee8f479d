-- ===== src/Regions/AllocLaws.antt =====
-- src/kvspace.c, `kv_sbo_free`: the range that it gives back.
use kvspace_c.Prelude.{
  ℕ, ◌+◌, ◌*◌, ◌≤◌, ◌<◌, ◌≡◌, refl, sym, Bool, true, false, ◌&&◌, some, arith, leb, Bool-cases, inl,
  inr, ◌-◌, ◌/◌, ltb, ltb→lt, leb→le,
}
use native.Mathlib.Nat.{div-mul-le_self, lt-div-mul-add}
use kvspace_c.Regions.Alloc.{punched}

-- With pages of at least one byte, the range that is given back lies within the box, and begins and
-- ends at a page.
pub punched-Within :
    (punch_min pg off sz : ℕ) {first last : ℕ}
    → 0 < pg
    → punched punch_min pg off sz ≡ some (first, last)
    → (off ≤ first)
      × (first < last)
      × (last ≤ off + sz)
      × (punch_min ≤ sz)
      × ((a : ℕ) × (first ≡ a * pg))
      × ((b : ℕ) × (last ≡ b * pg))
unfolding punched
punched-Within punch_min pg off sz {first} {last} pos h =
    let lo = (off + pg - 1) / pg * pg in
    let hi = (off + sz) / pg * pg in
    elim (Bool-cases (leb punch_min sz && ltb lo hi)) [
      | inr no' ↦ absurd (let q = rw no' at h in cc q)
      | inl yes' ↦
          let e : some (lo, hi) ≡ some (first, last) = rw yes' at h in
          let at : lo ≡ first = cc e in
          let at' : hi ≡ last = cc e in
          let lower : off + pg - 1 < lo + pg = lt-div-mul-add pos in
          let upper : hi ≤ off + sz = div-mul-le_self (off + sz) pg in
          let (big, order) = both (leb punch_min sz) (ltb lo hi) yes' in
          let start : off ≤ lo = omega (arith, lower, pos) in
          (
            rw at at start,
            rw (at, at') at (ltb→lt lo hi order),
            rw at' at upper,
            leb→le punch_min sz big,
            ((off + pg - 1) / pg, sym at),
            ((off + sz) / pg, sym at'),
          )
    ]
  where
    both : (a b : Bool) → (a && b) ≡ true → (a ≡ true) × (b ≡ true)
    both true b e = (refl, e)
    both false b e = absurd (cc e)
