-- ===== src/Coord/Order.antt =====
-- src/coord.c: the order of coordinate names.
use kvspace_c.Prelude.{
  ℕ, ◌≤◌, ◌≡◌, refl, ap, Ordering, true, Option, none, some, List, [], ◌∷◌, arith, Bytes, strcmp,
}
use kvspace_c.Coord.{
  Parsed, coords, mismatch, overflow, is_coord, parse_coord, cmp_coords, cmp_parsed, coord_cmp,
}

abbrev pub flip : Ordering → Ordering
flip Ordering.lt = Ordering.gt
flip Ordering.eq = Ordering.eq
flip Ordering.gt = Ordering.lt

abbrev pub flip? : Option Ordering → Option Ordering
flip? none = none
flip? (some o) = some (flip o)

pub strcmp-flip : (a b : Bytes) → strcmp b a ≡ flip (strcmp a b)
unfolding strcmp
strcmp-flip [] [] = refl
strcmp-flip [] (y ∷ ys) = refl
strcmp-flip (x ∷ xs) [] = refl
strcmp-flip (x ∷ xs) (y ∷ ys) = ground (arith, strcmp-flip xs ys)

pub cmp_coords-flip : (a b : List ℕ) → cmp_coords b a ≡ flip (cmp_coords a b)
unfolding cmp_coords
cmp_coords-flip [] [] = refl
cmp_coords-flip [] (y ∷ ys) = refl
cmp_coords-flip (x ∷ xs) [] = refl
cmp_coords-flip (x ∷ xs) (y ∷ ys) = ground (arith, cmp_coords-flip xs ys)

cmp_parsed-flip : (a b : Bytes) (p q : Parsed) → cmp_parsed b a q p ≡ flip? (cmp_parsed a b p q)
unfolding cmp_parsed
cmp_parsed-flip a b (coords xs) (coords ys) = ap some (cmp_coords-flip xs ys)
cmp_parsed-flip a b (coords xs) mismatch = ap some (strcmp-flip a b)
cmp_parsed-flip a b mismatch (coords ys) = ap some (strcmp-flip a b)
cmp_parsed-flip a b mismatch mismatch = ap some (strcmp-flip a b)
cmp_parsed-flip a b overflow (coords ys) = refl
cmp_parsed-flip a b overflow mismatch = refl
cmp_parsed-flip a b overflow overflow = refl
cmp_parsed-flip a b (coords xs) overflow = refl
cmp_parsed-flip a b mismatch overflow = refl

-- Swapping two names swaps the sign of their comparison, and does not change whether it overflows.
pub coord_cmp-flip : (a b : Bytes) → coord_cmp b a ≡ flip? (coord_cmp a b)
unfolding coord_cmp
coord_cmp-flip a b =
    ground (arith, strcmp-flip a b, cmp_parsed-flip a b (parse_coord a 8) (parse_coord b 8))

pub cmp_coords_trans :
    (a b c : List ℕ)
    → cmp_coords a b ≡ Ordering.lt
    → cmp_coords b c ≡ Ordering.lt
    → cmp_coords a c ≡ Ordering.lt
unfolding cmp_coords
cmp_coords_trans [] [] c h k = cc
cmp_coords_trans [] (y ∷ b) [] h k = cc
cmp_coords_trans [] (y ∷ b) (z ∷ c) h k = refl
cmp_coords_trans (x ∷ a) [] c h k = cc
cmp_coords_trans (x ∷ a) (y ∷ b) [] h k = cc
cmp_coords_trans (x ∷ a) (y ∷ b) (z ∷ c) h k = ground (arith, cmp_coords_trans a b c)

-- Among names that parse as lists of at most eight integers the order is transitive.
pub coord_cmp_trans :
    (a b c : Bytes) {xs ys zs : List ℕ}
    → is_coord a ≡ true
    → is_coord b ≡ true
    → is_coord c ≡ true
    → parse_coord a 8 ≡ coords xs
    → parse_coord b 8 ≡ coords ys
    → parse_coord c 8 ≡ coords zs
    → coord_cmp a b ≡ some Ordering.lt
    → coord_cmp b c ≡ some Ordering.lt
    → coord_cmp a c ≡ some Ordering.lt
unfolding coord_cmp cmp_parsed
coord_cmp_trans a b c {xs} {ys} {zs} ia ib ic pa pb pc h k =
    ground (arith, cmp_coords_trans xs ys zs)

-- `[d]`, `[10]` and `[d.5]`, for a digit `d`.
abbrev pub whole : ℕ → Bytes
whole d = b'[' ∷ d ∷ b']' ∷ []

abbrev pub ten : Bytes
ten = b'[' ∷ b'1' ∷ b'0' ∷ b']' ∷ []

abbrev pub half : ℕ → Bytes
half d = b'[' ∷ d ∷ b'.' ∷ b'5' ∷ b']' ∷ []

-- For every digit `d` from 2 to 9 the names `[d]`, `[10]` and `[d.5]` stand in a cycle: the
-- comparison puts each of them strictly before the next, and the last before the first.
pub coord_cmp_cycle :
    (d : ℕ)
    → b'2' ≤ d
    → d ≤ b'9'
    → (coord_cmp (whole d) ten ≡ some Ordering.lt)
      × (coord_cmp ten (half d) ≡ some Ordering.lt)
      × (coord_cmp (half d) (whole d) ≡ some Ordering.lt)
unfolding coord_cmp parse_coord strcmp
coord_cmp_cycle d lo hi = (ground arith, ground arith, ground arith)
