-- ===== src/Coord/Tests.antt =====
-- src/coord.c, names compared and parsed.
use mathlib.Core.List.{map}
use kvspace_c.Prelude.{◌≡◌, refl, true, some, [], ◌∷◌, arith, Ordering, codes}
use kvspace_c.Coord.{
  coord_cmp, cmp_parsed, parse_coord, parse_loop, is_coord, coords, no_brackets, cmp_coords,
}
use kvspace_c.Coord.Order.{coord_cmp_trans, whole, half, ten, coord_cmp_cycle}
use kvspace_c.Coord.Numerals.{value, name_of, parse_coord-name_of}

ascending : coord_cmp (codes "[9]") (codes "[10]") ≡ some Ordering.lt
unfolding coord_cmp is_coord no_brackets parse_coord parse_loop cmp_parsed cmp_coords
ascending = refl

ascending_next : coord_cmp (codes "[10]") (codes "[10,1]") ≡ some Ordering.lt
unfolding coord_cmp is_coord no_brackets parse_coord parse_loop cmp_parsed cmp_coords
ascending_next = refl

parses : (is_coord (codes "[9]") ≡ true) × (parse_coord (codes "[9]") 8 ≡ coords (9 ∷ []))
unfolding is_coord no_brackets parse_coord parse_loop
parses = (refl, refl)

parses_ten : (is_coord (codes "[10]") ≡ true) × (parse_coord (codes "[10]") 8 ≡ coords (10 ∷ []))
unfolding is_coord no_brackets parse_coord parse_loop
parses_ten = (refl, refl)

parses_two :
    (is_coord (codes "[10,1]") ≡ true) × (parse_coord (codes "[10,1]") 8 ≡ coords (10 ∷ 1 ∷ []))
unfolding is_coord no_brackets parse_coord parse_loop
parses_two = (refl, refl)

coord_cmp_trans_example : coord_cmp (codes "[9]") (codes "[10,1]") ≡ some Ordering.lt
coord_cmp_trans_example =
    coord_cmp_trans (codes "[9]") (codes "[10]") (codes "[10,1]") parses.0 parses_ten.0 parses_two.0
      parses.1 parses_ten.1 parses_two.1 ascending ascending_next

coord_cmp_cycle_example :
    (coord_cmp (whole b'5') ten ≡ some Ordering.lt)
    × (coord_cmp ten (half b'5') ≡ some Ordering.lt)
    × (coord_cmp (half b'5') (whole b'5') ≡ some Ordering.lt)
coord_cmp_cycle_example = coord_cmp_cycle b'5' (omega arith) (omega arith)

parse_coord-name_of_example :
    parse_coord (name_of (1 ∷ 0 ∷ []) ((0 ∷ 7 ∷ []) ∷ [])) 8
    ≡ coords (map (value 0) ((1 ∷ 0 ∷ []) ∷ (0 ∷ 7 ∷ []) ∷ []))
parse_coord-name_of_example =
    parse_coord-name_of 8 (1 ∷ 0 ∷ []) ((0 ∷ 7 ∷ []) ∷ []) (omega arith) (omega arith) (omega arith)
