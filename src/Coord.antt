-- ===== src/Coord.antt =====
-- src/coord.c: coordinate names such as `[1,2]`, and the order in which a listing puts them.
-- A name is its bytes without the final NUL; the callers never pass a null pointer.
pub mod Order
pub mod Numerals
mod Tests
use kvspace_c.Prelude.{
  ℕ, ◌+◌, ◌-◌, ◌*◌, ◌^◌, ◌<◌, compare, Ordering, Bool, true, false, not, ◌&&◌, ◌||◌, Option, none,
  some, List, [], ◌∷◌, ◌++◌, ltb, leb, ◌==◌, if◌then◌else◌, length, get_or, take, drop, Bytes,
  strcmp,
}

-- No byte is a bracket.
unfoldable pub no_brackets : Bytes → Bool
no_brackets [] = true
no_brackets (c ∷ s) = not (c == b'[' || c == b']') && no_brackets s

-- `[`, then at least one byte that is no bracket, then `]`.
pub is_coord : Bytes → Bool
unfolding no_brackets
is_coord name =
    let n = length name in
    get_or name 0 0 == b'['
    && leb 3 n
    && get_or name (n - 1) 0 == b']'
    && no_brackets (take (n - 2) (drop 1 name))

-- What parsing returns. `overflow` is the case in which `cur * 10 + digit` leaves `int64_t`, which
-- C leaves undefined.
pub data Parsed : Type 0 where
  coords : List ℕ → Parsed
  mismatch : Parsed
  overflow : Parsed

abbrev pub is_digit : ℕ → Bool
is_digit c = leb b'0' c && leb c b'9'

abbrev pub int64_limit : ℕ
int64_limit = 2 ^ 63

-- The loop over the bytes after `[`. `out` holds the coordinates stored so far, `n` of them.
pub parse_loop : ℕ → Bytes → List ℕ → ℕ → Bool → Parsed
parse_loop maxn [] out cur has = mismatch
parse_loop maxn (c ∷ s) out cur has =
    let next = cur * 10 + (c - b'0') in
    let digit = parse_loop maxn s out next true in
    let comma = parse_loop maxn s (out ++ cur ∷ []) 0 false in
    let stored = not has || leb maxn (length out) in
    if is_digit c
    then (if ltb next int64_limit then digit else overflow)
    else if c == b','
    then (if stored then mismatch else comma)
    else if c == b']'
    then (if stored then mismatch else elim s [ [] ↦ coords (out ++ cur ∷ []) | _ ∷ _ ↦ mismatch ])
    else mismatch

pub parse_coord : Bytes → ℕ → Parsed
unfolding parse_loop
parse_coord [] maxn = mismatch
parse_coord (c ∷ s) maxn = if c == b'[' then parse_loop maxn s [] 0 false else mismatch

-- The loop over the common coordinates, then the comparison of the counts.
pub cmp_coords : List ℕ → List ℕ → Ordering
cmp_coords [] [] = Ordering.eq
cmp_coords [] (y ∷ ys) = Ordering.lt
cmp_coords (x ∷ xs) [] = Ordering.gt
cmp_coords (x ∷ xs) (y ∷ ys) =
    let rest = cmp_coords xs ys in
    if x == y then rest else if ltb x y then Ordering.lt else Ordering.gt

-- `strcmp` decides where one of the names is no list of integers.
cmp_parsed : Bytes → Bytes → Parsed → Parsed → Option Ordering
unfolding cmp_coords
cmp_parsed a b overflow pb = none
cmp_parsed a b pa overflow = none
cmp_parsed a b (coords xs) (coords ys) = some (cmp_coords xs ys)
cmp_parsed a b pa pb = some (strcmp a b)

-- The sign of `kvspaceCoordCmp`; `none` where the C code overflows.
pub coord_cmp : Bytes → Bytes → Option Ordering
unfolding cmp_parsed is_coord
coord_cmp a b =
    if not (is_coord a) && not (is_coord b)
    then some (strcmp a b)
    else if not (is_coord a)
    then some Ordering.gt
    else if not (is_coord b)
    then some Ordering.lt
    else cmp_parsed a b (parse_coord a 8) (parse_coord b 8)
