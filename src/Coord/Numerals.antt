-- ===== src/Coord/Numerals.antt =====
-- src/coord.c: what the parser makes of comma-separated decimal numerals.
use kvspace_c.Prelude.{
  ℕ, ◌+◌, ◌-◌, ◌*◌, ◌≤◌, ◌<◌, ◌≡◌, ap, ◌∙◌, Bool, true, false, List, [], ◌∷◌, ◌++◌, arith, All,
  length, length-append, append_assoc, Bytes, map,
}
use kvspace_c.Coord.{coords, int64_limit, parse_loop, parse_coord}

-- A numeral is its digits, the most significant first.
abbrev pub numeral : List ℕ → Bytes
numeral [] = []
numeral (d ∷ ds) = (d + b'0') ∷ numeral ds

-- Its value, after the value of the digits already read.
abbrev pub value : ℕ → List ℕ → ℕ
value cur [] = cur
value cur (d ∷ ds) = value (cur * 10 + d) ds

abbrev pub IsNumeral : List ℕ → Type 0
IsNumeral [] = ⊥
IsNumeral (d ∷ ds) = All (λ x. x < 10) (d ∷ ds) × (value 0 (d ∷ ds) < int64_limit)

abbrev pub rest_of : List (List ℕ) → Bytes
rest_of [] = b']' ∷ []
rest_of (ds ∷ r) = b',' ∷ (numeral ds ++ rest_of r)

-- `[n1,n2,...]`
abbrev pub name_of : List ℕ → List (List ℕ) → Bytes
name_of ds r = b'[' ∷ (numeral ds ++ rest_of r)

le-value : (cur : ℕ) (ds : List ℕ) → cur ≤ value cur ds
le-value cur [] = omega arith
le-value cur (d ∷ ds) = omega (arith, le-value (cur * 10 + d) ds)

parse_loop-digit :
    (maxn d : ℕ) (s : Bytes) (out : List ℕ) (cur : ℕ) (has : Bool)
    → d < 10
    → cur * 10 + d < int64_limit
    → parse_loop maxn ((d + b'0') ∷ s) out cur has ≡ parse_loop maxn s out (cur * 10 + d) true
unfolding parse_loop
parse_loop-digit maxn d s out cur has h fits =
    let e : d + b'0' - b'0' ≡ d = omega arith in rw e (ground arith)

parse_loop-numeral :
    (maxn d : ℕ) (ds : List ℕ) (s : Bytes) (out : List ℕ) (cur : ℕ) (has : Bool)
    → All (λ x. x < 10) (d ∷ ds)
    → value cur (d ∷ ds) < int64_limit
    → parse_loop maxn (numeral (d ∷ ds) ++ s) out cur has
      ≡ parse_loop maxn s out (value cur (d ∷ ds)) true
parse_loop-numeral maxn d [] s out cur has (h, _) fits =
    parse_loop-digit maxn d s out cur has h fits
parse_loop-numeral maxn d (e ∷ ds) s out cur has (h, hs) fits =
    parse_loop-digit maxn d (numeral (e ∷ ds) ++ s) out cur has h
      (omega (arith, le-value (cur * 10 + d) (e ∷ ds)))
    ∙ parse_loop-numeral maxn e ds s out (cur * 10 + d) true hs fits

parse_loop-comma :
    (maxn : ℕ) (s : Bytes) (out : List ℕ) (cur : ℕ)
    → length out < maxn
    → parse_loop maxn (b',' ∷ s) out cur true ≡ parse_loop maxn s (out ++ cur ∷ []) 0 false
unfolding parse_loop
parse_loop-comma maxn s out cur room = ground arith

parse_loop-rest :
    (maxn : ℕ) (r : List (List ℕ)) (out : List ℕ) (cur : ℕ)
    → All IsNumeral r
    → length out + length r < maxn
    → parse_loop maxn (rest_of r) out cur true ≡ coords (out ++ cur ∷ map (value 0) r)
unfolding parse_loop
parse_loop-rest maxn [] out cur h room = ground arith
parse_loop-rest maxn ([] ∷ r) out cur (h, hs) room = absurd h
parse_loop-rest maxn ((d ∷ ds) ∷ r) out cur (h, hs) room =
    parse_loop-comma maxn (numeral (d ∷ ds) ++ rest_of r) out cur (omega arith)
    ∙ parse_loop-numeral maxn d ds (rest_of r) (out ++ cur ∷ []) 0 false h.0 h.1
    ∙ parse_loop-rest maxn r (out ++ cur ∷ []) (value 0 (d ∷ ds)) hs
        (omega (arith, length-append out (cur ∷ [])))
    ∙ ap coords (append_assoc out (cur ∷ []) (map (value 0) ((d ∷ ds) ∷ r)))

-- A bracketed list of decimal numerals, leading zeros allowed, each below 2^63 and at most `maxn`
-- of them, parses to the values of its numerals in order.
pub parse_coord-name_of :
    (maxn : ℕ) (ds : List ℕ) (r : List (List ℕ))
    → IsNumeral ds
    → All IsNumeral r
    → length r < maxn
    → parse_coord (name_of ds r) maxn ≡ coords (map (value 0) (ds ∷ r))
unfolding parse_coord
parse_coord-name_of maxn [] r h hs room = absurd h
parse_coord-name_of maxn (d ∷ ds) r h hs room =
    parse_loop-numeral maxn d ds (rest_of r) [] 0 false h.0 h.1
    ∙ parse_loop-rest maxn r [] (value 0 (d ∷ ds)) hs (omega arith)
