-- ===== src/Art/Node.antt =====
-- src/kvspace.c, the four layouts of a tree node, and `art_child`, `art_add`, `art_rm` and
-- `art_grow` on them. A block id is a number; `none` is the id -1. An array with `count` cells in use
-- is the list of those cells.
pub mod Edges
pub mod Search
pub mod Sorted
pub mod Exchange
pub mod Wide
pub mod Dense
pub mod Removal
pub mod Growth
pub mod Valid
pub mod Adding
pub mod Removing
pub mod Growing
mod Tests
use kvspace_c.Prelude.{
  ℕ, zero, suc, ◌+◌, ◌-◌, ◌*◌, ◌/◌, ◌%◌, ◌^◌, Bool, true, false, not, Option, none, some, List, [],
  ◌∷◌, ◌++◌, map, ltb, leb, ◌==◌, if◌then◌else◌, length, get_elem?, set, take, drop, Bytes,
}

-- `AV_HAS`, `AV_OFF` and `AV_MAKE` on the 64-bit word `has_value:1 | box_offset:63`.
abbrev pub av_has : ℕ → Bool
av_has v = v % 2 == 1

abbrev pub av_off : ℕ → ℕ
av_off v = v / 2

abbrev pub av_make : Bool → ℕ → ℕ
av_make has off = off * 2 % 2 ^ 64 + (if has then 1 else 0)

-- `keys[i]` with `children[i]`
pub record Edge : Type 0 where
  pub key : ℕ
  pub child : ℕ

-- `art_n4_t`, `art_n16_t`, `art_n48_t`, `art_n256_t`, and a node that was moved. In `n48` the index
-- of a byte is 255 where it has no child.
pub data Body : Type 0 where
  n4 : List Edge → Body
  n16 : List Edge → Body
  n48 : (ℕ → ℕ) → List ℕ → Body
  n256 : (ℕ → Option ℕ) → ℕ → Body
  moved : Body

-- The child of the first edge with this byte.
unfoldable pub assoc : List Edge → ℕ → Option ℕ
assoc [] b = none
assoc (e ∷ es) b = if e.key == b then some e.child else assoc es b

-- The binary search of `art_child` and `art_rm`, for the index of a byte among `keys[lo..hi)`: `hi`
-- is one more than in the source, where it may become -1. Each turn takes one unit of fuel.
unfoldable pub bsearch : ℕ → List Edge → ℕ → ℕ → ℕ → Option ℕ
bsearch zero es b lo hi = none
bsearch (suc fuel) es b lo hi =
    let m = (lo + hi - 1) / 2 in
    let right = bsearch fuel es b (m + 1) hi in
    let left = bsearch fuel es b lo m in
    if ltb lo hi
    then elim (get_elem? es m) [
      | none ↦ none
      | some e ↦ if e.key == b then some m else if ltb e.key b then right else left
    ]
    else none

unfoldable pub position : List Edge → ℕ → Option ℕ
unfolding bsearch
position es b = bsearch (length es + 1) es b 0 (length es)

unfoldable pub child_at : List Edge → Option ℕ → Option ℕ
child_at es none = none
child_at es (some i) = elim (get_elem? es i) [ none ↦ none | some e ↦ some e.child ]

-- `art_child`
unfoldable pub child : Body → ℕ → Option ℕ
unfolding assoc position child_at
child (n4 es) b = assoc es b
child (n16 es) b = child_at es (position es b)
child (n48 index cs) b = if index b == 255 then none else get_elem? cs (index b)
child (n256 cs cnt) b = cs b
child moved b = none

-- Where `art_add` puts a byte into a sorted node: it shifts from the end while the key before is
-- greater.
unfoldable pub shift_to : List Edge → ℕ → ℕ → ℕ
shift_to es b zero = zero
shift_to es b (suc p) =
    let lower = shift_to es b p in
    elim (get_elem? es p) [ none ↦ suc p | some e ↦ if ltb b e.key then lower else suc p ]

abbrev pub insert_at : List Edge → ℕ → Edge → List Edge
insert_at es p e = take p es ++ e ∷ drop p es

abbrev pub put {ℓ} : {A : Type ℓ} → (ℕ → A) → ℕ → A → ℕ → A
put f k v i = if i == k then v else f i

-- `art_add`: `none` is the result -1, with the node as it was.
unfoldable pub add : Body → ℕ → ℕ → Option Body
unfolding shift_to
add (n4 es) b c =
    if leb 4 (length es) then none else some (n4 (es ++ (record { key = b; child = c }) ∷ []))
add (n16 es) b c =
    if leb 16 (length es)
    then none
    else some (n16 (insert_at es (shift_to es b (length es)) (record { key = b; child = c })))
add (n48 index cs) b c =
    if leb 48 (length cs) then none else some (n48 (put index b (length cs)) (cs ++ c ∷ []))
add (n256 cs cnt) b c = elim (cs b) [
  | some x ↦ none
  | none ↦ some (n256 (put cs b (some c)) ((cnt + 1) % 2 ^ 16))
]
add moved b c = none

unfoldable pub remove_key : List Edge → ℕ → List Edge
remove_key [] b = []
remove_key (e ∷ es) b = if e.key == b then es else e ∷ remove_key es b

abbrev pub remove_at : List Edge → ℕ → List Edge
remove_at es i = take i es ++ drop (suc i) es

-- The first byte from `j` on, among `n`, whose index is `i`.
unfoldable pub find_index : (ℕ → ℕ) → ℕ → ℕ → ℕ → Option ℕ
find_index index i j zero = none
find_index index i j (suc n) =
    let rest = find_index index i (j + 1) n in if index j == i then some j else rest

-- The last child of an `n48` moves into the place that becomes free.
unfoldable pub swap_last : (ℕ → ℕ) → List ℕ → ℕ → ℕ → Body
unfolding find_index
swap_last index cs idx last =
    n48 (elim (find_index index last 0 256) [ none ↦ index | some j ↦ put index j idx ])
      (take last (elim (get_elem? cs last) [ none ↦ cs | some c ↦ set cs idx c ]))

-- `art_rm`
unfoldable pub rm : Body → ℕ → Body
unfolding remove_key position swap_last
rm (n4 es) b = n4 (remove_key es b)
rm (n16 es) b = elim (position es b) [ none ↦ n16 es | some i ↦ n16 (remove_at es i) ]
rm (n48 index cs) b =
    let idx = index b in
    let last = length cs - 1 in
    if idx == 255
    then n48 index cs
    else if idx == last
    then n48 (put index b 255) (take last cs)
    else swap_last (put index b 255) cs idx last
rm (n256 cs cnt) b = n256 (put cs b none) ((cnt + 2 ^ 16 - 1) % 2 ^ 16)
rm moved b = moved

-- One pass of the exchange sort in `art_grow`: `x` is exchanged with each smaller key behind it.
unfoldable pub exchange : Edge → List Edge → Edge × List Edge
exchange x [] = (x, [])
exchange x (y ∷ ys) =
    let (m, r) = exchange (if ltb y.key x.key then y else x) ys in
    (m, (if ltb y.key x.key then x else y) ∷ r)

unfoldable pub exchange_sort : ℕ → List Edge → List Edge
unfolding exchange
exchange_sort zero es = es
exchange_sort (suc n) [] = []
exchange_sort (suc n) (x ∷ xs) = let (m, r) = exchange x xs in m ∷ exchange_sort n r

-- `index[keys[i]] = i` for the edges from number `i` on.
unfoldable pub index_edges : ℕ → List Edge → (ℕ → ℕ) → ℕ → ℕ
index_edges i [] index = index
index_edges i (e ∷ es) index = index_edges (i + 1) es (put index e.key i)

-- The children of an `n48`, from number `i` on, each at its byte; a number that no byte has goes to
-- byte 0.
unfoldable pub spread : (ℕ → ℕ) → ℕ → List ℕ → (ℕ → Option ℕ) → ℕ → Option ℕ
unfolding find_index
spread index i [] cs = cs
spread index i (c ∷ rest) cs =
    spread index (i + 1) rest
      (put cs (elim (find_index index i 0 256) [ none ↦ 0 | some j ↦ j ]) (some c))

-- The body of the new node that `art_grow` makes.
unfoldable pub grow : Body → Option Body
unfolding exchange_sort index_edges spread
grow (n4 es) = some (n16 (exchange_sort (length es) es))
grow (n16 es) = some (n48 (index_edges 0 es (λ b. 255)) (map (λ (e : Edge). e.child) es))
grow (n48 index cs) = some (n256 (spread index 0 cs (λ b. none)) (length cs))
grow (n256 cs cnt) = none
grow moved = none
