-- ===== src/Art/Scan.antt =====
-- src/kvspace.c, the scan of the keys below a prefix: `art_cover`, `keyscan_add_n`,
-- `art_collect_keys` and `art_scan_keys`. A scan is the list of the keys in the order in which they
-- were added; `none` stands for a scan that failed. The heap of the process does not run out, and no
-- byte of a key is 0.
mod Tests
use kvspace_c.Prelude.{
  ℕ, zero, suc, ◌+◌, ◌-◌, ◌^◌, Option, none, some, List, [], ◌∷◌, ◌++◌, ltb, leb, ◌==◌,
  if◌then◌else◌, length, take, drop, Bytes,
}
use kvspace_c.Art.Node.{Body, n4, n16, n48, n256, moved, Edge, child}
use kvspace_c.Art.Tree.{Node, Heap, pfx_shared}

-- A covering node, when the path to it fits into the buffer.
abbrev pub covering : ℕ → ℕ → ℕ → Option (ℕ × ℕ)
covering bcap nid d = if leb bcap d then none else some (nid, d)

-- The loop of `art_cover`: the first node whose path and prefix reach the end of `pfx`, with the
-- length of that path. A turn takes one unit of fuel.
unfoldable pub cover_loop : ℕ → Heap → ℕ → Option ℕ → Bytes → ℕ → Option (ℕ × ℕ)
unfolding pfx_shared child
cover_loop zero h bcap o rest d = none
cover_loop (suc fuel) h bcap none rest d = none
cover_loop (suc fuel) h bcap (some nid) rest d = elim (h nid) [
  | none ↦ none
  | some x ↦
      let s = pfx_shared x.prefix rest in
      let deeper = λ (b : ℕ) (t : Bytes).
        cover_loop fuel h bcap (child x.body b) t (d + length x.prefix + 1) in
      if ltb s (length x.prefix)
      then (if ltb s (length rest) then none else covering bcap nid d)
      else elim (drop (length x.prefix) rest) [ [] ↦ covering bcap nid d | b ∷ t ↦ deeper b t ]
]

-- `art_cover`
unfoldable pub cover : Heap → Option ℕ → Bytes → ℕ → Option (ℕ × ℕ)
unfolding cover_loop
cover h root pfx bcap = cover_loop (length pfx + 1) h bcap root pfx 0

-- `keyscan_add_n`, whose count is an `int32_t`.
unfoldable pub keyscan_add : List Bytes → Bytes → Option (List Bytes)
keyscan_add scan key = if length scan == 2 ^ 31 - 1 then none else some (scan ++ key ∷ [])

-- The children in the order of their bytes, from byte `i` on.
unfoldable pub in_order_from : (ℕ → Option ℕ) → ℕ → ℕ → List Edge
in_order_from f i zero = []
in_order_from f i (suc n) =
    let rest = in_order_from f (i + 1) n in
    elim (f i) [ none ↦ rest | some c ↦ record { key = i; child = c } ∷ rest ]

-- The order in which `art_collect_keys` visits the children of a node.
unfoldable pub in_order : Body → List Edge
unfolding in_order_from child
in_order (n4 es) = es
in_order (n16 es) = es
in_order (n48 index cs) = in_order_from (child (n48 index cs)) 0 256
in_order (n256 cs count) = in_order_from (child (n256 cs count)) 0 256
in_order moved = []

-- The loop over the children, with what a child adds to the scan.
unfoldable pub each :
    (ℕ → Bytes → List Bytes → Option (List Bytes))
    → ℕ
    → Bytes
    → List Edge
    → List Bytes
    → Option (List Bytes)
each visit bcap buf [] scan = some scan
each visit bcap buf (e ∷ es) scan =
    let rest = λ (scan' : List Bytes). each visit bcap buf es scan' in
    if leb bcap (length buf + 1)
    then none
    else elim (visit e.child (buf ++ e.key ∷ []) scan) [ none ↦ none | some s ↦ rest s ]

-- What `art_collect_keys` adds for the node itself.
abbrev pub own_key : Node → Bytes → List Bytes → Option (List Bytes)
own_key x buf scan = if x.has_value then keyscan_add scan buf else some scan

-- `art_collect_keys`: `buf` is the path to the node. A call takes one unit of fuel, and each deeper
-- one has a longer path.
unfoldable pub collect : ℕ → Heap → ℕ → ℕ → Bytes → List Bytes → Option (List Bytes)
unfolding keyscan_add each in_order
collect zero h bcap nid buf scan = none
collect (suc fuel) h bcap nid buf scan =
    let visit = collect fuel h bcap in
    elim (h nid) [
      | none ↦ none
      | some x ↦
          if leb bcap (length buf + length x.prefix)
          then none
          else elim (own_key x (buf ++ x.prefix) scan) [
            | none ↦ none
            | some s ↦ each visit bcap (buf ++ x.prefix) (in_order x.body) s
          ]
    ]

-- `sizeof buf`
abbrev pub scan_cap : ℕ
scan_cap = 4096

-- The scan below a node that `art_cover` found.
abbrev pub scan_covered : Heap → Bytes → Option (ℕ × ℕ) → Option (List Bytes)
scan_covered h pfx none = some []
scan_covered h pfx (some (nid, d)) = collect (scan_cap + 1) h scan_cap nid (take d pfx) []

-- `art_scan_keys`
unfoldable pub scan_keys : Heap → Option ℕ → Bytes → Option (List Bytes)
unfolding cover collect
scan_keys h root pfx =
    if leb scan_cap (length pfx) then none else scan_covered h pfx (cover h root pfx scan_cap)
