-- ===== src/Art/Children.antt =====
-- src/kvspace.c, the scan for the children of a directory: `art_has_live_value`, `art_scan_children`
-- and `art_scan_pfx`. As in Art/Scan, `none` is a scan that failed. The search for a value goes as deep
-- as the tree, on fuel: a unit for each block handed out and one more, so that it runs out only where
-- a path comes to a block twice.
use kvspace_c.Prelude.{
  ℕ, zero, suc, ◌+◌, ◌-◌, Bool, true, false, ◌&&◌, Option, none, some, List, [], ◌∷◌, ◌++◌, map,
  ltb, leb, ◌==◌, if◌then◌else◌, length, get_or, take, drop, Bytes,
}
use kvspace_c.Art.Node.{Body, n4, n16, n48, n256, moved, Edge}
use kvspace_c.Art.Tree.{Node, Heap, Slab}
use kvspace_c.Art.Scan.{cover, keyscan_add, in_order, each, scan_cap}
use kvspace_c.Keys.{child_name_len}

abbrev child_of : Edge → ℕ
child_of e = e.child

-- The children in the order in which `art_has_live_value` goes through them.
unfoldable pub child_ids : Body → List ℕ
unfolding in_order
child_ids (n4 es) = map child_of es
child_ids (n16 es) = map child_of es
child_ids (n48 index cs) = cs
child_ids (n256 cs count) = map child_of (in_order (n256 cs count))
child_ids moved = []

-- The loop over the children, which ends at the first answer other than 0.
unfoldable pub any_live : (ℕ → Option Bool) → List ℕ → Option Bool
any_live live [] = some false
any_live live (c ∷ cs) =
    let rest = any_live live cs in
    elim (live c) [ none ↦ none | some true ↦ some true | some false ↦ rest ]

-- `art_has_live_value`
unfoldable pub has_live : ℕ → Heap → ℕ → Option Bool
unfolding any_live child_ids
has_live zero h nid = none
has_live (suc fuel) h nid =
    let live = has_live fuel h in
    elim (h nid) [
      | none ↦ none
      | some x ↦ if x.has_value then some true else any_live live (child_ids x.body)
    ]

-- Where `art_scan_children` looks for the end of a name: from the last byte before the parent's, since
-- U+00B7 may be split over two nodes.
abbrev pub name_start : ℕ → ℕ → ℕ
name_start bpos plen = if ltb (plen + 1) bpos then bpos - plen - 2 else 0

-- The length of the name that begins `rest`, searched from `start`.
unfoldable pub name_len : ℕ → Bytes → ℕ
unfolding child_name_len
name_len start rest = start + child_name_len (drop start rest)

-- A name that ends within what was read: it is added if a value is live at or below the node.
unfoldable pub add_name : Node → Bytes → ℕ → Option Bool → List Bytes → Option (List Bytes)
unfolding keyscan_add
add_name x rest len none scan = none
add_name x rest len (some false) scan = some scan
add_name x rest len (some true) scan =
    if get_or rest len 0 == b'/' && len + 1 == length rest && x.has_value
    then keyscan_add scan (take (len + 1) rest)
    else keyscan_add scan (take len rest)

-- What follows once a name was added, or was not.
abbrev pub and_then : Option (List Bytes) → (List Bytes → Option (List Bytes)) → Option (List Bytes)
and_then none go = none
and_then (some k) go = go k

-- `art_scan_children`: `buf` is the path to the node, and the names begin behind its first `plen`
-- bytes. Each deeper call has a longer path.
unfoldable pub scan_children : ℕ → Slab → ℕ → ℕ → ℕ → Bytes → List Bytes → Option (List Bytes)
unfolding has_live add_name name_len each keyscan_add in_order
scan_children zero s bcap plen nid buf scan = none
scan_children (suc fuel) s bcap plen nid buf scan =
    let visit = scan_children fuel s bcap plen in
    elim (s.nodes nid) [
      | none ↦ none
      | some x ↦
          let path = buf ++ x.prefix in
          let rest = drop plen path in
          let len = name_len (name_start (length buf) plen) rest in
          let below =
            λ (o : Option (List Bytes)). and_then o (each visit bcap path (in_order x.body)) in
          if leb bcap (length path)
          then none
          else if leb (length path) plen
          then below (some scan)
          else if ltb len (length rest)
          then (if len == 0
              then some scan
              else add_name x rest len (has_live (s.next + 1) s.nodes nid) scan)
          else below (if x.has_value then keyscan_add scan (take len rest) else some scan)
    ]

-- The scan below a node that `art_cover` found.
abbrev pub children_of : Slab → Bytes → Option (ℕ × ℕ) → Option (List Bytes)
children_of s pfx none = some []
children_of s pfx (some (nid, d)) =
    scan_children (scan_cap + 1) s scan_cap (length pfx) nid (take d pfx) []

-- `art_scan_pfx`, with the buffer of `list_scan`.
unfoldable pub scan_pfx : Slab → Option ℕ → Bytes → Option (List Bytes)
unfolding cover scan_children
scan_pfx s root pfx =
    if leb scan_cap (length pfx) then none else children_of s pfx (cover s.nodes root pfx scan_cap)
