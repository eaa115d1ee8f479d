-- ===== src/Art/Tree.antt =====
-- src/kvspace.c, the searches in the tree: `pfx_shared`, `art_walk`, `art_find2`, `art_find_dir` and
-- `art_follow`, and the chain of nodes for a new key, `art_leaf_chain`. `none` stands for the id -1
-- and for a block that is not mapped. What is left of a key is the list `rest`, and `d` the number of
-- bytes before it.
pub mod Lookup
pub mod FindDir
pub mod Chain
mod Tests
use kvspace_c.Prelude.{
  ℕ, zero, suc, ◌+◌, ◌≤◌, Bool, true, false, not, ◌&&◌, ◌||◌, Option, none, some, List, [], ◌∷◌,
  ltb, leb, ◌==◌, if◌then◌else◌, length, take, drop, Bytes,
}
use kvspace_c.Art.Node.{Body, n4, n16, n48, n256, moved, child, add}

-- `art_hdr_t` with what follows it. In a moved node `off` is the id of the node that replaces it.
pub record Node : Type 0 where
  pub prefix : Bytes
  pub has_value : Bool
  pub off : ℕ
  pub body : Body

-- `art_hdr`: the node with an id.
abbrev pub Heap : Type 0
Heap = ℕ → Option Node

abbrev pub is_moved : Body → Bool
is_moved (n4 es) = false
is_moved (n16 es) = false
is_moved (n48 index cs) = false
is_moved (n256 cs count) = false
is_moved moved = true

-- `pfx_shared`: how many bytes two strings share at their start.
unfoldable pub pfx_shared : Bytes → Bytes → ℕ
pfx_shared [] s = 0
pfx_shared (x ∷ p) [] = 0
pfx_shared (x ∷ p) (y ∷ s) = let rest = pfx_shared p s in if x == y then suc rest else 0

-- Whether the prefix of a node that may be entered stands at the start of the rest of the key.
abbrev pub enters : Node → Bytes → Bool
enters x rest = not (is_moved x.body) && pfx_shared x.prefix rest == length x.prefix

abbrev pub value_at : ℕ → Node → Option ℕ
value_at nid x = if x.has_value then some nid else none

-- The node found, and the last node from which the search went down, with the depth there.
abbrev pub Walked : Type 0
Walked = Option ℕ × Option (ℕ × ℕ)

-- `art_walk`; a turn takes one unit of fuel, and the outer `none` is fuel that ran out.
unfoldable pub walk_loop : ℕ → Heap → Option ℕ → Bytes → ℕ → Option (ℕ × ℕ) → Option Walked
unfolding pfx_shared
walk_loop zero h o rest d par = none
walk_loop (suc fuel) h none rest d par = some (none, par)
walk_loop (suc fuel) h (some nid) rest d par = elim (h nid) [
  | none ↦ some (none, par)
  | some x ↦
      let d' = d + length x.prefix in
      let deeper =
        λ (b : ℕ) (t : Bytes). walk_loop fuel h (child x.body b) t (d' + 1) (some (nid, d')) in
      if enters x rest
      then elim (drop (length x.prefix) rest) [
        | [] ↦ some (value_at nid x, par)
        | b ∷ t ↦ deeper b t
      ]
      else some (none, par)
]

-- `art_find2`; without a root nothing is found.
unfoldable pub find2 : Heap → Option ℕ → Bytes → Option Walked
unfolding walk_loop
find2 h root key = walk_loop (length key + 2) h root key 0 none

-- Whether the node entered at depth `entry_d` and left at depth `d` covers the last separator.
abbrev pub covers_sep : ℕ → ℕ → ℕ → ℕ → Bool
covers_sep last_sep seplen entry_d d =
    ltb 0 last_sep
    && ltb 0 seplen
    && ((leb entry_d last_sep && ltb last_sep d) || (d == last_sep + seplen))

abbrev pub pick_dir : Option (ℕ × ℕ) → Bool → ℕ → ℕ → Option (ℕ × ℕ)
pick_dir (some p) covers nid d = some p
pick_dir none covers nid d = if covers then some (nid, d) else none

-- `art_find_dir`: the node found, and the first node on the way that covers the last separator, with
-- the depth behind its prefix. The source stores the latter only where the key ends at a node.
unfoldable pub find_dir_loop :
    ℕ → Heap → ℕ → ℕ → Option ℕ → Bytes → ℕ → Option (ℕ × ℕ) → Option (Option ℕ × Option (ℕ × ℕ))
unfolding pfx_shared
find_dir_loop zero h sep len o rest d dir = none
find_dir_loop (suc fuel) h sep len none rest d dir = some (none, none)
find_dir_loop (suc fuel) h sep len (some nid) rest d dir = elim (h nid) [
  | none ↦ some (none, none)
  | some x ↦
      let d' = d + length x.prefix in
      let dir' = pick_dir dir (covers_sep sep len d d') nid d' in
      let deeper =
        λ (b : ℕ) (t : Bytes). find_dir_loop fuel h sep len (child x.body b) t (d' + 1) dir' in
      if enters x rest
      then elim (drop (length x.prefix) rest) [
        | [] ↦ some (value_at nid x, dir')
        | b ∷ t ↦ deeper b t
      ]
      else some (none, none)
]

unfoldable pub find_dir : Heap → Option ℕ → Bytes → ℕ → ℕ → Option (Option ℕ × Option (ℕ × ℕ))
unfolding find_dir_loop
find_dir h root key sep len = find_dir_loop (length key + 2) h sep len root key 0 none

-- `art_follow`: at most eight moves are followed.
unfoldable pub follow_loop : ℕ → Heap → Option ℕ → Option ℕ
follow_loop zero h o = none
follow_loop (suc n) h none = none
follow_loop (suc n) h (some id) = elim (h id) [
  | none ↦ none
  | some x ↦ let next = follow_loop n h (some x.off) in if is_moved x.body then next else some id
]

unfoldable pub follow : Heap → ℕ → Option ℕ
unfolding follow_loop
follow h id = follow_loop 8 h (some id)

-- The slab of blocks: its nodes, the next block to hand out (`art_bump`), and the number of blocks to
-- which it can grow.
pub record Slab : Type 0 where
  pub nodes : Heap
  pub next : ℕ
  pub limit : ℕ

abbrev pub write : Heap → ℕ → Node → Heap
write h id x i = if i == id then some x else h i

-- `art_balloc` for an `n4`, which takes one block, and what the caller then writes into the node.
unfoldable pub new_n4 : Node → Slab → Option (ℕ × Slab)
new_n4 x s =
    if ltb s.limit (s.next + 1)
    then none
    else some (s.next, record s { nodes = write s.nodes s.next x; next = s.next + 1 })

abbrev pub art_prefix_max : ℕ
art_prefix_max = 10

-- `art_add` on a node of the slab; the callers ignore its result.
abbrev pub added : Node → ℕ → ℕ → Node
added x b c = elim (add x.body b c) [ none ↦ x | some body ↦ record x { body = body } ]

unfoldable pub add_child : ℕ → ℕ → ℕ → Slab → Slab
add_child id b c s = elim (s.nodes id) [
  | none ↦ s
  | some x ↦ record s { nodes = write s.nodes id (added x b c) }
]

abbrev pub leaf_of_key : Bytes → ℕ → Node
leaf_of_key rest off = record { prefix = rest; has_value = true; off = off; body = n4 [] }

abbrev pub link_of_key : Bytes → Node
link_of_key rest = record {
  prefix = take art_prefix_max rest;
  has_value = false;
  off = 0;
  body = n4 [];
}

-- The new node gets the chain behind it as its child.
unfoldable pub link : ℕ → ℕ → Option ℕ × Slab → Option ℕ × Slab
unfolding add_child
link id b (none, s) = (none, s)
link id b (some c, s) = (some id, add_child id b c s)

-- `art_leaf_chain` for what is left of the key: the id of the first node, or `none` for -1, and the
-- slab, which keeps what was allocated before a failure. Each node takes one unit of fuel.
unfoldable pub leaf_chain : ℕ → Bytes → ℕ → Slab → Option ℕ × Slab
unfolding new_n4 link
leaf_chain zero rest off s = (none, s)
leaf_chain (suc fuel) rest off s =
    let deeper = λ (t : Bytes) (s1 : Slab). leaf_chain fuel t off s1 in
    if leb (length rest) art_prefix_max
    then elim (new_n4 (leaf_of_key rest off) s) [ none ↦ (none, s) | some (id, s') ↦ (some id, s') ]
    else elim (new_n4 (link_of_key rest) s) [
      | none ↦ (none, s)
      | some (id, s1) ↦ elim (drop art_prefix_max rest) [
        | [] ↦ (none, s1)
        | b ∷ t ↦ link id b (deeper t s1)
      ]
    ]
