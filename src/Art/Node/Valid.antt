-- ===== src/Art/Node/Valid.antt =====
-- src/kvspace.c: a tree node as a map from bytes to children, whichever of its four layouts it has.
use kvspace_c.Prelude.{ℕ, ◌≤◌, ◌<◌, ◌≡◌, Option, List, arith, All, length, ◌==◌, if◌then◌else◌}
use kvspace_c.Art.Node
use kvspace_c.Art.Node.{
  Edge, Body, n4, n16, n48, n256, moved, assoc, put, position, child_at, shift_to, insert_at,
  remove_key, remove_at, exchange_sort, index_edges, spread, swap_last,
}
use kvspace_c.Art.Node.Edges.{IsSorted, Distinct}
use kvspace_c.Art.Node.Search.{child_at-position}
use kvspace_c.Art.Node.Wide.{Indexed}

abbrev pub AreBytes : List Edge → Type 0
AreBytes es = All (λ e. e.key < 256) es

-- What the code keeps true of a node: it fits its layout, no byte has two children, an `n16` is
-- sorted, and the index of an `n48` and its children belong together.
abbrev pub IsValid : Body → Type 0
IsValid (n4 es) = length es ≤ 4 × Distinct es × AreBytes es
IsValid (n16 es) = length es ≤ 16 × IsSorted es × AreBytes es
IsValid (n48 index cs) = length cs ≤ 48 × Indexed index (length cs)
IsValid (n256 cs count) = Unit {0}
IsValid moved = Unit {0}

-- The search in an `n16` finds what stands there.
pub child-n16 : (es : List Edge) (b : ℕ) → IsSorted es → Node.child (n16 es) b ≡ assoc es b
unfolding Node.child
child-n16 es b s = child_at-position es b s

-- `node` and `out` have the same children, but for the byte `b`, which has `v` in `out`.
abbrev pub DiffersAt : ℕ → Option ℕ → Body → Body → Type 0
DiffersAt b v node out =
    (d : ℕ) → d < 256 → Node.child out d ≡ (if b == d then v else Node.child node d)

pub n256-put :
    (cs : ℕ → Option ℕ) (b n m : ℕ) (v : Option ℕ) → DiffersAt b v (n256 cs n) (n256 (put cs b v) m)
unfolding Node.child
n256-put cs b n m v d ltd = ground arith
