-- ===== src/Art/Node/Tests.antt =====
-- src/kvspace.c, a child added to a node, taken away, and a full node grown.
use kvspace_c.Prelude.{
  ℕ, zero, suc, ◌<◌, ◌≡◌, ◌≢◌, ◌⊎◌, refl, some, none, List, [], ◌∷◌, arith, ◌==◌, if◌then◌else◌,
}
use kvspace_c.Art.Node
use kvspace_c.Art.Node.{
  Edge, Body, n4, n16, n48, n256, moved, assoc, put, position, bsearch, child_at, shift_to,
  exchange_sort, exchange,
}
use kvspace_c.Art.Node.Edges.{IsSorted}
use kvspace_c.Art.Node.Wide.{Indexed}
use kvspace_c.Art.Node.Valid.{IsValid, DiffersAt}
use kvspace_c.Art.Node.Adding.{add-Adds}
use kvspace_c.Art.Node.Removing.{rm-Removes}
use kvspace_c.Art.Node.Growing.{add-after_grow}

abbrev edge : ℕ → ℕ → Edge
edge k c = record { key = k; child = c }

abbrev three_edges : List Edge
three_edges = edge 97 1 ∷ edge 99 2 ∷ edge 120 3 ∷ []

three_edges-IsSorted : IsSorted three_edges
three_edges-IsSorted = omega arith

three-IsValid : IsValid (n16 three_edges)
three-IsValid = (omega arith, three_edges-IsSorted, omega arith)

absent_here : Node.child (n16 three_edges) 98 ≡ none
unfolding Node.child
absent_here = refl

abbrev four_edges : List Edge
four_edges = edge 97 1 ∷ edge 98 7 ∷ edge 99 2 ∷ edge 120 3 ∷ []

added_here : Node.add (n16 three_edges) 98 7 ≡ some (n16 four_edges)
unfolding Node.add
added_here = refl

add-Adds_example :
    IsValid (n16 four_edges) × DiffersAt 98 (some 7) (n16 three_edges) (n16 four_edges)
add-Adds_example =
    add-Adds (n16 three_edges) 98 7 three-IsValid (omega arith) absent_here added_here

-- An `n48` with two children, for the bytes 97 and 120.
abbrev two_bytes : ℕ → ℕ
two_bytes b = if b == 97 then 0 else if b == 120 then 1 else 255

two_bytes-Indexed : Indexed two_bytes 2
two_bytes-Indexed = record { in_range = in_range_here; apart = apart_here; reached = reached_here }
  where
    in_range_here : (b : ℕ) → b < 256 → (two_bytes b ≡ 255) ⊎ (two_bytes b < 2)
    in_range_here b lt = ground arith

    apart_here :
        (b c : ℕ) → b < 256 → c < 256 → two_bytes b ≢ 255 → two_bytes b ≡ two_bytes c → b ≡ c
    apart_here b c lb lc h e = ground arith

    reached_here : (i : ℕ) → i < 2 → (b : ℕ) × (b < 256) × (two_bytes b ≡ i)
    reached_here zero lt = (97, omega arith, refl)
    reached_here (suc zero) lt = (120, omega arith, refl)
    reached_here (suc (suc i)) lt = absurd (omega arith)

abbrev two_children : Body
two_children = n48 two_bytes (11 ∷ 12 ∷ [])

rm-Removes_example :
    IsValid (Node.rm two_children 97) × DiffersAt 97 none two_children (Node.rm two_children 97)
rm-Removes_example = rm-Removes two_children 97 (omega arith, two_bytes-Indexed) (omega arith)

abbrev full_edges : List Edge
full_edges = edge 99 2 ∷ edge 97 1 ∷ edge 120 3 ∷ edge 98 7 ∷ []

abbrev sorted_edges : List Edge
sorted_edges = edge 97 1 ∷ edge 98 7 ∷ edge 99 2 ∷ edge 120 3 ∷ []

full-IsValid : IsValid (n4 full_edges)
full-IsValid = (omega arith, omega arith, omega arith)

n4-ne-moved : n4 full_edges ≢ moved
n4-ne-moved e = cc

no_child : Node.child (n4 full_edges) 100 ≡ none
unfolding Node.child
no_child = refl

no_room : Node.add (n4 full_edges) 100 5 ≡ none
unfolding Node.add
no_room = refl

add-after_grow_example :
    (big : Body) × (out : Body) × (Node.grow (n4 full_edges) ≡ some big)
    × (Node.add big 100 5 ≡ some out)
add-after_grow_example =
    add-after_grow (n4 full_edges) 100 5 full-IsValid (omega arith) n4-ne-moved no_child no_room
