-- ===== src/Art/Tree/Tests.antt =====
-- src/kvspace.c, searches in a tree with the keys `/a/` and `/a/b`.
use kvspace_c.Prelude.{
  ℕ, ◌≡◌, ◌↔◌, refl, true, some, none, arith, [], ◌∷◌, ◌==◌, if◌then◌else◌, codes,
}
use kvspace_c.Art.Node.{n4, child}
use kvspace_c.Art.Tree.{Node, Heap, Walked, pfx_shared, find2, find_dir, Slab, leaf_chain}
use kvspace_c.Art.Tree.Lookup.{Spells, HasValue, find2_iff}
use kvspace_c.Art.Tree.Chain.{IsChain, leaf_chain-IsChain}

abbrev top : Node
top = record {
  prefix = codes "/a/";
  has_value = true;
  off = 64;
  body = n4 (record { key = b'b'; child = 1 } ∷ []);
}

abbrev bottom : Node
bottom = record { prefix = []; has_value = true; off = 128; body = n4 [] }

abbrev two_nodes : Heap
two_nodes id = if id == 0 then some top else if id == 1 then some bottom else none

find2_iff_example :
    (r : Walked) × (find2 two_nodes (some 0) (codes "/a/b") ≡ some r)
    × ((leaf : ℕ)
        → (r.0 ≡ some leaf) ↔ (Spells two_nodes 0 (codes "/a/b") leaf × HasValue two_nodes leaf))
find2_iff_example = find2_iff two_nodes 0 (codes "/a/b")

found_dir : find_dir two_nodes (some 0) (codes "/a/b") 2 1 ≡ some (some 1, some (0, 3))
unfolding find_dir pfx_shared child
found_dir = refl

abbrev small_slab : Slab
small_slab = record { nodes = two_nodes; next = 2; limit = 100 }

leaf_chain-IsChain_example :
    (id : ℕ) × (s' : Slab) × (leaf_chain 20 (codes "/a/longer/key") 192 small_slab ≡ (some id, s'))
    × IsChain (codes "/a/longer/key") 192 small_slab id s'
leaf_chain-IsChain_example =
    leaf_chain-IsChain 20 (codes "/a/longer/key") 192 small_slab (omega arith) (omega arith)
