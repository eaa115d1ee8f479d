-- ===== src/Art/Scan/Tests.antt =====
-- src/kvspace.c, scans of a tree with the keys `/a/` and `/a/b`.
use kvspace_c.Prelude.{
  arith, sym, inl, inr, Bool-cases, none, ◌≡◌, refl, true, some, none, [], ◌∷◌, ◌==◌, if◌then◌else◌,
  codes,
}
use kvspace_c.Art.Node.{n4, child}
use kvspace_c.Art.Children.{scan_pfx, scan_children, name_len, has_live, add_name}
use kvspace_c.Keys.{child_name_len}
use kvspace_c.Art.Tree.{Slab, Node, Heap, pfx_shared}
use kvspace_c.Art.Scan.{scan_keys, cover, keyscan_add, collect}
use kvspace_c.Art.ScanLaws.{Adds, AreValid, Under, collect-Adds}
use kvspace_c.Art.ScanFuel.{collect-enough}
use kvspace_c.Prelude.{Bytes, ◌++◌}

abbrev top : Node
top = record {
  prefix = codes "/a/";
  has_value = true;
  off = 64;
  body = n4 (record { key = b'b'; child = 1 } ∷ []);
}

abbrev bottom : Node
bottom = record { prefix = []; has_value = true; off = 128; body = n4 [] }

abbrev two_nodes : Heap
two_nodes id = if id == 0 then some top else if id == 1 then some bottom else none

all_keys : scan_keys two_nodes (some 0) (codes "/a") ≡ some (codes "/a/" ∷ codes "/a/b" ∷ [])
unfolding scan_keys cover collect pfx_shared child keyscan_add
all_keys = refl

one_key : scan_keys two_nodes (some 0) (codes "/a/b") ≡ some (codes "/a/b" ∷ [])
unfolding scan_keys cover collect pfx_shared child keyscan_add
one_key = refl

no_key : scan_keys two_nodes (some 0) (codes "/b") ≡ some []
unfolding scan_keys cover collect pfx_shared child keyscan_add
no_key = refl

scanned_here : collect 20 two_nodes 20 0 [] [] ≡ some (codes "/a/" ∷ codes "/a/b" ∷ [])
unfolding collect keyscan_add
scanned_here = refl

two_nodes-AreValid : AreValid two_nodes
two_nodes-AreValid nid x g = elim (Bool-cases (nid == 0)) [
  | inl e ↦
      let q : some top ≡ some x = rw e at g in
      let same : top ≡ x = cc q in rw (sym same) (omega arith, (tt, tt), (omega arith, tt))
  | inr e ↦ elim (Bool-cases (nid == 1)) [
    | inl f ↦
        let q : some bottom ≡ some x = rw (e, f) at g in
        let same : bottom ≡ x = cc q in rw (sym same) (omega arith, tt, tt)
    | inr f ↦ absurd (let q : none ≡ some x = rw (e, f) at g in cc q)
  ]
]

collect-enough_example : collect 20 two_nodes 20 0 [] [] ≡ collect 30 two_nodes 20 0 [] []
collect-enough_example = collect-enough 20 30 two_nodes 20 0 [] [] (omega arith) (omega arith)

collect-Adds_example :
    Adds
      (λ k. (s : Bytes) × Under two_nodes 0 s × (k ≡ [] ++ s))
      []
      (codes "/a/" ∷ codes "/a/b" ∷ [])
collect-Adds_example =
    collect-Adds 20 two_nodes 20 0 [] [] (codes "/a/" ∷ codes "/a/b" ∷ []) two_nodes-AreValid
      scanned_here

abbrev two_blocks : Slab
two_blocks = record { nodes = two_nodes; next = 2; limit = 100 }

-- The directory `/a/` holds a value itself, and the child `b`.
root_names : scan_pfx two_blocks (some 0) (codes "/") ≡ some (codes "a/" ∷ [])
unfolding scan_pfx scan_children cover pfx_shared child keyscan_add name_len child_name_len has_live
    add_name
root_names = refl

child_names : scan_pfx two_blocks (some 0) (codes "/a/") ≡ some (codes "b" ∷ [])
unfolding scan_pfx scan_children cover pfx_shared child keyscan_add name_len child_name_len has_live
    add_name
child_names = refl
