-- ===== src/Art/Tree/Chain.antt =====
-- src/kvspace.c, `art_leaf_chain`: the chain of nodes that it makes spells the key.
use kvspace_c.Prelude.{
  ℕ, zero, suc, ◌+◌, ◌-◌, ◌≤◌, ◌<◌, ◌≡◌, ◌≢◌, refl, sym, ap, ◌∙◌, some, [], ◌∷◌, ◌++◌, arith,
  length, take, drop, leb, true, false, Bool-cases, inl, inr, Bytes, take-append-drop,
}
use kvspace_c.Art.Node.{child, add, assoc}
use kvspace_c.Art.Tree.{
  Node, Heap, Slab, write, new_n4, added, add_child, leaf_of_key, link_of_key, leaf_chain,
  art_prefix_max, link, is_moved,
}
use kvspace_c.Art.Tree.Lookup.{Spells, ends, goes, List-cases}

-- In every heap that has the blocks from `s.next` on as in `s'`, the node `id` begins a chain that
-- spells `rest` and ends at a node with the value `off`.
pub record IsChain (rest : Bytes) (off : ℕ) (s : Slab) (id : ℕ) (s' : Slab) : Type 0 where
  pub starts : id ≡ s.next
  pub grows : s.next < s'.next
  pub same_limit : s'.limit ≡ s.limit
  pub older : (i : ℕ) → i < s.next → s'.nodes i ≡ s.nodes i
  pub spells :
      (h : Heap)
      → ((i : ℕ) → s.next ≤ i → i < s'.next → h i ≡ s'.nodes i)
      → (leaf : ℕ) × (x : Node) × Spells h id rest leaf
        × (h leaf ≡ some x)
        × (x.has_value ≡ true)
        × (x.off ≡ off)

write_self : (h : Heap) (id : ℕ) (x : Node) → write h id x id ≡ some x
write_self h id x = ground arith

write_ne : (h : Heap) (id i : ℕ) (x : Node) → i ≢ id → write h id x i ≡ h i
write_ne h id i x ne = ground arith

abbrev pushed : Node → Slab → Slab
pushed x s = record s { nodes = write s.nodes s.next x; next = s.next + 1 }

new_n4-some : (x : Node) (s : Slab) → s.next < s.limit → new_n4 x s ≡ some (s.next, pushed x s)
unfolding new_n4
new_n4-some x s lt = ground arith

chain-leaf :
    (fuel : ℕ) (rest : Bytes) (off : ℕ) (s : Slab)
    → leb (length rest) art_prefix_max ≡ true
    → s.next < s.limit
    → leaf_chain (suc fuel) rest off s ≡ (some s.next, pushed (leaf_of_key rest off) s)
unfolding leaf_chain
chain-leaf fuel rest off s e lt = rw (leaf_chain, e, new_n4-some (leaf_of_key rest off) s lt) refl

chain-link :
    (fuel : ℕ) (rest : Bytes) (off : ℕ) (s : Slab) (b : ℕ) (t : Bytes) {c : ℕ} {s2 : Slab}
    → leb (length rest) art_prefix_max ≡ false
    → s.next < s.limit
    → drop art_prefix_max rest ≡ b ∷ t
    → leaf_chain fuel t off (pushed (link_of_key rest) s) ≡ (some c, s2)
    → leaf_chain (suc fuel) rest off s ≡ (some s.next, add_child s.next b c s2)
unfolding leaf_chain link
chain-link fuel rest off s b t e lt f r =
    rw (leaf_chain, e, new_n4-some (link_of_key rest) s lt, f) (ap (link s.next b) r)

child_of_link :
    (rest : Bytes) (b c : ℕ)
    → (is_moved (added (link_of_key rest) b c).body ≡ false)
      × (child (added (link_of_key rest) b c).body b ≡ some c)
unfolding add child assoc
child_of_link rest b c = (refl, ground arith)

add_child-eq :
    (id b c : ℕ) (s : Slab) (x : Node)
    → s.nodes id ≡ some x
    → add_child id b c s ≡ record s { nodes = write s.nodes id (added x b c) }
unfolding add_child
add_child-eq id b c s x g = rw (add_child, g) refl

length-drop : (n : ℕ) (xs : Bytes) → length (drop n xs) ≡ length xs - n
length-drop zero xs = omega arith
length-drop (suc n) [] = omega arith
length-drop (suc n) (x ∷ xs) = omega (arith, length-drop n xs)

leaf-IsChain :
    (rest : Bytes) (off : ℕ) (s : Slab)
    → IsChain rest off s s.next (pushed (leaf_of_key rest off) s)
leaf-IsChain rest off s =
    let x = leaf_of_key rest off in
    record {
      starts = refl;
      grows = omega arith;
      same_limit = refl;
      older = λ i lt. write_ne s.nodes s.next i x (omega arith);
      spells = λ h agree.
          let g : h s.next ≡ some x =
            agree s.next (omega arith) (omega arith) ∙ write_self s.nodes s.next x in
          (s.next, x, ends s.next x g refl, g, refl, refl);
    }

-- A chain behind a new node that links to it is a chain for the longer key.
link-IsChain :
    (rest : Bytes) (off : ℕ) (s : Slab) (b : ℕ) (t : Bytes) (c : ℕ) (s2 : Slab)
    → drop art_prefix_max rest ≡ b ∷ t
    → IsChain t off (pushed (link_of_key rest) s) c s2
    → IsChain rest off s s.next (add_child s.next b c s2)
unfolding add
link-IsChain rest off s b t c s2 f ch =
    let x = link_of_key rest in
    let y = added x b c in
    let at : s2.nodes s.next ≡ some x =
      ch.older s.next (omega arith) ∙ write_self s.nodes s.next x in
    let whole : rest ≡ take art_prefix_max rest ++ b ∷ t =
      sym (take-append-drop art_prefix_max rest) ∙ ap (λ r. take art_prefix_max rest ++ r) f in
    let (live, kid) = child_of_link rest b c in
    rw (add_child-eq s.next b c s2 x at) (record {
      starts = refl;
      grows = omega (arith, ch.grows);
      same_limit = ch.same_limit;
      older = λ i lt.
          write_ne s2.nodes s.next i y (omega arith)
          ∙ ch.older i (omega arith)
          ∙ write_ne s.nodes s.next i x (omega arith);
      spells = λ h agree.
          let (leaf, z, sp, g, v, o) =
            ch.spells h
              (λ i le lt. agree i (omega arith) lt ∙ write_ne s2.nodes s.next i y (omega arith)) in
          let top : h s.next ≡ some y =
            agree s.next (omega arith) (omega (arith, ch.grows)) ∙ write_self s2.nodes s.next y in
          let path : Spells h s.next (take art_prefix_max rest ++ b ∷ t) leaf =
            goes s.next y b c t leaf top live kid sp in
          (leaf, z, rw (sym whole) at path, g, v, o);
    })

-- On more fuel than bytes left, where the slab has room for as many blocks as bytes are left,
-- and one more, `art_leaf_chain` succeeds: it writes no block that was in use, and the blocks
-- that it takes hold a chain that spells the rest of the key and ends at its value.
pub leaf_chain-IsChain :
    (fuel : ℕ) (rest : Bytes) (off : ℕ) (s : Slab)
    → length rest < fuel
    → s.next + length rest < s.limit
    → (id : ℕ) × (s' : Slab) × (leaf_chain fuel rest off s ≡ (some id, s'))
      × IsChain rest off s id s'
leaf_chain-IsChain zero rest off s enough room = absurd (omega arith)
leaf_chain-IsChain (suc fuel) rest off s enough room =
    elim (Bool-cases (leb (length rest) art_prefix_max)) [
      | inl short ↦ (
        s.next,
        pushed (leaf_of_key rest off) s,
        chain-leaf fuel rest off s short (omega arith),
        leaf-IsChain rest off s,
      )
      | inr long ↦ elim (List-cases (drop art_prefix_max rest)) [
        | inl f ↦
            let l = length-drop art_prefix_max rest in
            absurd (let e : length rest - 10 ≡ 0 = sym l ∙ ap length f in ground (arith, long, e))
        | inr (b, t, f) ↦
            let l : suc (length t) ≡ length rest - 10 =
              sym (ap length f) ∙ length-drop art_prefix_max rest in
            let (c, s2, r, ch) =
              leaf_chain-IsChain fuel t off (pushed (link_of_key rest) s) (omega (arith, l))
                (omega (arith, l)) in
            (
              s.next,
              add_child s.next b c s2,
              chain-link fuel rest off s b t long (omega arith) f r,
              link-IsChain rest off s b t c s2 f ch,
            )
      ]
    ]
