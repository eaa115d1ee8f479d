-- ===== src/Art/Tree/FindDir.antt =====
-- src/kvspace.c, `art_find_dir` beside `art_walk`: the same node, and a directory above it.
use kvspace_c.Prelude.{
  ℕ, zero, suc, ◌+◌, ◌≤◌, ◌<◌, ◌≡◌, refl, sym, ap, ◌∙◌, Option, some, none, [], ◌∷◌, arith, length,
  drop, true, Bool-cases, Option-cases, inl, inr, Bytes, ◌++◌, length-append,
}
use kvspace_c.Art.Node.{child}
use kvspace_c.Art.Tree.{
  Node, Heap, enters, walk_loop, find2, pick_dir, covers_sep, find_dir_loop, find_dir,
}
use kvspace_c.Art.Tree.Lookup.{enters-split, List-cases}

-- The node that a search returns, if it ends.
abbrev pub leaf_of {ℓ} : {A : Type ℓ} → Option (Option ℕ × A) → Option (Option ℕ)
leaf_of none = none
leaf_of (some (o, a)) = some o

module _ (h : Heap) (sep len : ℕ) where
  find_dir_loop-walk_loop :
      (fuel : ℕ) (o : Option ℕ) (rest : Bytes) (d : ℕ) (dir par : Option (ℕ × ℕ))
      → leaf_of (find_dir_loop fuel h sep len o rest d dir)
        ≡ leaf_of (walk_loop fuel h o rest d par)
  unfolding find_dir_loop walk_loop
  find_dir_loop-walk_loop zero o rest d dir par = refl
  find_dir_loop-walk_loop (suc fuel) none rest d dir par = refl
  find_dir_loop-walk_loop (suc fuel) (some nid) rest d dir par = elim (Option-cases (h nid)) [
    | inl g ↦ rw (find_dir_loop, walk_loop, g) refl
    | inr (x, g) ↦ elim (Bool-cases (enters x rest)) [
      | inr no' ↦ rw (find_dir_loop, walk_loop, g, no') refl
      | inl yes' ↦ elim (List-cases (drop (length x.prefix) rest)) [
        | inl f ↦ rw (find_dir_loop, walk_loop, g, yes', f) refl
        | inr (b, t, f) ↦
            rw (find_dir_loop, walk_loop, g, yes', f)
              (find_dir_loop-walk_loop fuel (child x.body b) t _ _ _)
      ]
    ]
  ]

  -- A directory lies behind the separator, and not behind the end of the key.
  abbrev Within : ℕ → Option (ℕ × ℕ) → Type 0
  Within klen none = Unit {0}
  Within klen (some (nid, dd)) = (sep < dd) × (dd ≤ klen)

  pick_dir-Within :
      (dir : Option (ℕ × ℕ)) (nid d d' klen : ℕ)
      → Within klen dir
      → d' ≤ klen
      → Within klen (pick_dir dir (covers_sep sep len d d') nid d')
  pick_dir-Within (some p) nid d d' klen w le = w
  pick_dir-Within none nid d d' klen w le = elim (Bool-cases (covers_sep sep len d d')) [
    | inl e ↦ rw e (covers-lt e, le)
    | inr e ↦ rw e tt
  ]
    where
      covers-lt : covers_sep sep len d d' ≡ true → sep < d'
      covers-lt e = ground arith

  find_dir_loop-Within :
      (fuel : ℕ) (o : Option ℕ) (rest : Bytes) (d : ℕ) (dir : Option (ℕ × ℕ)) (klen : ℕ)
      {leaf : Option ℕ} {out : Option (ℕ × ℕ)}
      → d + length rest ≤ klen
      → Within klen dir
      → find_dir_loop fuel h sep len o rest d dir ≡ some (leaf, out)
      → Within klen out
  unfolding find_dir_loop
  find_dir_loop-Within zero o rest d dir klen room w e = cc
  find_dir_loop-Within (suc fuel) none rest d dir klen {leaf} {out} room w e =
      let q : none ≡ out = ground arith in rw (sym q) tt
  find_dir_loop-Within (suc fuel) (some nid) rest d dir klen {leaf} {out} room w e =
      elim (Option-cases (h nid)) [
        | inl g ↦ let q : none ≡ out = out-eq (rw (find_dir_loop, g) at e) in rw (sym q) tt
        | inr (x, g) ↦ elim (Bool-cases (enters x rest)) [
          | inr no' ↦ let q : none ≡ out = out-eq (rw (find_dir_loop, g, no') at e) in rw (sym q) tt
          | inl yes' ↦
              let split = (enters-split x rest yes').1 in
              elim (List-cases (drop (length x.prefix) rest)) [
                | inl f ↦
                    let q = out-eq (rw (find_dir_loop, g, yes', f) at e) in
                    rw (sym q) (
                      pick_dir-Within dir nid d (d + length x.prefix) klen w
                        (omega (arith, room, len_of x rest [] split f)))
                | inr (b, t, f) ↦
                    find_dir_loop-Within fuel (child x.body b) t (d + length x.prefix + 1) _ klen
                      (omega (arith, room, len_of x rest (b ∷ t) split f))
                      (pick_dir-Within dir nid d (d + length x.prefix) klen w
                        (omega (arith, room, len_of x rest (b ∷ t) split f)))
                      (rw (find_dir_loop, g, yes', f) at e)
              ]
        ]
      ]
    where
      out-eq :
          {a c : Option ℕ} {p q : Option (ℕ × ℕ)}
          → ◌≡◌ {A = Option (Option ℕ × Option (ℕ × ℕ))} (some (a, p)) (some (c, q))
          → p ≡ q
      out-eq e = cc

      len_of :
          (x : Node) (rest r : Bytes)
          → rest ≡ x.prefix ++ drop (length x.prefix) rest
          → drop (length x.prefix) rest ≡ r
          → length rest ≡ length x.prefix + length r
      len_of x rest r split f =
          let e : length rest ≡ length (x.prefix ++ r) =
            ap length (split ∙ ap (λ z. x.prefix ++ z) f) in
          e ∙ length-append x.prefix r

-- `art_find_dir` ends with the node that `art_find2` finds.
pub find_dir-find2 :
    (h : Heap) (root : Option ℕ) (key : Bytes) (sep len : ℕ)
    → leaf_of (find_dir h root key sep len) ≡ leaf_of (find2 h root key)
unfolding find_dir find2
find_dir-find2 h root key sep len =
    find_dir_loop-walk_loop h sep len (length key + 2) root key 0 none none

-- The depth of the directory that `art_find_dir` reports is more than the index of the separator,
-- and not more than the length of the key.
pub find_dir-Within :
    (h : Heap) (root : Option ℕ) (key : Bytes) (sep len : ℕ) {leaf : Option ℕ} {dir dird : ℕ}
    → find_dir h root key sep len ≡ some (leaf, some (dir, dird))
    → (sep < dird) × (dird ≤ length key)
unfolding find_dir
find_dir-Within h root key sep len e =
    find_dir_loop-Within h sep len (length key + 2) root key 0 none (length key) (omega arith) tt e
