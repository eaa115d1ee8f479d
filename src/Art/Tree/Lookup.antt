-- ===== src/Art/Tree/Lookup.antt =====
-- src/kvspace.c, `art_walk` and `art_find_dir`: which node a search finds.
use kvspace_c.Prelude.{
  ℕ, zero, suc, ◌+◌, ◌<◌, ◌≡◌, refl, sym, ap, ◌∙◌, Option, some, none, [], ◌∷◌, ◌++◌, arith, length,
  drop, ◌==◌, true, false, Bool-cases, inl, inr, Bytes, ◌↔◌, ◌⊎◌, length-append, append-nil,
  Option-cases,
}
use kvspace_c.Art.Node.{child}
use kvspace_c.Art.Tree.{
  Node, Heap, is_moved, pfx_shared, enters, value_at, Walked, walk_loop, find2,
}

-- The keys that a walk from a node spells, with the node at which each ends: the prefix of a node,
-- or its prefix, a byte of a child, and what is spelled from there.
pub data Spells (h : Heap) : ℕ → Bytes → ℕ → Type 0 where
  ends : (nid : ℕ) (x : Node) → h nid ≡ some x → is_moved x.body ≡ false → Spells h nid x.prefix nid
  goes :
      (nid : ℕ) (x : Node) (b m : ℕ) (t : Bytes) (leaf : ℕ)
      → h nid ≡ some x
      → is_moved x.body ≡ false
      → child x.body b ≡ some m
      → Spells h m t leaf
      → Spells h nid (x.prefix ++ b ∷ t) leaf

abbrev pub HasValue : Heap → ℕ → Type 0
HasValue h leaf = (x : Node) × (h leaf ≡ some x) × (x.has_value ≡ true)

pfx_shared-split : (p s : Bytes) → (pfx_shared p s == length p) ≡ true → s ≡ p ++ drop (length p) s
unfolding pfx_shared
pfx_shared-split [] s e = refl
pfx_shared-split (x ∷ p) [] e = absurd (ground arith)
pfx_shared-split (x ∷ p) (y ∷ s) e = ground (arith, pfx_shared-split p s)

pfx_shared-append : (p s : Bytes) → (pfx_shared p (p ++ s) == length p) ≡ true
unfolding pfx_shared
pfx_shared-append [] s = ground arith
pfx_shared-append (x ∷ p) s = ground (arith, pfx_shared-append p s)

drop-prefix : (p s : Bytes) → drop (length p) (p ++ s) ≡ s
drop-prefix [] s = refl
drop-prefix (x ∷ p) s = drop-prefix p s

-- A node is entered exactly when it was not moved and its prefix begins the rest.
pub enters-split :
    (x : Node) (rest : Bytes)
    → enters x rest ≡ true
    → (is_moved x.body ≡ false) × (rest ≡ x.prefix ++ drop (length x.prefix) rest)
enters-split x rest e = (ground arith, pfx_shared-split x.prefix rest (ground arith))

enters-append : (x : Node) (s : Bytes) → is_moved x.body ≡ false → enters x (x.prefix ++ s) ≡ true
enters-append x s e = let p = pfx_shared-append x.prefix s in ground (arith, p)

pub value_at-some :
    (nid leaf : ℕ) (x : Node) → value_at nid x ≡ some leaf → (nid ≡ leaf) × (x.has_value ≡ true)
value_at-some nid leaf x e = ground arith

-- What is left once a prefix and a byte are taken off is shorter.
pub shorter :
    (p s t : Bytes) (b : ℕ)
    → s ≡ p ++ drop (length p) s
    → drop (length p) s ≡ b ∷ t
    → length t < length s
shorter p s t b e f =
    let len : length s ≡ length (p ++ b ∷ t) = ap length (e ∙ ap (λ r. p ++ r) f) in
    omega (arith, len, length-append p (b ∷ t))

pub List-cases : (xs : Bytes) → (xs ≡ []) ⊎ ((b : ℕ) × (t : Bytes) × (xs ≡ b ∷ t))
List-cases [] = inl refl
List-cases (b ∷ t) = inr (b, t, refl)

module _ (h : Heap) (fuel nid : ℕ) (rest : Bytes) (d : ℕ) (par : Option (ℕ × ℕ)) where
  abbrev turn : Option Walked
  turn = walk_loop (suc fuel) h (some nid) rest d par

  pub walk-missing : h nid ≡ none → turn ≡ some (none, par)
  unfolding walk_loop
  walk-missing g = rw (walk_loop, g) refl

  module _ (x : Node) (g : h nid ≡ some x) where
    pub walk-refused : enters x rest ≡ false → turn ≡ some (none, par)
    unfolding walk_loop
    walk-refused e = rw (walk_loop, g, e) refl

    pub walk-end :
        enters x rest ≡ true → drop (length x.prefix) rest ≡ [] → turn ≡ some (value_at nid x, par)
    unfolding walk_loop
    walk-end e f = rw (walk_loop, g, e, f) refl

    pub walk-down :
        (b : ℕ) (t : Bytes)
        → enters x rest ≡ true
        → drop (length x.prefix) rest ≡ b ∷ t
        → turn
          ≡ walk_loop fuel h
              (child x.body b)
              t
              (d + length x.prefix + 1)
              (some (nid, d + length x.prefix))
    unfolding walk_loop
    walk-down b t e f = rw (walk_loop, g, e, f) refl

pub walk-no_fuel :
    (h : Heap) (o : Option ℕ) (rest : Bytes) (d : ℕ) (par : Option (ℕ × ℕ))
    → walk_loop 0 h o rest d par ≡ none
unfolding walk_loop
walk-no_fuel h o rest d par = refl

pub walk-no_node :
    (h : Heap) (fuel : ℕ) (rest : Bytes) (d : ℕ) (par : Option (ℕ × ℕ))
    → walk_loop (suc fuel) h none rest d par ≡ some (none, par)
unfolding walk_loop
walk-no_node h fuel rest d par = refl

-- `Spells` from a node that may be missing.
abbrev pub SpellsFrom : Heap → Option ℕ → Bytes → ℕ → Type 0
SpellsFrom h none key leaf = ⊥
SpellsFrom h (some nid) key leaf = Spells h nid key leaf

module _ (h : Heap) where
  goes-SpellsFrom :
      (nid : ℕ) (x : Node) (b : ℕ) (t : Bytes) (o : Option ℕ) {leaf : ℕ}
      → h nid ≡ some x
      → is_moved x.body ≡ false
      → child x.body b ≡ o
      → SpellsFrom h o t leaf
      → Spells h nid (x.prefix ++ b ∷ t) leaf
  goes-SpellsFrom nid x b t none g live c sp = absurd sp
  goes-SpellsFrom nid x b t (some m) {leaf} g live c sp = goes nid x b m t leaf g live c sp

  walk_loop-Spells :
      (fuel : ℕ) (o : Option ℕ) (rest : Bytes) (d : ℕ) (par : Option (ℕ × ℕ)) {leaf : ℕ}
      {par' : Option (ℕ × ℕ)}
      → walk_loop fuel h o rest d par ≡ some (some leaf, par')
      → SpellsFrom h o rest leaf × HasValue h leaf
  walk_loop-Spells zero o rest d par e = let q = walk-no_fuel h o rest d par in absurd (cc (q, e))
  walk_loop-Spells (suc fuel) none rest d par e =
      let q = walk-no_node h fuel rest d par in absurd (cc (q, e))
  walk_loop-Spells (suc fuel) (some nid) rest d par {leaf} {par'} e = elim (Option-cases (h nid)) [
    | inl g ↦ let q = walk-missing h fuel nid rest d par g in absurd (cc (q, e))
    | inr (x, g) ↦ elim (Bool-cases (enters x rest)) [
      | inr no' ↦ let q = walk-refused h fuel nid rest d par x g no' in absurd (cc (q, e))
      | inl yes' ↦
          let (live, split) = enters-split x rest yes' in
          elim (List-cases (drop (length x.prefix) rest)) [
            | inl f ↦
                let q = walk-end h fuel nid rest d par x g yes' f in
                let (same, v) = value_at-some nid leaf x (cc (q, e)) in
                let whole : rest ≡ x.prefix =
                  split ∙ ap (λ r. x.prefix ++ r) f ∙ append-nil x.prefix in
                (rw (whole, sym same) (ends nid x g live), (x, rw (sym same) g, v))
            | inr (b, t, f) ↦
                let q = walk-down h fuel nid rest d par x g b t yes' f in
                let (sp, v) = walk_loop-Spells fuel (child x.body b) t _ _ (sym q ∙ e) in
                let whole : rest ≡ x.prefix ++ b ∷ t = split ∙ ap (λ r. x.prefix ++ r) f in
                (rw whole (goes-SpellsFrom nid x b t (child x.body b) g live refl sp), v)
          ]
    ]
  ]

  -- A walk with a unit of fuel for each byte left, and one more, finds the node with a value at which
  -- the key ends.
  Spells-walk_loop :
      {nid : ℕ} {rest : Bytes} {leaf : ℕ}
      → Spells h nid rest leaf
      → (fuel d : ℕ) (par : Option (ℕ × ℕ)) → length rest < fuel
      → HasValue h leaf
      → (par' : Option (ℕ × ℕ)) × (walk_loop fuel h (some nid) rest d par ≡ some (some leaf, par'))
  Spells-walk_loop sp zero d par lt v = absurd (omega arith)
  Spells-walk_loop (ends nid x g live) (suc fuel) d par lt (y, gy, v) =
      let en : enters x x.prefix ≡ true = rw (append-nil x.prefix) at (enters-append x [] live) in
      let left : drop (length x.prefix) x.prefix ≡ [] =
        rw (append-nil x.prefix) at (drop-prefix x.prefix []) in
      let q = walk-end h fuel nid x.prefix d par x g en left in
      let val : value_at nid x ≡ some nid = ground (arith, g, gy, v) in
      (par, q ∙ ap (λ o. some (o, par)) val)
  Spells-walk_loop (goes nid x b m t leaf g live c sp) (suc fuel) d par lt v =
      let q =
        walk-down h fuel nid (x.prefix ++ b ∷ t) d par x g b t (enters-append x (b ∷ t) live)
          (drop-prefix x.prefix (b ∷ t)) in
      let (par', r) =
        Spells-walk_loop sp fuel (d + length x.prefix + 1) (some (nid, d + length x.prefix))
          (omega (arith, length-append x.prefix (b ∷ t))) v in
      (par', q ∙ rw c r)

  -- A walk with a unit of fuel for each byte left, and two more, ends.
  walk_loop-some :
      (fuel : ℕ) (o : Option ℕ) (rest : Bytes) (d : ℕ) (par : Option (ℕ × ℕ))
      → length rest + 1 < fuel
      → (r : Walked) × (walk_loop fuel h o rest d par ≡ some r)
  walk_loop-some zero o rest d par lt = absurd (omega arith)
  walk_loop-some (suc fuel) none rest d par lt = (_, walk-no_node h fuel rest d par)
  walk_loop-some (suc fuel) (some nid) rest d par lt = elim (Option-cases (h nid)) [
    | inl g ↦ (_, walk-missing h fuel nid rest d par g)
    | inr (x, g) ↦ elim (Bool-cases (enters x rest)) [
      | inr no' ↦ (_, walk-refused h fuel nid rest d par x g no')
      | inl yes' ↦ elim (List-cases (drop (length x.prefix) rest)) [
        | inl f ↦ (_, walk-end h fuel nid rest d par x g yes' f)
        | inr (b, t, f) ↦
            let less = shorter x.prefix rest t b (enters-split x rest yes').1 f in
            let (r, e) =
              walk_loop-some fuel (child x.body b) t (d + length x.prefix + 1)
                (some (nid, d + length x.prefix)) (omega (arith, less, lt)) in
            (r, walk-down h fuel nid rest d par x g b t yes' f ∙ e)
      ]
    ]
  ]

-- `art_find2` from a root ends. It returns a node exactly when the key ends there: the key is what
-- the prefixes and the bytes on the way to the node spell, and the node has a value.
pub find2_iff :
    (h : Heap) (root : ℕ) (key : Bytes)
    → (r : Walked) × (find2 h (some root) key ≡ some r)
      × ((leaf : ℕ) → (r.0 ≡ some leaf) ↔ (Spells h root key leaf × HasValue h leaf))
unfolding find2
find2_iff h root key =
    let (r, e) = walk_loop-some h (length key + 2) (some root) key 0 none (omega arith) in
    (
      r,
      e,
      λ leaf. (
        λ q. walk_loop-Spells h (length key + 2) (some root) key 0 none (e ∙ found r leaf q),
        λ (sp, v).
            let (par', e') = Spells-walk_loop h sp (length key + 2) 0 none (omega arith) v in
            first r leaf par' (sym e ∙ e'),
      ),
    )
  where
    found : (r : Walked) (leaf : ℕ) → r.0 ≡ some leaf → some r ≡ some (some leaf, r.1)
    found (o, p) leaf q = ap (λ z. some (z, p)) q

    first :
        (r : Walked) (leaf : ℕ) (p : Option (ℕ × ℕ))
        → some r ≡ some (some leaf, p)
        → r.0 ≡ some leaf
    first r leaf p q = ground arith
