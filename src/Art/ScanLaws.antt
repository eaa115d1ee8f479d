-- ===== src/Art/ScanLaws.antt =====
-- src/kvspace.c, `art_collect_keys`: which keys a scan that does not fail adds.
use kvspace_c.Prelude.{
  ◌<◌, ℕ, zero, suc, ◌+◌, ◌-◌, ◌^◌, ◌≡◌, refl, sym, ap, ◌∙◌, ◌⊎◌, inl, inr, Option, some, List, [],
  ◌∷◌, ◌++◌, leb, true, ◌==◌, length, Bytes, Bool-cases, Option-cases, append_assoc,
}
use kvspace_c.Art.Node.{Edge, child}
use kvspace_c.Art.Node.Valid.{IsValid}
use kvspace_c.Art.ScanOrder.{In, in_order-child}
use kvspace_c.Art.Tree.{Node, Heap}
use kvspace_c.Art.Scan.{keyscan_add, in_order, each, own_key, collect}

-- The keys with a value at or below a node, without the path to it: the prefix of the node, or its
-- prefix, a byte with a child, and a key at or below that child.
pub data Under (h : Heap) : ℕ → Bytes → Type 0 where
  here : (nid : ℕ) (x : Node) → h nid ≡ some x → x.has_value ≡ true → Under h nid x.prefix
  down :
      (nid : ℕ) (x : Node) (b c : ℕ) (t : Bytes)
      → h nid ≡ some x
      → b < 256
      → child x.body b ≡ some c
      → Under h c t
      → Under h nid (x.prefix ++ b ∷ t)

-- Every node of the tree is well formed.
abbrev pub AreValid : Heap → Type 0
AreValid h = (nid : ℕ) (x : Node) → h nid ≡ some x → IsValid x.body

-- A scan has grown by exactly the keys with a property.
pub record Adds (P : Bytes → Type 0) (scan out : List Bytes) : Type 0 where
  pub keeps : (k : Bytes) → In k scan → In k out
  pub all : (k : Bytes) → P k → In k out
  pub only : (k : Bytes) → In k out → In k scan ⊎ P k

Adds-trans :
    {P Q : Bytes → Type 0} {a b c : List Bytes}
    → Adds P a b
    → Adds Q b c
    → Adds (λ k. P k ⊎ Q k) a c
Adds-trans {P} {Q} {a} {b} {c} f g = record {
  keeps = λ k i. g.keeps k (f.keeps k i);
  all = λ k. either k;
  only = λ k i. back k (g.only k i);
}
  where
    either : (k : Bytes) → P k ⊎ Q k → In k c
    either k (inl p) = g.keeps k (f.all k p)
    either k (inr q) = g.all k q

    first : (k : Bytes) → In k a ⊎ P k → In k a ⊎ (P k ⊎ Q k)
    first k (inl i) = inl i
    first k (inr p) = inr (inl p)

    back : (k : Bytes) → In k b ⊎ Q k → In k a ⊎ (P k ⊎ Q k)
    back k (inl i) = first k (f.only k i)
    back k (inr q) = inr (inr q)

Adds-map :
    {P Q : Bytes → Type 0} {a b : List Bytes}
    → ((k : Bytes) → P k → Q k)
    → ((k : Bytes) → Q k → P k)
    → Adds P a b
    → Adds Q a b
Adds-map {P} {Q} {a} {b} to from f = record {
  keeps = f.keeps;
  all = λ k q. f.all k (from k q);
  only = λ k i. back k (f.only k i);
}
  where
    back : (k : Bytes) → In k a ⊎ P k → In k a ⊎ Q k
    back k (inl i) = inl i
    back k (inr p) = inr (to k p)

Adds-none : {P : Bytes → Type 0} {a : List Bytes} → ((k : Bytes) → P k → ⊥) → Adds P a a
Adds-none never = record { keeps = λ k i. i; all = λ k p. absurd (never k p); only = λ k i. inl i }

append-Adds : (scan : List Bytes) (key : Bytes) → Adds (λ k. k ≡ key) scan (scan ++ key ∷ [])
append-Adds scan key = record { keeps = left scan; all = last scan; only = split scan }
  where
    left : (xs : List Bytes) (k : Bytes) → In k xs → In k (xs ++ key ∷ [])
    left [] k i = absurd i
    left (x ∷ xs) k (inl e) = inl e
    left (x ∷ xs) k (inr i) = inr (left xs k i)

    last : (xs : List Bytes) (k : Bytes) → k ≡ key → In k (xs ++ key ∷ [])
    last [] k e = inl e
    last (x ∷ xs) k e = inr (last xs k e)

    shift : {x k : Bytes} (xs : List Bytes) → In k xs ⊎ (k ≡ key) → In k (x ∷ xs) ⊎ (k ≡ key)
    shift xs (inl i) = inl (inr i)
    shift xs (inr e) = inr e

    split : (xs : List Bytes) (k : Bytes) → In k (xs ++ key ∷ []) → In k xs ⊎ (k ≡ key)
    split [] k (inl e) = inr e
    split [] k (inr i) = absurd i
    split (x ∷ xs) k (inl e) = inl (inl e)
    split (x ∷ xs) k (inr i) = shift xs (split xs k i)

keyscan_add-Adds :
    (scan : List Bytes) (key : Bytes) {out : List Bytes}
    → keyscan_add scan key ≡ some out
    → Adds (λ k. k ≡ key) scan out
unfolding keyscan_add
keyscan_add-Adds scan key {out} h = elim (Bool-cases (length scan == 2 ^ 31 - 1)) [
  | inl e ↦ absurd (let q = rw (keyscan_add, e) at h in cc q)
  | inr e ↦
      let q = rw (keyscan_add, e) at h in
      let same : scan ++ key ∷ [] ≡ out = cc q in rw (sym same) (append-Adds scan key)
]

own_key-Adds :
    (x : Node) (buf : Bytes) (scan : List Bytes) {out : List Bytes}
    → own_key x buf scan ≡ some out
    → Adds (λ k. (k ≡ buf) × (x.has_value ≡ true)) scan out
own_key-Adds x buf scan {out} h = elim (Bool-cases x.has_value) [
  | inl e ↦ let q = rw e at h in Adds-map (λ k p. (p, e)) (λ k p. p.0) (keyscan_add-Adds scan buf q)
  | inr e ↦
      let q = rw e at h in
      let same : scan ≡ out = cc q in rw (sym same) (Adds-none (λ k p. cc (p.1, e)))
]

-- What the loop over the children is to add.
abbrev Below : (ℕ → Bytes → Type 0) → Bytes → List Edge → Bytes → Type 0
Below R buf es k = (e : Edge) × (t : Bytes) × In e es × R e.child t × (k ≡ (buf ++ e.key ∷ []) ++ t)

-- The loop over the children adds what lies below them, when each visit does.
each-Adds :
    (R : ℕ → Bytes → Type 0) (visit : ℕ → Bytes → List Bytes → Option (List Bytes))
    → ((c : ℕ) (buf : Bytes) (scan out : List Bytes)
        → visit c buf scan ≡ some out
        → Adds (λ k. (t : Bytes) × R c t × (k ≡ buf ++ t)) scan out)
    → (bcap : ℕ) (buf : Bytes) (es : List Edge) (scan : List Bytes) {out : List Bytes}
    → each visit bcap buf es scan ≡ some out
    → Adds (Below R buf es) scan out
unfolding each
each-Adds R visit f bcap buf [] scan {out} h =
    let same : scan ≡ out = cc h in rw (sym same) (Adds-none (λ k p. p.2))
each-Adds R visit f bcap buf (e ∷ es) scan {out} h = elim (Bool-cases (leb bcap (length buf + 1))) [
  | inl g ↦ absurd (let q = rw (each, g) at h in cc q)
  | inr g ↦ elim (Option-cases (visit e.child (buf ++ e.key ∷ []) scan)) [
    | inl v ↦ absurd (let q = rw (each, g, v) at h in cc q)
    | inr (mid, v) ↦ Adds-map to from (
        Adds-trans (f e.child (buf ++ e.key ∷ []) scan mid v)
          (each-Adds R visit f bcap buf es mid (rw (each, g, v) at h)))
  ]
]
  where
    Here : Bytes → Type 0
    Here k = (t : Bytes) × R e.child t × (k ≡ (buf ++ e.key ∷ []) ++ t)

    to : (k : Bytes) → Here k ⊎ Below R buf es k → Below R buf (e ∷ es) k
    to k (inl (t, r, q)) = (e, t, inl refl, r, q)
    to k (inr (e', t, i, r, q)) = (e', t, inr i, r, q)

    from : (k : Bytes) → Below R buf (e ∷ es) k → Here k ⊎ Below R buf es k
    from k (e', t, inl same, r, q) = inl (t, rw same at r, rw same at q)
    from k (e', t, inr i, r, q) = inr (e', t, i, r, q)

-- What stands at or below a node, in terms of the node itself.
Below-Under :
    {h : Heap} (nid : ℕ) (x : Node) (buf k : Bytes)
    → IsValid x.body
    → h nid ≡ some x
    → ((k ≡ buf ++ x.prefix) × (x.has_value ≡ true))
      ⊎ Below (Under h) (buf ++ x.prefix) (in_order x.body) k
    → (s : Bytes) × Under h nid s × (k ≡ buf ++ s)
Below-Under nid x buf k ok at (inl (q, v)) = (x.prefix, here nid x at v, q)
Below-Under nid x buf k ok at (inr (e, t, i, u, q)) =
    let (lt, f) = (in_order-child x.body e ok).0 i in
    (x.prefix ++ e.key ∷ t, down nid x e.key e.child t at lt f u, q ∙ joined)
  where
    joined : ((buf ++ x.prefix) ++ e.key ∷ []) ++ t ≡ buf ++ (x.prefix ++ e.key ∷ t)
    joined = append_assoc (buf ++ x.prefix) (e.key ∷ []) t ∙ append_assoc buf x.prefix (e.key ∷ t)

Under-Below :
    {h : Heap} (nid : ℕ) (x : Node) (buf k s : Bytes)
    → IsValid x.body
    → h nid ≡ some x
    → Under h nid s
    → k ≡ buf ++ s
    → ((k ≡ buf ++ x.prefix) × (x.has_value ≡ true))
      ⊎ Below (Under h) (buf ++ x.prefix) (in_order x.body) k
Under-Below nid x buf k s ok at (here _ x' at' v) q =
    let same : x' ≡ x = cc (at, at') in
    inl (q ∙ ap (λ (z : Node). buf ++ z.prefix) same, ap (λ (z : Node). z.has_value) (sym same) ∙ v)
Under-Below nid x buf k s ok at (down _ x' b c t at' lt f u) q =
    let same : x' ≡ x = cc (at, at') in
    let e : Edge = record { key = b; child = c } in
    let found : child x.body b ≡ some c = ap (λ (z : Node). child z.body b) (sym same) ∙ f in
    let q' : k ≡ buf ++ (x.prefix ++ b ∷ t) =
      q ∙ ap (λ (z : Node). buf ++ (z.prefix ++ b ∷ t)) same in
    inr (e, t, (in_order-child x.body e ok).1 (lt, found), u, q' ∙ sym joined)
  where
    joined : ((buf ++ x.prefix) ++ b ∷ []) ++ t ≡ buf ++ (x.prefix ++ b ∷ t)
    joined = append_assoc (buf ++ x.prefix) (b ∷ []) t ∙ append_assoc buf x.prefix (b ∷ t)

-- Where every node is well formed, a scan from a node that does not fail keeps what was scanned before
-- and adds exactly the keys with a value at or below the node, along the children that `art_child`
-- finds, each behind the path to the node.
pub collect-Adds :
    (fuel : ℕ) (h : Heap) (bcap nid : ℕ) (buf : Bytes) (scan out : List Bytes)
    → AreValid h
    → collect fuel h bcap nid buf scan ≡ some out
    → Adds (λ k. (s : Bytes) × Under h nid s × (k ≡ buf ++ s)) scan out
unfolding collect
collect-Adds zero h bcap nid buf scan out valid r = absurd (cc r)
collect-Adds (suc fuel) h bcap nid buf scan out valid r = elim (Option-cases (h nid)) [
  | inl e ↦ absurd (let q = rw (collect, e) at r in cc q)
  | inr (x, e) ↦ elim (Bool-cases (leb bcap (length buf + length x.prefix))) [
    | inl g ↦ absurd (let q = rw (collect, e, g) at r in cc q)
    | inr g ↦ elim (Option-cases (own_key x (buf ++ x.prefix) scan)) [
      | inl o ↦ absurd (let q = rw (collect, e, g, o) at r in cc q)
      | inr (mid, o) ↦
          Adds-map (λ k. Below-Under nid x buf k (valid nid x e) e)
            (λ k p. Under-Below nid x buf k p.0 (valid nid x e) e p.1 p.2)
            (Adds-trans (own_key-Adds x (buf ++ x.prefix) scan o) (
              each-Adds (Under h) (collect fuel h bcap)
                (λ c b s o. collect-Adds fuel h bcap c b s o valid) bcap (buf ++ x.prefix)
                (in_order x.body) mid (rw (collect, e, g, o) at r)))
    ]
  ]
]
