-- ===== src/Art/Node/Exchange.antt =====
-- src/kvspace.c, the exchange sort with which `art_grow` turns an `n4` into a sorted `n16`.
use kvspace_c.Prelude.{
  ℕ, zero, suc, ◌≤◌, ◌<◌, ◌≡◌, refl, sym, ap, ◌∙◌, Option, some, List, [], ◌∷◌, arith, All, length,
  true, false, ◌==◌, ltb, inl, inr, Bool-cases, if◌then◌else◌,
}
use kvspace_c.Art.Node.{Edge, assoc, exchange, exchange_sort}
use kvspace_c.Art.Node.Edges.{IsSorted, Distinct, Differs}

exchange-nil : (x : Edge) → exchange x [] ≡ (x, [])
unfolding exchange
exchange-nil x = refl

exchange-low :
    (x y : Edge) (ys : List Edge)
    → ltb y.key x.key ≡ true
    → exchange x (y ∷ ys) ≡ ((exchange y ys).0, x ∷ (exchange y ys).1)
unfolding exchange
exchange-low x y ys e = rw e refl

exchange-high :
    (x y : Edge) (ys : List Edge)
    → ltb y.key x.key ≡ false
    → exchange x (y ∷ ys) ≡ ((exchange x ys).0, y ∷ (exchange x ys).1)
unfolding exchange
exchange-high x y ys e = rw e refl

All-exchange :
    (P : Edge → Type 0) (x : Edge) (ys : List Edge)
    → P x
    → All P ys
    → P (exchange x ys).0 × All P (exchange x ys).1
All-exchange P x [] h k = rw (exchange-nil x) (h, tt)
All-exchange P x (y ∷ ys) h (ky, k) = elim (Bool-cases (ltb y.key x.key)) [
  | inl e ↦ let (a, b) = All-exchange P y ys ky k in rw (exchange-low x y ys e) (a, (h, b))
  | inr e ↦ let (a, b) = All-exchange P x ys h k in rw (exchange-high x y ys e) (a, (ky, b))
]

exchange-le : (x : Edge) (ys : List Edge) → (exchange x ys).0.key ≤ x.key
exchange-le x [] = rw (exchange-nil x) (omega arith)
exchange-le x (y ∷ ys) = elim (Bool-cases (ltb y.key x.key)) [
  | inl e ↦
      let lt : y.key < x.key = ground arith in
      rw (exchange-low x y ys e) (omega (arith, exchange-le y ys))
  | inr e ↦ rw (exchange-high x y ys e) (exchange-le x ys)
]

exchange-least :
    (x : Edge) (ys : List Edge) → All (λ y. (exchange x ys).0.key ≤ y.key) (exchange x ys).1
exchange-least x [] = rw (exchange-nil x) tt
exchange-least x (y ∷ ys) = elim (Bool-cases (ltb y.key x.key)) [
  | inl e ↦
      let lt : y.key < x.key = ground arith in
      rw (exchange-low x y ys e) (omega (arith, exchange-le y ys), exchange-least y ys)
  | inr e ↦
      let ge : x.key ≤ y.key = ground arith in
      rw (exchange-high x y ys e) (omega (arith, exchange-le x ys), exchange-least x ys)
]

length-exchange : (x : Edge) (ys : List Edge) → length (exchange x ys).1 ≡ length ys
length-exchange x [] = rw (exchange-nil x) refl
length-exchange x (y ∷ ys) = elim (Bool-cases (ltb y.key x.key)) [
  | inl e ↦ rw (exchange-low x y ys e) (ap suc (length-exchange y ys))
  | inr e ↦ rw (exchange-high x y ys e) (ap suc (length-exchange x ys))
]

abbrev passed : Edge → List Edge → List Edge
passed x ys = (exchange x ys).0 ∷ (exchange x ys).1

-- With distinct bytes, `x` may stand before or behind the edge in front.
Distinct-swap :
    (x m : Edge) (r : List Edge)
    → Differs x m
    → All (Differs x) r
    → Distinct (m ∷ r)
    → Distinct (m ∷ x ∷ r)
Distinct-swap x m r ne hx (hm, d) = (((λ q. ne (sym q)), hm), (hx, d))

exchange-Distinct : (x : Edge) (ys : List Edge) → Distinct (x ∷ ys) → Distinct (passed x ys)
exchange-Distinct x [] d = rw (exchange-nil x) d
exchange-Distinct x (y ∷ ys) ((xy, hx), (hy, d)) = elim (Bool-cases (ltb y.key x.key)) [
  | inl e ↦
      let (a, b) = All-exchange (Differs x) y ys xy hx in
      rw (exchange-low x y ys e)
        (Distinct-swap x (exchange y ys).0 (exchange y ys).1 a b (exchange-Distinct y ys (hy, d)))
  | inr e ↦
      let (a, b) = All-exchange (Differs y) x ys (λ q. xy (sym q)) hy in
      rw (exchange-high x y ys e)
        (Distinct-swap y (exchange x ys).0 (exchange x ys).1 a b (exchange-Distinct x ys (hx, d)))
]

assoc-swap :
    (x m : Edge) (r : List Edge) (b : ℕ) (v : Option ℕ)
    → Differs x m
    → assoc (m ∷ r) b ≡ v
    → assoc (m ∷ x ∷ r) b ≡ (if x.key == b then some x.child else v)
unfolding assoc
assoc-swap x m r b v ne h = ground arith

assoc-front :
    (x y : Edge) (ys : List Edge) (b : ℕ)
    → Differs x y
    → (if y.key == b then some y.child else assoc (x ∷ ys) b) ≡ assoc (x ∷ y ∷ ys) b
unfolding assoc
assoc-front x y ys b ne = ground arith

assoc-cons :
    (x : Edge) (ys : List Edge) (b : ℕ)
    → (if x.key == b then some x.child else assoc ys b) ≡ assoc (x ∷ ys) b
unfolding assoc
assoc-cons x ys b = refl

assoc-exchange :
    (x : Edge) (ys : List Edge) (b : ℕ)
    → Distinct (x ∷ ys)
    → assoc (passed x ys) b ≡ assoc (x ∷ ys) b
assoc-exchange x [] b d = rw (exchange-nil x) refl
assoc-exchange x (y ∷ ys) b ((xy, hx), (hy, d)) = elim (Bool-cases (ltb y.key x.key)) [
  | inl e ↦
      let (a, _) = All-exchange (Differs x) y ys xy hx in
      let (m, r) = exchange y ys in
      rw (exchange-low x y ys e) (
        assoc-swap x m r b (assoc (y ∷ ys) b) a (assoc-exchange y ys b (hy, d))
        ∙ assoc-cons x (y ∷ ys) b)
  | inr e ↦
      let (a, _) = All-exchange (Differs y) x ys (λ q. xy (sym q)) hy in
      let (m, r) = exchange x ys in
      rw (exchange-high x y ys e) (
        assoc-swap y m r b (assoc (x ∷ ys) b) a (assoc-exchange x ys b (hx, d))
        ∙ assoc-front x y ys b xy)
]

-- What the sort makes of edges with distinct bytes: they are sorted, and the same map.
pub record SortsTo (es out : List Edge) : Type 0 where
  pub sorted : IsSorted out
  pub same : (b : ℕ) → assoc out b ≡ assoc es b
  pub size : length out ≡ length es

pub exchange_sort-All :
    (P : Edge → Type 0) (n : ℕ) (es : List Edge) → All P es → All P (exchange_sort n es)
unfolding exchange_sort
exchange_sort-All P zero es h = h
exchange_sort-All P (suc n) [] h = tt
exchange_sort-All P (suc n) (x ∷ es) (h, hs) =
    let (a, b) = All-exchange P x es h hs in (a, exchange_sort-All P n (exchange x es).1 b)

strictly :
    (m : Edge) (r : List Edge)
    → All (λ y. m.key ≤ y.key) r
    → All (Differs m) r
    → All (λ y. m.key < y.key) r
strictly m [] h k = tt
strictly m (x ∷ r) (h, hs) (k, ks) = (omega arith, strictly m r hs ks)

assoc-behind :
    (m : Edge) (r s : List Edge) (b : ℕ) → assoc r b ≡ assoc s b → assoc (m ∷ r) b ≡ assoc (m ∷ s) b
unfolding assoc
assoc-behind m r s b e = rw e refl

pub exchange_sort-SortsTo :
    (n : ℕ) (es : List Edge) → length es ≤ n → Distinct es → SortsTo es (exchange_sort n es)
unfolding exchange_sort
exchange_sort-SortsTo zero [] le d = record { sorted = tt; same = λ b. refl; size = refl }
exchange_sort-SortsTo zero (x ∷ es) le d = absurd (omega arith)
exchange_sort-SortsTo (suc n) [] le d = record { sorted = tt; same = λ b. refl; size = refl }
exchange_sort-SortsTo (suc n) (x ∷ es) le d =
    let (m, r) = exchange x es in
    let (hm, dr) = exchange-Distinct x es d in
    let ih = exchange_sort-SortsTo n (exchange x es).1 (omega (arith, length-exchange x es)) dr in
    record {
      sorted = (
        exchange_sort-All (λ y. (exchange x es).0.key < y.key) n (exchange x es).1
            (strictly (exchange x es).0 (exchange x es).1 (exchange-least x es) hm),
        ih.sorted,
      );
      same = λ b. assoc-behind m (exchange_sort n r) r b (ih.same b) ∙ assoc-exchange x es b d;
      size = omega (arith, ih.size, length-exchange x es);
    }
