-- ===== src/Art/ScanOrder.antt =====
-- src/kvspace.c, `art_collect_keys`: the children that it visits are those that `art_child` finds.
use kvspace_c.Prelude.{
  ℕ, zero, suc, ◌+◌, ◌≤◌, ◌<◌, ◌≡◌, ◌↔◌, refl, sym, ap, ◌∙◌, ◌⊎◌, inl, inr, Option, some, none,
  List, [], ◌∷◌, ◌==◌, arith, All, Bool-cases, Option-cases, ==_iff, ==_refl,
}
use mathlib.Core.Path.{subst}
use kvspace_c.Art.Node.{Edge, Body, n4, n16, n48, n256, moved, assoc, child}
use kvspace_c.Art.Node.Edges.{Distinct, Differs, IsSorted-Distinct}
use kvspace_c.Art.Node.Valid.{IsValid, child-n16}
use kvspace_c.Art.Scan.{in_order, in_order_from}

-- Membership of a list.
abbrev pub In : {A : Type 0} → A → List A → Type 0
In a [] = ⊥
In a (x ∷ xs) = (a ≡ x) ⊎ In a xs

All-In : {A : Type 0} (P : A → Type 0) (xs : List A) (a : A) → All P xs → In a xs → P a
All-In P [] a h i = absurd i
All-In P (x ∷ xs) a (h, hs) (inl e) = rw e h
All-In P (x ∷ xs) a (h, hs) (inr i) = All-In P xs a hs i

same_edge : (e x : Edge) → e.key ≡ x.key → e.child ≡ x.child → e ≡ x
same_edge e x k c =
    ap (λ (n : ℕ). record { key = n; child = e.child }) k
    ∙ ap (λ (n : ℕ). record { key = x.key; child = n }) c

In-assoc : (es : List Edge) (e : Edge) → Distinct es → In e es → assoc es e.key ≡ some e.child
unfolding assoc
In-assoc [] e d i = absurd i
In-assoc (x ∷ es) e (dx, d) (inl q) = rw (q, ==_refl x.key) refl
In-assoc (x ∷ es) e (dx, d) (inr i) = elim (Bool-cases (x.key == e.key)) [
  | inl same ↦ absurd (All-In (Differs x) es e dx i (sym ((==_iff x.key e.key).0 same)))
  | inr other ↦ rw other (In-assoc es e d i)
]

assoc-In : (es : List Edge) (e : Edge) → assoc es e.key ≡ some e.child → In e es
unfolding assoc
assoc-In [] e h = absurd (cc h)
assoc-In (x ∷ es) e h = elim (Bool-cases (x.key == e.key)) [
  | inl same ↦
      let q : some x.child ≡ some e.child = rw same at h in
      inl (same_edge e x (sym ((==_iff x.key e.key).0 same)) (cc q))
  | inr other ↦ inr (assoc-In es e (rw other at h))
]

from-none :
    (f : ℕ → Option ℕ) (i n : ℕ)
    → f i ≡ none
    → in_order_from f i (suc n) ≡ in_order_from f (i + 1) n
unfolding in_order_from
from-none f i n q = rw (in_order_from, q) refl

from-some :
    (f : ℕ → Option ℕ) (i n c : ℕ)
    → f i ≡ some c
    → in_order_from f i (suc n) ≡ record { key = i; child = c } ∷ in_order_from f (i + 1) n
unfolding in_order_from
from-some f i n c q = rw (in_order_from, q) refl

-- The range that `in_order_from` goes through, and what it finds there.
In-in_order_from :
    (f : ℕ → Option ℕ) (i n : ℕ) (e : Edge)
    → In e (in_order_from f i n)
    → (i ≤ e.key) × (e.key < i + n) × (f e.key ≡ some e.child)
unfolding in_order_from
In-in_order_from f i zero e h = absurd h
In-in_order_from f i (suc n) e h = elim (Option-cases (f i)) [
  | inl q ↦
      let (lo, hi, at) = In-in_order_from f (i + 1) n e (subst (In e) (from-none f i n q) h) in
      (omega arith, omega arith, at)
  | inr (c, q) ↦
      split c q (λ j. In-in_order_from f (i + 1) n e j) (subst (In e) (from-some f i n c q) h)
]
  where
    split :
        (c : ℕ)
        → f i ≡ some c
        → (In e (in_order_from f (i + 1) n)
            → (i + 1 ≤ e.key) × (e.key < i + 1 + n) × (f e.key ≡ some e.child))
        → (e ≡ record { key = i; child = c }) ⊎ In e (in_order_from f (i + 1) n)
        → (i ≤ e.key) × (e.key < i + suc n) × (f e.key ≡ some e.child)
    split c q ih (inl same) =
        let k : e.key ≡ i = ap (λ (z : Edge). z.key) same in
        let v : e.child ≡ c = ap (λ (z : Edge). z.child) same in
        (omega arith, omega arith, ap f k ∙ q ∙ ap some (sym v))
    split c q ih (inr j) = let (lo, hi, at) = ih j in (omega arith, omega arith, at)

in_order_from-In :
    (f : ℕ → Option ℕ) (i n : ℕ) (e : Edge)
    → i ≤ e.key
    → e.key < i + n
    → f e.key ≡ some e.child
    → In e (in_order_from f i n)
unfolding in_order_from
in_order_from-In f i zero e lo hi at = absurd (omega arith)
in_order_from-In f i (suc n) e lo hi at = elim (Bool-cases (i == e.key)) [
  | inl same ↦
      let k : i ≡ e.key = (==_iff i e.key).0 same in
      let q : f i ≡ some e.child = ap f k ∙ at in
      subst (In e) (sym (from-some f i n e.child q))
        (inl (same_edge e (record { key = i; child = e.child }) (sym k) refl))
  | inr other ↦
      let later = in_order_from-In f (i + 1) n e (ground arith) (omega arith) at in
      elim (Option-cases (f i)) [
        | inl q ↦ subst (In e) (sym (from-none f i n q)) later
        | inr (c, q) ↦ subst (In e) (sym (from-some f i n c q)) (inr later)
      ]
]

-- In a well-formed node the children that are visited are those that a search for a byte finds.
pub in_order-child :
    (body : Body) (e : Edge)
    → IsValid body
    → In e (in_order body) ↔ ((e.key < 256) × (child body e.key ≡ some e.child))
unfolding in_order child
in_order-child (n4 es) e (fits, d, bytes) =
    (λ i. (All-In (λ x. x.key < 256) es e bytes i, In-assoc es e d i), λ (lt, h). assoc-In es e h)
in_order-child (n16 es) e (fits, s, bytes) = (
  λ i. (
    All-In (λ x. x.key < 256) es e bytes i,
    child-n16 es e.key s ∙ In-assoc es e (IsSorted-Distinct es s) i,
  ),
  λ (lt, h). assoc-In es e (sym (child-n16 es e.key s) ∙ h),
)
in_order-child (n48 index cs) e v = (
  λ i. let (lo, hi, at) = In-in_order_from (child (n48 index cs)) 0 256 e i in (hi, at),
  λ (lt, h). in_order_from-In (child (n48 index cs)) 0 256 e (omega arith) lt h,
)
in_order-child (n256 cs count) e v = (
  λ i. let (lo, hi, at) = In-in_order_from (child (n256 cs count)) 0 256 e i in (hi, at),
  λ (lt, h). in_order_from-In (child (n256 cs count)) 0 256 e (omega arith) lt h,
)
in_order-child moved e v = (λ i. absurd i, λ (lt, h). absurd (cc h))
