-- ===== src/Art/Node/Sorted.antt =====
-- src/kvspace.c, the insertion of `art_add` into a sorted node, and the exchange sort of `art_grow`.
use kvspace_c.Prelude.{
  ℕ, zero, suc, ◌≤◌, ◌<◌, ◌≡◌, ◌≢◌, refl, ap, Option, some, none, List, [], ◌∷◌, arith, All, length,
  take, drop, get_elem?, ltb, inl, inr, Bool-cases,
}
use kvspace_c.Art.Node.{Edge, assoc, shift_to, insert_at}
use kvspace_c.Art.Node.Search.{get_of_lt}
use kvspace_c.Art.Node.Edges.{IsSorted, All-map, All-get, none-assoc}

drop-get :
    (es : List Edge) (n : ℕ) {e : Edge} → get_elem? es n ≡ some e → drop n es ≡ e ∷ drop (suc n) es
drop-get [] n g = cc
drop-get (x ∷ es) zero g = ground arith
drop-get (x ∷ es) (suc n) g = drop-get es n g

take-sorted :
    (es : List Edge) (q : ℕ) {e : Edge}
    → IsSorted es
    → get_elem? es q ≡ some e
    → All (λ y. y.key ≤ e.key) (take (suc q) es)
take-sorted [] q s g = cc
take-sorted (x ∷ es) zero {e} s g = let same : x ≡ e = ground arith in rw same (omega arith, tt)
take-sorted (x ∷ es) (suc q) {e} (h, s) g =
    let lt = All-get (λ y. x.key < y.key) es q h g in (omega arith, take-sorted es q s g)

-- Where a byte goes: every edge before is lower or equal, every edge from there on is greater.
abbrev Splits : List Edge → ℕ → ℕ → Type 0
Splits es b p = All (λ y. y.key ≤ b) (take p es) × All (λ y. b < y.key) (drop p es)

shift_to-Splits :
    (es : List Edge) (b n : ℕ)
    → IsSorted es
    → n ≤ length es
    → All (λ y. b < y.key) (drop n es)
    → Splits es b (shift_to es b n)
unfolding shift_to
shift_to-Splits es b zero s le h = (tt, h)
shift_to-Splits es b (suc n) s le h =
    go (get_elem? es n) refl (shift_to-Splits es b n s (omega arith))
  where
    go :
        (o : Option Edge)
        → get_elem? es n ≡ o
        → (All (λ y. b < y.key) (drop n es) → Splits es b (shift_to es b n))
        → Splits es b (shift_to es b (suc n))
    go none g ih = let (e, q) = get_of_lt es n (omega arith) in absurd (cc (g, q))
    go (some e) g ih = elim (Bool-cases (ltb b e.key)) [
      | inl up ↦ rw (g, shift_to, up) (ih (rw (drop-get es n g) (ground arith, h)))
      | inr down ↦
          rw (g, shift_to, down) (All-map (λ y q. ground arith) _ (take-sorted es n s g), h)
    ]

insert_at-IsSorted :
    (es : List Edge) (p : ℕ) (e : Edge)
    → IsSorted es
    → All (λ y. y.key < e.key) (take p es)
    → All (λ y. e.key < y.key) (drop p es)
    → IsSorted (insert_at es p e)
insert_at-IsSorted [] zero e s lo hi = (tt, tt)
insert_at-IsSorted [] (suc p) e s lo hi = (tt, tt)
insert_at-IsSorted (x ∷ es) zero e s lo hi = (hi, s)
insert_at-IsSorted (x ∷ es) (suc p) e (h, s) (lx, lo) hi =
    (All_insert_at (λ y. x.key < y.key) es p e h lx, insert_at-IsSorted es p e s lo hi)
  where
    All_insert_at :
        (P : Edge → Type 0) (xs : List Edge) (q : ℕ) (y : Edge)
        → All P xs
        → P y
        → All P (insert_at xs q y)
    All_insert_at P [] zero y a b = (b, a)
    All_insert_at P [] (suc q) y a b = (b, a)
    All_insert_at P (z ∷ xs) zero y a b = (b, a)
    All_insert_at P (z ∷ xs) (suc q) y (c, a) b = (c, All_insert_at P xs q y a b)

All-take : (P : Edge → Type 0) (es : List Edge) (p : ℕ) → All P es → All P (take p es)
All-take P [] zero h = tt
All-take P [] (suc p) h = tt
All-take P (x ∷ es) zero h = tt
All-take P (x ∷ es) (suc p) (h, hs) = (h, All-take P es p hs)

strict :
    (es : List Edge) (b : ℕ)
    → All (λ y. y.key ≤ b) es
    → All (λ y. y.key ≢ b) es
    → All (λ y. y.key < b) es
strict [] b h k = tt
strict (x ∷ es) b (h, hs) (k, ks) = (omega arith, strict es b hs ks)

drop-length : (es : List Edge) → drop (length es) es ≡ []
drop-length [] = refl
drop-length (x ∷ es) = drop-length es

-- Shifting the greater edges up and writing the new edge below them keeps a node sorted.
pub insert_at-shift_to-IsSorted :
    (es : List Edge) (e : Edge)
    → IsSorted es
    → assoc es e.key ≡ none
    → IsSorted (insert_at es (shift_to es e.key (length es)) e)
insert_at-shift_to-IsSorted es e s h =
    let p = shift_to es e.key (length es) in
    let (lo, hi) = shift_to-Splits es e.key (length es) s (omega arith) (rw drop-length tt) in
    insert_at-IsSorted es p e s
      (strict (take p es) e.key lo (All-take _ es p (none-assoc es e.key h))) hi

pub length-insert_at :
    (es : List Edge) (p : ℕ) (e : Edge) → length (insert_at es p e) ≡ suc (length es)
length-insert_at [] zero e = refl
length-insert_at [] (suc p) e = refl
length-insert_at (x ∷ es) zero e = refl
length-insert_at (x ∷ es) (suc p) e = ap suc (length-insert_at es p e)
