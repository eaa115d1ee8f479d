-- ===== src/Art/Node/Edges.antt =====
-- src/kvspace.c, the edges of a node as a map from bytes to children.
use kvspace_c.Prelude.{
  ℕ, zero, suc, ◌≤◌, ◌<◌, ◌≡◌, ◌≢◌, refl, sym, Bool-cases, inl, inr, some, none, List, [], ◌∷◌,
  ◌++◌, arith, All, length, get_elem?, ◌==◌, if◌then◌else◌,
}
use kvspace_c.Art.Node.{Edge, assoc, insert_at, remove_key, remove_at}

abbrev pub Differs : Edge → Edge → Type 0
Differs e x = x.key ≢ e.key

-- No byte has two edges.
abbrev pub Distinct : List Edge → Type 0
Distinct [] = Unit {0}
Distinct (e ∷ es) = All (Differs e) es × Distinct es

-- The bytes rise.
abbrev pub IsSorted : List Edge → Type 0
IsSorted [] = Unit {0}
IsSorted (e ∷ es) = All (λ x. e.key < x.key) es × IsSorted es

pub All-map {ℓ} :
    {A : Type ℓ} {P Q : A → Type 0} → ((x : A) → P x → Q x) → (xs : List A) → All P xs → All Q xs
All-map f [] h = tt
All-map f (x ∷ xs) (h, hs) = (f x h, All-map f xs hs)

pub All-append {ℓ} :
    {A : Type ℓ} (P : A → Type 0) (xs ys : List A) → All P xs → All P ys → All P (xs ++ ys)
All-append P [] ys h k = k
All-append P (x ∷ xs) ys (h, hs) k = (h, All-append P xs ys hs k)

pub All-get {ℓ} :
    {A : Type ℓ} (P : A → Type 0) (xs : List A) (i : ℕ) {x : A}
    → All P xs
    → get_elem? xs i ≡ some x
    → P x
All-get P [] i h g = cc
All-get P (y ∷ xs) zero {x} (h, hs) g = let e : y ≡ x = some-eq g in rw e at h
  where
    some-eq : some y ≡ some x → y ≡ x
    some-eq q = cc
All-get P (y ∷ xs) (suc i) (h, hs) g = All-get P xs i hs g

pub IsSorted-Distinct : (es : List Edge) → IsSorted es → Distinct es
IsSorted-Distinct [] h = tt
IsSorted-Distinct (e ∷ es) (h, hs) = (All-map (λ x p. omega arith) es h, IsSorted-Distinct es hs)

pub assoc-none : (es : List Edge) (b : ℕ) → All (λ x. x.key ≢ b) es → assoc es b ≡ none
unfolding assoc
assoc-none [] b h = refl
assoc-none (e ∷ es) b (h, hs) = ground (arith, assoc-none es b hs)

pub none-assoc : (es : List Edge) (b : ℕ) → assoc es b ≡ none → All (λ x. x.key ≢ b) es
unfolding assoc
none-assoc [] b h = tt
none-assoc (e ∷ es) b h = (ground arith, none-assoc es b (ground arith))

pub assoc-get :
    (es : List Edge) (i : ℕ) {e : Edge}
    → Distinct es
    → get_elem? es i ≡ some e
    → assoc es e.key ≡ some e.child
unfolding assoc
assoc-get [] i d g = cc
assoc-get (x ∷ es) zero d g = ground arith
assoc-get (x ∷ es) (suc i) {e} (h, d) g =
    let ne = All-get (Differs x) es i h g in ground (arith, assoc-get es i d g)

-- A new edge is found under its byte, wherever it is put, and the others as before.
pub assoc-insert_at :
    (es : List Edge) (p : ℕ) (e : Edge) (b : ℕ)
    → assoc es e.key ≡ none
    → assoc (insert_at es p e) b ≡ (if e.key == b then some e.child else assoc es b)
unfolding assoc
assoc-insert_at [] zero e b h = refl
assoc-insert_at [] (suc p) e b h = refl
assoc-insert_at (x ∷ es) zero e b h = refl
assoc-insert_at (x ∷ es) (suc p) e b h = ground (arith, assoc-insert_at es p e b)

pub assoc-snoc :
    (es : List Edge) (e : Edge) (b : ℕ)
    → assoc es e.key ≡ none
    → assoc (es ++ e ∷ []) b ≡ (if e.key == b then some e.child else assoc es b)
unfolding assoc
assoc-snoc [] e b h = refl
assoc-snoc (x ∷ es) e b h = ground (arith, assoc-snoc es e b)

pub Distinct-snoc :
    (es : List Edge) (e : Edge) → Distinct es → assoc es e.key ≡ none → Distinct (es ++ e ∷ [])
Distinct-snoc [] e d h = (tt, tt)
Distinct-snoc (x ∷ es) e (dx, d) h =
    let (hx, hs) = none-assoc (x ∷ es) e.key h in
    (
      All-append (Differs x) es (e ∷ []) dx ((λ q. hx (sym q)), tt),
      Distinct-snoc es e d (assoc-none es e.key hs),
    )

pub assoc-remove_key :
    (es : List Edge) (b c : ℕ)
    → Distinct es
    → assoc (remove_key es b) c ≡ (if b == c then none else assoc es c)
unfolding assoc remove_key
assoc-remove_key [] b c d = ground arith
assoc-remove_key (x ∷ es) b c (dx, d) =
    ground (arith, assoc-remove_key es b c d, assoc-none es x.key dx)

pub All-remove_key :
    (P : Edge → Type 0) (es : List Edge) (b : ℕ) → All P es → All P (remove_key es b)
unfolding remove_key
All-remove_key P [] b h = tt
All-remove_key P (x ∷ es) b (h, hs) = elim (Bool-cases (x.key == b)) [
  | inl e ↦ rw e hs
  | inr e ↦ rw e (h, All-remove_key P es b hs)
]

pub Distinct-remove_key : (es : List Edge) (b : ℕ) → Distinct es → Distinct (remove_key es b)
unfolding remove_key
Distinct-remove_key [] b d = tt
Distinct-remove_key (x ∷ es) b (dx, d) = elim (Bool-cases (x.key == b)) [
  | inl e ↦ rw e d
  | inr e ↦ rw e (All-remove_key (Differs x) es b dx, Distinct-remove_key es b d)
]

pub IsSorted-remove_key : (es : List Edge) (b : ℕ) → IsSorted es → IsSorted (remove_key es b)
unfolding remove_key
IsSorted-remove_key [] b d = tt
IsSorted-remove_key (x ∷ es) b (dx, d) = elim (Bool-cases (x.key == b)) [
  | inl e ↦ rw e d
  | inr e ↦ rw e (All-remove_key (λ y. x.key < y.key) es b dx, IsSorted-remove_key es b d)
]

pub length-remove_key : (es : List Edge) (b : ℕ) → length (remove_key es b) ≤ length es
unfolding remove_key
length-remove_key [] b = omega arith
length-remove_key (x ∷ es) b = ground (arith, length-remove_key es b)

pub remove_key-none : (es : List Edge) (b : ℕ) → assoc es b ≡ none → remove_key es b ≡ es
unfolding remove_key assoc
remove_key-none [] b h = refl
remove_key-none (x ∷ es) b h = ground (arith, remove_key-none es b)

-- Taking out the edge at the index of a byte takes out the edge of that byte.
pub remove_at-eq-remove_key :
    (es : List Edge) (i : ℕ) {e : Edge}
    → Distinct es
    → get_elem? es i ≡ some e
    → remove_at es i ≡ remove_key es e.key
unfolding remove_key
remove_at-eq-remove_key [] i d g = cc
remove_at-eq-remove_key (x ∷ es) zero d g = ground arith
remove_at-eq-remove_key (x ∷ es) (suc i) {e} (h, d) g =
    let ne = All-get (Differs x) es i h g in ground (arith, remove_at-eq-remove_key es i d g)
