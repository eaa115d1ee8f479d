-- ===== src/Art/Node/Wide.antt =====
-- src/kvspace.c, the nodes with an index of 256 bytes: the lookups through the index.
use kvspace_c.Prelude.{
  ℕ, zero, suc, ◌+◌, ◌≤◌, ◌<◌, ◌≡◌, ◌≢◌, refl, ap, ◌∙◌, Option, some, none, List, [], ◌∷◌, ◌++◌,
  arith, All, length, take, get_elem?, map, ◌==◌, ◌⊎◌, inl, inr, Bool-cases, false,
}
use kvspace_c.Art.Node.{Edge, put, find_index, index_edges}
use kvspace_c.Art.Node.Edges.{Distinct}

-- What a search through the index finds: the first byte with this number.
pub data Hit (index : ℕ → ℕ) (i j n : ℕ) : Option ℕ → Type 0 where
  hit : (k : ℕ) → k < j + n → index k ≡ i → Hit index i j n (some k)
  miss : ((k : ℕ) → j ≤ k → k < j + n → index k ≢ i) → Hit index i j n none

pub find_index-Hit : (index : ℕ → ℕ) (i j n : ℕ) → Hit index i j n (find_index index i j n)
unfolding find_index
find_index-Hit index i j zero = miss (λ k le lt. absurd (omega arith))
find_index-Hit index i j (suc n) = elim (Bool-cases (index j == i)) [
  | inl e ↦ rw e (hit j (omega arith) (ground arith))
  | inr e ↦ rw e (later e (find_index index i (j + 1) n) (find_index-Hit index i (j + 1) n))
]
  where
    later :
        (index j == i) ≡ false → (o : Option ℕ) → Hit index i (j + 1) n o → Hit index i j (suc n) o
    later e o (hit k lt q) = hit k (omega arith) q
    later e o (miss h) = miss (λ k le lt. elim (Bool-cases (j == k)) [
      | inl same ↦ let r : j ≡ k = ground arith in let ne : index j ≢ i = ground arith in rw r at ne
      | inr other ↦ h k (ground arith) (omega arith)
    ])

-- The index of an `n48` with this many children: a byte has no child or the number of one, no two
-- bytes share a child, and each child has its byte.
pub record Indexed (index : ℕ → ℕ) (n : ℕ) : Type 0 where
  pub in_range : (b : ℕ) → b < 256 → (index b ≡ 255) ⊎ (index b < n)
  pub apart : (b c : ℕ) → b < 256 → c < 256 → index b ≢ 255 → index b ≡ index c → b ≡ c
  pub reached : (i : ℕ) → i < n → (b : ℕ) × (b < 256) × (index b ≡ i)

pub get_elem?-snoc {ℓ} :
    {A : Type ℓ} (xs : List A) (x : A) → get_elem? (xs ++ x ∷ []) (length xs) ≡ some x
get_elem?-snoc [] x = refl
get_elem?-snoc (y ∷ xs) x = get_elem?-snoc xs x

pub get_elem?-append {ℓ} :
    {A : Type ℓ} (xs ys : List A) (i : ℕ) → i < length xs → get_elem? (xs ++ ys) i ≡ get_elem? xs i
get_elem?-append [] ys i h = absurd (omega arith)
get_elem?-append (x ∷ xs) ys zero h = refl
get_elem?-append (x ∷ xs) ys (suc i) h = get_elem?-append xs ys i (omega arith)

pub get_elem?-take {ℓ} :
    {A : Type ℓ} (n : ℕ) (xs : List A) (i : ℕ) → i < n → get_elem? (take n xs) i ≡ get_elem? xs i
get_elem?-take zero xs i h = absurd (omega arith)
get_elem?-take (suc n) [] i h = refl
get_elem?-take (suc n) (x ∷ xs) zero h = refl
get_elem?-take (suc n) (x ∷ xs) (suc i) h = get_elem?-take n xs i (omega arith)

pub length-take {ℓ} : {A : Type ℓ} (n : ℕ) (xs : List A) → n ≤ length xs → length (take n xs) ≡ n
length-take zero xs h = refl
length-take (suc n) [] h = absurd (omega arith)
length-take (suc n) (x ∷ xs) h = ap suc (length-take n xs (omega arith))

pub length-map {ℓ κ} :
    {A : Type ℓ} {B : Type κ} (f : A → B) (xs : List A) → length (map f xs) ≡ length xs
length-map f [] = refl
length-map f (x ∷ xs) = ap suc (length-map f xs)

pub get_some {ℓ} :
    {A : Type ℓ} (xs : List A) (i : ℕ) → i < length xs → (x : A) × (get_elem? xs i ≡ some x)
get_some [] i h = absurd (omega arith)
get_some (x ∷ xs) zero h = (x, refl)
get_some (x ∷ xs) (suc i) h = get_some xs i (omega arith)

pub put_self {ℓ} : {A : Type ℓ} (f : ℕ → A) (k : ℕ) (v : A) → put f k v k ≡ v
put_self f k v = ground arith

pub put_ne {ℓ} : {A : Type ℓ} (f : ℕ → A) (k i : ℕ) (v : A) → k ≢ i → put f k v i ≡ f i
put_ne f k i v h = ground arith

-- After `index_edges` a byte without an edge has the number it had,
pub index_edges_miss :
    (i : ℕ) (es : List Edge) (index : ℕ → ℕ) (b : ℕ)
    → All (λ x. x.key ≢ b) es
    → index_edges i es index b ≡ index b
unfolding index_edges
index_edges_miss i [] index b h = refl
index_edges_miss i (e ∷ es) index b (h, hs) =
    index_edges_miss (i + 1) es (put index e.key i) b hs ∙ put_ne index e.key b i h

-- and the byte of an edge has the edge's number.
pub index_edges_hit :
    (i : ℕ) (es : List Edge) (index : ℕ → ℕ) (k : ℕ) {e : Edge}
    → Distinct es
    → get_elem? es k ≡ some e
    → index_edges i es index e.key ≡ i + k
unfolding index_edges
index_edges_hit i [] index k d g = cc
index_edges_hit i (x ∷ es) index zero {e} (h, d) g =
    let same : x ≡ e = ground arith in
    rw same (
      index_edges_miss (i + 1) es (put index e.key i) e.key (rw same at h)
      ∙ put_self index e.key i
      ∙ omega arith)
index_edges_hit i (x ∷ es) index (suc k) {e} (h, d) g =
    index_edges_hit (i + 1) es (put index x.key i) k d g ∙ omega arith
