-- ===== src/Art/Node/Removing.antt =====
-- src/kvspace.c, `art_rm` on the four layouts.
use kvspace_c.Prelude.{
  ℕ, suc, ◌+◌, ◌-◌, ◌%◌, ◌^◌, ◌≤◌, ◌<◌, ◌≡◌, ◌≢◌, refl, sym, ap, ◌∙◌, Option, some, none, List,
  arith, length, take, ◌==◌, inl, inr, Bool-cases,
}
use kvspace_c.Art.Node
use kvspace_c.Art.Node.{
  Edge, Body, n4, n16, n48, n256, moved, assoc, put, position, child_at, shift_to, insert_at,
  remove_key, remove_at, exchange_sort, index_edges, spread, swap_last,
}
use kvspace_c.Art.Node.Edges.{
  IsSorted, IsSorted-Distinct, assoc-remove_key, All-remove_key, Distinct-remove_key,
  IsSorted-remove_key, length-remove_key, remove_key-none, assoc-none, remove_at-eq-remove_key,
}
use kvspace_c.Art.Node.Search.{Found, at, absent, position-Found}
use kvspace_c.Art.Node.Removal.{TakenOut, last-TakenOut, swap_last-TakenOut}
use kvspace_c.Art.Node.Valid.{IsValid, child-n16, DiffersAt, n256-put}

n4-rm :
    (es : List Edge) (b : ℕ)
    → IsValid (n4 es)
    → IsValid (n4 (remove_key es b)) × DiffersAt b none (n4 es) (n4 (remove_key es b))
unfolding Node.child
n4-rm es b (small, distinct, bytes) = (
  (
    omega (arith, length-remove_key es b, small),
    Distinct-remove_key es b distinct,
    All-remove_key _ es b bytes,
  ),
  λ d ltd. assoc-remove_key es b d distinct,
)

n16-remove_key :
    (es : List Edge) (b : ℕ)
    → IsValid (n16 es)
    → IsValid (n16 (remove_key es b)) × DiffersAt b none (n16 es) (n16 (remove_key es b))
n16-remove_key es b (small, sorted, bytes) =
    let sorted_out = IsSorted-remove_key es b sorted in
    (
      (omega (arith, length-remove_key es b, small), sorted_out, All-remove_key _ es b bytes),
      λ d ltd.
          rw (child-n16 (remove_key es b) d sorted_out, child-n16 es d sorted)
            (assoc-remove_key es b d (IsSorted-Distinct es sorted)),
    )

-- What the search finds in a sorted node is the edge to remove.
n16-rm :
    (es : List Edge) (b : ℕ) (o : Option ℕ)
    → IsSorted es
    → Found es b o
    → elim o [ none ↦ n16 es | some i ↦ n16 (remove_at es i) ] ≡ n16 (remove_key es b)
n16-rm es b none sorted (absent h) = ap n16 (sym (remove_key-none es b (assoc-none es b h)))
n16-rm es b (some i) sorted (at j e g k) =
    ap n16 (remove_at-eq-remove_key es j (IsSorted-Distinct es sorted) g ∙ ap (remove_key es) k)

n48-TakenOut :
    (index : ℕ → ℕ) (cs : List ℕ) (b : ℕ) (index' : ℕ → ℕ) (cs' : List ℕ)
    → length cs ≤ 48
    → TakenOut index cs b index' cs'
    → IsValid (n48 index' cs') × DiffersAt b none (n48 index cs) (n48 index' cs')
unfolding Node.child
n48-TakenOut index cs b index' cs' small t = ((omega (arith, t.one_less), t.indexed), t.same)

n48-unchanged :
    (index : ℕ → ℕ) (cs : List ℕ) (b : ℕ)
    → index b ≡ 255
    → DiffersAt b none (n48 index cs) (n48 index cs)
unfolding Node.child
n48-unchanged index cs b e d ltd = elim (Bool-cases (b == d)) [
  | inl same ↦
      let bd : b ≡ d = ground arith in
      let at_d : index d ≡ 255 = sym (ap index bd) ∙ e in rw (same, at_d) refl
  | inr other ↦ rw other refl
]

n48-swap :
    (index : ℕ → ℕ) (cs : List ℕ) (b n : ℕ)
    → length cs ≤ 48
    → (index' : ℕ → ℕ) × (cs' : List ℕ) × (swap_last (put index b 255) cs (index b) n
        ≡ n48 index' cs')
      × TakenOut index cs b index' cs'
    → (let out = swap_last (put index b 255) cs (index b) n in
        IsValid out × DiffersAt b none (n48 index cs) out)
n48-swap index cs b n small (index', cs', e, t) = rw e (n48-TakenOut index cs b index' cs' small t)

n48-rm :
    (index : ℕ → ℕ) (cs : List ℕ) (b : ℕ)
    → IsValid (n48 index cs)
    → b < 256
    → IsValid (Node.rm (n48 index cs) b)
      × DiffersAt b none (n48 index cs) (Node.rm (n48 index cs) b)
unfolding Node.rm
n48-rm index cs b (small, ok) lt = elim (Bool-cases (index b == 255)) [
  | inl unused ↦ rw unused ((small, ok), n48-unchanged index cs b (ground arith))
  | inr used ↦
      let has : index b ≢ 255 = ground arith in
      let below : index b < length cs = elim (ok.in_range b lt) [
        | inl u ↦ absurd (has u)
        | inr s ↦ s
      ] in
      let n = length cs - 1 in
      let size : length cs ≡ suc n = omega arith in
      elim (Bool-cases (index b == n)) [
        | inl at_end ↦
            rw (used, at_end)
              (n48-TakenOut index cs b (put index b 255) (take n cs) small
                (last-TakenOut index cs b n size small ok lt has (ground arith)))
        | inr inner ↦
            rw (used, inner)
              (n48-swap index cs b n small
                (swap_last-TakenOut index cs b n size small ok lt has (ground arith)))
      ]
]

moved-same : (b : ℕ) → DiffersAt b none moved moved
unfolding Node.child
moved-same b d ltd = ground arith

-- `art_rm` of a byte from a valid node gives a valid node without a child there and every other
-- child as it was.
pub rm-Removes :
    (node : Body) (b : ℕ)
    → IsValid node
    → b < 256
    → IsValid (Node.rm node b) × DiffersAt b none node (Node.rm node b)
unfolding Node.rm
rm-Removes (n4 es) b ok lt = n4-rm es b ok
rm-Removes (n16 es) b (small, sorted, bytes) lt =
    rw (n16-rm es b (position es b) sorted (position-Found es b sorted))
      (n16-remove_key es b (small, sorted, bytes))
rm-Removes (n48 index cs) b ok lt = n48-rm index cs b ok lt
rm-Removes (n256 cs count) b ok lt = (tt, n256-put cs b count ((count + 2 ^ 16 - 1) % 2 ^ 16) none)
rm-Removes moved b ok lt = (tt, moved-same b)
