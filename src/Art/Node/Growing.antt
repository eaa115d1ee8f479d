-- ===== src/Art/Node/Growing.antt =====
-- src/kvspace.c, `art_grow` on the four layouts.
use kvspace_c.Prelude.{
  ℕ, ◌+◌, ◌%◌, ◌^◌, ◌≤◌, ◌<◌, ◌≡◌, ◌≢◌, refl, ◌∙◌, Option, some, none, List, arith, length, map,
  leb, inl, inr, Bool-cases, if◌then◌else◌,
}
use kvspace_c.Art.Node
use kvspace_c.Art.Node.{
  Edge, Body, n4, n16, n48, n256, moved, assoc, put, position, child_at, shift_to, insert_at,
  remove_key, remove_at, exchange_sort, spread, swap_last,
}
use kvspace_c.Art.Node.Exchange.{exchange_sort-SortsTo}
use kvspace_c.Art.Node.Wide.{length-map}
use kvspace_c.Art.Node.Growth.{spread-through}
use kvspace_c.Art.Node.Valid.{IsValid}

n48-grow :
    (index : ℕ → ℕ) (cs : List ℕ)
    → IsValid (n48 index cs)
    → (d : ℕ) → d < 256
    → Node.child (n256 (spread index 0 cs (λ b. none)) (length cs)) d ≡ Node.child (n48 index cs) d
unfolding Node.child
n48-grow index cs (small, ok) d ltd = spread-through index (length cs) small ok cs d refl ltd

full_at :
    (size limit : ℕ) (x : Body)
    → size ≤ limit
    → (if leb limit size then none else some x) ≡ none
    → size ≡ limit
full_at size limit x le h = elim (Bool-cases (leb limit size)) [
  | inl e ↦ ground arith
  | inr e ↦ absurd (ground arith)
]

room_at :
    (size limit : ℕ) (x : Body) → size < limit → (if leb limit size then none else some x) ≡ some x
room_at size limit x lt = ground arith

n256-room :
    (cs : ℕ → Option ℕ) (count b c : ℕ)
    → Node.child (n256 cs count) b ≡ none
    → Node.add (n256 cs count) b c ≡ some (n256 (put cs b (some c)) ((count + 1) % 2 ^ 16))
unfolding Node.child Node.add
n256-room cs count b c h = rw h refl

n256-full :
    (cs : ℕ → Option ℕ) (count b c : ℕ)
    → Node.child (n256 cs count) b ≡ none
    → Node.add (n256 cs count) b c ≢ none
n256-full cs count b c h full = let r = n256-room cs count b c h in cc (r, full)

-- A valid node, not moved, in which `art_add` finds no room for a byte that has no child grows,
-- and the node that `art_grow` makes has room for that byte.
pub add-after_grow :
    (node : Body) (b c : ℕ)
    → IsValid node
    → b < 256
    → node ≢ moved
    → Node.child node b ≡ none
    → Node.add node b c ≡ none
    → (big : Body) × (out : Body) × (Node.grow node ≡ some big) × (Node.add big b c ≡ some out)
unfolding Node.add Node.grow
add-after_grow (n4 es) b c (small, distinct, _) lt live new full =
    let s = exchange_sort-SortsTo (length es) es (omega arith) distinct in
    let size = full_at (length es) 4 _ small full in
    (_, _, refl, room_at (length (exchange_sort (length es) es)) 16 _ (omega (arith, s.size)))
add-after_grow (n16 es) b c (small, _, _) lt live new full =
    let size = length-map (λ (e : Edge). e.child) es in
    (_, _, refl, room_at (length (map (λ (e : Edge). e.child) es)) 48 _ (omega (arith, size)))
add-after_grow (n48 index cs) b c ok lt live new full = (
  _,
  _,
  refl,
  n256-room (spread index 0 cs (λ _. none)) (length cs) b c (n48-grow index cs ok b lt ∙ new),
)
add-after_grow (n256 cs count) b c ok lt live new full = absurd (n256-full cs count b c new full)
add-after_grow moved b c ok lt live new full = absurd (live refl)
