-- ===== src/Art/Node/Adding.antt =====
-- src/kvspace.c, `art_add` on the four layouts.
use kvspace_c.Prelude.{
  ℕ, zero, suc, ◌+◌, ◌%◌, ◌^◌, ◌<◌, ◌≡◌, refl, sym, ◌∙◌, Option, some, none, List, [], ◌∷◌, ◌++◌,
  Bool, arith, length, leb, true, false, length-append, if◌then◌else◌,
}
use kvspace_c.Art.Node
use kvspace_c.Art.Node.{
  Edge, Body, n4, n16, n48, n256, moved, assoc, put, position, child_at, shift_to, insert_at,
  remove_key, remove_at, exchange_sort, index_edges, spread, swap_last,
}
use kvspace_c.Art.Node.Edges.{
  IsSorted, Distinct, All-append, assoc-insert_at, assoc-snoc, Distinct-snoc,
}
use kvspace_c.Art.Node.Sorted.{insert_at-shift_to-IsSorted, length-insert_at}
use kvspace_c.Art.Node.Wide.{Indexed}
use kvspace_c.Art.Node.Dense.{through-none, through-snoc, Indexed-snoc}
use kvspace_c.Art.Node.Valid.{AreBytes, IsValid, child-n16, DiffersAt, n256-put}

AreBytes-insert_at :
    (es : List Edge) (p : ℕ) (e : Edge) → AreBytes es → e.key < 256 → AreBytes (insert_at es p e)
AreBytes-insert_at [] zero e h k = (k, tt)
AreBytes-insert_at [] (suc p) e h k = (k, tt)
AreBytes-insert_at (x ∷ es) zero e h k = (k, h)
AreBytes-insert_at (x ∷ es) (suc p) e (hx, h) k = (hx, AreBytes-insert_at es p e h k)

-- A result behind a test for room.
with_room {ℓ} :
    {A : Type ℓ} (full : Bool) (x : A) {out : A}
    → (if full then none else some x) ≡ some out
    → full ≡ false × x ≡ out
with_room true x h = cc
with_room false x h = (refl, cc)

n4-add :
    (es : List Edge) (b c : ℕ)
    → length es < 4
    → Distinct es
    → AreBytes es
    → b < 256
    → assoc es b ≡ none
    → (let out = n4 (es ++ (record { key = b; child = c }) ∷ []) in
        IsValid out × DiffersAt b (some c) (n4 es) out)
unfolding Node.child
n4-add es b c room distinct bytes lt new =
    let e : Edge = record { key = b; child = c } in
    (
      (
        omega (arith, length-append es (e ∷ [])),
        Distinct-snoc es e distinct new,
        All-append _ es (e ∷ []) bytes (lt, tt),
      ),
      λ d ltd. assoc-snoc es e d new,
    )

n16-add :
    (es : List Edge) (b c : ℕ)
    → length es < 16
    → IsSorted es
    → AreBytes es
    → b < 256
    → assoc es b ≡ none
    → (let out = n16 (insert_at es (shift_to es b (length es)) (record { key = b; child = c })) in
        IsValid out × DiffersAt b (some c) (n16 es) out)
n16-add es b c room sorted bytes lt new =
    let e : Edge = record { key = b; child = c } in
    let p = shift_to es b (length es) in
    let sorted_out : IsSorted (insert_at es p e) = insert_at-shift_to-IsSorted es e sorted new in
    (
      (omega (arith, length-insert_at es p e), sorted_out, AreBytes-insert_at es p e bytes lt),
      λ d ltd.
          rw (child-n16 (insert_at es p e) d sorted_out, child-n16 es d sorted)
            (assoc-insert_at es p e d new),
    )

n48-add :
    (index : ℕ → ℕ) (cs : List ℕ) (b c : ℕ)
    → length cs < 48
    → Indexed index (length cs)
    → b < 256
    → index b ≡ 255
    → (let out = n48 (put index b (length cs)) (cs ++ c ∷ []) in
        IsValid out × DiffersAt b (some c) (n48 index cs) out)
unfolding Node.child
n48-add index cs b c room ok lt new =
    let len : length (cs ++ c ∷ []) ≡ suc (length cs) = omega (arith, length-append cs (c ∷ [])) in
    (
      (omega arith, rw len (Indexed-snoc index cs b c ok lt room new)),
      λ d ltd. through-snoc index cs b c ok lt room new d ltd,
    )

n256-add :
    (cs : ℕ → Option ℕ) (count b c : ℕ) {out : Body}
    → (o : Option ℕ)
    → elim o [ some x ↦ none | none ↦ some (n256 (put cs b (some c)) ((count + 1) % 2 ^ 16)) ]
      ≡ some out
    → IsValid out × DiffersAt b (some c) (n256 cs count) out
n256-add cs count b c (some x) h = cc
n256-add cs count b c {out} none h =
    let e : n256 (put cs b (some c)) ((count + 1) % 2 ^ 16) ≡ out = cc in
    rw (sym e) (tt, n256-put cs b count ((count + 1) % 2 ^ 16) (some c))

n48-none :
    (index : ℕ → ℕ) (cs : List ℕ) (b : ℕ)
    → Indexed index (length cs)
    → b < 256
    → Node.child (n48 index cs) b ≡ none
    → index b ≡ 255
unfolding Node.child
n48-none index cs b ok lt h = through-none index cs b ok lt h

n4-none : (es : List Edge) (b : ℕ) → Node.child (n4 es) b ≡ none → assoc es b ≡ none
unfolding Node.child
n4-none es b h = h

-- `art_add` of a byte that has no child in a valid node, when it succeeds, gives a valid node
-- with this child added and every other child as it was.
pub add-Adds :
    (node : Body) (b c : ℕ) {out : Body}
    → IsValid node
    → b < 256
    → Node.child node b ≡ none
    → Node.add node b c ≡ some out
    → IsValid out × DiffersAt b (some c) node out
unfolding Node.add
add-Adds (n4 es) b c (small, distinct, bytes) lt new h =
    let (room, e) = with_room (leb 4 (length es)) _ h in
    rw (sym e) (n4-add es b c (ground arith) distinct bytes lt (n4-none es b new))
add-Adds (n16 es) b c (small, sorted, bytes) lt new h =
    let x = n16 (insert_at es (shift_to es b (length es)) (record { key = b; child = c })) in
    let (room, e) = with_room (leb 16 (length es)) x h in
    let new' : assoc es b ≡ none = sym (child-n16 es b sorted) ∙ new in
    rw (sym e) (n16-add es b c (ground arith) sorted bytes lt new')
add-Adds (n48 index cs) b c (small, ok) lt new h =
    let (room, e) = with_room (leb 48 (length cs)) _ h in
    rw (sym e) (n48-add index cs b c (ground arith) ok lt (n48-none index cs b ok lt new))
add-Adds (n256 cs count) b c ok lt new h = n256-add cs count b c (cs b) h
add-Adds moved b c {out} ok lt new h = cc
