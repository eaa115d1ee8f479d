-- ===== src/Store/SearchLaws.antt =====
-- src/kvspace.c, `art_search` on a store, and what becomes of it when one value is cleared.
use kvspace_c.Prelude.{
  ℕ, suc, ◌+◌, ◌≡◌, ◌≢◌, ◌↔◌, sym, ◌∙◌, false, Option, none, some, length, arith, Bytes,
  Option-cases, inl, inr,
}
use kvspace_c.Allocator.{Allocator}
use kvspace_c.Art.Tree.{Node, Heap, find2}
use kvspace_c.Art.Tree.Lookup.{Spells, ends, goes, HasValue, SpellsFrom, find2_iff, walk-no_node}
use kvspace_c.Store.State.{Store, search}

find2-no_root : (h : Heap) (key : Bytes) → find2 h none key ≡ some (none, none)
unfolding find2
find2-no_root h key =
    let fuel : length key + 2 ≡ suc (length key + 1) = omega arith in
    rw fuel (walk-no_node h (length key + 1) key 0 none)

module _ {A : Allocator} where
  -- A search finds a node exactly when the key ends there and it has a value.
  pub search_iff :
      (st : Store A) (key : Bytes) (leaf : ℕ)
      → (search st key ≡ some leaf)
        ↔ (SpellsFrom st.slab.nodes st.root key leaf × HasValue st.slab.nodes leaf)
  unfolding search
  search_iff st key leaf = elim (Option-cases st.root) [
    | inl e ↦ rw (search, e, find2-no_root st.slab.nodes key) (λ h. cc h, λ (sp, v). absurd sp)
    | inr (root, e) ↦
        let (r, f, iff) = find2_iff st.slab.nodes root key in rw (search, e, f) (iff leaf)
  ]

-- Every node of `h` is a node of `h'` with the same prefix and the same children.
abbrev pub Shaped : Heap → Heap → Type 0
Shaped h h' =
    (i : ℕ) (x : Node)
    → h i ≡ some x
    → (y : Node) × (h' i ≡ some y) × (x.prefix ≡ y.prefix) × (x.body ≡ y.body)

-- Such a heap spells the same keys.
Spells-Shaped :
    {h h' : Heap} {nid : ℕ} {key : Bytes} {leaf : ℕ}
    → Shaped h h'
    → Spells h nid key leaf
    → Spells h' nid key leaf
Spells-Shaped s (ends nid x g live) =
    let (y, g', p, b) = s nid x g in rw p (ends nid y g' (rw b at live))
Spells-Shaped s (goes nid x b m t leaf g live c sp) =
    let (y, g', p, q) = s nid x g in
    rw p (goes nid y b m t leaf g' (rw q at live) (rw q at c) (Spells-Shaped s sp))

SpellsFrom-Shaped :
    {h h' : Heap} (o : Option ℕ) (key : Bytes) (leaf : ℕ)
    → Shaped h h'
    → SpellsFrom h o key leaf
    → SpellsFrom h' o key leaf
SpellsFrom-Shaped none key leaf s sp = sp
SpellsFrom-Shaped (some nid) key leaf s sp = Spells-Shaped s sp

-- `h'` is `h` but for the node `leaf`, which keeps prefix and children and has no value.
pub record Cleared (leaf : ℕ) (h h' : Heap) : Type 0 where
  pub there : Shaped h h'
  pub back : Shaped h' h
  pub gone : (x : Node) → h' leaf ≡ some x → x.has_value ≡ false
  pub elsewhere : (i : ℕ) → i ≢ leaf → h' i ≡ h i

module _ {A : Allocator} where
  -- Where the value of one node is cleared, a search for any key finds what it found before, but for
  -- that node.
  pub search-Cleared :
      (st st' : Store A) (leaf : ℕ)
      → Cleared leaf st.slab.nodes st'.slab.nodes
      → st'.root ≡ st.root
      → (key : Bytes) (l : ℕ) → (search st' key ≡ some l) ↔ ((search st key ≡ some l) × (l ≢ leaf))
  search-Cleared st st' leaf c same key l =
      let (to', from') = search_iff st key l in
      let (to2, from2) = search_iff st' key l in
      (
        λ f.
            let (sp, (x, g, v)) = to2 f in
            let ne : l ≢ leaf = λ e. absurd (cc (c.gone x (rw e at g), v)) in
            (
              from' (
                SpellsFrom-Shaped st.root key l c.back (rw same at sp),
                (x, sym (c.elsewhere l ne) ∙ g, v),
              ),
              ne,
            ),
        λ (f, ne).
            let (sp, (x, g, v)) = to' f in
            from2
              (rw same (SpellsFrom-Shaped st.root key l c.there sp), (x, c.elsewhere l ne ∙ g, v)),
      )
