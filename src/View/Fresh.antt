-- ===== src/View/Fresh.antt =====
-- src/kvspace.c, `kvspaceShmViewCheck` and `kvspaceShmViewFromRef`: which tokens are current.
use kvspace_c.Prelude.{
  ℕ, ◌+◌, ◌%◌, ◌<◌, ◌≡◌, ◌≢◌, ◌↔◌, refl, sym, ap, ◌∙◌, Bool, true, false, ◌&&◌, some, ◌==◌, arith,
  Bool-cases, Option-cases, inl, inr, Bytes, ==_iff, and→both,
}
use kvspace_c.Allocator.{Allocator}
use kvspace_c.Registry.{u32}
use kvspace_c.Values.{Wire}
use kvspace_c.Store.{Store, Gens, Ref, view_guard, value_of, gens_at, bump_struct}
use kvspace_c.Store.GensLaws.{gens_at-bump_struct}
use kvspace_c.View.{
  Token, done, token_of, inline_head, view_of_node, view_from_ref, followed_id, same_value,
  same_struct, view_check,
}

module _ {A : Allocator} where
  -- What a token must agree with to be current: the handle is in use by this process, store and
  -- recovery epoch are those of the token, and its node has the same structure generation and the
  -- same box.
  pub record Current (st : Store A) (tok : Token) : Type 0 where
    pub in_use : view_guard st ≡ false
    pub store : tok.store_id ≡ st.store_id
    pub epoch : tok.epoch ≡ st.recovery_epoch
    pub gens : (g : Gens) × (gens_at st tok.node_id ≡ some g) × (g.struct_gen ≡ tok.struct_gen)
    pub value : value_of st tok.node_id ≡ some tok.head

  same_value-inv :
      (st : Store A) (tok : Token)
      → same_value st tok ≡ true
      → value_of st tok.node_id ≡ some tok.head
  same_value-inv st tok h = elim (Option-cases (value_of st tok.node_id)) [
    | inl e ↦ absurd (let q = rw (same_value, e) at h in cc q)
    | inr (off, e) ↦
        let q = rw (same_value, e) at h in e ∙ ap some (sym ((==_iff tok.head off).0 q))
  ]

  same_struct-inv :
      (st : Store A) (tok : Token)
      → same_struct st tok ≡ true
      → (g : Gens) × (gens_at st tok.node_id ≡ some g) × (g.struct_gen ≡ tok.struct_gen)
  same_struct-inv st tok h = elim (Option-cases (gens_at st tok.node_id)) [
    | inl e ↦ absurd (let q = rw (same_struct, e) at h in cc q)
    | inr (g, e) ↦
        let q = rw (same_struct, e) at h in (g, e, (==_iff g.struct_gen tok.struct_gen).0 q)
  ]

  -- The tests of `kvspaceShmViewCheck` behind its guard.
  abbrev tests : Store A → Token → Bool
  tests st tok =
      tok.store_id == st.store_id
      && tok.epoch == st.recovery_epoch
      && same_struct st tok
      && same_value st tok

  view_check-tests :
      (st : Store A) (tok : Token)
      → view_check st tok ≡ done
      → (view_guard st ≡ false) × (tests st tok ≡ true)
  unfolding view_check
  view_check-tests st tok h = elim (Bool-cases (view_guard st)) [
    | inl g ↦ absurd (let q = rw (view_check, g) at h in cc q)
    | inr g ↦ elim (Bool-cases (tests st tok)) [
      | inl t ↦ (g, t)
      | inr t ↦ absurd (let q = rw (view_check, g, t) at h in cc q)
    ]
  ]

  tests-Current :
      (st : Store A) (tok : Token) → view_guard st ≡ false → tests st tok ≡ true → Current st tok
  tests-Current st tok g h =
      let first = tok.store_id == st.store_id in
      let second = tok.epoch == st.recovery_epoch in
      let (h3, d) = and→both (first && second && same_struct st tok) (same_value st tok) h in
      let (h2, c) = and→both (first && second) (same_struct st tok) h3 in
      let (a, b) = and→both first second h2 in
      record {
        in_use = g;
        store = (==_iff tok.store_id st.store_id).0 a;
        epoch = (==_iff tok.epoch st.recovery_epoch).0 b;
        gens = same_struct-inv st tok c;
        value = same_value-inv st tok d;
      }

  pub Current-view_check : (st : Store A) (tok : Token) → Current st tok → view_check st tok ≡ done
  unfolding view_check
  Current-view_check st tok c =
      let (g, at, same) = c.gens in
      rw
        (
          view_check,
          c.in_use,
          (==_iff tok.store_id st.store_id).1 c.store,
          (==_iff tok.epoch st.recovery_epoch).1 c.epoch,
          same_struct,
          at,
          (==_iff g.struct_gen tok.struct_gen).1 same,
          same_value,
          c.value,
          (==_iff tok.head tok.head).1 refl,
        )
        refl

  -- The check answers 0 exactly for a current token.
  pub view_check_iff : (st : Store A) (tok : Token) → (view_check st tok ≡ done) ↔ Current st tok
  view_check_iff st tok = (
    λ h. let (g, t) = view_check-tests st tok h in tests-Current st tok g t,
    Current-view_check st tok,
  )

  -- The parts of a token that was made for a node.
  view_of_node-inv :
      (w : Wire) (st : Store A) (id : ℕ) {tok : Token}
      → view_of_node w st id ≡ some tok
      → (off : ℕ) × (head : Bytes) × (g : Gens) × (value_of st id ≡ some off)
        × (gens_at st id ≡ some g)
        × (token_of w st id off head g ≡ tok)
  unfolding view_of_node
  view_of_node-inv w st id {tok} h = elim (Option-cases (value_of st id)) [
    | inl e ↦ absurd (let q = rw (view_of_node, e) at h in cc q)
    | inr (off, e) ↦ elim (Option-cases (inline_head w st off)) [
      | inl f ↦ absurd (let q = rw (view_of_node, e, f) at h in cc q)
      | inr (head, f) ↦ elim (Option-cases (gens_at st id)) [
        | inl k ↦ absurd (let q = rw (view_of_node, e, f, k) at h in cc q)
        | inr (g, k) ↦
            let q : some (token_of w st id off head g) ≡ some tok =
              rw (view_of_node, e, f, k) at h in
            (off, head, g, e, k, cc q)
      ]
    ]
  ]

  view_of_node-Current :
      (w : Wire) (st : Store A) (id : ℕ) {tok : Token}
      → view_guard st ≡ false
      → view_of_node w st id ≡ some tok
      → Current st tok
  view_of_node-Current w st id open' h =
      let (off, head, g, e, k, eq) = view_of_node-inv w st id h in
      rw (sym eq)
        (record { in_use = open'; store = refl; epoch = refl; gens = (g, k, refl); value = e })

  -- A token that `kvspaceShmViewFromRef` makes is current.
  pub view_from_ref-Current :
      (w : Wire) (st : Store A) (ref : Ref) {tok : Token}
      → view_from_ref w st ref ≡ some tok
      → Current st tok
  unfolding view_from_ref
  view_from_ref-Current w st ref {tok} h = elim (Bool-cases (view_guard st)) [
    | inl g ↦ absurd (let q = rw (view_from_ref, g) at h in ground arith)
    | inr g ↦ elim (Bool-cases (ref.gen == 0)) [
      | inr z ↦ absurd (let q = rw (view_from_ref, g, z) at h in cc q)
      | inl z ↦ elim (Option-cases (followed_id st ref)) [
        | inl e ↦ absurd (let q = rw (view_from_ref, g, z, e) at h in cc q)
        | inr (id, e) ↦ view_of_node-Current w st id g (rw (view_from_ref, g, z, e) at h)
      ]
    ]
  ]

  -- Once the structure generation of its node is raised, a token that was current is not.
  pub bump_struct-Current :
      (st : Store A) (tok : Token)
      → tok.struct_gen < u32
      → Current st tok
      → view_check (bump_struct tok.node_id st) tok ≢ done
  bump_struct-Current st tok small c h =
      let (g, at, same) = c.gens in
      let (open', t) = view_check-tests _ tok h in
      let (g', at', same') = (tests-Current _ tok open' t).gens in
      let q : some (record g { struct_gen = (g.struct_gen + 1) % u32 }) ≡ some g' =
        sym (gens_at-bump_struct st tok.node_id at) ∙ at' in
      let e : (g.struct_gen + 1) % u32 ≡ g'.struct_gen = cc q in
      omega (arith, e, same, same', small)
