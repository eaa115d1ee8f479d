-- ===== src/View/Deleting.antt =====
-- src/kvspace.c, `kvspaceShmViewDel`: what it deletes, and when it changes nothing.
use kvspace_c.Prelude.{
  ℕ, ◌+◌, ◌%◌, ◌≡◌, ◌≢◌, refl, sym, ap, ◌∙◌, ◌⊎◌, Option, none, some, arith, Option-cases, inl, inr,
}
use kvspace_c.Allocator.{Allocator}
use kvspace_c.Art.Tree.{Node, write}
use kvspace_c.Ring.{Ring, Viewer, reserve, commit, u64}
use kvspace_c.Ring.Writer.{reserve-none}
use kvspace_c.Store.{Store, bump_value, value_of}
use kvspace_c.Store.GensLaws.{bump_value-rest}
use kvspace_c.View.{
  Token, Answer, done, stale, refused, view_check, clear_value, without_value, del_reserved,
  del_checked, view_del,
}
use kvspace_c.View.Fresh.{Current, view_check_iff}

module _ {A : Allocator} where
  -- What a deletion through a current token leaves: the node has no value any more, its box is
  -- committed to the ring at the entry that was reserved, the generation of the key set is raised,
  -- and every other node and every byte is as it was.
  pub record ViewDeleted (v : Viewer) (st : Store A) (tok : Token) (st' : Store A) : Type 0 where
    pub gone : value_of st' tok.node_id ≡ none
    pub others : (i : ℕ) → i ≢ tok.node_id → value_of st' i ≡ value_of st i
    pub committed :
        (idx : ℕ) × ((reserve v st.ring).0 ≡ some idx)
        × (st'.ring ≡ commit st.recovery_epoch idx tok.head tok.cap (reserve v st.ring).1)
    pub bytes : st'.bytes ≡ st.bytes
    pub keys : st'.list_gen ≡ (st.list_gen + 1) % u64

  pub clear_value-eq :
      (st : Store A) (id : ℕ) {x : Node}
      → st.slab.nodes id ≡ some x
      → clear_value id st
        ≡ record st { slab = record st.slab { nodes = write st.slab.nodes id (without_value x) } }
  clear_value-eq st id h = rw (clear_value, h) refl

  pub node_of-value :
      (st : Store A) (id off : ℕ)
      → value_of st id ≡ some off
      → (x : Node) × (st.slab.nodes id ≡ some x)
  unfolding value_of
  node_of-value st id off h = elim (Option-cases (st.slab.nodes id)) [
    | inl e ↦ absurd (let q = rw (value_of, e) at h in cc q)
    | inr (x, e) ↦ (x, e)
  ]

  -- A node that was cleared has no value, and the others keep theirs.
  clear_value-value :
      (st : Store A) (id : ℕ) {x : Node}
      → st.slab.nodes id ≡ some x
      → (value_of (clear_value id st) id ≡ none)
        × ((i : ℕ) → i ≢ id → value_of (clear_value id st) i ≡ value_of st i)
  unfolding value_of
  clear_value-value st id {x} h = rw (clear_value-eq st id h) (ground arith, λ i ne. ground arith)

  value_of-bump :
      (n id : ℕ) (st : Store A) (i : ℕ) → value_of (bump_value n id st) i ≡ value_of st i
  unfolding value_of
  value_of-bump n id st i = ap (λ (s : Store A). value_of s i) (sym (bump_value-rest n st id).0)

  -- The end of the deletion, for what the ring answered.
  del_reserved-none :
      (st : Store A) (tok : Token) (off : ℕ) (o : Option ℕ × Ring)
      → ((r : Ring) → o ≡ (none, r) → r ≡ st.ring)
      → (del_reserved st tok off o).0 ≢ done
      → (del_reserved st tok off o).1 ≡ st
  unfolding del_reserved
  del_reserved-none st tok off (none, r) same h = ap (λ q. record st { ring = q }) (same r refl)
  del_reserved-none st tok off (some idx, r) same h = absurd (h refl)

  del_checked-kept :
      (v : Viewer) (st : Store A) (tok : Token) (a : Answer)
      → (del_checked v st tok a).0 ≢ done
      → (del_checked v st tok a).1 ≡ st
  unfolding del_checked
  del_checked-kept v st tok refused h = refl
  del_checked-kept v st tok stale h = refl
  del_checked-kept v st tok done h = elim (Option-cases (value_of st tok.node_id)) [
    | inl e ↦ rw (del_checked, e) refl
    | inr (off, e) ↦
        let kept =
          del_reserved-none st tok off (reserve v st.ring) (λ r q. reserve-none v st.ring q) in
        rw (del_checked, e) (kept (rw (del_checked, e) at h))
  ]

  -- An answer other than 0 changes nothing, also where the ring is full.
  pub view_del-kept :
      (v : Viewer) (st : Store A) (tok : Token)
      → (view_del v st tok).0 ≢ done
      → (view_del v st tok).1 ≡ st
  unfolding view_del
  view_del-kept v st tok h = del_checked-kept v st tok (view_check st tok) h

  module _ (v : Viewer) (st : Store A) (tok : Token) (idx : ℕ) where
    abbrev cleared : Store A
    cleared = bump_value 2 tok.node_id (clear_value tok.node_id st)

    abbrev deleted : Store A
    deleted = record cleared {
      ring = commit st.recovery_epoch idx tok.head tok.cap (reserve v st.ring).1;
      list_gen = (cleared.list_gen + 1) % u64;
    }

    deleted-ViewDeleted :
        {x : Node}
        → st.slab.nodes tok.node_id ≡ some x
        → (reserve v st.ring).0 ≡ some idx
        → ViewDeleted v st tok deleted
    unfolding value_of
    deleted-ViewDeleted g r =
        let (gone, others) = clear_value-value st tok.node_id g in
        let same = (bump_value-rest 2 (clear_value tok.node_id st) tok.node_id).0 in
        record {
          gone = value_of-bump 2 tok.node_id (clear_value tok.node_id st) tok.node_id ∙ gone;
          others = λ i ne. value_of-bump 2 tok.node_id (clear_value tok.node_id st) i ∙ others i ne;
          committed = (idx, r, refl);
          bytes =
              ap (λ (s : Store A). s.bytes) (sym same)
              ∙ ap (λ (s : Store A). s.bytes) (clear_value-eq st tok.node_id g);
          keys =
              ap (λ (s : Store A). (s.list_gen + 1) % u64) (sym same)
              ∙ ap (λ (s : Store A). (s.list_gen + 1) % u64) (clear_value-eq st tok.node_id g);
        }

    del_reserved-some :
        (o : Option ℕ × Ring)
        → o.0 ≡ some idx
        → del_reserved st tok tok.head o ≡ (
          done,
          record cleared {
            ring = commit st.recovery_epoch idx tok.head tok.cap o.1;
            list_gen = (cleared.list_gen + 1) % u64;
          },
        )
    unfolding del_reserved
    del_reserved-some (none, r) e = absurd (cc e)
    del_reserved-some (some i, r) e =
        let q : i ≡ idx = cc e in
        ap
          (λ (k : ℕ). (
            done,
            record cleared {
              ring = commit st.recovery_epoch k tok.head tok.cap r;
              list_gen = (cleared.list_gen + 1) % u64;
            },
          ))
          q

    view_del-eq :
        Current st tok → (reserve v st.ring).0 ≡ some idx → view_del v st tok ≡ (done, deleted)
    unfolding view_del
    view_del-eq c r =
        rw ((view_check_iff st tok).1 c, del_checked, c.value)
          (del_reserved-some (reserve v st.ring) r)

  -- A deletion through a current token, for which the ring has an entry, answers 0. The value of the
  -- node is gone and its box is in the ring; no token for this node is current any more, and the
  -- other nodes keep their values.
  pub view_del-ViewDeleted :
      (v : Viewer) (st : Store A) (tok : Token) {idx : ℕ}
      → Current st tok
      → (reserve v st.ring).0 ≡ some idx
      → let (a, st') = view_del v st tok in
        (a ≡ done)
        × ViewDeleted v st tok st'
        × ((t : Token) → t.node_id ≡ tok.node_id → view_check st' t ≢ done)
  view_del-ViewDeleted v st tok {idx} c r =
      let (x, g) = node_of-value st tok.node_id tok.head c.value in
      let d = deleted-ViewDeleted v st tok idx g r in
      rw (view_del-eq v st tok idx c r) (
        refl,
        d,
        λ t e h.
            let later = ((view_check_iff _ t).0 h).value in
            let q : none ≡ some t.head = sym d.gone ∙ rw e at later in absurd (cc q),
      )

  del_reserved-cases :
      (st : Store A) (tok : Token) (off : ℕ) (o : Option ℕ × Ring)
      → ((del_reserved st tok off o).0 ≢ done)
        ⊎ (((idx : ℕ) × (o.0 ≡ some idx)) × ((del_reserved st tok off o).0 ≡ done))
  unfolding del_reserved
  del_reserved-cases st tok off (none, r) = inl (λ h. cc h)
  del_reserved-cases st tok off (some idx, r) = inr ((idx, refl), refl)

  del_checked-cases :
      (v : Viewer) (st : Store A) (tok : Token) (a : Answer)
      → ((del_checked v st tok a).0 ≢ done)
        ⊎ ((a ≡ done) × ((idx : ℕ) × ((reserve v st.ring).0 ≡ some idx)))
  unfolding del_checked
  del_checked-cases v st tok refused = inl (λ h. cc h)
  del_checked-cases v st tok stale = inl (λ h. cc h)
  del_checked-cases v st tok done = elim (Option-cases (value_of st tok.node_id)) [
    | inl e ↦ inl (λ h. let q = rw (del_checked, e) at h in cc q)
    | inr (off, e) ↦ elim (del_reserved-cases st tok off (reserve v st.ring)) [
      | inl n ↦ inl (λ h. n (rw (del_checked, e) at h))
      | inr (i, d) ↦ inr (refl, i)
    ]
  ]

  -- A deletion answers something other than 0, or the token is current and the ring has an entry.
  pub view_del-cases :
      (v : Viewer) (st : Store A) (tok : Token)
      → ((view_del v st tok).0 ≢ done)
        ⊎ (Current st tok × ((idx : ℕ) × ((reserve v st.ring).0 ≡ some idx)))
  unfolding view_del
  view_del-cases v st tok = elim (del_checked-cases v st tok (view_check st tok)) [
    | inl n ↦ inl n
    | inr (d, i) ↦ inr ((view_check_iff st tok).0 d, i)
  ]
