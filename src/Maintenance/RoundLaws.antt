-- ===== src/Maintenance/RoundLaws.antt =====
-- src/kvspace.c, `p2_round`: when it frees, and how it leaves the barrier.
use native.Mathlib.Nat.{zero-add}
use kvspace_c.Prelude.{
  length, ℕ, ◌+◌, ◌%◌, ◌≡◌, refl, ◌∙◌, ap, Bool, true, false, Option, some, none, List, arith, inl,
  inr, ◌⊎◌,
}
use kvspace_c.Registry.{Slot, u32, my_claim}
use kvspace_c.Allocator.{Allocator}
use kvspace_c.Ring.{Viewer, Draining, drain, u64}
use kvspace_c.Ring.Window.{IsValid, contents}
use kvspace_c.Ring.Fate.{released, kept}
use kvspace_c.Ring.Drain.{free_all}
use kvspace_c.Ring.DrainLoop.{drain_lem}
use kvspace_c.Barrier.{elect, release_busy, wait_acks}
use kvspace_c.Barrier.Acks.{Ended, wait_acks-Ended}
use kvspace_c.Maintenance.{
  Shared, Handle, World, Outcome, freed, held, abandoned, clear_freeing, after_wait, round,
}

module _ (A : Allocator) (w : World) (h : Handle) (mine : ℕ) (sh : Shared) (b : A.Boxes) where
  -- The barrier word after the wait, if this process owned it.
  after_wait-released :
      (o : Option (Bool × List Slot)) {out : Outcome} {sh' : Shared} {b' : A.Boxes}
      → after_wait A w h mine sh b o ≡ some (out, sh', b')
      → sh'.barrier_state ≡ release_busy mine sh.barrier_state
  unfolding after_wait
  after_wait-released none e = cc
  after_wait-released (some (false, slots)) e = ground arith
  after_wait-released (some (true, slots)) e = ground arith

  after_wait-abandoned :
      (o : Option (Bool × List Slot)) {sh' : Shared} {b' : A.Boxes}
      → after_wait A w h mine sh b o ≡ some (abandoned, sh', b')
      → (b' ≡ b)
        × (sh'.ring ≡ w.writer sh.ring)
        × (sh'.recovery_epoch ≡ sh.recovery_epoch)
        × (sh'.round_aborted ≡ (sh.round_aborted + 1) % u64)
  unfolding after_wait
  after_wait-abandoned none e = cc
  after_wait-abandoned (some (false, slots)) e = ground arith
  after_wait-abandoned (some (true, slots)) e = ground arith

  abbrev pub viewer_after : List Slot → Viewer
  viewer_after slots = record {
    procs = w.procs_after;
    slots = slots;
    claim = mine;
    reclaim_unavailable = h.reclaim_unavailable;
  }

  abbrev acknowledged : List Slot → Option (Bool × List Slot)
  acknowledged slots = some (true, slots)

  after_wait-freed :
      (o : Option (Bool × List Slot)) {n : ℕ} {sh' : Shared} {b' : A.Boxes}
      → after_wait A w h mine sh b o ≡ some (freed n, sh', b')
      → (slots : List Slot) × (d : Draining A) × (o ≡ some (true, slots))
        × (drain A (viewer_after slots) sh.recovery_epoch (w.writer sh.ring) b ≡ some d)
        × (b' ≡ d.boxes)
        × (n ≡ d.freed)
        × (sh'.ring ≡ d.ring)
  unfolding after_wait
  after_wait-freed none e = cc
  after_wait-freed (some (false, slots)) e = absurd (ground arith)
  after_wait-freed (some (true, slots)) {n} {sh'} {b'} e =
      go (drain A (viewer_after slots) sh.recovery_epoch (w.writer sh.ring) b) refl
    where
      go :
          (o : Option (Draining A))
          → drain A (viewer_after slots) sh.recovery_epoch (w.writer sh.ring) b ≡ o
          → (slots' : List Slot) × (d : Draining A) × (acknowledged slots ≡ acknowledged slots')
            × (drain A (viewer_after slots') sh.recovery_epoch (w.writer sh.ring) b ≡ some d)
            × (b' ≡ d.boxes)
            × (n ≡ d.freed)
            × (sh'.ring ≡ d.ring)
      go none q = absurd (ground arith)
      go (some d) q = (slots, d, refl, q, ground arith, ground arith, ground arith)

elect-won :
    (w : World) (sh : Shared) (mine : ℕ)
    → (elect w.procs sh.slots mine sh.barrier_state).0 ≡ true
    → release_busy mine (elect w.procs sh.slots mine sh.barrier_state).1 ≡ 0
unfolding elect release_busy
elect-won w sh mine e = ground arith

-- The shared state with which a leader starts to wait.
abbrev pub begun : World → Handle → Shared → Shared
begun w h sh = record sh {
  barrier_state = (elect w.procs sh.slots (my_claim h.p2_slot sh.slots) sh.barrier_state).1;
  recovery_epoch = (sh.recovery_epoch + 1) % u32;
  ring = clear_freeing sh.ring;
}

module _ (A : Allocator) (w : World) (h : Handle) (sh : Shared) (b : A.Boxes) where
  abbrev mine : ℕ
  mine = my_claim h.p2_slot sh.slots

  abbrev waited : Option (Bool × List Slot)
  waited = wait_acks ((sh.recovery_epoch + 1) % u32) w.polls

  -- A round that lost the election, or ran none, or could not bring its mappings up to date, frees
  -- nothing; any other goes on to wait.
  round-cases :
      {out : Outcome} {sh' : Shared} {b' : A.Boxes}
      → round A w h sh b ≡ some (out, sh', b')
      → ((b' ≡ b)
          × (((out ≡ freed 0) × (w.has_root ≡ false)) ⊎ (out ≡ held))
          × ((sh'.barrier_state ≡ 0) ⊎ (sh'.barrier_state ≡ sh.barrier_state)))
        ⊎ (((elect w.procs sh.slots mine sh.barrier_state).0 ≡ true)
            × (after_wait A w h mine (begun w h sh) b waited ≡ some (out, sh', b')))
  unfolding round
  round-cases {out} {sh'} {b'} e = ground (arith, elect-won w sh mine)

  -- Whatever a round returns, it leaves the barrier free, or as it found it.
  pub round_releases :
      {out : Outcome} {sh' : Shared} {b' : A.Boxes}
      → round A w h sh b ≡ some (out, sh', b')
      → (sh'.barrier_state ≡ 0) ⊎ (sh'.barrier_state ≡ sh.barrier_state)
  round_releases {out} {sh'} {b'} e = elim (round-cases e) [
    | inl (_, _, k) ↦ k
    | inr (won, run) ↦
        inl (after_wait-released A w h mine (begun w h sh) b waited run ∙ elect-won w sh mine won)
  ]

  -- A round that gives up waiting has freed no box: the allocator is as before, the ring is as the
  -- writer left it, but the epoch has moved on, the barrier is free and the round is counted.
  pub round-abandoned :
      {sh' : Shared} {b' : A.Boxes}
      → round A w h sh b ≡ some (abandoned, sh', b')
      → (b' ≡ b)
        × (sh'.ring ≡ w.writer (clear_freeing sh.ring))
        × (sh'.recovery_epoch ≡ (sh.recovery_epoch + 1) % u32)
        × (sh'.round_aborted ≡ (sh.round_aborted + 1) % u64)
        × (sh'.barrier_state ≡ 0)
  round-abandoned {sh'} {b'} e = elim (round-cases e) [
    | inl (_, k, _) ↦ ground arith
    | inr (won, run) ↦
        let (p, q, r, s) = after_wait-abandoned A w h mine (begun w h sh) b waited run in
        (
          p,
          q,
          r,
          s,
          after_wait-released A w h mine (begun w h sh) b waited run ∙ elect-won w sh mine won,
        )
  ]

  -- In a store with a tree, whose ring is well formed when the wait ends, a round that frees
  -- boxes has seen, at a turn of its wait, every slot in use acknowledge the raised epoch, or
  -- quiescent, or its process found dead. The boxes freed are those that the drain of the ring,
  -- as the writer left it, takes from the front of the queue, and the count returned is their
  -- number; what is left is what the drain leaves, and is well formed.
  pub round-freed :
      {n : ℕ} {sh' : Shared} {b' : A.Boxes}
      → IsValid (w.writer (clear_freeing sh.ring))
      → w.has_root ≡ true
      → round A w h sh b ≡ some (freed n, sh', b')
      → (slots : List Slot) × let r = (sh.recovery_epoch + 1) % u32 in
          let v = viewer_after A w h mine sh b slots in
          let queue = contents (w.writer (clear_freeing sh.ring)) in
          Ended r (λ i. ⊥) w.polls slots
          × (b' ≡ free_all A b (released v r queue))
          × (n ≡ length (released v r queue))
          × (contents sh'.ring ≡ kept v r queue)
          × IsValid sh'.ring
  round-freed {n} {sh'} {b'} valid root e = elim (round-cases e) [
    | inl (_, inl (_, k), _) ↦ cc
    | inl (_, inr k, _) ↦ absurd (ground arith)
    | inr (won, run) ↦
        let (slots, d, ok, drained, eb, en, er) =
          after_wait-freed A w h mine (begun w h sh) b waited run in
        let v = viewer_after A w h mine sh b slots in
        let r = (sh.recovery_epoch + 1) % u32 in
        let (t, run', dr) = drain_lem A v r (w.writer (clear_freeing sh.ring)) b valid in
        let same : d ≡ t = ground arith in
        (
          slots,
          (
            wait_acks-Ended r w.polls ok,
            eb ∙ ap (λ (x : Draining A). x.boxes) same ∙ dr.boxes,
            en ∙ ap (λ (x : Draining A). x.freed) same ∙ dr.count ∙ zero-add _,
            ap contents (er ∙ ap (λ (x : Draining A). x.ring) same) ∙ dr.queue,
            rw (er, same) dr.valid,
          ),
        )
  ]
