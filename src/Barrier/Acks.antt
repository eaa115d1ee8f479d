-- ===== src/Barrier/Acks.antt =====
-- src/kvspace.c, `p2_wait_acks`: what it means that the wait ends.
use kvspace_c.Prelude.{
  ℕ, zero, suc, ◌≡◌, refl, ◌⊎◌, inl, inr, Bool, true, false, ◌||◌, some, List, [], ◌∷◌, arith,
  get_elem?, get_or, take, Bool-cases,
}
use kvspace_c.Registry.{Slot, mine, Procs}
use kvspace_c.Barrier.{Poll, found_dead, poll_slot, poll_slots, wait_loop, wait_acks}

-- The process of slot `i` was found dead at one of the turns.
abbrev pub FoundDead : ℕ → List Poll → Type 0
FoundDead i [] = ⊥
FoundDead i (p ∷ polls) =
    ((s : Slot) × (get_elem? p.slots i ≡ some s) × (found_dead s (p.procs s.pid) ≡ true))
    ⊎ FoundDead i polls

-- A slot that a leader need not wait for.
abbrev pub Answered : ℕ → Slot → Type 0 → Type 0
Answered round s D = (s.recovery_ack ≡ round) ⊎ (s.quiesced ≡ true) ⊎ D

module _ (procs : Procs) (round : ℕ) where
  poll_slot-answered :
      (s : Slot) (dead : Bool)
      → (poll_slot procs round s dead).0 ≡ false
      → s.state ≡ mine
      → Answered round s ((dead ≡ true) ⊎ (found_dead s (procs s.pid) ≡ true))
  unfolding poll_slot
  poll_slot-answered s dead h m = ground arith

  poll_slot-dead :
      (s : Slot) (dead : Bool)
      → (poll_slot procs round s dead).1 ≡ true
      → (dead ≡ true) ⊎ (found_dead s (procs s.pid) ≡ true)
  unfolding poll_slot
  poll_slot-dead s dead h = ground arith

  or-false : (a b : Bool) → (a || b) ≡ false → (a ≡ false) × (b ≡ false)
  or-false a b h = ground arith

  poll_slots-answered :
      (slots : List Slot) (deads : List Bool) (i : ℕ) {s : Slot}
      → (poll_slots procs round slots deads).0 ≡ false
      → get_elem? slots i ≡ some s
      → s.state ≡ mine
      → Answered round s ((get_or deads i false ≡ true) ⊎ (found_dead s (procs s.pid) ≡ true))
  unfolding poll_slots
  poll_slots-answered [] deads i h g m = cc
  poll_slots-answered (x ∷ slots) [] zero {s} h g m =
      let e : x ≡ s = ground arith in
      let h' : (poll_slot procs round x false).0 ≡ false = (or-false _ _ h).0 in
      poll_slot-answered s false (rw e at h') m
  poll_slots-answered (x ∷ slots) [] (suc i) {s} h g m =
      poll_slots-answered slots [] i (or-false _ _ h).1 g m
  poll_slots-answered (x ∷ slots) (d ∷ deads) zero {s} h g m =
      let e : x ≡ s = ground arith in
      let h' : (poll_slot procs round x d).0 ≡ false = (or-false _ _ h).0 in
      poll_slot-answered s d (rw e at h') m
  poll_slots-answered (x ∷ slots) (d ∷ deads) (suc i) {s} h g m =
      poll_slots-answered slots deads i (or-false _ _ h).1 g m

  poll_slots-dead :
      (slots : List Slot) (deads : List Bool) (i : ℕ)
      → get_or (poll_slots procs round slots deads).1 i false ≡ true
      → (get_or deads i false ≡ true)
        ⊎ ((s : Slot) × (get_elem? slots i ≡ some s) × (found_dead s (procs s.pid) ≡ true))
  unfolding poll_slots
  poll_slots-dead [] deads i h = inl h
  poll_slots-dead (x ∷ slots) [] zero h = elim (poll_slot-dead x false h) [
    | inl e ↦ inl e
    | inr e ↦ inr (x, refl, e)
  ]
  poll_slots-dead (x ∷ slots) [] (suc i) h = poll_slots-dead slots [] i h
  poll_slots-dead (x ∷ slots) (d ∷ deads) zero h = elim (poll_slot-dead x d h) [
    | inl e ↦ inl e
    | inr e ↦ inr (x, refl, e)
  ]
  poll_slots-dead (x ∷ slots) (d ∷ deads) (suc i) h = poll_slots-dead slots deads i h

-- How a wait ends at turn `k`, given which slots `D` were found dead before its first turn.
pub record Ended (round : ℕ) (D : ℕ → Type 0) (polls : List Poll) (slots : List Slot) : Type 0 where
  pub turn : ℕ
  pub poll : Poll
  pub at_turn : get_elem? polls turn ≡ some poll
  pub same_slots : slots ≡ poll.slots
  pub answered :
      (i : ℕ) (s : Slot)
      → get_elem? slots i ≡ some s
      → s.state ≡ mine
      → Answered round s (D i ⊎ FoundDead i (take (suc turn) polls))

earlier :
    (D : ℕ → Type 0) (i : ℕ) (p : Poll) (polls : List Poll)
    → (D i ⊎ ((s : Slot) × (get_elem? p.slots i ≡ some s) × (found_dead s (p.procs s.pid) ≡ true)))
      ⊎ FoundDead i polls
    → D i ⊎ FoundDead i (p ∷ polls)
earlier D i p polls (inl (inl d)) = inl d
earlier D i p polls (inl (inr x)) = inr (inl x)
earlier D i p polls (inr x) = inr (inr x)

Answered-map :
    {D E : Type 0} (round : ℕ) (s : Slot) → (D → E) → Answered round s D → Answered round s E
Answered-map round s f (inl a) = inl a
Answered-map round s f (inr (inl q)) = inr (inl q)
Answered-map round s f (inr (inr d)) = inr (inr (f d))

wait_loop-Ended :
    (round : ℕ) (D : ℕ → Type 0) (deads : List Bool) (polls : List Poll) {slots : List Slot}
    → ((i : ℕ) → get_or deads i false ≡ true → D i)
    → wait_loop round deads polls ≡ some (true, slots)
    → Ended round D polls slots
unfolding wait_loop
wait_loop-Ended round D deads [] known h = cc
wait_loop-Ended round D deads (p ∷ polls) {slots} known h =
    elim (Bool-cases (poll_slots p.procs round p.slots deads).0) [
      | inr none_missing ↦
          let e : slots ≡ p.slots = ground arith in
          record {
            turn = 0;
            poll = p;
            at_turn = refl;
            same_slots = e;
            answered = λ i s g m.
                Answered-map round s (λ d. at_once i s (rw e at g) d)
                  (poll_slots-answered p.procs round p.slots deads i none_missing (rw e at g) m);
          }
      | inl missing ↦
          let going : wait_loop round deads' polls ≡ some (true, slots) = ground arith in
          later (wait_loop-Ended round D' deads' polls poll_slots-known going)
    ]
  where
    deads' : List Bool
    deads' = (poll_slots p.procs round p.slots deads).1

    D' : ℕ → Type 0
    D' i =
        D i ⊎ ((s : Slot) × (get_elem? p.slots i ≡ some s) × (found_dead s (p.procs s.pid) ≡ true))

    poll_slots-known : (i : ℕ) → get_or deads' i false ≡ true → D' i
    poll_slots-known i d = elim (poll_slots-dead p.procs round p.slots deads i d) [
      | inl old ↦ inl (known i old)
      | inr now ↦ inr now
    ]

    later : Ended round D' polls slots → Ended round D (p ∷ polls) slots
    later e = record {
      turn = suc e.turn;
      poll = e.poll;
      at_turn = e.at_turn;
      same_slots = e.same_slots;
      answered = λ i s g m. Answered-map round s (earlier D i p _) (e.answered i s g m);
    }

    at_once :
        (i : ℕ) (s : Slot)
        → get_elem? p.slots i ≡ some s
        → (get_or deads i false ≡ true) ⊎ (found_dead s (p.procs s.pid) ≡ true)
        → D i ⊎ FoundDead i (take 1 (p ∷ polls))
    at_once i s g (inl d) = inl (known i d)
    at_once i s g (inr d) = inr (inl (s, g, d))

-- If the wait ends with all acknowledged, it does so at one of its turns, and there every slot in
-- use has acknowledged the round, or is quiescent, or its process was found dead at that turn or
-- an earlier one.
pub wait_acks-Ended :
    (round : ℕ) (polls : List Poll) {slots : List Slot}
    → wait_acks round polls ≡ some (true, slots)
    → Ended round (λ i. ⊥) polls slots
unfolding wait_acks
wait_acks-Ended round polls h = wait_loop-Ended round (λ i. ⊥) [] polls (λ i d. cc) h
