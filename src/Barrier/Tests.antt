-- ===== src/Barrier/Tests.antt =====
-- src/kvspace.c, an election that one process wins, and a wait that a dead process ends.
use kvspace_c.Prelude.{
  ℕ, zero, suc, ◌^◌, ◌<◌, ◌≡◌, ◌≢◌, refl, true, false, some, List, [], ◌∷◌, arith, ◌==◌,
  if◌then◌else◌,
}
use kvspace_c.Registry.{Slot, mine, running, gone, Procs, claim_alive, slot_alive}
use kvspace_c.Barrier.{take, decide, owned_by, Poll, poll_slots, poll_slot, wait_acks}
use kvspace_c.Barrier.Election.{
  System, outside, loaded, swapping, leader, at_pc, load, decided_take, swap_wins, Reach, here,
  next, one_leader,
}
use kvspace_c.Barrier.Acks.{Ended, wait_acks-Ended}

abbrev slot_of_claim : ℕ → ℕ → Slot
slot_of_claim pid claim = record {
  pid = pid;
  state = mine;
  starttime = 100;
  recovery_ack = 5;
  quiesced = false;
  claim_id = claim;
}

abbrev two_slots : List Slot
two_slots = slot_of_claim 10 1 ∷ slot_of_claim 11 2 ∷ []

abbrev claims : ℕ → ℕ
claims zero = 1
claims (suc zero) = 2
claims (suc (suc i)) = 0

both_run : Procs
both_run pid = running 100

abbrev start : System
start = record { word = 0; pc = λ i. outside; procs = both_run }

abbrev after_load : System
after_load = record start { pc = at_pc start.pc 0 (loaded 0) }

abbrev after_decision : System
after_decision = record after_load { pc = at_pc after_load.pc 0 (swapping 0) }

abbrev after_swap : System
after_swap = record after_decision { word = owned_by 1; pc = at_pc after_decision.pc 0 leader }

decides : decide both_run two_slots 1 0 ≡ take
unfolding decide
decides = refl

elected : Reach two_slots claims start after_swap
elected =
    next
      (next (next here (load start 0 refl (omega arith)))
        (decided_take after_load 0 0 refl decides))
      (swap_wins after_decision 0 0 refl refl)

small_claims : (i : ℕ) → claims i < 2 ^ 30
small_claims zero = omega arith
small_claims (suc zero) = omega arith
small_claims (suc (suc i)) = omega arith

distinct_claims : (i j : ℕ) → claims j ≢ 0 → claims i ≡ claims j → i ≡ j
distinct_claims zero zero n e = refl
distinct_claims zero (suc zero) n e = absurd (omega (arith, e))
distinct_claims zero (suc (suc j)) n e = absurd (n refl)
distinct_claims (suc zero) zero n e = absurd (omega (arith, e))
distinct_claims (suc zero) (suc zero) n e = refl
distinct_claims (suc zero) (suc (suc j)) n e = absurd (n refl)
distinct_claims (suc (suc i)) zero n e = absurd (omega (arith, e))
distinct_claims (suc (suc i)) (suc zero) n e = absurd (omega (arith, e))
distinct_claims (suc (suc i)) (suc (suc j)) n e = absurd (n refl)

lives : claim_alive both_run two_slots 1 ≡ true
unfolding claim_alive slot_alive both_run
lives = refl

abbrev first_process : ℕ
first_process = 0

one_leader_example : first_process ≡ first_process
one_leader_example =
    one_leader two_slots claims small_claims distinct_claims {s = start} {t = after_swap}
      (λ i. refl) elected first_process first_process refl refl lives lives

-- Process 10 has acknowledged round 5, process 11 has not, but does not run.
abbrev one_late : List Slot
one_late = slot_of_claim 10 1 ∷ record (slot_of_claim 11 2) { recovery_ack = 4 } ∷ []

abbrev one_turn : List Poll
one_turn =
    record {
      slots = one_late;
      procs = λ pid. if pid == 10 then running 100 else gone;
      time_up = false;
    }
    ∷ []

waited_out : wait_acks 5 one_turn ≡ some (true, one_late)
unfolding wait_acks poll_slot poll_slots
waited_out = refl

wait_acks-Ended_example : Ended 5 (λ i. ⊥) one_turn one_late
wait_acks-Ended_example = wait_acks-Ended 5 one_turn waited_out
