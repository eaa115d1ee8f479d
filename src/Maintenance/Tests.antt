-- ===== src/Maintenance/Tests.antt =====
-- src/kvspace.c, a round of a single process that frees one box, one that gives up, and the answers
-- of a process to a leader.
use kvspace_c.Prelude.{
  ℕ, ◌+◌, ◌%◌, ◌≡◌, refl, false, true, some, List, [], ◌∷◌, arith, ◌==◌, length, if◌then◌else◌,
}
use kvspace_c.Registry.{Slot, mine, running, Procs, claim_alive, slot_alive, my_claim, u32}
use kvspace_c.Allocator.{Allocator}
use kvspace_c.Ring.{Ring, ge_make, ge_committed, garb_cap, verdict, newer, drain_loop, drain, u64}
use kvspace_c.Ring.Window.{contents, IsValid}
use kvspace_c.Ring.Fate.{released, kept}
use kvspace_c.Ring.Drain.{free_all}
use kvspace_c.Barrier.{poll_slots, poll_slot, wait_acks, elect, decide, release_busy, collect_slot}
use kvspace_c.Barrier.Acks.{Ended}
use kvspace_c.Maintenance.{
  Shared, Handle, World, freed, abandoned, clear_freeing, round, acked, view_ack, quiesce,
  after_wait, finish_round,
}
use kvspace_c.Maintenance.RoundLaws.{viewer_after, round-abandoned, round-freed}

abbrev freed_list : Allocator
freed_list = record {
  Boxes = List ℕ;
  allocated_size = λ b off. 64;
  free_box = λ b off. off ∷ b;
  alloc_box = λ b n. (some 0, b);
}

abbrev own_slot : Slot
own_slot = record {
  pid = 10;
  state = mine;
  starttime = 100;
  recovery_ack = 3;
  quiesced = true;
  claim_id = 1;
}

-- A second process that neither answers nor is dead.
abbrev busy_slot : Slot
busy_slot = record {
  pid = 11;
  state = mine;
  starttime = 100;
  recovery_ack = 3;
  quiesced = false;
  claim_id = 2;
}

abbrev all_run : Procs
all_run pid = running 100

abbrev one_box : Ring
one_box = record {
  entries = λ i.
      if i == 0
      then record { off = 640; epoch = 3; meta = ge_make ge_committed 1 }
      else record { off = 0; epoch = 0; meta = 0 };
  cap = garb_cap;
  head = 0;
  tail = 1;
  committed_bytes = 64;
  freed_bytes = 0;
  freeing = 0;
  leak_boxes = 0;
}

abbrev shared : List Slot → Shared
shared slots = record {
  slots = slots;
  recovery_epoch = 3;
  ack_seq = 0;
  barrier_state = 0;
  round_ok = 0;
  round_aborted = 0;
  ring = one_box;
}

abbrev handle : Handle
handle = record {
  p2_slot = some 0;
  forked = false;
  quiesced = true;
  maint_started = 1;
  maint_stop = false;
  reclaim_unavailable = false;
}

-- One turn of the wait, with these slots, at which the time is up.
abbrev world : List Slot → World
world slots = record {
  has_root = true;
  sync_ok = true;
  procs = all_run;
  procs_after = all_run;
  polls = record { slots = slots; procs = all_run; time_up = true } ∷ [];
  writer = λ r. r;
}

abbrev alone : List Slot
alone = own_slot ∷ []

abbrev two : List Slot
two = own_slot ∷ busy_slot ∷ []

one_box-IsValid : IsValid (clear_freeing one_box)
unfolding clear_freeing
one_box-IsValid = record {
  ordered = omega arith;
  fits = omega arith;
  capacity = refl;
  counters = omega arith;
  freed_word = omega arith;
  leak_word = omega arith;
}

abbrev drained_ring : Ring
drained_ring = record one_box {
  entries = λ i. if i == 0 then record { off = 640; epoch = 3; meta = 0 } else one_box.entries i;
  head = 1;
  freed_bytes = 64;
}

abbrev after_round : Shared
after_round = record (shared alone) { recovery_epoch = 4; round_ok = 1; ring = drained_ring }

freed_here :
    round freed_list (world alone) handle (shared alone) [] ≡ some (freed 1, after_round, 640 ∷ [])
unfolding round clear_freeing after_wait finish_round my_claim elect decide wait_acks poll_slots
    poll_slot drain drain_loop verdict newer claim_alive slot_alive release_busy collect_slot
freed_here = refl

round-freed_example :
    (slots : List Slot) × let v =
        viewer_after freed_list (world alone) handle 1 (shared alone) [] slots in
      let queue = contents (clear_freeing one_box) in
      Ended 4 (λ i. ⊥) (world alone).polls slots
      × (640 ∷ [] ≡ free_all freed_list [] (released v 4 queue))
      × (1 ≡ length (released v 4 queue))
      × (contents drained_ring ≡ kept v 4 queue)
      × IsValid drained_ring
unfolding my_claim
round-freed_example =
    round-freed freed_list (world alone) handle (shared alone) [] one_box-IsValid refl freed_here

abbrev no_boxes : List ℕ
no_boxes = []

abbrev after_wait_over : Shared
after_wait_over = record (shared two) { recovery_epoch = 4; round_aborted = 1 }

abandoned_here :
    round freed_list (world two) handle (shared two) [] ≡ some (abandoned, after_wait_over, [])
unfolding round clear_freeing after_wait my_claim elect decide wait_acks poll_slots poll_slot
    release_busy
abandoned_here = refl

round-abandoned_example :
    (no_boxes ≡ no_boxes)
    × (after_wait_over.ring ≡ clear_freeing one_box)
    × (after_wait_over.recovery_epoch ≡ (3 + 1) % u32)
    × (after_wait_over.round_aborted ≡ (0 + 1) % u64)
    × (after_wait_over.barrier_state ≡ 0)
round-abandoned_example =
    round-abandoned freed_list (world two) handle (shared two) [] abandoned_here

acked_here : (view_ack handle 3 (shared two)).0 ≡ acked
unfolding view_ack
acked_here = refl

accepted_here : (quiesce handle 1 (shared two)).0 ≡ true
unfolding quiesce
accepted_here = refl
