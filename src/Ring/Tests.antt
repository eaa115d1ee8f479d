-- ===== src/Ring/Tests.antt =====
-- src/kvspace.c, the garbage ring run on a queue of five entries.
use kvspace_c.Prelude.{
  ◌↔◌, ◌/◌, ◌-◌, ◌<◌, ◌≤◌, ◌≢◌, ℕ, ◌≡◌, refl, false, true, some, List, [], ◌∷◌, ◌++◌, arith, ◌==◌,
  if◌then◌else◌,
}
use kvspace_c.Registry.{Slot, mine, running, gone, claim_alive, slot_alive}
use kvspace_c.Allocator.{Allocator}
use kvspace_c.Ring.{
  Entry, ge_make, ge_reserved, ge_committed, garb_cap, Ring, Viewer, reserve, tail_blocked,
  entry_at, Draining, drain,
}
use kvspace_c.Ring.Window.{contents, IsValid, window}
use kvspace_c.Ring.Writer.{
  reserved_entry, after_reserve, reserve_refines, TailFree, reserve-some_iff,
}
use kvspace_c.Ring.Fate.{kept, released}
use kvspace_c.Ring.Drain.{Drained, free_all}
use kvspace_c.Ring.DrainLoop.{drain_lem, reserved_live, drain_held}

-- An allocator that keeps the list of the boxes freed.
abbrev freed_list : Allocator
freed_list = record {
  Boxes = List ℕ;
  allocated_size = λ b off. 64;
  free_box = λ b off. off ∷ b;
  alloc_box = λ b n. (some 0, b);
}

abbrev live_slot : Slot
live_slot = record {
  pid = 10;
  state = mine;
  starttime = 100;
  recovery_ack = 5;
  quiesced = false;
  claim_id = 1;
}

abbrev viewer : Viewer
viewer = record {
  procs = λ pid. if pid == 10 then running 100 else gone;
  slots = live_slot ∷ [];
  claim = 1;
  reclaim_unavailable = false;
}

abbrev entry : ℕ → ℕ → ℕ → Entry
entry off epoch meta = record { off = off; epoch = epoch; meta = meta }

-- A committed box, a cancelled entry, a reservation of a dead claim, a second committed box, and a
-- reservation of a live claim.
abbrev five_entries : ℕ → Entry
five_entries i =
    if i == 0
    then entry 640 3 (ge_make ge_committed 1)
    else if i == 1
    then entry 0 0 0
    else if i == 2
    then entry 0 0 (ge_make ge_reserved 2)
    else if i == 3
    then entry 704 3 (ge_make ge_committed 1)
    else if i == 4
    then entry 0 0 (ge_make ge_reserved 1)
    else entry 0 0 0

abbrev five : Ring
five = record {
  entries = five_entries;
  cap = garb_cap;
  head = 0;
  tail = 5;
  committed_bytes = 128;
  freed_bytes = 0;
  freeing = 0;
  leak_boxes = 0;
}

five-IsValid : IsValid five
five-IsValid = record {
  ordered = omega arith;
  fits = omega arith;
  capacity = refl;
  counters = omega arith;
  freed_word = omega arith;
  leak_word = omega arith;
}

drain_lem_example :
    (t : Draining freed_list) × (drain freed_list viewer 4 five [] ≡ some t)
    × Drained freed_list viewer 4 (record { ring = five; boxes = []; freed = 0 }) t
drain_lem_example = drain_lem freed_list viewer 4 five [] five-IsValid

abbrev held_entry : Entry
held_entry = entry 0 0 (ge_make ge_reserved 1)

abbrev first_four : List Entry
first_four =
    entry 640 3 (ge_make ge_committed 1)
    ∷ entry 0 0 0
    ∷ entry 0 0 (ge_make ge_reserved 2)
    ∷ entry 704 3 (ge_make ge_committed 1)
    ∷ []

contents-five : contents five ≡ first_four ++ held_entry ∷ []
unfolding contents window
contents-five = refl

live_claim : claim_alive viewer.procs viewer.slots 1 ≡ true
unfolding claim_alive slot_alive
live_claim = refl

drain_held_example :
    (t : Draining freed_list) × (drain freed_list viewer 4 five [] ≡ some t)
    × (contents t.ring ≡ kept viewer 4 first_four ++ held_entry ∷ [])
    × (t.boxes ≡ free_all freed_list [] (released viewer 4 first_four))
drain_held_example =
    drain_held freed_list viewer 4 five [] first_four held_entry [] five-IsValid contents-five
      (reserved_live refl live_claim)

tail_here : tail_blocked viewer (entry_at five 5).meta ≡ false
unfolding tail_blocked
tail_here = refl

reserved_here : reserve viewer five ≡ (some 5, after_reserve viewer five)
unfolding reserve tail_blocked
reserved_here = refl

reserve_refines_example :
    IsValid (after_reserve viewer five)
    × (5 ≡ five.tail)
    × (contents (after_reserve viewer five) ≡ contents five ++ reserved_entry viewer five ∷ [])
reserve_refines_example = reserve_refines viewer five five-IsValid (omega arith) reserved_here

reserve-some_iff_example : ((reserve viewer five).0 ≡ some 5) ↔ (
    (viewer.claim ≢ 0)
    × (5 - 0 < five.cap)
    × (viewer.reclaim_unavailable ≡ true → five.cap / 4 ≤ five.cap - (5 - 0))
    × TailFree viewer five)
reserve-some_iff_example = reserve-some_iff viewer five five-IsValid
