-- ===== src/Barrier.antt =====
-- src/kvspace.c, the recovery barrier: a leader is elected by the barrier word, raises the epoch,
-- waits until every process has acknowledged it, and drains the garbage ring.
pub mod Election
pub mod Acks
mod Tests
use kvspace_c.Prelude.{
  ℕ, zero, suc, ◌+◌, ◌-◌, ◌%◌, ◌^◌, ◌<◌, Bool, true, false, not, ◌&&◌, ◌||◌, Option, none, some,
  List, [], ◌∷◌, map, ltb, leb, ◌==◌, if◌then◌else◌,
}
use kvspace_c.Registry.{
  Slot, free, Proc, running, gone, unknown, Procs, is_mine, slot_alive, claim_alive, u32,
}
use kvspace_c.Allocator.{Allocator}
use kvspace_c.Ring.{Ring, Viewer, Draining, drain, ge_state, ge_claim, ge_make, u64}

-- `P2_BARRIER_FREE` and `P2_BARRIER_OWNED`, in the state bits of the barrier word.
abbrev pub barrier_free : ℕ
barrier_free = 0

abbrev pub barrier_owned : ℕ
barrier_owned = 1

abbrev pub owned_by : ℕ → ℕ
owned_by claim = ge_make barrier_owned claim

-- What one pass of the loop of `p2_elect` makes of the word that it loaded: try to swap the own
-- claim in, or give up.
pub data Decision : Type 0 where
  take busy : Decision

unfoldable pub decide : Procs → List Slot → ℕ → ℕ → Decision
decide procs slots mine cur =
    if cur == ge_make barrier_free 0
    then take
    else if not (ge_state cur == barrier_owned)
    then busy
    else if ge_claim cur == mine
    then busy
    else if claim_alive procs slots (ge_claim cur)
    then busy
    else take

-- `p2_elect` with no step of another process between its load and its swap: whether it won, and the
-- barrier word after it.
unfoldable pub elect : Procs → List Slot → ℕ → ℕ → Bool × ℕ
unfolding decide
elect procs slots mine word =
    if mine == 0
    then (false, word)
    else elim (decide procs slots mine word) [ take ↦ (true, owned_by mine) | busy ↦ (false, word) ]

-- `p2_release_busy`
unfoldable pub release_busy : ℕ → ℕ → ℕ
release_busy mine word = if word == owned_by mine then ge_make barrier_free 0 else word

-- What `p2_wait_acks` sees at one turn of its loop: the slots, `/proc`, and whether the deadline has
-- passed or the handle is being closed.
pub record Poll : Type 0 where
  pub slots : List Slot
  pub procs : Procs
  pub time_up : Bool

abbrev pub found_dead : Slot → Proc → Bool
found_dead s gone = true
found_dead s (running st) = not (st == s.starttime)
found_dead s unknown = false

-- One slot of a turn: whether its acknowledgement is missing, and its cell of `dead`.
unfoldable pub poll_slot : Procs → ℕ → Slot → Bool → Bool × Bool
poll_slot procs round s dead =
    if not (is_mine s.state)
    then (false, dead)
    else if s.recovery_ack == round
    then (false, dead)
    else if s.quiesced
    then (false, dead)
    else if dead || found_dead s (procs s.pid)
    then (false, true)
    else (true, false)

-- All slots of a turn, with the array `dead`, whose cells from the end of the list on are false.
unfoldable pub poll_slots : Procs → ℕ → List Slot → List Bool → Bool × List Bool
unfolding poll_slot
poll_slots procs round [] deads = (false, deads)
poll_slots procs round (s ∷ slots) [] =
    let (m, d) = poll_slot procs round s false in
    let (ms, ds) = poll_slots procs round slots [] in (m || ms, d ∷ ds)
poll_slots procs round (s ∷ slots) (dead ∷ deads) =
    let (m, d) = poll_slot procs round s dead in
    let (ms, ds) = poll_slots procs round slots deads in (m || ms, d ∷ ds)

-- `p2_wait_acks` over the turns that it gets to see, the first with an empty `dead`: whether all
-- acknowledged, and the slots at that turn. `none`: it still waits after the last turn given.
pub wait_loop : ℕ → List Bool → List Poll → Option (Bool × List Slot)
wait_loop round deads [] = none
wait_loop round deads (p ∷ polls) =
    let (missing, deads') = poll_slots p.procs round p.slots deads in
    let rest = wait_loop round deads' polls in
    if not missing then some (true, p.slots) else if p.time_up then some (false, p.slots) else rest

unfoldable pub wait_acks : ℕ → List Poll → Option (Bool × List Slot)
unfolding wait_loop
wait_acks round polls = wait_loop round [] polls

-- The loop at the end of `p2_round`: slots in use by processes that do not live become free.
unfoldable pub collect_slot : Procs → Slot → Slot
collect_slot procs s =
    if not (is_mine s.state) then s else if slot_alive procs s then s else record s { state = free }
