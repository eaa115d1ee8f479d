-- ===== src/Maintenance.antt =====
-- src/kvspace.c, the rounds that reclaim garbage, and what a process tells the leader of a round:
-- `p2_round`, `p2_maint_start`, `p2_maint_stop`, `kvspaceShmViewAck`, `kvspaceShmViewQuiesce`.
pub mod RoundLaws
pub mod AckLaws
mod Tests
use kvspace_c.Prelude.{
  ℕ, zero, suc, ◌+◌, ◌-◌, ◌%◌, ◌^◌, Bool, true, false, not, ◌&&◌, ◌||◌, Option, none, some, List,
  [], ◌∷◌, map, ltb, leb, ◌==◌, if◌then◌else◌, set, get_elem?,
}
use kvspace_c.Registry.{Slot, Procs, u32, my_claim}
use kvspace_c.Allocator.{Allocator}
use kvspace_c.Ring.{Ring, Viewer, Draining, drain, u64}
use kvspace_c.Barrier.{elect, release_busy, Poll, wait_acks, collect_slot}

-- The part of `kvspace_hdr_t` that the rounds read and write.
pub record Shared : Type 0 where
  pub slots : List Slot
  pub recovery_epoch : ℕ
  pub ack_seq : ℕ
  pub barrier_state : ℕ
  pub round_ok : ℕ
  pub round_aborted : ℕ
  pub ring : Ring

-- The part of the handle that the rounds read and write. `p2_slot` is absent for -1; `forked` is
-- whether another process than the opener runs (`pid`, `P2_FORK_GUARD`).
pub record Handle : Type 0 where
  pub p2_slot : Option ℕ
  pub forked : Bool
  pub quiesced : Bool
  pub maint_started : ℕ
  pub maint_stop : Bool
  pub reclaim_unavailable : Bool

-- What a round meets: whether the store has a tree, whether the mappings could be brought up to
-- date, `/proc` at the election and after the wait, the turns of the wait, and what the writer
-- has done to the ring by the time that the wait ends.
pub record World : Type 0 where
  pub has_root : Bool
  pub sync_ok : Bool
  pub procs : Procs
  pub procs_after : Procs
  pub polls : List Poll
  pub writer : Ring → Ring

-- What `p2_round` returns: a count of freed boxes, -1, or -2.
pub data Outcome : Type 0 where
  freed : ℕ → Outcome
  held : Outcome
  abandoned : Outcome

-- The mark of a box that an earlier leader died freeing is cleared, and the box counted as leaked.
unfoldable pub clear_freeing : Ring → Ring
clear_freeing r =
    if r.freeing == 0
    then record r { freeing = 0 }
    else record r { freeing = 0; leak_boxes = (r.leak_boxes + 1) % u64 }

module _ (A : Allocator) where
  open A use {Boxes}

  abbrev pub Result : Type 0
  Result = Outcome × Shared × Boxes

  -- The end of a round after a drain.
  unfoldable pub finish_round : World → ℕ → Shared → Draining A → Result
  finish_round w mine sh d = (
    freed d.freed,
    record sh {
      slots = map (collect_slot w.procs_after) sh.slots;
      ring = d.ring;
      round_ok = (sh.round_ok + 1) % u64;
      barrier_state = release_busy mine sh.barrier_state;
    },
    d.boxes,
  )

  -- A round from the wait on; `none`: the turns given do not see its end.
  unfoldable pub after_wait :
      World → Handle → ℕ → Shared → Boxes → Option (Bool × List Slot) → Option Result
  unfolding finish_round
  after_wait w h mine sh b none = none
  after_wait w h mine sh b (some (false, slots)) = some (
    abandoned,
    record sh {
      slots = slots;
      ring = w.writer sh.ring;
      round_aborted = (sh.round_aborted + 1) % u64;
      barrier_state = release_busy mine sh.barrier_state;
    },
    b,
  )
  after_wait w h mine sh b (some (true, slots)) =
      let v : Viewer = record {
        procs = w.procs_after;
        slots = slots;
        claim = mine;
        reclaim_unavailable = h.reclaim_unavailable;
      } in
      elim (drain A v sh.recovery_epoch (w.writer sh.ring) b) [
        | none ↦ none
        | some d ↦ some (finish_round w mine (record sh { slots = slots }) d)
      ]

  -- `p2_round`
  pub round : World → Handle → Shared → Boxes → Option Result
  unfolding clear_freeing after_wait
  round w h sh b =
      let mine = my_claim h.p2_slot sh.slots in
      let (won, word) = elect w.procs sh.slots mine sh.barrier_state in
      let r = (sh.recovery_epoch + 1) % u32 in
      let begun = record sh {
        barrier_state = word;
        recovery_epoch = r;
        ring = clear_freeing sh.ring;
      } in
      if not w.has_root
      then some (freed 0, sh, b)
      else if h.forked
      then some (held, sh, b)
      else if not won
      then some (held, sh, b)
      else if not w.sync_ok
      then some (held, record sh { barrier_state = release_busy mine word }, b)
      else after_wait w h mine begun b (wait_acks r w.polls)

-- `p2_maint_start`: 0 or -1, with whether the thread could be created.
pub data Started : Type 0 where
  fine failed : Started

pub maint_start : Bool → Handle → Started × Handle
maint_start created h =
    if not (h.maint_started == 0)
    then ((if h.maint_started == 2 then failed else fine), h)
    else if h.forked
    then (fine, record h { maint_started = 0 })
    else if created
    then (fine, record h { maint_started = 1 })
    else (failed, record h { maint_started = 2; reclaim_unavailable = true })

-- `p2_maint_stop`
pub maint_stopped : Handle → Handle
maint_stopped h =
    if h.forked
    then record h { maint_started = 0 }
    else if not (h.maint_started == 1)
    then h
    else record h { maint_stop = true; maint_started = 0 }

-- What `kvspaceShmViewAck` returns: 0, 1 for an epoch that is not current, -1.
pub data Ack : Type 0 where
  acked stale invalid : Ack

write_slot : List Slot → ℕ → (Slot → Slot) → List Slot
write_slot slots i f = elim (get_elem? slots i) [ none ↦ slots | some s ↦ set slots i (f s) ]

-- `p2_ack_slot`; waking the leader is left out.
unfoldable pub ack_slot : Option ℕ → ℕ → Shared → Shared
unfolding write_slot
ack_slot none ep sh = sh
ack_slot (some i) ep sh = record sh {
  slots = write_slot sh.slots i (λ s. record s { recovery_ack = ep });
  ack_seq = (sh.ack_seq + 1) % u32;
}

has_slot : Option ℕ → Bool
has_slot none = false
has_slot (some i) = true

pub view_ack : Handle → ℕ → Shared → Ack × ℕ × Shared
unfolding ack_slot has_slot
view_ack h epoch sh =
    if not (has_slot h.p2_slot) || h.forked
    then (invalid, epoch, sh)
    else if not (epoch == sh.recovery_epoch)
    then (stale, sh.recovery_epoch, sh)
    else (acked, epoch, ack_slot h.p2_slot sh.recovery_epoch sh)

abbrev bool_eq : Bool → Bool → Bool
bool_eq true b = b
bool_eq false b = not b

quiesce_slot : Option ℕ → Bool → Shared → Shared
unfolding write_slot
quiesce_slot none on sh = sh
quiesce_slot (some i) on sh = elim (get_elem? sh.slots i) [
  | none ↦ sh
  | some s ↦ if bool_eq s.quiesced on then sh else record sh {
    slots = write_slot sh.slots i (λ t. record t { quiesced = on });
    ack_seq = (sh.ack_seq + 1) % u32;
  }
]

-- `kvspaceShmViewQuiesce`: whether the argument and the handle were in order, and the state after.
pub quiesce : Handle → ℕ → Shared → Bool × Handle × Shared
unfolding quiesce_slot has_slot
quiesce h on sh =
    if ltb 1 on || not (has_slot h.p2_slot) || h.forked
    then (false, h, sh)
    else (true, record h { quiesced = on == 1 }, quiesce_slot h.p2_slot (on == 1) sh)
