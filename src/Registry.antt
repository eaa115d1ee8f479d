-- ===== src/Registry.antt =====
-- src/kvspace.c, the registry of processes in the shared header: 64 slots, each with the process
-- that owns it, and the claim ids by which ring entries and the barrier word name a process.
-- Each function is one process's run with no step of another process inside it, so that a
-- compare-and-swap right after its load succeeds.
pub mod Stat
pub mod Claim
pub mod Live
mod Tests
use kvspace_c.Prelude.{
  ℕ, zero, suc, ◌+◌, ◌-◌, ◌%◌, ◌^◌, Bool, true, false, not, ◌&&◌, ◌||◌, Option, none, some, List,
  [], ◌∷◌, map, ltb, ◌==◌, if◌then◌else◌, set, get_elem?,
}

-- `P2_SLOT_FREE`, `P2_SLOT_MINE`, `P2_SLOT_CLAIMING`, the only values that are ever stored.
pub data SlotState : Type 0 where
  free mine claiming : SlotState

-- `p2_slot_t`
pub record Slot : Type 0 where
  pub pid : ℕ
  pub state : SlotState
  pub starttime : ℕ
  pub recovery_ack : ℕ
  pub quiesced : Bool
  pub claim_id : ℕ

-- What `p2_proc_starttime` returns: the start time of a process (0), that it does not run (1), or
-- nothing (2). Registry/Stat has the function itself.
pub data Proc : Type 0 where
  running : ℕ → Proc
  gone : Proc
  unknown : Proc

-- The answers of `/proc` for each pid, read once for a run of a function.
abbrev pub Procs : Type 0
Procs = ℕ → Proc

abbrev pub is_free : SlotState → Bool
is_free free = true
is_free mine = false
is_free claiming = false

abbrev pub is_mine : SlotState → Bool
is_mine free = false
is_mine mine = true
is_mine claiming = false

abbrev pub is_claiming : SlotState → Bool
is_claiming free = false
is_claiming mine = false
is_claiming claiming = true

abbrev pub same_process : Slot → Proc → Bool
same_process s (running st) = st == s.starttime
same_process s gone = false
same_process s unknown = true

abbrev state_alive : SlotState → Slot → Procs → Bool
state_alive free s procs = false
state_alive claiming s procs = true
state_alive mine s procs = same_process s (procs s.pid)

-- `p2_slot_alive`
unfoldable pub slot_alive : Procs → Slot → Bool
slot_alive procs s = state_alive s.state s procs

-- `p2_claim_alive`: the first slot in use with this claim decides.
pub claim_scan : Procs → List Slot → ℕ → Bool
claim_scan procs [] claim = false
claim_scan procs (s ∷ slots) claim =
    if is_mine s.state && s.claim_id == claim
    then slot_alive procs s
    else claim_scan procs slots claim

unfoldable pub claim_alive : Procs → List Slot → ℕ → Bool
unfolding claim_scan slot_alive
claim_alive procs slots claim = if claim == 0 then false else claim_scan procs slots claim

abbrev pub u32 : ℕ
u32 = 2 ^ 32

abbrev pub max_claim : ℕ
max_claim = 2 ^ 30 - 1

-- The first loop of `p2_reg_claim`: slots of dead processes become free.
unfoldable pub reap_slot : Procs → Slot → Slot
unfolding slot_alive
reap_slot procs s =
    if is_claiming s.state && s.pid == 0
    then record s { state = free }
    else if not (is_free s.state) && not (slot_alive procs s)
    then record s { state = free }
    else s

-- The process that opens the store: its pid, and what `/proc` says of it.
pub record Opener : Type 0 where
  pub me : ℕ
  pub found : Proc

abbrev start_of : Proc → ℕ
start_of (running st) = st
start_of gone = 0
start_of unknown = 0

-- The slots and the counters of the shared header that claiming touches.
pub record Registry : Type 0 where
  pub slots : List Slot
  pub claim_seq : ℕ
  pub recovery_epoch : ℕ

-- `p2_reg_claim` returns the slot's index, -2 when all slots are in use, or -3 when the claim ids
-- are used up.
pub data Claimed : Type 0 where
  slot : ℕ → Claimed
  full : Claimed
  exhausted : Claimed

-- The slot that a successful claim writes.
abbrev pub fresh_slot : Opener → ℕ → ℕ → Slot
fresh_slot p cid epoch = record {
  pid = p.me;
  state = mine;
  starttime = start_of p.found;
  recovery_ack = epoch;
  quiesced = true;
  claim_id = cid;
}

-- The index of the first free slot, counted from `i`.
pub first_free : ℕ → List Slot → Option ℕ
first_free i [] = none
first_free i (s ∷ slots) = if is_free s.state then some i else first_free (i + 1) slots

-- The second loop: the first free slot is taken and a claim id drawn for it.
pub take_slot : Opener → Registry → Option ℕ → Claimed × Registry
take_slot p r none = (full, r)
take_slot p r (some i) =
    let cid = (r.claim_seq + 1) % u32 in
    if ltb max_claim cid then (exhausted, record r { claim_seq = cid }) else (
      slot i,
      record r { slots = set r.slots i (fresh_slot p cid r.recovery_epoch); claim_seq = cid },
    )

pub reg_claim : Procs → Opener → Registry → Claimed × Registry
unfolding reap_slot first_free take_slot
reg_claim procs p r =
    let reaped = record r { slots = map (reap_slot procs) r.slots } in
    take_slot p reaped (first_free 0 reaped.slots)

-- `p2_reg_release` by the process that opened the handle: a slot that is still its own is freed.
abbrev pub released : Slot → Slot
released s = if is_mine s.state then record s { state = free } else s

-- `p2_my_claim`, with `p2_slot` absent for -1. A slot index out of range has no claim.
unfoldable pub my_claim : Option ℕ → List Slot → ℕ
my_claim none slots = 0
my_claim (some i) slots = elim (get_elem? slots i) [ none ↦ 0 | some s ↦ s.claim_id ]

update_at : List Slot → ℕ → Option Slot → List Slot
update_at slots i none = slots
update_at slots i (some s) = set slots i (released s)

-- `p2_reg_release`, called by process `now` on a handle that process `opened` opened: the slots
-- after it. The handle's own slot number becomes -1 in every case.
pub reg_release : ℕ → ℕ → Option ℕ → List Slot → List Slot
unfolding update_at
reg_release now opened none slots = slots
reg_release now opened (some i) slots =
    if not (opened == now) then slots else update_at slots i (get_elem? slots i)

-- `p2_other_alive`: whether a slot in use other than `self` belongs to a live process.
pub other_alive : Procs → Option ℕ → ℕ → List Slot → Bool
other_alive procs self i [] = false
other_alive procs self i (s ∷ slots) =
    let rest = other_alive procs self (i + 1) slots in
    if elim self [ none ↦ false | some k ↦ i == k ]
    then rest
    else if not (is_mine s.state)
    then rest
    else if slot_alive procs s
    then true
    else rest
