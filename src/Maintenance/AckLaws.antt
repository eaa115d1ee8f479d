-- ===== src/Maintenance/AckLaws.antt =====
-- src/kvspace.c, `kvspaceShmViewAck` and `kvspaceShmViewQuiesce`, and the leader that waits for them.
use kvspace_c.Prelude.{
  ℕ, ◌≡◌, Bool, true, false, some, arith, get_elem?, get_elem?-set_self, lt-length,
}
use kvspace_c.Registry.{Slot, Procs}
use kvspace_c.Barrier.{poll_slot}
use kvspace_c.Maintenance.{Shared, Handle, acked, view_ack, quiesce}

-- If an acknowledgement by a handle with a slot is accepted, the epoch it names is the current
-- one, and a leader that waits for that epoch finds the slot of the handle with nothing missing.
pub view_ack-answers :
    (h : Handle) (epoch i : ℕ) (sh : Shared) (s : Slot) (procs : Procs) (dead : Bool)
    → h.p2_slot ≡ some i
    → get_elem? sh.slots i ≡ some s
    → (view_ack h epoch sh).0 ≡ acked
    → (epoch ≡ sh.recovery_epoch)
      × (t : Slot) × (get_elem? (view_ack h epoch sh).2.slots i ≡ some t)
      × ((poll_slot procs epoch t dead).0 ≡ false)
unfolding view_ack poll_slot
view_ack-answers h epoch i sh s procs dead p g a =
    let t : Slot = record s { recovery_ack = sh.recovery_epoch } in
    let w = get_elem?-set_self sh.slots i t (lt-length sh.slots i g) in
    (ground arith, t, ground (arith, w), ground arith)

-- After a declaration of quiescence by a handle with a slot that is accepted, a leader finds
-- nothing missing in the slot, whatever round it waits for, and the handle is marked.
pub quiesce-answers :
    (h : Handle) (i round : ℕ) (sh : Shared) (s : Slot) (procs : Procs) (dead : Bool)
    → h.p2_slot ≡ some i
    → get_elem? sh.slots i ≡ some s
    → (quiesce h 1 sh).0 ≡ true
    → (t : Slot) × (get_elem? (quiesce h 1 sh).2.slots i ≡ some t)
      × ((poll_slot procs round t dead).0 ≡ false)
      × ((quiesce h 1 sh).1.quiesced ≡ true)
unfolding quiesce poll_slot
quiesce-answers h i round sh s procs dead p g a =
    let t : Slot = record s { quiesced = true } in
    let w = get_elem?-set_self sh.slots i t (lt-length sh.slots i g) in
    (t, ground (arith, w), ground arith, ground arith)
