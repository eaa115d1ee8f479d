-- ===== src/Registry/Live.antt =====
-- src/kvspace.c, `p2_reg_claim` and `p2_reg_release`: which slots survive, and which claims differ.
use mathlib.Core.List.{map}
use native.Mathlib.Decide.{ℕ_discrete}
use kvspace_c.Prelude.{
  refl, ℕ, ◌+◌, ◌-◌, ◌^◌, ◌≤◌, ◌<◌, ◌≡◌, ◌≢◌, sym, ◌∙◌, ap, true, false, some, arith, get_elem?,
  get_elem?-map-some, get_elem?-map_inv, Option-cases, inl, inr,
}
use kvspace_c.Registry.{
  fresh_slot, Slot, SlotState, free, mine, claiming, is_free, Procs, slot_alive, reap_slot, Opener,
  Registry, slot, full, first_free, take_slot, reg_claim, released,
}
use kvspace_c.Registry.Claim.{
  Claims, reg_claim-Claims, reap_slot-alive, first_free-none, take_slot-other, first_free-ne,
}

-- Whatever a claim returns, a slot that counts as alive stays as it is, unless it is being claimed and
-- has pid 0: that is a slot in use whose process runs, or may run, or one that is being claimed and
-- already has a pid.
pub reg_claim-keeps_alive :
    (procs : Procs) (p : Opener) (r : Registry) (j : ℕ) {s : Slot}
    → get_elem? r.slots j ≡ some s
    → (s.state ≡ claiming → s.pid ≢ 0)
    → slot_alive procs s ≡ true
    → get_elem? (reg_claim procs p r).1.slots j ≡ some s
unfolding reg_claim slot_alive
reg_claim-keeps_alive procs p r j {s} g m a =
    let same = reap_slot-alive procs s m a in
    let kept : get_elem? (map (reap_slot procs) r.slots) j ≡ some s =
      get_elem?-map-some (reap_slot procs) r.slots j g ∙ ap some same in
    take_slot-other p (record r { slots = map (reap_slot procs) r.slots }) _ j
      (first_free-ne _ j kept (in_use s.state refl))
    ∙ kept
  where
    in_use : (t : SlotState) → s.state ≡ t → is_free s.state ≡ false
    in_use free e = ground arith
    in_use mine e = ground arith
    in_use claiming e = ground arith

-- A claim is refused for want of a slot only when reclaiming leaves no free slot.
pub reg_claim-full :
    (procs : Procs) (p : Opener) (r : Registry) (j : ℕ) {s : Slot}
    → (reg_claim procs p r).0 ≡ full
    → get_elem? r.slots j ≡ some s
    → is_free (reap_slot procs s).state ≡ false
unfolding reg_claim take_slot
reg_claim-full procs p r j {s} h g =
    elim (Option-cases (first_free 0 (map (reap_slot procs) r.slots))) [
      | inl e ↦ first_free-none 0 _ j e (get_elem?-map-some (reap_slot procs) r.slots j g)
      | inr (k, e) ↦ ground arith
    ]

-- Claim ids drawn so far bound the ids in the slots, and slots in use have ids of their own.
pub record IsValid (r : Registry) : Type 0 where
  pub bounded : (i : ℕ) (s : Slot) → get_elem? r.slots i ≡ some s → s.claim_id ≤ r.claim_seq
  pub distinct :
      (i j : ℕ) (s t : Slot)
      → get_elem? r.slots i ≡ some s
      → get_elem? r.slots j ≡ some t
      → s.state ≡ mine
      → t.state ≡ mine
      → s.claim_id ≡ t.claim_id
      → i ≡ j

reap_slot-claim_id : (procs : Procs) (s : Slot) → (reap_slot procs s).claim_id ≡ s.claim_id
unfolding reap_slot
reap_slot-claim_id procs s = ground arith

reap_slot-mine : (procs : Procs) (s : Slot) → (reap_slot procs s).state ≡ mine → s.state ≡ mine
unfolding reap_slot
reap_slot-mine procs s h = ground arith

record Old (procs : Procs) (r : Registry) (j : ℕ) (t : Slot) : Type 0 where
  before : Slot
  at : get_elem? r.slots j ≡ some before
  in_use : before.state ≡ mine
  same_id : before.claim_id ≡ t.claim_id

-- A slot in use after a claim, other than the one taken, was in use before it with the same id.
slot-Old :
    {procs : Procs} {p : Opener} {r : Registry} {i : ℕ} {r' : Registry}
    → Claims procs p r i r'
    → (j : ℕ) {t : Slot} → i ≢ j
    → get_elem? r'.slots j ≡ some t
    → t.state ≡ mine
    → Old procs r j t
slot-Old {procs} {p} {r} c j {t} ne g m =
    let (s, g0, e) = get_elem?-map_inv (reap_slot procs) r.slots j (sym (c.others j ne) ∙ g) in
    record {
      before = s;
      at = g0;
      in_use = reap_slot-mine procs s (sym (ap (λ (x : Slot). x.state) e) ∙ m);
      same_id = sym (reap_slot-claim_id procs s) ∙ sym (ap (λ (x : Slot). x.claim_id) e);
    }

module _ {procs : Procs} {p : Opener} {r : Registry} {i : ℕ} {r' : Registry}
    (c : Claims procs p r i r') (v : IsValid r) (no_wrap : r.claim_seq + 1 < 2 ^ 32) where
  new_id : (s : Slot) → get_elem? r'.slots i ≡ some s → s.claim_id ≡ r.claim_seq + 1
  new_id s g =
      let e : s ≡ fresh_slot p r'.claim_seq r.recovery_epoch = ground (arith, c.taken) in
      let id : s.claim_id ≡ r'.claim_seq = ap (λ (x : Slot). x.claim_id) e in omega (arith, c.seq)

  other_id : (j : ℕ) (s : Slot) → i ≢ j → get_elem? r'.slots j ≡ some s → s.claim_id ≤ r.claim_seq
  other_id j s ne g =
      let (x, g0, e) = get_elem?-map_inv (reap_slot procs) r.slots j (sym (c.others j ne) ∙ g) in
      let same : s.claim_id ≡ x.claim_id =
        ap (λ (y : Slot). y.claim_id) e ∙ reap_slot-claim_id procs x in
      omega (arith, v.bounded j x g0)

  claimed_bounded : (j : ℕ) (s : Slot) → get_elem? r'.slots j ≡ some s → s.claim_id ≤ r'.claim_seq
  claimed_bounded j s g = elim (ℕ_discrete i j) [
    | yes e ↦ omega (arith, new_id s (rw e g), c.seq)
    | no ne ↦ omega (arith, other_id j s ne g, c.seq)
  ]

  claimed_distinct :
      (a b : ℕ) (s t : Slot)
      → get_elem? r'.slots a ≡ some s
      → get_elem? r'.slots b ≡ some t
      → s.state ≡ mine
      → t.state ≡ mine
      → s.claim_id ≡ t.claim_id
      → a ≡ b
  claimed_distinct a b s t ga gb ms mt same = elim (ℕ_discrete i a) [
    | yes ea ↦ elim (ℕ_discrete i b) [
      | yes eb ↦ omega arith
      | no nb ↦ absurd (omega (arith, new_id s (rw ea ga), other_id b t nb gb))
    ]
    | no na ↦ elim (ℕ_discrete i b) [
      | yes eb ↦ absurd (omega (arith, new_id t (rw eb gb), other_id a s na ga))
      | no nb ↦
          let x = slot-Old c a na ga ms in
          let y = slot-Old c b nb gb mt in
          v.distinct a b x.before y.before x.at y.at x.in_use y.in_use
            (x.same_id ∙ same ∙ sym y.same_id)
    ]
  ]

-- A claim that succeeds keeps the ids of slots in use distinct and bounded by the counter, where
-- the counter does not wrap round.
pub reg_claim-IsValid :
    (procs : Procs) (p : Opener) (r : Registry) {i : ℕ} {r' : Registry}
    → IsValid r
    → r.claim_seq + 1 < 2 ^ 32
    → reg_claim procs p r ≡ (slot i, r')
    → IsValid r'
reg_claim-IsValid procs p r v w h =
    let c = reg_claim-Claims procs p r h in
    record { bounded = claimed_bounded c v w; distinct = claimed_distinct c v w }

-- The state of a slot whose claimer died right after its compare-and-swap, before it wrote its pid.
abbrev pub half_claimed : Slot → Slot
half_claimed s = record s { state = claiming }

-- A slot in use with a pid other than 0 that its process released, and whose next claimer died
-- before it wrote its pid, still holds the old pid: the reclaiming loop leaves it as it is,
-- whatever `/proc` says.
pub half_claimed-stuck :
    (procs : Procs) (s : Slot)
    → s.state ≡ mine
    → s.pid ≢ 0
    → reap_slot procs (half_claimed (released s)) ≡ half_claimed (released s)
unfolding reap_slot slot_alive
half_claimed-stuck procs s m h = ground arith

-- Where the counter stands at the largest 32-bit number the next claim of a free slot succeeds
-- again, with claim id 0, the id that stands for no claim.
pub reg_claim-wraps :
    (procs : Procs) (p : Opener) (r : Registry) {j : ℕ}
    → r.claim_seq ≡ 2 ^ 32 - 1
    → first_free 0 (map (reap_slot procs) r.slots) ≡ some j
    → ((reg_claim procs p r).0 ≡ slot j) × ((reg_claim procs p r).1.claim_seq ≡ 0)
unfolding reg_claim take_slot
reg_claim-wraps procs p r e f = ground arith
