-- ===== src/Registry/Claim.antt =====
-- src/kvspace.c, `p2_reg_claim`: what claiming a slot does to the registry.
use mathlib.Core.List.{map}
use kvspace_c.Prelude.{
  ℕ, zero, suc, ◌+◌, ◌%◌, ◌^◌, ◌≤◌, ◌<◌, ◌≡◌, ◌≢◌, refl, ap, inl, inr, true, false, Option, some,
  none, List, [], ◌∷◌, arith, get_elem?, length, set, get_elem?-map_inv, get_elem?-set_self,
  get_elem?-set_ne, lt-length, Bool-cases,
}
use kvspace_c.Registry.{
  SlotState, free, claiming, Slot, mine, is_free, Procs, slot_alive, reap_slot, Opener, Registry,
  slot, fresh_slot, first_free, take_slot, reg_claim, max_claim,
}

first_free-some :
    (n : ℕ) (xs : List Slot) {k : ℕ}
    → first_free n xs ≡ some k
    → (j : ℕ) × (k ≡ n + j) × (s : Slot) × (get_elem? xs j ≡ some s) × (is_free s.state ≡ true)
unfolding first_free
first_free-some n [] h = cc
first_free-some n (x ∷ xs) h = elim (Bool-cases (is_free x.state)) [
  | inl e ↦ (0, ground arith, x, refl, e)
  | inr e ↦
      let (j, p, s, g, f) = first_free-some (n + 1) xs (rw e at h) in (suc j, omega arith, s, g, f)
]

pub first_free-none :
    (n : ℕ) (xs : List Slot) (j : ℕ) {s : Slot}
    → first_free n xs ≡ none
    → get_elem? xs j ≡ some s
    → is_free s.state ≡ false
unfolding first_free
first_free-none n [] j h g = cc
first_free-none n (x ∷ xs) zero h g = ground arith
first_free-none n (x ∷ xs) (suc j) {s = s} h g =
    ground (arith, first_free-none (n + 1) xs j {s = s})

-- A slot that counts as alive is not given up by the reclaiming loop, but for a slot that is being
-- claimed and has no pid.
pub reap_slot-alive :
    (procs : Procs) (s : Slot)
    → (s.state ≡ claiming → s.pid ≢ 0)
    → slot_alive procs s ≡ true
    → reap_slot procs s ≡ s
unfolding reap_slot slot_alive
reap_slot-alive procs s m h = by_state s.state refl
  where
    by_state : (t : SlotState) → s.state ≡ t → reap_slot procs s ≡ s
    by_state free e = ground arith
    by_state mine e = ground arith
    by_state claiming e = let ne = m e in ground arith

-- What a successful claim of slot `i` leaves behind.
pub record Claims (procs : Procs) (p : Opener) (r : Registry) (i : ℕ) (r' : Registry) : Type 0 where
  pub was_free :
      (s : Slot) × (get_elem? r.slots i ≡ some s) × (is_free (reap_slot procs s).state ≡ true)
  pub taken : get_elem? r'.slots i ≡ some (fresh_slot p r'.claim_seq r.recovery_epoch)
  pub others : (j : ℕ) → i ≢ j → get_elem? r'.slots j ≡ get_elem? (map (reap_slot procs) r.slots) j
  pub seq : r'.claim_seq ≡ (r.claim_seq + 1) % 2 ^ 32
  pub small : r'.claim_seq ≤ max_claim
  pub epoch : r'.recovery_epoch ≡ r.recovery_epoch

take_slot-inv :
    (p : Opener) (r : Registry) (o : Option ℕ) {i : ℕ} {r' : Registry}
    → take_slot p r o ≡ (slot i, r')
    → (o ≡ some i)
      × ((r.claim_seq + 1) % 2 ^ 32 ≤ max_claim)
      × (r'.slots ≡ set r.slots i (fresh_slot p ((r.claim_seq + 1) % 2 ^ 32) r.recovery_epoch))
      × (r'.claim_seq ≡ (r.claim_seq + 1) % 2 ^ 32)
      × (r'.recovery_epoch ≡ r.recovery_epoch)
unfolding take_slot
take_slot-inv p r none h = ground arith
take_slot-inv p r (some k) h = ground arith

pub take_slot-other :
    (p : Opener) (r : Registry) (o : Option ℕ) (j : ℕ)
    → o ≢ some j
    → get_elem? (take_slot p r o).1.slots j ≡ get_elem? r.slots j
unfolding take_slot
take_slot-other p r none j ne = refl
take_slot-other p r (some k) j ne =
    let ne' : k ≢ j = λ e. ne (ap some e) in
    let out : get_elem? (set r.slots k _) j ≡ get_elem? r.slots j =
      get_elem?-set_ne r.slots (fresh_slot p ((r.claim_seq + 1) % 2 ^ 32) r.recovery_epoch) ne' in
    ground (arith, out)

-- A slot that reclaiming leaves in use is not the one that is taken.
pub first_free-ne :
    (xs : List Slot) (j : ℕ) {s : Slot}
    → get_elem? xs j ≡ some s
    → is_free s.state ≡ false
    → first_free 0 xs ≢ some j
first_free-ne xs j {s} g b e =
    let (k, at, t, g', f) = first_free-some 0 xs e in
    let jk : k ≡ j = omega arith in
    let same : some t ≡ some s = cc (g', g, jk) in ground (arith, same)

-- A claim that succeeds takes a slot that reclaiming leaves free, writes the caller's slot there
-- with the next claim id, at most the largest one, and leaves every other slot as reclaiming
-- left it.
pub reg_claim-Claims :
    (procs : Procs) (p : Opener) (r : Registry) {i : ℕ} {r' : Registry}
    → reg_claim procs p r ≡ (slot i, r')
    → Claims procs p r i r'
unfolding reg_claim
reg_claim-Claims procs p r {i} {r'} h =
    let reaped : Registry = record r { slots = map (reap_slot procs) r.slots } in
    let (e, small, sl, seq, ep) = take_slot-inv p reaped (first_free 0 reaped.slots) h in
    let (j, at, s, g, f) = first_free-some 0 reaped.slots e in
    let ij : i ≡ j = omega arith in
    let (s0, g0, e0) = get_elem?-map_inv (reap_slot procs) r.slots j g in
    record {
      was_free = (s0, rw ij g0, rw (← e0) f);
      taken =
          rw (sl, seq)
            (get_elem?-set_self reaped.slots i _
              (let inside : j < length reaped.slots = lt-length reaped.slots j g in omega arith));
      others = λ k ne. rw sl (get_elem?-set_ne reaped.slots _ ne);
      seq = seq;
      small = omega arith;
      epoch = ep;
    }
