-- ===== src/Registry/Tests.antt =====
-- src/kvspace.c, the registry run on two slots: one of a live process, one of a dead process.
use kvspace_c.Prelude.{
  codes, ℕ, zero, suc, ◌-◌, ◌^◌, ◌≤◌, ◌≡◌, refl, false, true, some, [], ◌∷◌, arith, get_elem?, ◌==◌,
  if◌then◌else◌,
}
use kvspace_c.Registry.Stat.{text, proc_starttime}
use kvspace_c.Registry.{
  Slot, mine, running, gone, Procs, slot_alive, reap_slot, Opener, Registry, slot, full, fresh_slot,
  first_free, reg_claim, take_slot, released,
}
use kvspace_c.Registry.Claim.{Claims, reg_claim-Claims}
use kvspace_c.Registry.Live.{
  IsValid, reg_claim-keeps_alive, reg_claim-IsValid, half_claimed, half_claimed-stuck,
}

abbrev live_slot : Slot
live_slot = record {
  pid = 10;
  state = mine;
  starttime = 100;
  recovery_ack = 5;
  quiesced = false;
  claim_id = 1;
}

abbrev dead_slot : Slot
dead_slot = record {
  pid = 11;
  state = mine;
  starttime = 200;
  recovery_ack = 5;
  quiesced = false;
  claim_id = 2;
}

abbrev proc_table : Procs
proc_table pid = if pid == 10 then running 100 else if pid == 12 then running 300 else gone

abbrev opener : Opener
opener = record { me = 12; found = running 300 }

abbrev two_slots : Registry
two_slots = record { slots = live_slot ∷ dead_slot ∷ []; claim_seq = 2; recovery_epoch = 7 }

abbrev claimed_slots : Registry
claimed_slots = record {
  slots = live_slot ∷ fresh_slot opener 3 7 ∷ [];
  claim_seq = 3;
  recovery_epoch = 7;
}

claimed_here : reg_claim proc_table opener two_slots ≡ (slot 1, claimed_slots)
unfolding reg_claim reap_slot slot_alive first_free take_slot
claimed_here = refl

reg_claim-Claims_example : Claims proc_table opener two_slots 1 claimed_slots
reg_claim-Claims_example = reg_claim-Claims proc_table opener two_slots claimed_here

live_here : slot_alive proc_table live_slot ≡ true
unfolding slot_alive
live_here = refl

reg_claim-keeps_alive_example :
    get_elem? (reg_claim proc_table opener two_slots).1.slots 0 ≡ some live_slot
reg_claim-keeps_alive_example =
    reg_claim-keeps_alive proc_table opener two_slots 0 refl (λ e. cc e) live_here

abbrev one_slot : Registry
one_slot = record { slots = live_slot ∷ []; claim_seq = 2; recovery_epoch = 7 }

full_here : (reg_claim proc_table opener one_slot).0 ≡ full
unfolding reg_claim reap_slot slot_alive first_free take_slot
full_here = refl

two_slots-IsValid : IsValid two_slots
two_slots-IsValid = record { bounded = bounded_ids; distinct = distinct_ids }
  where
    bounded_ids : (i : ℕ) (s : Slot) → get_elem? two_slots.slots i ≡ some s → s.claim_id ≤ 2
    bounded_ids zero s g = ground arith
    bounded_ids (suc zero) s g = ground arith
    bounded_ids (suc (suc i)) s g = cc

    distinct_ids :
        (i j : ℕ) (s t : Slot)
        → get_elem? two_slots.slots i ≡ some s
        → get_elem? two_slots.slots j ≡ some t
        → s.state ≡ mine
        → t.state ≡ mine
        → s.claim_id ≡ t.claim_id
        → i ≡ j
    distinct_ids zero zero s t g h p q e = refl
    distinct_ids zero (suc zero) s t g h p q e = ground arith
    distinct_ids zero (suc (suc j)) s t g h p q e = cc
    distinct_ids (suc zero) zero s t g h p q e = ground arith
    distinct_ids (suc zero) (suc zero) s t g h p q e = refl
    distinct_ids (suc zero) (suc (suc j)) s t g h p q e = cc
    distinct_ids (suc (suc i)) j s t g h p q e = cc

reg_claim-IsValid_example : IsValid claimed_slots
reg_claim-IsValid_example =
    reg_claim-IsValid proc_table opener two_slots two_slots-IsValid (omega arith) claimed_here

half_claimed-stuck_example :
    reap_slot proc_table (half_claimed (released dead_slot)) ≡ half_claimed (released dead_slot)
half_claimed-stuck_example = half_claimed-stuck proc_table dead_slot refl (omega arith)

abbrev last_claim : Registry
last_claim = record { slots = dead_slot ∷ []; claim_seq = 2 ^ 32 - 1; recovery_epoch = 7 }

free_here : first_free 0 (reap_slot proc_table dead_slot ∷ []) ≡ some 0
unfolding first_free reap_slot slot_alive
free_here = refl

zombie : proc_starttime (λ s. 7) (text (codes "12 (a) b) Z 1 12 12 0")) ≡ gone
unfolding proc_starttime
zombie = refl

started :
    proc_starttime
      (λ s. 7)
      (text (codes "12 (sh) S 4 5 6 7 8 9 10 11 12 13 14 15 16 17 18 19 20 21 77 1"))
    ≡ running 7
unfolding proc_starttime
started = refl
