-- ===== src/Ring/Writer.antt =====
-- src/kvspace.c, `garb_reserve`, `garb_commit` and `garb_cancel` on the queue of entries.
use kvspace_c.Prelude.{
  true, ◌↔◌, Bool-cases, inl, inr, ◌/◌, ℕ, suc, ◌+◌, ◌-◌, ◌%◌, ◌^◌, ◌≤◌, ◌<◌, ◌≡◌, ◌≢◌, ◌∙◌, ap,
  ap₂, false, none, some, List, [], refl, ◌⊎◌, ◌∷◌, ◌++◌, arith, set,
}
use kvspace_c.Registry.{claim_alive}
use kvspace_c.Ring.{
  tail_blocked, Entry, Ring, Viewer, ge_reserved, ge_committed, ge_empty, ge_make, ge_claim,
  ge_state, slot_of, sub64, update, entry_at, put_entry, reserve, commit, cancel, u64,
}
use kvspace_c.Ring.Window.{
  window, contents, IsValid, window-update_out, window-update_in, window-snoc,
}

abbrev pub reserved_entry : Viewer → Ring → Entry
reserved_entry v r = record (entry_at r r.tail) { meta = ge_make ge_reserved v.claim }

abbrev pub after_reserve : Viewer → Ring → Ring
after_reserve v r = record r {
  entries = update r.entries (slot_of r.tail) (reserved_entry v r);
  tail = (r.tail + 1) % u64;
}

-- A reservation either fails, or takes the index at the tail.
reserve-cases :
    (v : Viewer) (r : Ring) {idx : ℕ} {r' : Ring}
    → reserve v r ≡ (some idx, r')
    → (idx ≡ r.tail) × (r' ≡ after_reserve v r) × (r.cap ≤ sub64 r.tail r.head → ⊥)
unfolding reserve
reserve-cases v r h = ground arith

contents-after_reserve :
    (v : Viewer) (r : Ring)
    → IsValid r
    → r.tail - r.head < r.cap
    → contents (after_reserve v r) ≡ contents r ++ reserved_entry v r ∷ []
unfolding contents
contents-after_reserve v r valid room =
    let h = r.head in
    let n = r.tail - r.head in
    let len : (r.tail + 1) % u64 - h ≡ suc n = omega (arith, valid.counters, valid.ordered) in
    let at : h + n ≡ r.tail = omega (arith, valid.ordered) in
    let f = update r.entries (slot_of r.tail) (reserved_entry v r) in
    let last : f (slot_of (h + n)) ≡ reserved_entry v r = rw at (ground arith) in
    let front : window f h n ≡ window r.entries h n =
      window-update_out r.entries h n r.tail (reserved_entry v r) (omega arith)
        (omega (arith, valid.capacity)) in
    ap (window f h) len
    ∙ window-snoc f h n
    ∙ ap₂ (λ (a : List Entry) (b : Entry). a ++ b ∷ []) front last

-- On a well-formed ring whose tail counter does not come to its end, a reservation that succeeds
-- puts one entry at the end of the queue, at the index that it returns, reserved for the
-- writer's claim, and keeps the ring well formed.
pub reserve_refines :
    (v : Viewer) (r : Ring) {idx : ℕ} {r' : Ring}
    → IsValid r
    → r.tail + 2 < 2 ^ 64
    → reserve v r ≡ (some idx, r')
    → IsValid r' × (idx ≡ r.tail) × (contents r' ≡ contents r ++ reserved_entry v r ∷ [])
unfolding reserve
reserve_refines v r {idx} {r'} valid small h =
    let (at, after, room) = reserve-cases v r h in
    let free : r.tail - r.head < r.cap =
      omega (arith, valid.ordered, valid.counters, valid.capacity, room) in
    let len : (r.tail + 1) % u64 ≡ r.tail + 1 = omega arith in
    let ok : IsValid (after_reserve v r) = record {
      ordered = omega (arith, valid.ordered);
      fits = omega (arith, valid.ordered);
      capacity = valid.capacity;
      counters = omega arith;
      freed_word = valid.freed_word;
      leak_word = valid.leak_word;
    } in
    (rw after ok, at, ap contents after ∙ contents-after_reserve v r valid free)

-- A reservation that fails has changed nothing.
pub reserve-none : (v : Viewer) (r : Ring) {r' : Ring} → reserve v r ≡ (none, r') → r' ≡ r
unfolding reserve
reserve-none v r h = ground arith

-- The entry at the tail may be overwritten: it is empty, or was reserved by a claim that is dead.
abbrev pub TailFree : Viewer → Ring → Type 0
TailFree v r =
    ((entry_at r r.tail).meta ≡ ge_empty)
    ⊎ ((ge_state (entry_at r r.tail).meta ≡ ge_reserved)
        × (claim_alive v.procs v.slots (ge_claim (entry_at r r.tail).meta) ≡ false))

tail_blocked-TailFree :
    (v : Viewer) (r : Ring) → TailFree v r → tail_blocked v (entry_at r r.tail).meta ≡ false
unfolding tail_blocked
tail_blocked-TailFree v r e = ground arith

TailFree-tail_blocked :
    (v : Viewer) (r : Ring) → tail_blocked v (entry_at r r.tail).meta ≡ false → TailFree v r
unfolding tail_blocked
TailFree-tail_blocked v r e = ground arith

reserve-tests :
    (v : Viewer) (r : Ring)
    → IsValid r
    → (reserve v r).0 ≡ some r.tail
    → (v.claim ≢ 0)
      × (r.tail - r.head < r.cap)
      × (v.reclaim_unavailable ≡ true → r.cap / 4 ≤ r.cap - (r.tail - r.head))
      × (tail_blocked v (entry_at r r.tail).meta ≡ false)
unfolding reserve
reserve-tests v r valid h =
    let used : sub64 r.tail r.head ≡ r.tail - r.head =
      omega (arith, valid.ordered, valid.counters) in
    let left : sub64 r.cap (sub64 r.tail r.head) ≡ r.cap - (r.tail - r.head) =
      omega (arith, used, valid.ordered, valid.fits, valid.capacity) in
    (ground arith, ground arith, λ u. ground arith, ground arith)

reserve-passes :
    (v : Viewer) (r : Ring)
    → IsValid r
    → v.claim ≢ 0
    → r.tail - r.head < r.cap
    → (v.reclaim_unavailable ≡ true → r.cap / 4 ≤ r.cap - (r.tail - r.head))
    → tail_blocked v (entry_at r r.tail).meta ≡ false
    → (reserve v r).0 ≡ some r.tail
unfolding reserve
reserve-passes v r valid c room quarter e =
    let used : sub64 r.tail r.head ≡ r.tail - r.head =
      omega (arith, valid.ordered, valid.counters) in
    let left : sub64 r.cap (sub64 r.tail r.head) ≡ r.cap - (r.tail - r.head) =
      omega (arith, used, valid.ordered, valid.fits, valid.capacity) in
    elim (Bool-cases v.reclaim_unavailable) [
      | inl u ↦ let q = quarter u in ground arith
      | inr u ↦ ground arith
    ]

-- On a well-formed ring a writer is given an entry, that at the tail, exactly when it has a claim,
-- fewer entries than the capacity are in the queue, at least a quarter of the capacity is left if its
-- process cannot reclaim, and the entry at the tail is empty or was reserved by a dead claim.
pub reserve-some_iff :
    (v : Viewer) (r : Ring)
    → IsValid r
    → ((reserve v r).0 ≡ some r.tail) ↔ (
        (v.claim ≢ 0)
        × (r.tail - r.head < r.cap)
        × (v.reclaim_unavailable ≡ true → r.cap / 4 ≤ r.cap - (r.tail - r.head))
        × TailFree v r)
reserve-some_iff v r valid = (
  λ h.
      let (c, room, quarter, e) = reserve-tests v r valid h in
      (c, room, quarter, TailFree-tail_blocked v r e),
  λ (c, room, quarter, e). reserve-passes v r valid c room quarter (tail_blocked-TailFree v r e),
)

abbrev pub committed_entry : ℕ → ℕ → Entry → Entry
committed_entry epoch off e = record {
  off = off;
  epoch = epoch;
  meta = ge_make ge_committed (ge_claim e.meta);
}

-- Writing the entry at an index of the queue writes that place of the queue and no other.
contents-put_entry :
    (r : Ring) (idx : ℕ) (e : Entry)
    → IsValid r
    → r.head ≤ idx
    → idx < r.tail
    → contents (put_entry r idx e) ≡ set (contents r) (idx - r.head) e
unfolding contents
contents-put_entry r idx e valid lo hi =
    window-update_in r.entries r.head (r.tail - r.head) (idx - r.head) idx e (omega arith)
      (omega arith) (omega (arith, valid.fits, valid.capacity))

-- On a well-formed ring a commit at an index of the queue fills in that entry, box, epoch and
-- state, keeps its claim and every other entry, counts the retired bytes modulo 2^64, and keeps
-- the ring well formed.
pub commit_refines :
    (epoch idx off bytes : ℕ) (r : Ring)
    → IsValid r
    → r.head ≤ idx
    → idx < r.tail
    → let r' = commit epoch idx off bytes r in
      IsValid r'
      × (contents r' ≡ set (contents r) (idx - r.head) (committed_entry epoch off (entry_at r idx)))
      × (r'.committed_bytes ≡ (r.committed_bytes + bytes) % u64)
unfolding commit contents
commit_refines epoch idx off bytes r valid lo hi = (
  record {
    ordered = valid.ordered;
    fits = valid.fits;
    capacity = valid.capacity;
    counters = valid.counters;
    freed_word = valid.freed_word;
    leak_word = valid.leak_word;
  },
  contents-put_entry r idx (committed_entry epoch off (entry_at r idx)) valid lo hi,
  refl,
)

-- On a well-formed ring cancelling an entry of the queue empties that entry, keeps every other,
-- and keeps the ring well formed.
pub cancel_refines :
    (idx : ℕ) (r : Ring)
    → IsValid r
    → r.head ≤ idx
    → idx < r.tail
    → IsValid (cancel idx r)
      × (contents (cancel idx r)
          ≡ set (contents r) (idx - r.head) (record (entry_at r idx) { meta = ge_empty }))
unfolding cancel contents
cancel_refines idx r valid lo hi = (
  record {
    ordered = valid.ordered;
    fits = valid.fits;
    capacity = valid.capacity;
    counters = valid.counters;
    freed_word = valid.freed_word;
    leak_word = valid.leak_word;
  },
  contents-put_entry r idx (record (entry_at r idx) { meta = ge_empty }) valid lo hi,
)
