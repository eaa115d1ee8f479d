-- ===== src/Ring.antt =====
-- src/kvspace.c, the garbage ring: a box that a writer retires gets an entry, reserved before any
-- change to the tree and then committed or cancelled; `p2_drain` frees committed boxes in order.
pub mod Window
pub mod Writer
pub mod Fate
pub mod Drain
pub mod DrainLoop
mod Tests
use kvspace_c.Prelude.{
  ℕ, zero, suc, ◌+◌, ◌-◌, ◌*◌, ◌/◌, ◌%◌, ◌^◌, Bool, true, false, not, ◌&&◌, ◌||◌, Option, none,
  some, List, [], ◌∷◌, ltb, leb, ◌==◌, if◌then◌else◌,
}
use kvspace_c.Allocator.{Allocator}
use kvspace_c.Registry.{Slot, Procs, claim_alive, u32}

abbrev pub u64 : ℕ
u64 = 2 ^ 64

abbrev pub sub64 : ℕ → ℕ → ℕ
sub64 a b = (a + u64 - b) % u64

-- `garb_ent_t`
pub record Entry : Type 0 where
  pub off : ℕ
  pub epoch : ℕ
  pub meta : ℕ

abbrev pub ge_empty : ℕ
ge_empty = 0

abbrev pub ge_reserved : ℕ
ge_reserved = 1

abbrev pub ge_committed : ℕ
ge_committed = 2

-- `GE_STATE`, `GE_CLAIM` and `GE_MAKE` on the 32-bit word `state:2 | claim_id:30`.
abbrev pub ge_state : ℕ → ℕ
ge_state m = m % 4

abbrev pub ge_claim : ℕ → ℕ
ge_claim m = m / 4

abbrev pub ge_make : ℕ → ℕ → ℕ
ge_make st id = id * 4 % u32 + st

-- `GARB_CAP`; an index is masked by `GARB_CAP - 1`, which is `% 2 ^ 21`.
abbrev pub garb_cap : ℕ
garb_cap = 2 ^ 21

abbrev pub slot_of : ℕ → ℕ
slot_of i = i % garb_cap

-- The ring's part of the shared header, and the mapped entries.
pub record Ring : Type 0 where
  pub entries : ℕ → Entry
  pub cap : ℕ
  pub head : ℕ
  pub tail : ℕ
  pub committed_bytes : ℕ
  pub freed_bytes : ℕ
  pub freeing : ℕ
  pub leak_boxes : ℕ

abbrev pub update : (ℕ → Entry) → ℕ → Entry → ℕ → Entry
update f k e i = if i == k then e else f i

abbrev pub entry_at : Ring → ℕ → Entry
entry_at r i = r.entries (slot_of i)

abbrev pub put_entry : Ring → ℕ → Entry → Ring
put_entry r i e = record r { entries = update r.entries (slot_of i) e }

-- What a process sees of the others, and of itself, while it runs: `/proc`, the slots, and whether
-- its maintenance thread could not be made.
pub record Viewer : Type 0 where
  pub procs : Procs
  pub slots : List Slot
  pub claim : ℕ
  pub reclaim_unavailable : Bool

-- The tail entry may only hold the reservation of a writer that died before it moved the tail.
unfoldable pub tail_blocked : Viewer → ℕ → Bool
tail_blocked v m =
    not (m == ge_empty)
    && (not (ge_state m == ge_reserved) || claim_alive v.procs v.slots (ge_claim m))

-- `garb_reserve`: the index of the entry, or `none` with nothing changed. The report that it prints
-- when the ring is full is left out.
unfoldable pub reserve : Viewer → Ring → Option ℕ × Ring
unfolding tail_blocked
reserve v r =
    let used = sub64 r.tail r.head in
    if v.claim == 0
    then (none, r)
    else if leb r.cap used
    then (none, r)
    else if v.reclaim_unavailable && ltb (sub64 r.cap used) (r.cap / 4)
    then (none, r)
    else if tail_blocked v (entry_at r r.tail).meta
    then (none, r)
    else (
      some r.tail,
      record r {
        entries =
            update r.entries (slot_of r.tail)
              (record (entry_at r r.tail) { meta = ge_make ge_reserved v.claim });
        tail = (r.tail + 1) % u64;
      },
    )

-- `garb_commit` at recovery epoch `epoch`; whether it goes on to `p2_maint_start` is `over_threshold`
-- of the result.
pub commit : ℕ → ℕ → ℕ → ℕ → Ring → Ring
commit epoch idx off bytes r =
    record (put_entry r idx (record {
      off = off;
      epoch = epoch;
      meta = ge_make ge_committed (ge_claim (entry_at r idx).meta);
    })) { committed_bytes = (r.committed_bytes + bytes) % u64 }

-- The test by which `garb_commit`, `kvspaceShmOpen` and `p2_maint` decide that a round is due.
pub over_threshold : ℕ → Ring → Bool
over_threshold threshold r = leb threshold (sub64 r.committed_bytes r.freed_bytes)

-- `garb_cancel`
pub cancel : ℕ → Ring → Ring
cancel idx r = put_entry r idx (record (entry_at r idx) { meta = ge_empty })

-- `(int32_t)(r - epoch) > 0` on 32-bit counters.
unfoldable pub newer : ℕ → ℕ → Bool
newer r epoch = let d = (r + u32 - epoch) % u32 in ltb 0 d && ltb d (2 ^ 31)

-- What `p2_drain` does with an entry before the tail.
pub data Verdict : Type 0 where
  stop skip leak release : Verdict

unfoldable pub verdict : Viewer → ℕ → Entry → Verdict
unfolding newer
verdict v round e =
    if ge_state e.meta == ge_empty
    then skip
    else if ge_state e.meta == ge_reserved
    then (if claim_alive v.procs v.slots (ge_claim e.meta) then stop else leak)
    else if not (ge_state e.meta == ge_committed)
    then stop
    else if newer round e.epoch
    then release
    else stop

abbrev pub cleared : Entry → Entry
cleared e = record e { meta = ge_empty }

module _ (A : Allocator) where
  open A use {Boxes, allocated_size, free_box}

  pub record Draining : Type 0 where
    pub ring : Ring
    pub boxes : Boxes
    pub freed : ℕ

  -- One round of the loop at index `i`, short of the tail, for an entry that does not stop it.
  abbrev pub drain_entry : Verdict → ℕ → Draining → Draining
  drain_entry stop i s = s
  drain_entry skip i s = record s { ring = record s.ring { head = (i + 1) % u64 } }
  drain_entry leak i s = record s {
    ring = record (put_entry s.ring i (cleared (entry_at s.ring i))) {
      leak_boxes = (s.ring.leak_boxes + 1) % u64;
      head = (i + 1) % u64;
    };
  }
  drain_entry release i s =
      let e = entry_at s.ring i in
      record s {
        ring = record (put_entry s.ring i (cleared e)) {
          freeing = e.off;
          head = (i + 1) % u64;
          freed_bytes = (s.ring.freed_bytes + allocated_size s.boxes e.off) % u64;
        };
        boxes = free_box s.boxes e.off;
        freed = s.freed + 1;
      }

  abbrev pub finished : Draining → Draining
  finished s = record s { ring = record s.ring { freeing = 0 } }

  -- The loop, on fuel: `none` is fuel that ran out.
  unfoldable pub drain_loop : ℕ → Viewer → ℕ → ℕ → Draining → Option Draining
  drain_loop zero v round i s = none
  drain_loop (suc fuel) v round i s =
      let go = λ (d : Verdict). drain_loop fuel v round ((i + 1) % u64) (drain_entry d i s) in
      if leb s.ring.tail i then some (finished s) else elim (verdict v round (entry_at s.ring i)) [
        | stop ↦ some (finished s)
        | skip ↦ go skip
        | leak ↦ go leak
        | release ↦ go release
      ]

  -- `p2_drain` in round `round`: each index from the head to the tail takes one unit of fuel.
  unfoldable pub drain : Viewer → ℕ → Ring → Boxes → Option Draining
  unfolding drain_loop
  drain v round r b =
      drain_loop (r.tail - r.head + 1) v round r.head (record { ring = r; boxes = b; freed = 0 })
