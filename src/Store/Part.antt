-- ===== src/Store/Part.antt =====
-- src/kvspace.c, writes into a value: `kvspaceShmSetPart`, `kvspaceShmSetPartByRef` and
-- `kvspaceShmWriteInPlace`. The result says whether 0 is returned.
use kvspace_c.Prelude.{
  ℕ, ◌+◌, ◌-◌, Bool, true, false, ◌&&◌, Option, none, some, ltb, leb, ◌==◌, if◌then◌else◌, length,
  Bytes,
}
use kvspace_c.Allocator.{Allocator}
use kvspace_c.Keys.{reserved_meta_path}
use kvspace_c.Ring.{sub64}
use kvspace_c.Regions.{Os}
use kvspace_c.Values.{Wire, head_len, reference_of, is_inline, head_of, bytes_at, write_at}
use kvspace_c.Store.State.{Store, Ref, id_of, sync, search, capacity, read_value, bump_value}
use kvspace_c.Store.Reading.{get, key_limit, resolve_fetch}
use kvspace_c.Store.Refs.{ref_leaf, value_of_leaf, resolve_ref, renewed}

module _ {A : Allocator} where
  abbrev pub written : Store A → ℕ → Bytes → Store A
  written st off buf = record st { bytes = write_at st.bytes off buf }

  abbrev pub bump_leaf : Option ℕ → Store A → Store A
  bump_leaf none st = st
  bump_leaf (some id) st = bump_value 1 id st

  -- A write between two increments of the value generation of a node.
  abbrev pub written_under : Option ℕ → Store A → ℕ → Bytes → Store A
  written_under id st off buf = bump_leaf id (written (bump_leaf id st) off buf)

  -- Whether bytes from `offset` on stay within the effective length of the value at `off`.
  unfoldable pub part_fits : Wire → Store A → ℕ → ℕ → ℕ → Bool
  part_fits w st off offset len = elim (read_value w st off) [
    | none ↦ false
    | some rl ↦ elim (w.effective_len (bytes_at st.bytes off rl)) [
      | none ↦ false
      | some bound ↦ leb (offset + len) (head_len + bound)
    ]
  ]

  -- `kvspaceShmSetPart`, from its call of `kvspaceShmGet` on.
  unfoldable pub write_part : Wire → Option (ℕ × ℕ) → Store A → ℕ → Bytes → Bool × Store A
  unfolding part_fits
  write_part w none st offset buf = (false, st)
  write_part w (some (off, rl)) st offset buf =
      if part_fits w st off offset (length buf)
      then (true, written st (off + offset) buf)
      else (false, st)

  -- `kvspaceShmSetPart`
  unfoldable pub set_part : Os → Wire → Store A → Bytes → ℕ → Bytes → Bool × Store A
  unfolding write_part
  set_part os w st key offset buf =
      let (v, st') = get os w st key true in write_part w v st' offset buf

  -- The length of the value at `off` by which the fast path of `kvspaceShmSetPartByRef` goes.
  abbrev pub fast_len : Wire → Store A → ℕ → ℕ
  fast_len w st off = elim (w.effective_len (bytes_at st.bytes off (capacity st off))) [
    | some n ↦ n
    | none ↦ w.body_len (bytes_at st.bytes off head_len)
  ]

  -- The tests of the fast path.
  unfoldable pub fast_fits : Wire → Store A → ℕ → ℕ → ℕ → Bool
  fast_fits w st off offset buf_len =
      let data_size = st.regions.sbo_data_size in
      let cap = capacity st off in
      let len = fast_len w st off in
      leb off data_size
      && leb head_len (data_size - off)
      && is_inline (reference_of w (bytes_at st.bytes off cap))
      && leb cap (data_size - off)
      && leb len (sub64 cap head_len)
      && leb offset (head_len + len)
      && leb buf_len (head_len + len - offset)

  -- The part of `kvspaceShmSetPartByRef` for a leaf that has the value at `off`.
  unfoldable pub part_of_leaf :
      Wire → Store A → Ref → Option ℕ → ℕ → ℕ → Bytes → Bool × Ref × Store A
  unfolding fast_fits part_fits
  part_of_leaf w st ref leaf off offset buf =
      let done : Bool × Ref × Store A = (true, ref, written_under leaf st (off + offset) buf) in
      if ref.gen == 0 && fast_fits w st off offset (length buf)
      then done
      else if part_fits w st off offset (length buf)
      then done
      else (false, ref, st)

  -- The part for a leaf without a value: the value that a read by the key finds.
  abbrev pub fallback_fits : Wire → Store A → ℕ → ℕ → ℕ → Bool
  fallback_fits w st off offset len = elim (read_value w st off) [
    | none ↦ false
    | some rl ↦ leb (offset + len) rl
  ]

  unfoldable pub part_by_key : Os → Wire → Store A → Ref → Bytes → ℕ → Bytes → Bool × Ref × Store A
  part_by_key os w st ref key offset buf =
      let (v, st1) = get os w st key false in
      let (r, st2) = resolve_ref os st1 key in
      elim v [
        | none ↦ (false, ref, st1)
        | some (off, rl) ↦
            if fallback_fits w st1 off offset (length buf)
            then (
              true,
              renewed r,
              written_under (id_of (renewed r).block_id) st2 (off + offset) buf,
            )
            else (false, ref, st1)
      ]

  unfoldable pub part_fallback :
      Os → Wire → Store A → Ref → Option Bytes → ℕ → Bytes → Bool × Ref × Store A
  unfolding part_by_key
  part_fallback os w st ref none offset buf = (false, ref, st)
  part_fallback os w st ref (some key) offset buf =
      if ref.gen == 0 then part_by_key os w st ref key offset buf else (false, ref, st)

  -- `kvspaceShmSetPartByRef`
  unfoldable pub set_part_by_ref :
      Os → Wire → Store A → Ref → Option Bytes → ℕ → Bytes → Bool × Ref × Store A
  unfolding ref_leaf part_of_leaf part_fallback sync
  set_part_by_ref os w st ref key offset buf =
      let (ok, st') = sync os st in
      let (leaf, ref') = ref_leaf st' ref key in
      if ok
      then elim (value_of_leaf st' leaf) [
        | some off ↦ part_of_leaf w st' ref' leaf off offset buf
        | none ↦ part_fallback os w st' ref' key offset buf
      ]
      else (false, ref, st')

  -- `kvspaceShmWriteInPlace` behind its guards: where the body of the value begins.
  unfoldable pub body_in_place : Wire → Store A → Option ℕ → ℕ → Option ℕ
  body_in_place w st node body_len = elim (value_of_leaf st node) [
    | none ↦ none
    | some off ↦ elim (read_value w st off) [
      | none ↦ none
      | some rl ↦ elim (head_of w (bytes_at st.bytes off rl)) [
        | none ↦ none
        | some head ↦
            if ltb 0 rl && w.body_len head == body_len then some (off + head_len) else none
      ]
    ]
  ]

  -- `kvspaceShmWriteInPlace`, with a length that is not negative.
  unfoldable pub write_in_place : Os → Wire → Store A → Bytes → Bool → ℕ → Option ℕ × Store A
  unfolding body_in_place resolve_fetch sync
  write_in_place os w st key resolve body_len =
      let (ok, st') = sync os st in
      let node = if resolve then (resolve_fetch w st' key).node else search st' key in
      if reserved_meta_path key
      then (none, st)
      else if ok
      then (if leb key_limit (length key) then none else body_in_place w st' node body_len, st')
      else (none, st')
