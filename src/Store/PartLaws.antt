-- ===== src/Store/PartLaws.antt =====
-- src/kvspace.c, `kvspaceShmSetPart` and `kvspaceShmSetPartByRef`: what they write.
use kvspace_c.Prelude.{
  ℕ, ◌+◌, ◌≤◌, ◌≡◌, refl, true, false, some, length, Bytes, arith, Bool-cases, Option-cases, inl,
  inr, ◌⊎◌, leb→le,
}
use kvspace_c.Allocator.{Allocator}
use kvspace_c.Regions.{Os}
use kvspace_c.Values.{Wire, head_len, bytes_at}
use kvspace_c.Values.Memory.{
  Outside, write_at-Outside, bytes_at-write_at, Bounded, length-bytes_at, parse_value-Within,
}
use kvspace_c.Store.State.{Store, capacity, read_value}
use kvspace_c.Store.Reading.{get}
use kvspace_c.Store.Part.{written, part_fits, write_part, set_part}

module _ {A : Allocator} where
  -- A part that fits lies within the box of the value.
  part_fits-Within :
      (w : Wire) (st : Store A) (off offset len : ℕ)
      → Bounded w
      → part_fits w st off offset len ≡ true
      → offset + len ≤ capacity st off
  unfolding part_fits read_value
  part_fits-Within w st off offset len b h = elim (Option-cases (read_value w st off)) [
    | inl e ↦ absurd (let q = rw (part_fits, e) at h in cc q)
    | inr (rl, e) ↦ elim (Option-cases (w.effective_len (bytes_at st.bytes off rl))) [
      | inl f ↦ absurd (let q = rw (part_fits, e, f) at h in cc q)
      | inr (bound, f) ↦
          let q = rw (part_fits, e, f) at h in
          let (pos, within) = parse_value-Within w st.bytes off (capacity st off) e in
          omega (
            arith,
            within,
            b (bytes_at st.bytes off rl) bound f,
            length-bytes_at st.bytes off rl,
            leb→le (offset + len) (head_len + bound) q,
          )
    ]
  ]

  -- What a write of a part did: `buf` stands at `at`, in the box of the value at `off`, every other
  -- byte is as it was, and so is the rest of the store.
  pub record PartWritten (st : Store A) (off offset : ℕ) (buf : Bytes) (st' : Store A)
      : Type 0 where
    pub in_box : offset + length buf ≤ capacity st off
    pub there : bytes_at st'.bytes (off + offset) (length buf) ≡ buf
    pub elsewhere : (i : ℕ) → Outside (off + offset) (length buf) i → st'.bytes i ≡ st.bytes i
    pub rest : record st { bytes = st'.bytes } ≡ st'

  written-PartWritten :
      (st : Store A) (off offset : ℕ) (buf : Bytes)
      → offset + length buf ≤ capacity st off
      → PartWritten st off offset buf (written st (off + offset) buf)
  written-PartWritten st off offset buf le = record {
    in_box = le;
    there = bytes_at-write_at st.bytes (off + offset) buf;
    elsewhere = write_at-Outside st.bytes (off + offset) buf;
    rest = refl;
  }

  -- What `kvspaceShmSetPart` does for a key, when effective lengths lie within their values: if it
  -- succeeds, the read of the key found a value, and the bytes were written in that value's box, at
  -- the offset from its beginning, and nothing else changed. If it fails, nothing was written.
  pub set_part-PartWritten :
      (os : Os) (w : Wire) (st : Store A) (key : Bytes) (offset : ℕ) (buf : Bytes)
      → Bounded w
      → let st1 = (get os w st key true).1 in
        let r = set_part os w st key offset buf in
        ((r.0 ≡ false) × (r.1 ≡ st1))
        ⊎ ((r.0 ≡ true)
            × ((off : ℕ) × (rl : ℕ) × ((get os w st key true).0 ≡ some (off, rl))
                × PartWritten st1 off offset buf r.1))
  unfolding set_part write_part
  set_part-PartWritten os w st key offset buf b = elim (Option-cases (get os w st key true).0) [
    | inl e ↦ inl (rw (write_part, e) (refl, refl))
    | inr ((off, rl), e) ↦
        elim (Bool-cases (part_fits w (get os w st key true).1 off offset (length buf))) [
          | inl yes' ↦
              let st1 = (get os w st key true).1 in
              let in_box = part_fits-Within w st1 off offset (length buf) b yes' in
              inr (
                rw (write_part, e, yes')
                  (refl, (off, rl, refl, written-PartWritten st1 off offset buf in_box)))
          | inr no' ↦ inl (rw (write_part, e, no') (refl, refl))
        ]
  ]
