-- ===== src/Regions/Mapping.antt =====
-- src/kvspace.c, `kv_sync`: what is mapped afterwards, and what a growth that fails does to it.
use kvspace_c.Prelude.{
  ◌+◌, ◌*◌, ◌≤◌, ◌<◌, ◌≡◌, refl, ap, sym, ◌∙◌, Bool, true, false, arith, ltb, leb, ◌==◌, Bool-cases,
  inl, inr,
}
use kvspace_c.Regions.{
  Region, Os, Regions, gen_cap, gens_grow, reserve_gens, size_gens, sync_art, sync_gens, sync_head,
  sync_data, kv_sync, sizeof_gens, gen_reserve,
}
use kvspace_c.Regions.Growth.{
  region_map-Maps, GensMapped, size_gens-same, want, counted, gens_grow-cases, gens_grow-GensMapped,
}

-- What a `kv_sync` that succeeds leaves: every region maps what the shared header says is in use.
pub record InSync (r : Regions) : Type 0 where
  pub slab : r.art_off + r.art_slab_size ≤ r.art.mapped
  pub gens : GensMapped r
  pub seen : r.art_total_seen ≡ r.art_total
  pub head : r.sbo_head_size ≤ r.head.mapped
  pub data_region : r.sbo_data_size ≤ r.data_region.mapped

abbrev SlabMapped : Regions → Type 0
SlabMapped r = r.art_off + r.art_slab_size ≤ r.art.mapped

abbrev Seen : Regions → Type 0
Seen r = r.art_total_seen ≡ r.art_total

abbrev HeadMapped : Regions → Type 0
HeadMapped r = r.sbo_head_size ≤ r.head.mapped

module _ (os : Os) where
  sync_art-Maps :
      (r : Regions)
      → GensMapped r
      → (sync_art os r).0 ≡ true
      → SlabMapped (sync_art os r).1 × GensMapped (sync_art os r).1
  unfolding sync_art
  sync_art-Maps r g h = ((region_map-Maps os r.art (r.art_off + r.art_slab_size) h).0, g)

  gens_grow-Maps :
      (r : Regions)
      → SlabMapped r
      → (gens_grow os r).0 ≡ true
      → SlabMapped (gens_grow os r).1 × GensMapped (gens_grow os r).1 × Seen (gens_grow os r).1
  gens_grow-Maps r s h = elim (gens_grow-cases os r h) [
    | inl (le, e) ↦ rw e (s, omega arith, refl)
    | inr e ↦
        let ((a, b, c, d), n, seen) =
          size_gens-same os (want os r) (reserve_gens os r.gens) (counted os r) in
        (rw e (omega (arith, s, a, b, c)), (gens_grow-GensMapped os r h).1, rw e (seen ∙ sym d))
  ]

  sync_gens-Maps :
      (p : Bool × Regions)
      → (p.0 ≡ true → SlabMapped p.1 × GensMapped p.1)
      → (sync_gens os p).0 ≡ true
      → SlabMapped (sync_gens os p).1 × GensMapped (sync_gens os p).1 × Seen (sync_gens os p).1
  unfolding sync_gens
  sync_gens-Maps (false, r) g h = absurd (ground arith)
  sync_gens-Maps (true, r) g h = elim (Bool-cases (r.art_total == r.art_total_seen)) [
    | inl same ↦ rw same ((g refl).0, (g refl).1, ground arith)
    | inr other ↦ rw other (gens_grow-Maps r (g refl).0 (rw other at h))
  ]

  sync_head-Maps :
      (p : Bool × Regions)
      → (p.0 ≡ true → SlabMapped p.1 × GensMapped p.1 × Seen p.1)
      → (sync_head os p).0 ≡ true
      → SlabMapped (sync_head os p).1
        × GensMapped (sync_head os p).1
        × Seen (sync_head os p).1
        × HeadMapped (sync_head os p).1
  unfolding sync_head
  sync_head-Maps (false, r) g h = absurd (ground arith)
  sync_head-Maps (true, r) g h =
      let (s, m, seen) = g refl in (s, m, seen, (region_map-Maps os r.head r.sbo_head_size h).0)

  sync_data-InSync :
      (p : Bool × Regions)
      → (p.0 ≡ true → SlabMapped p.1 × GensMapped p.1 × Seen p.1 × HeadMapped p.1)
      → (sync_data os p).0 ≡ true
      → InSync (sync_data os p).1
  unfolding sync_data
  sync_data-InSync (false, r) g h = absurd (ground arith)
  sync_data-InSync (true, r) g h =
      let (s, m, seen, head) = g refl in
      record {
        slab = s;
        gens = m;
        seen = seen;
        head = head;
        data_region = (region_map-Maps os r.data_region r.sbo_data_size h).0;
      }

-- What a handle keeps of the table of generations.
abbrev pub SameTable : Regions → Regions → Type 0
SameTable r r' = (r'.gens ≡ r.gens) × (r'.gen_n ≡ r.gen_n) × (r'.art_total_seen ≡ r.art_total_seen)

sync_art-same : (os : Os) (r : Regions) → SameTable r (sync_art os r).1
unfolding sync_art
sync_art-same os r = (refl, refl, refl)

sync_art-seen :
    (os : Os) (r : Regions)
    → r.art_total ≡ r.art_total_seen
    → (sync_art os r).1.art_total ≡ (sync_art os r).1.art_total_seen
unfolding sync_art
sync_art-seen os r e = e

sync_head-same : (os : Os) (p : Bool × Regions) → SameTable p.1 (sync_head os p).1
unfolding sync_head
sync_head-same os (false, r) = (refl, refl, refl)
sync_head-same os (true, r) = (refl, refl, refl)

sync_data-same : (os : Os) (p : Bool × Regions) → SameTable p.1 (sync_data os p).1
unfolding sync_data
sync_data-same os (false, r) = (refl, refl, refl)
sync_data-same os (true, r) = (refl, refl, refl)

sync_gens-idle :
    (os : Os) (p : Bool × Regions) → p.1.art_total ≡ p.1.art_total_seen → (sync_gens os p).1 ≡ p.1
unfolding sync_gens
sync_gens-idle os (false, r) e = refl
sync_gens-idle os (true, r) e =
    let same : (r.art_total == r.art_total_seen) ≡ true = ground arith in rw same refl

-- A `kv_sync` that finds the size of the slab as it was seen leaves the table as it is, whether it
-- succeeds or not.
pub kv_sync-idle :
    (os : Os) (r : Regions) → r.art_total ≡ r.art_total_seen → SameTable r (kv_sync os r).1
unfolding kv_sync
kv_sync-idle os r e =
    let p1 = sync_art os r in
    let p2 = sync_gens os p1 in
    let p3 = sync_head os p2 in
    let idle : p2.1 ≡ p1.1 = sync_gens-idle os p1 (sync_art-seen os r e) in
    let (a3, b3, c3) = sync_head-same os p2 in
    let (a4, b4, c4) = sync_data-same os p3 in
    (
      a4 ∙ a3 ∙ ap (λ (q : Regions). q.gens) idle ∙ (sync_art-same os r).0,
      b4 ∙ b3 ∙ ap (λ (q : Regions). q.gen_n) idle ∙ (sync_art-same os r).1,
      c4 ∙ c3 ∙ ap (λ (q : Regions). q.art_total_seen) idle ∙ (sync_art-same os r).2,
    )

-- The states of a handle from its opening on: the table of generations begins empty; other processes
-- change what the shared header says, and the handle what is not the table; it calls `kv_sync` and
-- `gens_grow`. A growth of the table that fails ends the run.
pub data Reached : Regions → Type 0 where
  opened : (r : Regions) → r.gen_n ≡ 0 → Reached r
  others : (r r' : Regions) → Reached r → SameTable r r' → Reached r'
  synced : (os : Os) (r : Regions) → Reached r → (kv_sync os r).0 ≡ true → Reached (kv_sync os r).1
  idled :
      (os : Os) (r : Regions)
      → Reached r
      → r.art_total ≡ r.art_total_seen
      → Reached (kv_sync os r).1
  grew :
      (os : Os) (r : Regions) → Reached r → (gens_grow os r).0 ≡ true → Reached (gens_grow os r).1

SameTable-GensMapped : (r r' : Regions) → SameTable r r' → GensMapped r → GensMapped r'
SameTable-GensMapped r r' (g, n, t) m =
    let mapped : r'.gens.mapped ≡ r.gens.mapped = ap (λ (q : Region). q.mapped) g in
    omega (arith, n, m, mapped)

synced-InSync :
    (os : Os) (r : Regions) → GensMapped r → (kv_sync os r).0 ≡ true → InSync (kv_sync os r).1
unfolding kv_sync
synced-InSync os r g h =
    sync_data-InSync os _ (sync_head-Maps os _ (sync_gens-Maps os _ (sync_art-Maps os r g))) h

pub Reached-GensMapped : (r : Regions) → Reached r → GensMapped r
Reached-GensMapped r (opened _ e) = omega (arith, e)
Reached-GensMapped r (others q _ h same) = SameTable-GensMapped q r same (Reached-GensMapped q h)
Reached-GensMapped r (synced os q h ok) = (synced-InSync os q (Reached-GensMapped q h) ok).gens
Reached-GensMapped r (idled os q h e) =
    SameTable-GensMapped q (kv_sync os q).1 (kv_sync-idle os q e) (Reached-GensMapped q h)
Reached-GensMapped r (grew os q h ok) = (gens_grow-GensMapped os q ok).1

-- In every state that a handle reaches from its opening without a failed growth of the table of
-- generations, whatever other processes do to the shared header, a `kv_sync` that succeeds leaves
-- every region mapped as far as the header says it is in use, and the table of generations mapped for
-- every block id below `gen_n`.
pub kv_sync-InSync :
    (os : Os) (r : Regions) → Reached r → (kv_sync os r).0 ≡ true → InSync (kv_sync os r).1
kv_sync-InSync os r g h = synced-InSync os r (Reached-GensMapped r g) h

-- What such a growth leaves by itself.
refused_growth :
    (os later : Os) (r : Regions)
    → gen_cap r * sizeof_gens ≤ gen_reserve
    → r.gens.mapped < gen_cap r * sizeof_gens
    → r.gens.based ≡ true
    → os.can_truncate (gen_cap r * sizeof_gens) ≡ false
    → let r1 = (gens_grow os r).1 in
      ((gens_grow os r).0 ≡ false)
      × (r1.gen_n ≡ gen_cap r)
      × (sync_gens later (true, r1) ≡ (true, r1))
      × (r1.gens.mapped < r1.gen_n * sizeof_gens)
      × (r1.art_total ≡ r1.art_total_seen)
unfolding gens_grow reserve_gens size_gens sync_gens
refused_growth os later r fits more based refused =
    let big : ltb gen_reserve (gen_cap r * sizeof_gens) ≡ false = ground arith in
    let small : leb (gen_cap r * sizeof_gens) r.gens.mapped ≡ false = ground arith in
    let same : (r.art_total == r.art_total) ≡ true = ground arith in
    rw (big, small, based, refused) (rw same (refl, omega arith, refl, omega (arith, more), refl))

-- A growth of the table of generations that `ftruncate` refuses leaves `gen_n` at the new number of
-- blocks, beyond what is mapped, and stops the next `kv_sync` from trying again: whatever the system
-- then grants, its step for the table answers success and does nothing, and after that `kv_sync`,
-- whether it succeeds or not, the table and its number of entries are as they were.
pub gens_grow-half :
    (os later : Os) (r : Regions)
    → gen_cap r * sizeof_gens ≤ gen_reserve
    → r.gens.mapped < gen_cap r * sizeof_gens
    → r.gens.based ≡ true
    → os.can_truncate (gen_cap r * sizeof_gens) ≡ false
    → let r1 = (gens_grow os r).1 in
      let r2 = (kv_sync later r1).1 in
      ((gens_grow os r).0 ≡ false)
      × (r1.gen_n ≡ gen_cap r)
      × (sync_gens later (true, r1) ≡ (true, r1))
      × (r1.gens.mapped < r1.gen_n * sizeof_gens)
      × (r2.gens ≡ r1.gens)
      × (r2.gen_n ≡ r1.gen_n)
gens_grow-half os later r fits more based refused =
    let (failed, n, step, beyond, seen) = refused_growth os later r fits more based refused in
    let (gens, count, total) = kv_sync-idle later (gens_grow os r).1 seen in
    (failed, n, step, beyond, gens, count)
