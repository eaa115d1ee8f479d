-- ===== src/Regions/Growth.antt =====
-- src/kvspace.c, `region_map` and `gens_grow`: what is mapped afterwards.
use kvspace_c.Prelude.{
  ℕ, ◌*◌, ◌/◌, ◌≤◌, ◌≡◌, refl, ◌∙◌, Bool, true, false, arith, ltb, leb, leb→le, Bool-cases, inl,
  inr, ◌⊎◌,
}
use kvspace_c.Regions.{
  Region, Os, region_map, Regions, gen_cap, gens_grow, reserve_gens, size_gens, sizeof_gens,
  gen_reserve,
}

-- A mapping that succeeds covers the size that was asked for, within the reserved range, and takes
-- nothing away that was mapped before.
pub region_map-Maps :
    (os : Os) (r : Region) (size : ℕ)
    → (region_map os r size).0 ≡ true
    → (size ≤ (region_map os r size).1.mapped)
      × (r.mapped ≤ (region_map os r size).1.mapped)
      × (size ≤ r.reserve)
unfolding region_map
region_map-Maps os r size h = ground arith

-- Every entry of the table of generations that `gens_at` may reach is mapped.
abbrev pub GensMapped : Regions → Type 0
GensMapped r = r.gen_n * sizeof_gens ≤ r.gens.mapped

size_gens-Maps :
    (os : Os) (want : ℕ) (g : Bool × Region) (r : Regions)
    → (size_gens os want g r).0 ≡ true
    → want ≤ (size_gens os want g r).1.gens.mapped
unfolding size_gens region_map
size_gens-Maps os want (false, g) r h = ground arith
size_gens-Maps os want (true, g) r h = ground arith

-- Growing the table of generations changes nothing but the table.
abbrev pub SameButGens : Regions → Regions → Type 0
SameButGens r r' =
    (r'.art.mapped ≡ r.art.mapped)
    × (r'.art_off ≡ r.art_off)
    × (r'.art_slab_size ≡ r.art_slab_size)
    × (r'.art_total ≡ r.art_total)

pub size_gens-same :
    (os : Os) (want : ℕ) (g : Bool × Region) (r : Regions)
    → SameButGens r (size_gens os want g r).1
      × ((size_gens os want g r).1.gen_n ≡ r.gen_n)
      × ((size_gens os want g r).1.art_total_seen ≡ r.art_total_seen)
unfolding size_gens
size_gens-same os want (false, g) r = ((refl, refl, refl, refl), refl, refl)
size_gens-same os want (true, g) r = elim (Bool-cases (os.can_truncate want)) [
  | inl yes' ↦ rw yes' ((refl, refl, refl, refl), refl, refl)
  | inr no' ↦ rw no' ((refl, refl, refl, refl), refl, refl)
]

module _ (os : Os) (r : Regions) where
  abbrev pub want : ℕ
  want = gen_cap r * sizeof_gens

  abbrev pub counted : Regions
  counted = record r { gen_n = want / sizeof_gens; art_total_seen = r.art_total }

  pub gens_grow-cases :
      (gens_grow os r).0 ≡ true
      → ((want ≤ r.gens.mapped) × (gens_grow os r ≡ (true, counted)))
        ⊎ (gens_grow os r ≡ size_gens os want (reserve_gens os r.gens) counted)
  unfolding gens_grow
  gens_grow-cases h = elim (Bool-cases (ltb gen_reserve want)) [
    | inl big ↦ absurd (ground arith)
    | inr fits ↦ elim (Bool-cases (leb want r.gens.mapped)) [
      | inl mapped ↦ inl (leb→le want r.gens.mapped mapped, rw (fits, mapped) refl)
      | inr more ↦ inr (rw (fits, more) refl)
    ]
  ]

  -- A growth of the table of generations that succeeds leaves room for one entry for each block that
  -- the slab can hold, and all of them are mapped.
  pub gens_grow-GensMapped :
      (gens_grow os r).0 ≡ true
      → ((gens_grow os r).1.gen_n ≡ gen_cap r) × GensMapped (gens_grow os r).1
  gens_grow-GensMapped h = elim (gens_grow-cases h) [
    | inl (le, e) ↦ rw e (omega arith, omega arith)
    | inr e ↦
        let m = size_gens-Maps os want (reserve_gens os r.gens) counted (rw e at h) in
        let (same, n, seen) = size_gens-same os want (reserve_gens os r.gens) counted in
        rw e (n ∙ omega arith, omega (arith, m, n))
  ]
