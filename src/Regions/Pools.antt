-- ===== src/Regions/Pools.antt =====
-- src/kvspace.c, `sbo_head_grow`: what is mapped afterwards.
use kvspace_c.Prelude.{ℕ, ◌+◌, ◌≤◌, ◌<◌, ◌≡◌, refl, Bool, true, arith, leb, Bool-cases, inl, inr}
use kvspace_c.Regions.{Region, Os, region_map, Regions, truncated, Pool, head_want, sbo_head_grow}
use kvspace_c.Regions.Growth.{region_map-Maps}

module _ (os : Os) (p : Pool) (r : Regions) where
  abbrev size : ℕ
  size = r.head_fixed + head_want p r

  abbrev remap : Bool × Region
  remap = region_map os (truncated r.head size) size

  sbo_head_grow-cases :
      (sbo_head_grow os p r).0 ≡ true
      → (p.total < head_want p r)
        × (remap.0 ≡ true)
        × (sbo_head_grow os p r ≡ (
          true,
          record p { total = head_want p r },
          record r { head = remap.1; sbo_head_size = size },
        ))
  unfolding sbo_head_grow
  sbo_head_grow-cases h = elim (Bool-cases (leb (head_want p r) p.total)) [
    | inl small ↦ absurd (ground arith)
    | inr more ↦ elim (Bool-cases (os.can_truncate size)) [
      | inr no' ↦ absurd (ground arith)
      | inl yes' ↦ elim (Bool-cases remap.0) [
        | inr no'' ↦ absurd (ground arith)
        | inl ok ↦ (ground arith, ok, rw (more, yes', ok) refl)
      ]
    ]
  ]

-- A growth of the pool of boxes that succeeds makes the pool strictly larger, keeps it within the
-- reserved range, and maps all of it.
pub sbo_head_grow-Maps :
    (os : Os) (p : Pool) (r : Regions)
    → (sbo_head_grow os p r).0 ≡ true
    → let (ok, p', r') = sbo_head_grow os p r in
      (p.total < p'.total)
      × (r'.sbo_head_size ≡ r.head_fixed + p'.total)
      × (r'.sbo_head_size ≤ r'.head.mapped)
      × (r'.sbo_head_size ≤ r.head.reserve)
sbo_head_grow-Maps os p r h =
    let (more, ok, e) = sbo_head_grow-cases os p r h in
    let (covers, kept, fits) =
      region_map-Maps os (truncated r.head (size os p r)) (size os p r) ok in
    rw e (more, refl, covers, fits)
