-- ===== src/Regions/Tests.antt =====
-- src/kvspace.c, the mapped files of a small store.
use kvspace_c.Prelude.{ℕ, ◌+◌, ◌*◌, ◌≤◌, ◌<◌, ◌≡◌, refl, true, false, some, arith}
use kvspace_c.Regions.{
  Region, Os, region_map, Regions, gen_cap, gens_grow, reserve_gens, size_gens, sync_gens, kv_sync,
  sync_art, sync_head, sync_data, sizeof_gens, gen_reserve, Pool, sbo_head_grow, head_want,
}
use kvspace_c.Regions.Mapping.{
  kv_sync-InSync, InSync, opened, others, grew, Reached, gens_grow-half,
}
use kvspace_c.Regions.Pools.{sbo_head_grow-Maps}
use kvspace_c.Regions.Alloc.{punched}
use kvspace_c.Regions.AllocLaws.{punched-Within}

abbrev region : ℕ → Region
region n = record { based = true; reserve = 100000; mapped = n; file_size = n }

abbrev grants : Os
grants = record { can_reserve = λ n. true; can_map = λ n. true; can_truncate = λ n. true }

abbrev refuses : Os
refuses = record { can_reserve = λ n. true; can_map = λ n. true; can_truncate = λ n. false }

-- Another process has doubled the slab, from 1200 bytes.
abbrev behind : Regions
behind = record {
  art = region 1700;
  head = region 4096;
  data_region = region 512;
  gens = record { based = true; reserve = gen_reserve; mapped = 80; file_size = 80 };
  art_off = 500;
  head_fixed = 96;
  art_slab_size = 2400;
  sbo_head_size = 4096;
  sbo_data_size = 32768;
  gens_size = 80;
  art_total = 2400;
  art_total_seen = 1200;
  gen_n = 10;
  head_size = 8;
  block_size = 112;
}

sync_ok : (kv_sync grants behind).0 ≡ true
unfolding kv_sync sync_art sync_gens sync_head sync_data region_map gens_grow gen_cap reserve_gens
    size_gens
sync_ok = refl

-- The handle was opened at 1200 bytes, where its table got 10 entries.
abbrev fresh : Regions
fresh = record behind {
  gens = record { based = false; reserve = 0; mapped = 0; file_size = 0 };
  art_total = 1200;
  art_total_seen = 0;
  gen_n = 0;
}

first_growth : (gens_grow grants fresh).0 ≡ true
unfolding gens_grow gen_cap reserve_gens size_gens region_map
first_growth = refl

behind-Reached : Reached behind
unfolding gens_grow gen_cap reserve_gens size_gens region_map
behind-Reached =
    others (gens_grow grants fresh).1 behind (grew grants fresh (opened fresh refl) first_growth)
      (refl, refl, refl)

kv_sync-InSync_example : InSync (kv_sync grants behind).1
kv_sync-InSync_example = kv_sync-InSync grants behind behind-Reached sync_ok

small_cap : gen_cap behind ≡ 20
unfolding gen_cap
small_cap = refl

gens_grow-half_example :
    let r1 = (gens_grow refuses behind).1 in
    let r2 = (kv_sync grants r1).1 in
    ((gens_grow refuses behind).0 ≡ false)
    × (r1.gen_n ≡ gen_cap behind)
    × (sync_gens grants (true, r1) ≡ (true, r1))
    × (r1.gens.mapped < r1.gen_n * sizeof_gens)
    × (r2.gens ≡ r1.gens)
    × (r2.gen_n ≡ r1.gen_n)
gens_grow-half_example =
    gens_grow-half refuses grants behind (omega (arith, small_cap)) (omega (arith, small_cap)) refl
      refl

abbrev pool : Pool
pool = record { block_head = 4; pool_block = 36; total = 4000 }

grow_ok : (sbo_head_grow grants pool behind).0 ≡ true
unfolding sbo_head_grow head_want region_map
grow_ok = refl

pool_grown :
    let (ok, p', r') = sbo_head_grow grants pool behind in
    (pool.total < p'.total)
    × (r'.sbo_head_size ≡ behind.head_fixed + p'.total)
    × (r'.sbo_head_size ≤ r'.head.mapped)
    × (r'.sbo_head_size ≤ behind.head.reserve)
pool_grown = sbo_head_grow-Maps grants pool behind grow_ok

punched_pages : punched 8192 4096 5000 20000 ≡ some (8192, 24576)
unfolding punched
punched_pages = refl

pages_within :
    (5000 ≤ 8192)
    × (8192 < 24576)
    × (24576 ≤ 5000 + 20000)
    × (8192 ≤ 20000)
    × ((a : ℕ) × (8192 ≡ a * 4096))
    × ((b : ℕ) × (24576 ≡ b * 4096))
pages_within = punched-Within 8192 4096 5000 20000 (omega arith) punched_pages
