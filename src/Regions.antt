-- ===== src/Regions.antt =====
-- src/kvspace.c, the mapped files and how they grow: `region_map`, `region_attach`, `gens_grow`,
-- `kv_sync`, `art_slab_grow`, `sbo_head_grow` and `kv_sbo_free`. The answers of `mmap` and `ftruncate` are parameters. An operation returns whether
-- it succeeded and the state, which keeps what was changed before a failure.
pub mod Growth
pub mod Mapping
pub mod Pools
pub mod Alloc
pub mod AllocLaws
mod Tests
use kvspace_c.Prelude.{
  ℕ, ◌+◌, ◌-◌, ◌*◌, ◌/◌, ◌^◌, Bool, true, false, not, ◌&&◌, ◌||◌, ltb, leb, ◌==◌, if◌then◌else◌,
}

-- `shm_region_t`: whether it has a base, the size of the reserved address range, the bytes that are
-- mapped, and the size of the file.
pub record Region : Type 0 where
  pub based : Bool
  pub reserve : ℕ
  pub mapped : ℕ
  pub file_size : ℕ

-- Whether `mmap` can reserve a range, whether it can map so many bytes of a file, and whether
-- `ftruncate` can size a file.
pub record Os : Type 0 where
  pub can_reserve : ℕ → Bool
  pub can_map : ℕ → Bool
  pub can_truncate : ℕ → Bool

-- `region_map`
unfoldable pub region_map : Os → Region → ℕ → Bool × Region
region_map os r size =
    if ltb r.reserve size
    then (false, r)
    else if leb size r.mapped
    then (true, r)
    else if os.can_map size
    then (true, record r { mapped = size })
    else (false, r)

abbrev pub truncated : Region → ℕ → Region
truncated r size = record r { file_size = size }

-- `region_attach`
unfoldable pub region_attach : Os → Region → Bool → ℕ → ℕ → Bool × Region
unfolding region_map
region_attach os r create size reserve =
    let range = if ltb reserve size then size else reserve in
    let sized = if create then truncated r size else r in
    if (if create then not (os.can_truncate size) else ltb r.file_size size)
    then (false, r)
    else if os.can_reserve range
    then region_map os (record sized { based = true; reserve = range }) size
    else (false, record sized { reserve = range })

-- The regions of a handle, with the sizes in the shared header and in the metadata of the two
-- allocators. `art_off` is `ART_OFF` and `head_fixed` is `SBO_HEAD_FIXED`, sizes of structures
-- that other repositories declare in part.
pub record Regions : Type 0 where
  pub art : Region
  pub head : Region
  pub data_region : Region
  pub gens : Region
  pub art_off : ℕ
  pub head_fixed : ℕ
  pub art_slab_size : ℕ
  pub sbo_head_size : ℕ
  pub sbo_data_size : ℕ
  pub gens_size : ℕ
  pub art_total : ℕ
  pub art_total_seen : ℕ
  pub gen_n : ℕ
  pub head_size : ℕ
  pub block_size : ℕ

abbrev pub sizeof_gens : ℕ
sizeof_gens = 8

abbrev pub gen_reserve : ℕ
gen_reserve = 8 * 2 ^ 30

-- `gen_cap`
unfoldable pub gen_cap : Regions → ℕ
gen_cap r = r.art_total / (r.head_size + r.block_size)

-- The address range of the table of generations, reserved where it was not.
unfoldable pub reserve_gens : Os → Region → Bool × Region
reserve_gens os g =
    if g.based
    then (true, g)
    else if os.can_reserve gen_reserve
    then (true, record g { based = true; reserve = gen_reserve })
    else (false, g)

-- The end of `gens_grow`: `ftruncate`, `region_map`, and the size in the header.
unfoldable pub size_gens : Os → ℕ → Bool × Region → Regions → Bool × Regions
unfolding region_map
size_gens os want (false, g) r = (false, record r { gens = g })
size_gens os want (true, g) r =
    let (ok, mapped) = region_map os (truncated g want) want in
    if os.can_truncate want
    then (ok, record r { gens = mapped; gens_size = if ok then want else r.gens_size })
    else (false, record r { gens = g })

-- `gens_grow`: `gen_n` and `art_total_seen` are stored before the table is sized.
unfoldable pub gens_grow : Os → Regions → Bool × Regions
unfolding gen_cap reserve_gens size_gens
gens_grow os r =
    let want = gen_cap r * sizeof_gens in
    let r1 = record r { gen_n = want / sizeof_gens; art_total_seen = r.art_total } in
    if ltb gen_reserve want
    then (false, r)
    else if leb want r.gens.mapped
    then (true, r1)
    else size_gens os want (reserve_gens os r.gens) r1

-- The steps of `kv_sync`; each is left out once an earlier one failed.
unfoldable pub sync_art : Os → Regions → Bool × Regions
unfolding region_map
sync_art os r =
    let (ok, g) = region_map os r.art (r.art_off + r.art_slab_size) in (ok, record r { art = g })

unfoldable pub sync_gens : Os → Bool × Regions → Bool × Regions
unfolding gens_grow
sync_gens os (false, r) = (false, r)
sync_gens os (true, r) = if r.art_total == r.art_total_seen then (true, r) else gens_grow os r

unfoldable pub sync_head : Os → Bool × Regions → Bool × Regions
unfolding region_map
sync_head os (false, r) = (false, r)
sync_head os (true, r) =
    let (ok, g) = region_map os r.head r.sbo_head_size in (ok, record r { head = g })

unfoldable pub sync_data : Os → Bool × Regions → Bool × Regions
unfolding region_map
sync_data os (false, r) = (false, r)
sync_data os (true, r) =
    let (ok, g) = region_map os r.data_region r.sbo_data_size in (ok, record r { data_region = g })

-- `kv_sync`
unfoldable pub kv_sync : Os → Regions → Bool × Regions
unfolding sync_art sync_gens sync_head sync_data
kv_sync os r = sync_data os (sync_head os (sync_gens os (sync_art os r)))

-- `art_slab_grow`
unfoldable pub art_slab_grow : Os → Regions → Bool × Regions
unfolding region_map
art_slab_grow os r =
    let want = r.art_slab_size * 2 in
    let size = r.art_off + want in
    let (ok, g) = region_map os (truncated r.art size) size in
    if ltb r.art.reserve size
    then (false, r)
    else if os.can_truncate size
    then (if ok
        then (true, record r { art = g; art_slab_size = want; art_total = want })
        else (false, record r { art = g }))
    else (false, r)

-- The pool of the box allocator: `sizeof_block_head`, `block_size` and `total_size`.
pub record Pool : Type 0 where
  pub block_head : ℕ
  pub pool_block : ℕ
  pub total : ℕ

-- The size to which `sbo_head_grow` takes the pool: twice the old one, but not more than the ids of
-- a block head can address or the reserved range can hold.
unfoldable pub head_want : Pool → Regions → ℕ
head_want p r =
    let cap = 2 ^ (if p.block_head == 2 then 14 else 30) * (p.block_head + p.pool_block) in
    let twice = if ltb cap (p.total * 2) then cap else p.total * 2 in
    if ltb r.head.reserve (r.head_fixed + twice)
    then (r.head.reserve - r.head_fixed) / 8 * 8
    else twice

-- `sbo_head_grow`
unfoldable pub sbo_head_grow : Os → Pool → Regions → Bool × Pool × Regions
unfolding region_map head_want
sbo_head_grow os p r =
    let want = head_want p r in
    let size = r.head_fixed + want in
    let (ok, g) = region_map os (truncated r.head size) size in
    if leb want p.total
    then (false, p, r)
    else if os.can_truncate size
    then (if ok
        then (true, record p { total = want }, record r { head = g; sbo_head_size = size })
        else (false, p, record r { head = g }))
    else (false, p, r)
