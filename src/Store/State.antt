-- ===== src/Store/State.antt =====
-- src/kvspace.c, the state of a handle, the generations of its nodes, and the values in its boxes.
use kvspace_c.Prelude.{
  ℕ, ◌+◌, ◌-◌, ◌%◌, ◌^◌, Bool, ◌||◌, Option, none, some, ltb, ◌==◌, if◌then◌else◌, Bytes,
}
use kvspace_c.Registry.{u32}
use kvspace_c.Allocator.{Allocator}
use kvspace_c.Ring.{Ring, u64}
use kvspace_c.Art.Tree.{Node, Slab, find2}
use kvspace_c.Regions.{Os, Regions, kv_sync}
use kvspace_c.Values.{Wire, Memory, parse_value}

-- `kv_gens_t`
pub record Gens : Type 0 where
  pub struct_gen : ℕ
  pub value_gen : ℕ

-- `kvspace_t` with the shared header: the tree's blocks and its root, the table of generations, the
-- boxes and their bytes, the ring, the counters of the header, and what the handle itself knows.
pub record Store (A : Allocator) : Type 0 where
  pub slab : Slab
  pub root : Option ℕ
  pub gens : ℕ → Gens
  pub boxes : A.Boxes
  pub bytes : Memory
  pub regions : Regions
  pub ring : Ring
  pub recovery_epoch : ℕ
  pub list_gen : ℕ
  pub store_id : ℕ
  pub quiesced : Bool
  pub forked : Bool

-- `kvspaceRef_t`
pub record Ref : Type 0 where
  pub block_id : ℕ
  pub gen : ℕ
  pub parent_id : ℕ
  pub depth : ℕ

-- A 32-bit word read as a node's id: a negative one is `none`.
abbrev pub id_of : ℕ → Option ℕ
id_of n = if ltb n (2 ^ 31) then some n else none

-- `art_val_load` and `AV_HAS`: the offset of the value of a node that has one.
abbrev pub has : Node → Option ℕ
has x = if x.has_value then some x.off else none

module _ {A : Allocator} where
  -- `P2_VIEW_GUARD`
  abbrev pub view_guard : Store A → Bool
  view_guard st = st.quiesced || st.forked

  -- `kv_sync`
  unfoldable pub sync : Os → Store A → Bool × Store A
  sync os st = let (ok, r) = kv_sync os st.regions in (ok, record st { regions = r })

  -- `art_search`; the search has enough fuel.
  unfoldable pub search : Store A → Bytes → Option ℕ
  search st key = elim (find2 st.slab.nodes st.root key) [ none ↦ none | some r ↦ r.0 ]

  unfoldable pub value_of : Store A → ℕ → Option ℕ
  value_of st id = elim (st.slab.nodes id) [ none ↦ none | some x ↦ has x ]

  -- `sbo_allocated_size`
  abbrev pub capacity : Store A → ℕ → ℕ
  capacity st off = A.allocated_size st.boxes off

  -- `gens_at`
  unfoldable pub gens_at : Store A → ℕ → Option Gens
  gens_at st id =
      if st.regions.gens.based
      then (if ltb id st.regions.gen_n then some (st.gens id) else none)
      else none

  abbrev pub put_gens : Store A → ℕ → Gens → Store A
  put_gens st id g = record st { gens = λ i. if i == id then g else st.gens i }

  -- `gen_bump_struct` and `gen_bump_value`
  unfoldable pub bump_struct : ℕ → Store A → Store A
  unfolding gens_at
  bump_struct id st = elim (gens_at st id) [
    | none ↦ st
    | some g ↦ put_gens st id (record g { struct_gen = (g.struct_gen + 1) % u32 })
  ]

  unfoldable pub bump_value : ℕ → ℕ → Store A → Store A
  unfolding gens_at
  bump_value n id st = elim (gens_at st id) [
    | none ↦ st
    | some g ↦ put_gens st id (record g { value_gen = (g.value_gen + n) % u32 })
  ]

  -- `list_gen_bump`
  abbrev pub list_gen_bump : Store A → Store A
  list_gen_bump st = record st { list_gen = (st.list_gen + 1) % u64 }

  -- `ro_bound`, `read_value` and `read_value_ro`: the length of the value at an offset.
  abbrev pub ro_bound : Store A → ℕ → ℕ
  ro_bound st off = st.regions.data_region.mapped - off

  unfoldable pub read_value : Wire → Store A → ℕ → Option ℕ
  read_value w st off = parse_value w st.bytes off (capacity st off)

  unfoldable pub read_value_ro : Wire → Store A → ℕ → Option ℕ
  read_value_ro w st off = parse_value w st.bytes off (ro_bound st off)
