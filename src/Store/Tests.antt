-- ===== src/Store/Tests.antt =====
-- src/kvspace.c, a store with the keys `/a`, a value, `/b`, a pointer to `/a`, and `/a/x`, which an
-- extension handle at `/e/` can reach.
use kvspace_c.Prelude.{
  ℕ, ◌+◌, ◌≡◌, refl, true, false, Option, some, none, List, [], ◌∷◌, ◌++◌, ◌⊎◌, codes, leb, ◌==◌,
  if◌then◌else◌, length, get_or, take, drop, Bytes, arith, starts_with,
}
use kvspace_c.Allocator.{Allocator}
use kvspace_c.Art.Node.{n4, child, Edge, assoc}
use kvspace_c.Keys.{reserved_meta_path}
use kvspace_c.Art.Tree.{Node, Heap, pfx_shared, find2, walk_loop}
use kvspace_c.Regions.{
  Os, Region, Regions, kv_sync, sync_art, sync_gens, sync_head, sync_data, region_map,
}
use kvspace_c.Ring.{Ring, garb_cap}
use kvspace_c.Values.{Wire, Memory, write_at, head_of, reference_of, parse_value}
use kvspace_c.Values.Memory.{Bounded}
use kvspace_c.Store.{
  Store, get, set_part, get_local, resolve_fetch, search, sync, value_of, read_value_ro,
}
use kvspace_c.Store.Reading.{resolve_loop, finish_get}
use kvspace_c.Store.Hops.{Led, resolve_fetch-Led}
use kvspace_c.Store.PartLaws.{PartWritten, set_part-PartWritten}

-- A head whose first byte is the length of the body and whose ninth is that of the type, the only
-- attribute.
abbrev pub small_wire : Wire
small_wire = record {
  total_len = λ h. 16 + get_or h 0 0 + get_or h 8 0;
  body_len = λ h. get_or h 0 0;
  attrs_len = λ h. get_or h 8 0;
  layout = λ h. 0;
  scan = λ v. some (take (get_or v 8 0) (drop (16 + get_or v 0 0) v));
  effective_len = λ v. if leb (16 + get_or v 0 0) (length v) then some (get_or v 0 0) else none;
  langtype = λ v. take (get_or v 8 0) (drop (16 + get_or v 0 0) v);
}

pub small_wire-Bounded : Bounded small_wire
small_wire-Bounded v n h = ground arith

abbrev pub small_value : Bytes → Bytes → Bytes
small_value body lt =
    length body ∷ 0 ∷ 0 ∷ 0 ∷ 0 ∷ 0 ∷ 0 ∷ 0 ∷ length lt ∷ 0 ∷ 0 ∷ 0 ∷ 0 ∷ 0 ∷ 0 ∷ 0 ∷ (body ++ lt)

abbrev pub fixed_boxes : Allocator
fixed_boxes = record {
  Boxes = List ℕ;
  allocated_size = λ b off. 64;
  free_box = λ b off. off ∷ b;
  alloc_box = λ b n. (some 192, b);
}

abbrev pub node : Bytes → Option ℕ → List Edge → Node
node prefix none es = record { prefix = prefix; has_value = false; off = 0; body = n4 es }
node prefix (some off) es = record { prefix = prefix; has_value = true; off = off; body = n4 es }

-- `/a` has its value in the box at 64, `/b` in the one at 128.
abbrev pub small_tree : Heap
small_tree id =
    if id == 0
    then some (
        node (codes "/") none
          (record { key = b'a'; child = 1 } ∷ record { key = b'b'; child = 2 } ∷ []))
    else if id == 1
    then some (node [] (some 64) [])
    else if id == 2
    then some (node [] (some 128) [])
    else none

abbrev pub small_bytes : Memory
small_bytes =
    write_at (write_at (λ i. 0) 64 (small_value (codes "hello") (codes "char/utf8"))) 128
      (small_value (codes "/a") (codes "*"))

abbrev region : ℕ → Region
region n = record { based = true; reserve = 100000; mapped = n; file_size = n }

abbrev pub grants : Os
grants = record { can_reserve = λ n. true; can_map = λ n. true; can_truncate = λ n. true }

abbrev pub mapped_regions : Regions
mapped_regions = record {
  art = region 1700;
  head = region 4096;
  data_region = region 512;
  gens = region 80;
  art_off = 500;
  head_fixed = 96;
  art_slab_size = 1200;
  sbo_head_size = 4096;
  sbo_data_size = 512;
  gens_size = 80;
  art_total = 1200;
  art_total_seen = 1200;
  gen_n = 10;
  head_size = 8;
  block_size = 112;
}

abbrev pub empty_ring : Ring
empty_ring = record {
  entries = λ i. record { off = 0; epoch = 0; meta = 0 };
  cap = garb_cap;
  head = 0;
  tail = 0;
  committed_bytes = 0;
  freed_bytes = 0;
  freeing = 0;
  leak_boxes = 0;
}

abbrev pub small_store : Store fixed_boxes
small_store = record {
  slab = record { nodes = small_tree; next = 3; limit = 10 };
  root = some 0;
  gens = λ i. record { struct_gen = 4; value_gen = 6 };
  boxes = [];
  bytes = small_bytes;
  regions = mapped_regions;
  ring = empty_ring;
  recovery_epoch = 3;
  list_gen = 9;
  store_id = 7;
  quiesced = false;
  forked = false;
}

get_pointer : (get grants small_wire small_store (codes "/b") true).0 ≡ some (64, 30)
unfolding get sync kv_sync sync_art sync_gens sync_head sync_data region_map get_local resolve_fetch
    resolve_loop search find2 walk_loop pfx_shared child assoc value_of head_of reference_of
    read_value_ro parse_value finish_get reserved_meta_path starts_with
get_pointer = refl

fetch_pointer : (resolve_fetch small_wire small_store (codes "/b")).fetched ≡ some (64, 30)
unfolding resolve_fetch resolve_loop search find2 walk_loop pfx_shared child assoc value_of head_of
    reference_of read_value_ro parse_value
fetch_pointer = refl

resolve_fetch-Led_example :
    Led small_wire small_store 16
      (codes "/b")
      64
      30
      (resolve_fetch small_wire small_store (codes "/b"))
resolve_fetch-Led_example =
    resolve_fetch-Led small_wire small_store (codes "/b") (omega arith) fetch_pointer

set_part-PartWritten_example :
    let st1 = (get grants small_wire small_store (codes "/b") true).1 in
    let r = set_part grants small_wire small_store (codes "/b") 16 (codes "J") in
    ((r.0 ≡ false) × (r.1 ≡ st1))
    ⊎ ((r.0 ≡ true)
        × ((off : ℕ) × (rl : ℕ) × ((get grants small_wire small_store (codes "/b") true).0
              ≡ some (off, rl))
            × PartWritten st1 off 16 (codes "J") r.1))
set_part-PartWritten_example =
    set_part-PartWritten grants small_wire small_store (codes "/b") 16 (codes "J")
      small_wire-Bounded
