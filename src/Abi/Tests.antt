-- ===== src/Abi/Tests.antt =====
-- src/durable_abi.c, run on a small store.
use kvspace_c.Prelude.{
  ℕ, ◌+◌, ◌-◌, ◌≤◌, ◌≡◌, refl, true, some, none, [], ◌∷◌, codes, length, min, arith, Bytes,
}
use kvspace_c.Prelude.{starts_with}
use kvspace_c.Keys.{reserved_meta_path}
use kvspace_c.Art.Node.{child, assoc}
use kvspace_c.Art.Tree.{find2, walk_loop, pfx_shared}
use kvspace_c.Regions.{kv_sync, sync_art, sync_gens, sync_head, sync_data, region_map}
use kvspace_c.Values.{head_of, reference_of, parse_value}
use kvspace_c.Store.{get, sync, get_local, resolve_fetch, search, value_of, read_value_ro}
use kvspace_c.Store.Reading.{resolve_loop, finish_get}
use kvspace_c.Store.Tests.{small_wire, small_store, grants}
use kvspace_c.View.Tests.{viewer}
use kvspace_c.Abi.{invalid_arguments, abi_get_part, abi_del_keys}
use kvspace_c.Abi.Values.{Maker, watch, new_int64, finish}
use kvspace_c.Abi.Reading.{abi_get_part-Within, abi_del_keys-null, watch-Over, Over}
use kvspace_c.Abi.Numbers.{le_value, new_int64-bytes}

part : (abi_get_part grants small_wire small_store (codes "/b") 16 3).0 ≡ some (80, 3)
unfolding abi_get_part get sync kv_sync sync_art sync_gens sync_head sync_data region_map get_local
    resolve_fetch resolve_loop search find2 walk_loop pfx_shared child assoc value_of head_of
    reference_of read_value_ro parse_value finish_get reserved_meta_path starts_with
part = refl

abi_get_part-Within_example :
    (off total : ℕ) × ((get grants small_wire small_store (codes "/b") true).0 ≡ some (off, total))
    × (80 ≡ off + 16)
    × (3 ≡ min 3 (total - 16))
    × (80 + 3 ≤ off + total)
abi_get_part-Within_example =
    abi_get_part-Within grants small_wire small_store (codes "/b") 16 3 part

null_key :
    abi_del_keys grants viewer small_store (some (codes "/a") ∷ none ∷ some (codes "/b") ∷ [])
    ≡ (some invalid_arguments, (abi_del_keys grants viewer small_store (some (codes "/a") ∷ [])).1)
null_key = abi_del_keys-null grants viewer small_store (codes "/a" ∷ []) (some (codes "/b") ∷ [])

watch-Over_example : Over small_wire [] 50 (watch small_wire [] 50 (([], 10) ∷ ([], 60) ∷ []))
watch-Over_example = watch-Over small_wire [] 50 (([], 10) ∷ []) [] 60 [] (omega arith)

abbrev plain_maker : Maker
plain_maker = record {
  new_ptr = λ target kind. some target;
  new_slack = λ body n lt. some body;
  new_scalar = λ body lt. some body;
}

new_int64-bytes_example :
    (raw : Bytes) × (length raw ≡ 8)
    × (le_value raw ≡ 1000000)
    × (new_int64 plain_maker 1000000 (codes "int64") ≡ finish (some raw))
new_int64-bytes_example = new_int64-bytes plain_maker 1000000 (codes "int64") (omega arith)
