-- ===== src/Store.antt =====
-- src/kvspace.c, the state that the operations on keys share, and the reading ones: `art_search`,
-- `gens_at`, `resolve_fetch`, `dir_ext_path`, `kvspaceShmGet`, `ref_leaf`, `kvspaceShmResolveRef`,
-- `kvspaceShmGetByRef` and `kvspaceShmXvalueBodyView`. A pointer to a value is its offset in the
-- data. An operation that calls `kv_sync` returns its result with the store that it leaves.
pub mod State
pub mod Reading
pub mod Refs
pub mod GensLaws
pub mod SearchLaws
pub mod Hops
pub mod Part
pub mod PartLaws
pub mod Tests
pub use State.{
  Gens, Store, Ref, view_guard, id_of, has, capacity, put_gens, list_gen_bump, ro_bound,
}
unfoldable pub use State.{sync, search, value_of, gens_at, bump_struct, bump_value}
unfoldable pub use State.{read_value, read_value_ro}
pub use Reading.{Fetch, key_limit}
unfoldable pub use Reading.{resolve_fetch, resolve_path, dir_ext_path, get_local, get}
unfoldable pub use Reading.{value_at_key, ext_value}
unfoldable pub use Refs.{ref_leaf, resolve_ref, get_by_ref, body_view, is_ptr_key}
pub use Part.{written, written_under}
unfoldable pub use Part.{set_part, set_part_by_ref, write_in_place}
