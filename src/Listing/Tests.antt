-- ===== src/Listing/Tests.antt =====
-- src/kvspace.c, listings of a directory of a small store.
use kvspace_c.Prelude.{
  ◌≡◌, ◌↔◌, refl, false, Option, some, none, List, [], ◌∷◌, codes, arith, Bytes, bytes_eq, contains,
  starts_with,
}
use kvspace_c.Store.Tests.{small_wire, small_store, grants}
use kvspace_c.View.{view_del}
use kvspace_c.View.Tests.{token, viewer}
use kvspace_c.Art.Node.{child, assoc}
use kvspace_c.Art.Tree.{pfx_shared}
use kvspace_c.Art.Scan.{cover, keyscan_add, each, in_order}
use kvspace_c.Art.Children.{scan_pfx, scan_children, name_len, has_live, add_name, any_live}
use kvspace_c.Keys.{child_name_len}
use kvspace_c.Listing.{
  Scanner, names_below, names_of_ext, list_scan, dedupe, hidden, Cache, list, list_cached,
}
use kvspace_c.Listing.Dedupe.{Apart, Names, NamesVisible, dedupe-Listed}
use kvspace_c.Listing.CacheLaws.{
  CacheValid, CacheEarlier, answer, list_cached-list, view_del-CacheValid,
}

abbrev scanned : List Bytes
scanned = codes ".kvspace-meta" ∷ codes "a" ∷ codes "a/" ∷ codes "b" ∷ []

dedupe-Listed_example :
    Apart (dedupe (codes "/") none scanned)
    × ((b : Bytes) → Names b (dedupe (codes "/") none scanned) ↔ NamesVisible (codes "/") b scanned)
dedupe-Listed_example = dedupe-Listed (codes "/") scanned

kept : dedupe (codes "/") none scanned ≡ codes "a/" ∷ codes "b" ∷ []
unfolding dedupe hidden bytes_eq contains starts_with
kept = refl

abbrev scanner : Scanner
scanner = record { sort = λ ks. ks }

abbrev full_cache : Option Cache
full_cache = some (record {
  prefix = codes "/";
  target = codes "/";
  ext = [];
  names = codes "a" ∷ codes "b" ∷ [];
  ex = false;
  res = false;
  gen = 9;
})

full_cache-CacheValid : CacheValid scanner small_store full_cache
unfolding list_scan names_below names_of_ext scan_pfx cover scan_children name_len child_name_len
    keyscan_add each in_order pfx_shared child assoc has_live add_name any_live dedupe hidden
    bytes_eq contains starts_with
full_cache-CacheValid e = refl

list_cached-list_example :
    let (ok, lc', st') =
      list_cached scanner grants small_wire small_store full_cache (codes "/") false false in
    (answer (ok, lc') ≡ (list scanner grants small_wire small_store (codes "/") false false).0)
    × (st' ≡ (list scanner grants small_wire small_store (codes "/") false false).1)
    × CacheValid scanner st' lc'
list_cached-list_example =
    list_cached-list scanner grants small_wire small_store full_cache (codes "/") false false
      full_cache-CacheValid

view_del-CacheValid_example :
    let st' = (view_del viewer small_store token).1 in
    CacheValid scanner st' full_cache × CacheEarlier st' full_cache
view_del-CacheValid_example =
    view_del-CacheValid scanner viewer small_store token full_cache full_cache-CacheValid
      (omega arith) (omega arith)
