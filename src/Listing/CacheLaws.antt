-- ===== src/Listing/CacheLaws.antt =====
-- src/kvspace.c, `list_cached`: a listing out of the cache is what a fresh one would be.
use kvspace_c.Prelude.{
  ℕ, ◌+◌, ◌%◌, ◌≤◌, ◌<◌, ◌≡◌, refl, sym, ap₂, ◌∙◌, Bool, true, false, ◌&&◌, Option, none, some,
  List, [], ◌∷◌, length, get_elem?, ◌==◌, if◌then◌else◌, arith, Bytes, bytes_eq_sound, bytes_eq,
  Bool-cases, inl, inr, and→both, ==_iff,
}
use kvspace_c.Allocator.{Allocator}
use kvspace_c.Keys.{reserved_meta_path}
use kvspace_c.Regions.{Os, Regions}
use kvspace_c.Values.{Wire}
use kvspace_c.Store.{Store, sync}
use kvspace_c.Ring.{Viewer, u64}
use kvspace_c.View.{Token, view_del}
use kvspace_c.View.Deleting.{view_del-kept, view_del-ViewDeleted, view_del-cases}
use kvspace_c.Listing.{
  Scanner, list_scan, names_below, names_of_ext, Target, scan, reserved, failed, list_target,
  listed, list, Cache, hit, cached_names, filled, cached_target, list_cached, list_len, same_flag,
  list_at, copied,
}

-- A cache whose generation is that of the key set holds what a scan of its target finds.
abbrev pub CacheValid : Scanner → {A : Allocator} → Store A → Option Cache → Type 0
CacheValid c st none = Unit
CacheValid c st (some lc) = lc.gen ≡ st.list_gen → list_scan c st lc.target lc.ext ≡ some lc.names

-- A hit is at the generation of the cache, for its target and extension.
hit-inv :
    (lc : Cache) (g : ℕ) (prefix : Bytes) (ex resolve : Bool) (target ext : Bytes)
    → hit lc g prefix ex resolve target ext ≡ true
    → (lc.gen ≡ g) × (lc.target ≡ target) × (lc.ext ≡ ext)
unfolding hit
hit-inv lc g prefix ex resolve target ext h =
    let a = lc.gen == g in
    let b = same_flag lc.ex ex in
    let d = same_flag lc.res resolve in
    let e = bytes_eq lc.prefix prefix in
    let f = bytes_eq lc.target target in
    let (h4, x) = and→both (a && b && d && e && f) (bytes_eq lc.ext ext) h in
    let (h3, t) = and→both (a && b && d && e) f h4 in
    let (h2, _) = and→both (a && b && d) e h3 in
    let (h1, _) = and→both (a && b) d h2 in
    let (gen, _) = and→both a b h1 in
    ((==_iff lc.gen g).0 gen, bytes_eq_sound lc.target target t, bytes_eq_sound lc.ext ext x)

-- What a listing answers out of a cache.
abbrev pub answer : Bool × Option Cache → Option (List Bytes)
answer (ok, lc) = if ok then some (cached_names lc) else none

-- The cache is not of a later generation than the key set.
abbrev pub CacheEarlier : {A : Allocator} → Store A → Option Cache → Type 0
CacheEarlier st none = Unit
CacheEarlier st (some lc) = lc.gen ≤ st.list_gen

module _ (c : Scanner) {A : Allocator} where
  -- `kv_sync` touches neither tree nor generation, and a scan reads nothing else.
  list_target-rest :
      (os : Os) (w : Wire) (st : Store A) (prefix : Bytes) (ex resolve : Bool)
      → (r : Regions) × ((list_target os w st prefix ex resolve).1 ≡ record st { regions = r })
  unfolding list_target sync
  list_target-rest os w st prefix ex resolve = elim (Bool-cases (reserved_meta_path prefix)) [
    | inl e ↦ (st.regions, rw (list_target, e) refl)
    | inr e ↦ elim (Bool-cases (sync os st).0) [
      | inl ok ↦ ((sync os st).1.regions, rw (list_target, e, ok) refl)
      | inr bad ↦ ((sync os st).1.regions, rw (list_target, e, bad) refl)
    ]
  ]

  list_scan-regions :
      (st : Store A) (r : Regions) (target ext : Bytes)
      → list_scan c (record st { regions = r }) target ext ≡ list_scan c st target ext
  unfolding list_scan names_below names_of_ext
  list_scan-regions st r target [] = refl
  list_scan-regions st r target (e ∷ ext) = refl

  filled-lem :
      (st : Store A) (prefix : Bytes) (ex resolve : Bool) (target ext : Bytes)
      (o : Option (List Bytes))
      → list_scan c st target ext ≡ o
      → (answer (filled st.list_gen prefix ex resolve target ext o) ≡ o)
        × CacheValid c st (filled st.list_gen prefix ex resolve target ext o).1
  unfolding filled
  filled-lem st prefix ex resolve target ext none e = (refl, tt)
  filled-lem st prefix ex resolve target ext (some names) e = (refl, λ g. e)

  -- For every target the cached listing answers as a fresh scan, and leaves a valid cache.
  cached_target-listed :
      (st : Store A) (lc : Option Cache) (prefix : Bytes) (ex resolve : Bool) (t : Target)
      → CacheValid c st lc
      → (answer (cached_target c st lc st.list_gen prefix ex resolve t) ≡ listed c st t)
        × CacheValid c st (cached_target c st lc st.list_gen prefix ex resolve t).1
  unfolding cached_target
  cached_target-listed st lc prefix ex resolve failed v = (refl, v)
  cached_target-listed st lc prefix ex resolve reserved v = (refl, tt)
  cached_target-listed st none prefix ex resolve (scan target ext) v =
      filled-lem st prefix ex resolve target ext (list_scan c st target ext) refl
  cached_target-listed st (some lc) prefix ex resolve (scan target ext) v =
      elim (Bool-cases (hit lc st.list_gen prefix ex resolve target ext)) [
        | inl h ↦
            let (gen, same, same') = hit-inv lc st.list_gen prefix ex resolve target ext h in
            rw (cached_target, h) (sym (v gen) ∙ ap₂ (list_scan c st) same same', v)
        | inr h ↦
            rw (cached_target, h)
              (filled-lem st prefix ex resolve target ext (list_scan c st target ext) refl)
      ]

  CacheValid-regions :
      (st : Store A) (r : Regions) (lc : Option Cache)
      → CacheValid c st lc
      → CacheValid c (record st { regions = r }) lc
  CacheValid-regions st r none v = tt
  CacheValid-regions st r (some lc) v = λ e. list_scan-regions st r lc.target lc.ext ∙ v e

  -- A valid cache stays valid, and a listing through it answers what a listing without a cache does.
  pub list_cached-list :
      (os : Os) (w : Wire) (st : Store A) (lc : Option Cache) (prefix : Bytes) (ex resolve : Bool)
      → CacheValid c st lc
      → let (ok, lc', st') = list_cached c os w st lc prefix ex resolve in
        (answer (ok, lc') ≡ (list c os w st prefix ex resolve).0)
        × (st' ≡ (list c os w st prefix ex resolve).1)
        × CacheValid c st' lc'
  unfolding list_cached list
  list_cached-list os w st lc prefix ex resolve v =
      let (r, e) = list_target-rest os w st prefix ex resolve in
      let t = list_target os w st prefix ex resolve in
      let st' : Store A = record st { regions = r } in
      let (same, valid) =
        cached_target-listed st' lc prefix ex resolve t.0 (CacheValid-regions st r lc v) in
      rw e (same, refl, valid)

  -- With a valid cache `kvspaceShmListLen` and `kvspaceShmListAt` answer the length of the listing that
  -- `kvspaceShmList` makes, and its names: they fail where it fails.
  pub list_len-list :
      (os : Os) (w : Wire) (st : Store A) (lc : Option Cache) (prefix : Bytes) (ex resolve : Bool)
      (idx : ℕ) (room : Option ℕ)
      → CacheValid c st lc
      → let names = (list c os w st prefix ex resolve).0 in
        ((list_len c os w st lc prefix ex resolve).0
          ≡ elim names [ none ↦ (false, 0) | some ns ↦ (true, length ns) ])
        × ((list_at c os w st lc prefix ex resolve idx room).0
            ≡ elim names [ none ↦ (false, [], 0) | some ns ↦ copied room (get_elem? ns idx) ])
  unfolding list_len list_at
  list_len-list os w st lc prefix ex resolve idx room v =
      let (e, _, _) = list_cached-list os w st lc prefix ex resolve v in
      let r = list_cached c os w st lc prefix ex resolve in
      elim (Bool-cases r.0) [
        | inl ok ↦ rw (sym e, ok) (refl, refl)
        | inr bad ↦ rw (sym e, bad) (refl, refl)
      ]

  -- A valid cache that is not of a later generation than the key set stays valid when the tree changes
  -- in any way, once the generation is raised, and does not come to its end.
  bumped-CacheValid :
      (st st' : Store A) (lc : Option Cache)
      → CacheEarlier st lc
      → st'.list_gen ≡ (st.list_gen + 1) % u64
      → st.list_gen + 1 < u64
      → CacheValid c st' lc × CacheEarlier st' lc
  bumped-CacheValid st st' none early e small = (tt, tt)
  bumped-CacheValid st st' (some lc) early e small =
      (λ same. absurd (omega (arith, same, early, e, small)), omega (arith, early, e, small))

  -- Where the cache is valid and not of a later generation than the key set, which does not come to
  -- its end, a `kvspaceShmViewDel` leaves it valid and not of a later generation, whatever it answers.
  pub view_del-CacheValid :
      (v : Viewer) (st : Store A) (tok : Token) (lc : Option Cache)
      → CacheValid c st lc
      → CacheEarlier st lc
      → st.list_gen + 1 < u64
      → let st' = (view_del v st tok).1 in CacheValid c st' lc × CacheEarlier st' lc
  view_del-CacheValid v st tok lc valid early small = elim (view_del-cases v st tok) [
    | inl n ↦ rw (view_del-kept v st tok n) (valid, early)
    | inr (cur, (idx, r)) ↦
        let (_, d, _) = view_del-ViewDeleted v st tok cur r in
        bumped-CacheValid st (view_del v st tok).1 lc early d.keys small
  ]
