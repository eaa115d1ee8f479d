-- ===== src/Listing.antt =====
-- src/kvspace.c, listing: `child_cmp`, `same_child`, `list_target`, `list_scan`, `kvspaceShmList`, and
-- the cache of a handle behind `kvspaceShmListLen` and `kvspaceShmListAt`. The C library's `qsort` is
-- a parameter.
pub mod Dedupe
pub mod CacheLaws
mod Tests
use kvspace_c.Prelude.{
  ℕ, zero, suc, ◌+◌, ◌-◌, Bool, true, false, not, ◌&&◌, ◌||◌, Option, none, some, List, [], ◌∷◌,
  ◌++◌, ltb, leb, ◌==◌, if◌then◌else◌, length, take, get_elem?, codes, Bytes, bytes_eq, contains,
  strcmp, Ordering,
}
use kvspace_c.Allocator.{Allocator}
use kvspace_c.Art.Children.{scan_pfx}
use kvspace_c.Coord.{coord_cmp}
use kvspace_c.Keys.{slash, two_dots, last_byte, edir, bad_dir_prefix, reserved_meta_path}
use kvspace_c.Regions.{Os}
use kvspace_c.Values.{Wire}
use kvspace_c.Store.{Store, sync, resolve_path, dir_ext_path, key_limit}

-- A name without the `/` at its end.
abbrev pub bare : Bytes → Bytes
bare s = if last_byte s == b'/' then take (length s - 1) s else s

-- `child_cmp`
unfoldable pub child_cmp : Bytes → Bytes → Option Ordering
unfolding strcmp
child_cmp x y = elim (coord_cmp (bare x) (bare y)) [
  | none ↦ none
  | some Ordering.lt ↦ some Ordering.lt
  | some Ordering.eq ↦ some (strcmp x y)
  | some Ordering.gt ↦ some Ordering.gt
]

-- `same_child`
abbrev pub same_child : Bytes → Bytes → Bool
same_child a b = bytes_eq (bare a) (bare b)

-- What a listing leaves out: the metadata at the root, and names that hold U+2025.
unfoldable pub hidden : Bytes → Bytes → Bool
unfolding bytes_eq contains
hidden pfx name =
    (bytes_eq pfx slash && bytes_eq name (codes ".kvspace-meta")) || contains two_dots name

-- The loop of `list_scan` over the sorted names, with the last name that was kept. Of two names for
-- one child the one with a `/` at its end is kept.
unfoldable pub dedupe : Bytes → Option Bytes → List Bytes → List Bytes
unfolding hidden
dedupe pfx none [] = []
dedupe pfx (some l) [] = l ∷ []
dedupe pfx prev (k ∷ ks) =
    let next = λ (p : Option Bytes). dedupe pfx p ks in
    if hidden pfx k then next prev else elim prev [
      | none ↦ next (some k)
      | some l ↦
          if same_child l k
          then (if last_byte k == b'/' then next (some k) else next (some l))
          else l ∷ next (some k)
    ]

-- `qsort` with `child_cmp`.
pub record Scanner : Type 0 where
  pub sort : List Bytes → List Bytes

-- The names below a prefix; an empty tree has none.
unfoldable pub names_below : {A : Allocator} → Store A → Bytes → Option (List Bytes)
unfolding scan_pfx
names_below st pfx = elim st.root [ none ↦ some [] | some root ↦ scan_pfx st.slab (some root) pfx ]

-- The names below the mounted extension, if there is one.
unfoldable pub names_of_ext : {A : Allocator} → Store A → Bytes → Option (List Bytes)
unfolding scan_pfx
names_of_ext st [] = some []
names_of_ext st (e ∷ ext) = scan_pfx st.slab st.root (e ∷ ext)

-- `list_scan`
unfoldable pub list_scan : Scanner → {A : Allocator} → Store A → Bytes → Bytes → Option (List Bytes)
unfolding dedupe names_below names_of_ext
list_scan c st pfx ext = elim (names_below st pfx) [
  | none ↦ none
  | some a ↦ elim (names_of_ext st ext) [
    | none ↦ none
    | some b ↦ some (dedupe pfx none (c.sort (a ++ b)))
  ]
]

-- The results of `list_target`: the directory and the mounted extension, `[]` for none; a reserved
-- path; an error.
pub data Target : Type 0 where
  scan : Bytes → Bytes → Target
  reserved failed : Target

abbrev pub target_limit : ℕ
target_limit = 4096

abbrev pub mounted : Option Bytes → Bytes
mounted none = []
mounted (some e) = e

module _ (w : Wire) {A : Allocator} (st : Store A) where
  -- The end of `list_target`.
  unfoldable pub target_of : Bool → Bytes → Target
  target_of ex target =
      if reserved_meta_path target
      then reserved
      else scan target (if ex then mounted (dir_ext_path w st (edir target)) else [])

  -- `list_target` behind `kv_sync`.
  unfoldable pub target_local : Bytes → Bool → Bool → Target
  unfolding target_of
  target_local prefix ex resolve =
      if bad_dir_prefix prefix
      then failed
      else if resolve
      then (if leb key_limit (length prefix)
          then failed
          else target_of ex (resolve_path w st prefix))
      else if leb target_limit (length prefix)
      then failed
      else target_of ex prefix

-- `list_target`
unfoldable pub list_target :
    Os → Wire → {A : Allocator} → Store A → Bytes → Bool → Bool → Target × Store A
unfolding target_local sync
list_target os w st prefix ex resolve =
    let (ok, st') = sync os st in
    if reserved_meta_path prefix
    then (reserved, st)
    else if ok
    then (target_local w st' prefix ex resolve, st')
    else (failed, st')

-- The names for a target, or `none` for -1.
abbrev pub listed : Scanner → {A : Allocator} → Store A → Target → Option (List Bytes)
listed c st (scan target ext) = list_scan c st target ext
listed c st reserved = some []
listed c st failed = none

-- `kvspaceShmList`
unfoldable pub list :
    Scanner
    → Os
    → Wire
    → {A : Allocator} → Store A
    → Bytes
    → Bool
    → Bool
    → Option (List Bytes) × Store A
unfolding list_scan list_target
list c os w st prefix ex resolve =
    let (t, st') = list_target os w st prefix ex resolve in (listed c st' t, st')

-- The cache of a handle, `lc_*`; a handle with no listing has none.
pub record Cache : Type 0 where
  pub prefix : Bytes
  pub target : Bytes
  pub ext : Bytes
  pub names : List Bytes
  pub ex : Bool
  pub res : Bool
  pub gen : ℕ

abbrev pub same_flag : Bool → Bool → Bool
same_flag true b = b
same_flag false b = not b

-- The test for a hit.
unfoldable pub hit : Cache → ℕ → Bytes → Bool → Bool → Bytes → Bytes → Bool
unfolding bytes_eq
hit lc g prefix ex resolve target ext =
    lc.gen == g
    && same_flag lc.ex ex
    && same_flag lc.res resolve
    && bytes_eq lc.prefix prefix
    && bytes_eq lc.target target
    && bytes_eq lc.ext ext

abbrev pub hits : Option Cache → ℕ → Bytes → Bool → Bool → Bytes → Bytes → Bool
hits none g prefix ex resolve target ext = false
hits (some lc) g prefix ex resolve target ext = hit lc g prefix ex resolve target ext

abbrev pub cached_names : Option Cache → List Bytes
cached_names none = []
cached_names (some lc) = lc.names

-- The end of `list_cached` on a miss: the new cache, and whether the scan succeeded.
unfoldable pub filled :
    ℕ → Bytes → Bool → Bool → Bytes → Bytes → Option (List Bytes) → Bool × Option Cache
filled g prefix ex resolve target ext none = (false, none)
filled g prefix ex resolve target ext (some names) = (
  true,
  some (record {
    prefix = prefix;
    target = target;
    ext = ext;
    names = names;
    ex = ex;
    res = resolve;
    gen = g;
  }),
)

-- `list_cached` for a target, at the generation `g` of the key set.
unfoldable pub cached_target :
    Scanner
    → {A : Allocator} → Store A
    → Option Cache
    → ℕ
    → Bytes
    → Bool
    → Bool
    → Target
    → Bool × Option Cache
unfolding list_scan filled hit
cached_target c st lc g prefix ex resolve failed = (false, lc)
cached_target c st lc g prefix ex resolve reserved = (true, none)
cached_target c st lc g prefix ex resolve (scan target ext) =
    if hits lc g prefix ex resolve target ext
    then (true, lc)
    else filled g prefix ex resolve target ext (list_scan c st target ext)

-- `list_cached`: whether it returns 0, the cache, and the store.
unfoldable pub list_cached :
    Scanner
    → Os
    → Wire
    → {A : Allocator} → Store A
    → Option Cache
    → Bytes
    → Bool
    → Bool
    → Bool × Option Cache × Store A
unfolding cached_target list_target
list_cached c os w st lc prefix ex resolve =
    let (t, st') = list_target os w st prefix ex resolve in
    let (ok, lc') = cached_target c st' lc st.list_gen prefix ex resolve t in (ok, lc', st')

-- `kvspaceShmListLen`: whether it returns 0, and the count that it stores, 0 for a failure.
unfoldable pub list_len :
    Scanner
    → Os
    → Wire
    → {A : Allocator} → Store A
    → Option Cache
    → Bytes
    → Bool
    → Bool
    → (Bool × ℕ) × Option Cache × Store A
unfolding list_cached
list_len c os w st lc prefix ex resolve =
    let (ok, lc', st') = list_cached c os w st lc prefix ex resolve in
    ((ok, if ok then length (cached_names lc') else 0), lc', st')

-- What `kvspaceShmListAt` gives of a name, for a buffer of `cap` bytes or none: whether it returns 0,
-- the bytes that it copies, and the length that it stores.
abbrev pub copied : Option ℕ → Option Bytes → Bool × Bytes × ℕ
copied cap none = (false, [], 0)
copied none (some name) = (false, [], length name)
copied (some cap) (some name) =
    if leb (length name) cap then (true, name, length name) else (false, [], length name)

-- `kvspaceShmListAt`, for an index that is not negative.
unfoldable pub list_at :
    Scanner
    → Os
    → Wire
    → {A : Allocator} → Store A
    → Option Cache
    → Bytes
    → Bool
    → Bool
    → ℕ
    → Option ℕ
    → (Bool × Bytes × ℕ) × Option Cache × Store A
unfolding list_cached
list_at c os w st lc prefix ex resolve idx cap =
    let (ok, lc', st') = list_cached c os w st lc prefix ex resolve in
    (if ok then copied cap (get_elem? (cached_names lc') idx) else (false, [], 0), lc', st')
