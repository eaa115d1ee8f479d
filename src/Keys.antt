-- ===== src/Keys.antt =====
-- src/kvspace.c and src/durable_abi.c, the functions on keys: paths whose separators are `/` and
-- the member dot U+00B7 (bytes 0xC2 0xB7), with runtime names that hold U+2025. A key is its bytes
-- without the final NUL.
pub mod Split
pub mod Subtree
pub mod Child
mod Tests
use kvspace_c.Prelude.{
  ℕ, zero, suc, ◌+◌, ◌-◌, ◌*◌, ◌%◌, ◌^◌, Bool, true, false, not, ◌&&◌, ◌||◌, Option, none, some,
  List, [], ◌∷◌, ◌++◌, ltb, leb, ◌==◌, if◌then◌else◌, length, get_or, take, drop, codes, Bytes,
  bytes_eq, starts_with, contains,
}

abbrev pub slash : Bytes
slash = b'/' ∷ []

abbrev pub dot : Bytes
dot = 0xC2 ∷ 0xB7 ∷ []

abbrev pub two_dots : Bytes
two_dots = 0xE2 ∷ 0x80 ∷ 0xA5 ∷ []

abbrev pub meta_root : Bytes
meta_root = codes "/.kvspace-meta"

abbrev pub end_or_slash : Bytes → Bool
end_or_slash [] = true
end_or_slash (c ∷ s) = c == b'/'

-- `reserved_meta_path`
unfoldable pub reserved_meta_path : Bytes → Bool
unfolding starts_with
reserved_meta_path key = starts_with meta_root key && end_or_slash (drop (length meta_root) key)

-- The last byte, 0 for the empty string.
abbrev pub last_byte : Bytes → ℕ
last_byte [] = 0
last_byte (c ∷ []) = c
last_byte (c ∷ d ∷ s) = last_byte (d ∷ s)

-- The last byte but one, 0 where there is none.
abbrev pub last_but_one : Bytes → ℕ
last_but_one [] = 0
last_but_one (c ∷ []) = 0
last_but_one (c ∷ d ∷ []) = c
last_but_one (c ∷ d ∷ e ∷ s) = last_but_one (d ∷ e ∷ s)

-- `pjoin`
unfoldable pub pjoin : Bytes → Bytes → Bytes
pjoin [] b = b
pjoin (c ∷ s) b = if last_byte (c ∷ s) == b'/' then (c ∷ s) ++ b else (c ∷ s) ++ b'/' ∷ b

-- What stands up to the last `/`, and behind it (`strrchr`).
unfoldable pub split_last : Bytes → Option (Bytes × Bytes)
split_last [] = none
split_last (c ∷ s) = elim (split_last s) [
  | some (p, n) ↦ some (c ∷ p, n)
  | none ↦ if c == b'/' then some (c ∷ [], s) else none
]

-- `psplit`: a key without `/` lies in the directory `/`.
unfoldable pub psplit : Bytes → Bytes × Bytes
unfolding split_last
psplit k = elim (split_last k) [ none ↦ (slash, k) | some (p, n) ↦ (p, n) ]

-- `bad_dir_prefix`, of a prefix that is not null.
unfoldable pub bad_dir_prefix : Bytes → Bool
unfolding bytes_eq
bad_dir_prefix [] = true
bad_dir_prefix (c ∷ s) =
    if bytes_eq (c ∷ s) slash
    then false
    else if last_byte (c ∷ s) == b'/'
    then false
    else not (last_but_one (c ∷ s) == 0xC2 && last_byte (c ∷ s) == 0xB7)

-- `edir` and `memdir`
unfoldable pub edir : Bytes → Bytes
edir p = if last_byte p == b'/' then p else p ++ slash

unfoldable pub memdir : Bytes → Bytes
memdir p = p ++ dot

-- What may follow a key for the rest to belong to its subtree.
unfoldable pub boundary : Bytes → Bool
boundary [] = true
boundary (c ∷ s) = (c == b'/') || starts_with dot (c ∷ s) || starts_with two_dots (c ∷ s)

-- `subtree_key`
unfoldable pub subtree_key : Bytes → Bytes → Bool
unfolding boundary starts_with
subtree_key [] [] = false
subtree_key [] (k ∷ key) = k == b'/'
subtree_key (b ∷ base) key = starts_with (b ∷ base) key && boundary (drop (length (b ∷ base)) key)

-- How `kvspaceShmDeltree` finds the base of a prefix: one final `/` or member dot is taken off.
unfoldable pub deltree_base : Bytes → Bytes
unfolding bytes_eq
deltree_base prefix =
    let l = length prefix in
    if bytes_eq prefix slash
    then []
    else if last_byte prefix == b'/'
    then take (l - 1) prefix
    else if leb 2 l && last_but_one prefix == 0xC2 && last_byte prefix == 0xB7
    then take (l - 2) prefix
    else prefix

-- The two indices of `last_key_sep`, each plus one, so that 0 is the source's -1.
pub sep_scan : ℕ → ℕ → ℕ → Bytes → ℕ × ℕ
sep_scan i sl mid [] = (sl, mid)
sep_scan i sl mid (c ∷ s) =
    sep_scan (i + 1) (if c == b'/' then i + 1 else sl)
      (if starts_with dot (c ∷ s) then i + 1 else mid) s

-- `last_key_sep`: where the last separator stands, and its length; `none` for -1 and length 0.
pub last_key_sep : Bytes → Option (ℕ × ℕ)
unfolding sep_scan
last_key_sep key =
    let (sl, mid) = sep_scan 0 0 0 key in
    if ltb sl mid then some (mid - 1, 2) else if ltb 1 sl then some (sl - 1, 1) else none

-- `child_name_len`: how far the first component goes.
unfoldable pub child_name_len : Bytes → ℕ
unfolding starts_with
child_name_len [] = 0
child_name_len (c ∷ s) =
    let rest = child_name_len s in if c == b'/' || starts_with dot (c ∷ s) then 0 else suc rest

abbrev pub status_prefix : Bytes
status_prefix = codes "/vthread/"

abbrev pub status_suffix : Bytes
status_suffix = slash ++ (two_dots ++ codes "status")

-- `is_vthread_status_key`
unfoldable pub is_vthread_status_key : Bytes → Bool
unfolding starts_with bytes_eq
is_vthread_status_key key =
    let n = length key in
    let sl = length status_suffix in
    ltb sl n && starts_with status_prefix key && bytes_eq (drop (n - sl) key) status_suffix

-- `is_char_langtype`: the bytes from the first `]` on, if the type begins with a shape.
unfoldable pub after_shape : Bytes → Option Bytes
after_shape [] = none
after_shape (c ∷ s) = let rest = after_shape s in if c == b']' then some s else rest

unfoldable pub is_char_langtype : Bytes → Bool
unfolding after_shape starts_with
is_char_langtype [] = false
is_char_langtype (c ∷ s) =
    if c == b'['
    then elim (after_shape (c ∷ s)) [ none ↦ false | some t ↦ starts_with (codes "char/") t ]
    else starts_with (codes "char/") (c ∷ s)

-- `parse_shm_path` of durable_abi.c: what stands before and behind the first `://`.
unfoldable pub split_scheme : Bytes → Option (Bytes × Bytes)
unfolding starts_with
split_scheme [] = none
split_scheme (c ∷ s) =
    let rest = split_scheme s in
    if starts_with (codes "://") (c ∷ s)
    then some ([], drop 3 (c ∷ s))
    else elim rest [ none ↦ none | some (a, b) ↦ some (c ∷ a, b) ]

unfoldable pub parse_shm_path : Bytes → ℕ → Option Bytes
unfolding split_scheme bytes_eq
parse_shm_path dsn osz = elim (split_scheme dsn) [
  | none ↦ none
  | some (scheme, path) ↦
      if bytes_eq scheme (codes "shm") && ltb 0 (length path) && ltb (length path) osz
      then some path
      else none
]
