-- ===== src/Store/Reading.antt =====
-- src/kvspace.c, `resolve_fetch`, `dir_ext_path` and `kvspaceShmGet`.
use kvspace_c.Prelude.{
  ℕ, zero, suc, ◌+◌, ◌-◌, Bool, ◌&&◌, Option, none, some, [], ◌∷◌, ltb, leb, ◌==◌, if◌then◌else◌,
  length, take, Bytes,
}
use kvspace_c.Allocator.{Allocator}
use kvspace_c.Keys.{reserved_meta_path, psplit, pjoin}
use kvspace_c.Regions.{Os}
use kvspace_c.Values.{Wire, head_len, reference_of, is_ptr, is_ext, head_of, capped, bytes_at}
use kvspace_c.Store.State.{Store, sync, search, value_of, ro_bound, read_value_ro}

-- What `resolve_fetch` finds: the node or `none` for a null pointer, the key it came to, and the
-- value with its length, where it has read it.
pub record Fetch : Type 0 where
  pub node : Option ℕ
  pub out : Bytes
  pub fetched : Option (ℕ × ℕ)

-- The size of the buffers for keys.
abbrev pub key_limit : ℕ
key_limit = 1024

-- A string as C reads it: up to the first 0.
abbrev pub c_string : Bytes → Bytes
c_string [] = []
c_string (c ∷ s) = if c == 0 then [] else c ∷ c_string s

module _ (w : Wire) {A : Allocator} (st : Store A) where
  -- The value at `off` of the node `id`, as `resolve_fetch` returns it.
  abbrev pub fetched_value : ℕ → Bytes → ℕ → Option ℕ → Fetch
  fetched_value id out off none = record { node = none; out = out; fetched = none }
  fetched_value id out off (some rl) = record {
    node = some id;
    out = out;
    fetched = some (off, rl);
  }

  -- Whether the value at `off`, with this head, is a pointer that can be followed.
  abbrev pub followed : ℕ → Bytes → Bool
  followed off head =
      is_ptr (reference_of w (bytes_at st.bytes off (ro_bound st off)))
      && ltb (w.body_len head) key_limit

  -- The loop of `resolve_fetch`, with a unit of fuel for each hop.
  unfoldable pub resolve_loop : ℕ → Bytes → Fetch
  resolve_loop zero out = record { node = none; out = out; fetched = none }
  resolve_loop (suc n) out =
      let again = λ (o : Bytes). resolve_loop n o in
      elim (search st out) [
        | none ↦ record { node = none; out = out; fetched = none }
        | some id ↦ elim (value_of st id) [
          | none ↦ record { node = some id; out = out; fetched = none }
          | some off ↦ elim (head_of w (bytes_at st.bytes off (capped (ro_bound st off)))) [
            | none ↦ record { node = none; out = out; fetched = none }
            | some head ↦
                if followed off head
                then again (c_string (bytes_at st.bytes (off + head_len) (w.body_len head)))
                else fetched_value id out off (read_value_ro w st off)
          ]
        ]
      ]

  -- `resolve_fetch` with a buffer of 1024 bytes: at most 16 hops.
  unfoldable pub resolve_fetch : Bytes → Fetch
  unfolding resolve_loop
  resolve_fetch path = resolve_loop 16 (take (key_limit - 1) path)

  -- `resolve_path`
  unfoldable pub resolve_path : Bytes → Bytes
  unfolding resolve_fetch
  resolve_path path = (resolve_fetch path).out

  -- The locator in an extension handle of `rl` bytes at `off`.
  unfoldable pub locator : ℕ → ℕ → Option Bytes
  locator off rl = elim (head_of w (bytes_at st.bytes off rl)) [
    | none ↦ none
    | some head ↦
        let l = w.body_len head in
        if is_ext (reference_of w (bytes_at st.bytes off rl)) && ltb 0 l && ltb l key_limit
        then some (c_string (bytes_at st.bytes (off + head_len) l))
        else none
  ]

  unfoldable pub locator_at : ℕ → Option Bytes
  unfolding locator
  locator_at off = elim (read_value_ro w st off) [ none ↦ none | some rl ↦ locator off rl ]

  -- `dir_ext_path` with a buffer of 1024 bytes.
  unfoldable pub dir_ext_path : Bytes → Option Bytes
  unfolding locator_at
  dir_ext_path dir = elim (search st dir) [
    | none ↦ none
    | some id ↦ elim (value_of st id) [ none ↦ none | some off ↦ locator_at off ]
  ]

  -- The value that the tree has for a key, as `read_value_ro` reads it.
  unfoldable pub value_at_key : Bytes → Option (ℕ × ℕ)
  value_at_key key = elim (search st key) [
    | none ↦ none
    | some id ↦ elim (value_of st id) [
      | none ↦ none
      | some off ↦ elim (read_value_ro w st off) [ none ↦ none | some rl ↦ some (off, rl) ]
    ]
  ]

  -- The value that the extension mounted on the directory of a key has for it.
  unfoldable pub ext_value : Bytes → Option (ℕ × ℕ)
  unfolding value_at_key
  ext_value key =
      let (parent, name) = psplit key in
      elim (dir_ext_path parent) [ none ↦ none | some ext ↦ value_at_key (pjoin ext name) ]

  -- The end of `kvspaceShmGet`, for what was found at `key`.
  unfoldable pub finish_get : Fetch → Option (ℕ × ℕ)
  unfolding ext_value
  finish_get f = elim f.node [
    | none ↦ ext_value f.out
    | some id ↦ elim (value_of st id) [
      | none ↦ ext_value f.out
      | some off ↦ elim f.fetched [
        | some v ↦ some v
        | none ↦ elim (read_value_ro w st off) [ none ↦ none | some rl ↦ some (off, rl) ]
      ]
    ]
  ]

  abbrev pub plain_fetch : Bytes → Fetch
  plain_fetch key = record { node = search st key; out = key; fetched = none }

  -- `kvspaceShmGet` behind `kv_sync`.
  unfoldable pub get_local : Bytes → Bool → Option (ℕ × ℕ)
  unfolding finish_get resolve_fetch
  get_local key resolve =
      if leb key_limit (length key)
      then none
      else finish_get (if resolve then resolve_fetch key else plain_fetch key)

-- `kvspaceShmGet`: the offset and the length of the value, or `none` for a null pointer.
unfoldable pub get : Os → Wire → {A : Allocator} → Store A → Bytes → Bool → Option (ℕ × ℕ) × Store A
unfolding get_local sync
get os w st key resolve =
    let (ok, st') = sync os st in
    if reserved_meta_path key
    then (none, st)
    else if ok
    then (get_local w st' key resolve, st')
    else (none, st')
