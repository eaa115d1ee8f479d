-- ===== src/Regions/Alloc.antt =====
-- src/kvspace.c, `kv_sbo_free`: which part of a retired box's storage goes back to the system.
use kvspace_c.Prelude.{ℕ, ◌+◌, ◌-◌, ◌*◌, ◌/◌, Option, none, some, ◌&&◌, ltb, leb, if◌then◌else◌}

-- The pages that `kv_sbo_free` gives back for a box at `off` with `sz` bytes, from the first byte to
-- the one behind the last, on pages of `pg` bytes; `none` where it calls no `fallocate`.
unfoldable pub punched : ℕ → ℕ → ℕ → ℕ → Option (ℕ × ℕ)
punched punch_min pg off sz =
    let first = (off + pg - 1) / pg * pg in
    let last = (off + sz) / pg * pg in
    if leb punch_min sz && ltb first last then some (first, last) else none
