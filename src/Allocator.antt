-- ===== src/Allocator.antt =====
-- The box allocator (slotsboxmalloc) that src/kvspace.c calls. Its source is another repository's:
-- here it is a set of operations on a state of its own, `Boxes`, and each theorem names what it
-- assumes of them.
use kvspace_c.Prelude.{ℕ, Option}

-- `sbo_allocated_size`, `sbo_free` and `sbo_alloc`, with `none` for the offset -1.
pub record Allocator : Type 1 where
  pub Boxes : Type 0
  pub allocated_size : Boxes → ℕ → ℕ
  pub free_box : Boxes → ℕ → Boxes
  pub alloc_box : Boxes → ℕ → Option ℕ × Boxes
