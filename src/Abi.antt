-- ===== src/Abi.antt =====
-- src/durable_abi.c, the functions that the library exports, over those of src/kvspace.c. A pointer is
-- an offset in the data, and `none` a null pointer; of an error message only its kind is kept. The
-- constructors of values are those of `kvspace/xvalue_head.h`, another repository's, and parameters.
pub mod Values
pub mod Reading
pub mod Numbers
mod Tests
use kvspace_c.Prelude.{
  ℕ, zero, suc, ◌+◌, ◌-◌, ◌*◌, ◌^◌, Bool, true, false, ◌&&◌, ◌||◌, Option, none, some, List, [],
  ◌∷◌, ltb, leb, ◌==◌, if◌then◌else◌, length, codes, Bytes, bytes_eq, min,
}
use kvspace_c.Allocator.{Allocator}
use kvspace_c.Art.Tree.{Heap}
use kvspace_c.Keys.{slash}
use kvspace_c.Regions.{Os}
use kvspace_c.Ring.{Viewer}
use kvspace_c.Values.{Wire, head_len, int32_max, reference_of, is_inline, bytes_at}
use kvspace_c.Store.{Store, Ref, get, get_by_ref, set_part, set_part_by_ref, write_in_place}
use kvspace_c.Delete.{del, deltree}

-- What an error message says: that the value is not valid, that the arguments are not, or that the
-- operation failed.
pub data Failure : Type 0 where
  invalid_value invalid_arguments failed : Failure

-- `none` stands for the return value 0.
abbrev pub Status : Type 0
Status = Option Failure

abbrev pub status_of : Bool → Status
status_of true = none
status_of false = some failed

-- The results of `kvspaceShmSetValue` and `kvspaceShmSetValueByRef`: 0, -1 and -2.
pub data SetCode : Type 0 where
  stored refused invalid : SetCode

abbrev pub set_status : SetCode → Status
set_status stored = none
set_status refused = some failed
set_status invalid = some invalid_value

-- The value of a read, with an empty one as none.
abbrev pub nonempty : Option (ℕ × ℕ) → Option (ℕ × ℕ)
nonempty none = none
nonempty (some (off, len)) = if ltb 0 len then some (off, len) else none

-- The part of a value from `offset` on, at most `len` bytes.
abbrev pub part_of : ℕ → ℕ → Option (ℕ × ℕ) → Option (ℕ × ℕ)
part_of offset len none = none
part_of offset len (some (off, total)) =
    if total == 0 || leb total offset
    then none
    else some (off + offset, if ltb len (total - offset) then len else total - offset)

module _ (os : Os) (w : Wire) {A : Allocator} (st : Store A) where
  -- `kvspaceGet`
  unfoldable pub abi_get : Bytes → Bool → Option (ℕ × ℕ) × Store A
  unfolding get
  abi_get key resolve = let (v, st') = get os w st key resolve in (nonempty v, st')

  -- `kvspaceGetByRef`
  unfoldable pub abi_get_by_ref : Ref → Option Bytes → Option (ℕ × ℕ) × Ref × Store A
  unfolding get_by_ref
  abi_get_by_ref ref key =
      let (v, ref', st') = get_by_ref os w st ref key in (nonempty v, ref', st')

  -- `kvspaceGetPart`
  unfoldable pub abi_get_part : Bytes → ℕ → ℕ → Option (ℕ × ℕ) × Store A
  unfolding get
  abi_get_part key offset len = let (v, st') = get os w st key true in (part_of offset len v, st')

  -- `kvspaceSetPart`, `kvspaceSetPartByRef` and `kvspaceWriteInPlace`
  unfoldable pub abi_set_part : Bytes → ℕ → Bytes → Status × Store A
  unfolding set_part
  abi_set_part key offset buf =
      let (ok, st') = set_part os w st key offset buf in (status_of ok, st')

  unfoldable pub abi_set_part_by_ref : Ref → Option Bytes → ℕ → Bytes → Status × Ref × Store A
  unfolding set_part_by_ref
  abi_set_part_by_ref ref key offset buf =
      let (ok, ref', st') = set_part_by_ref os w st ref key offset buf in (status_of ok, ref', st')

  unfoldable pub abi_write_in_place : Bytes → Bool → ℕ → (Status × Option ℕ) × Store A
  unfolding write_in_place
  abi_write_in_place key resolve len =
      let (body, st') = write_in_place os w st key resolve len in
      ((elim body [ none ↦ some failed | some b ↦ none ], body), st')

  -- `kvspaceSetValue` and `kvspaceSetValueByRef`, over the function that stores the value.
  unfoldable pub abi_set_value : (Bytes → SetCode × Store A) → Bytes → Status × Store A
  abi_set_value set value =
      let (code, st') = set value in
      if ltb int32_max (length value) then (some invalid_value, st) else (set_status code, st')

-- The loop of `kvspaceDel` over the keys, some of which may be null pointers; what
-- `kvspaceShmDel` returns does not matter.
unfoldable pub abi_del_keys :
    Os → Viewer → {A : Allocator} → Store A → List (Option Bytes) → Status × Store A
unfolding del
abi_del_keys os v st [] = (none, st)
abi_del_keys os v st (none ∷ ks) = (some invalid_arguments, st)
abi_del_keys os v st (some k ∷ ks) = abi_del_keys os v (del os v st k).1 ks

-- `kvspaceDel`, of a handle that is not null; `none` for a null array.
unfoldable pub abi_del :
    Os → Viewer → {A : Allocator} → Store A → ℕ → Option (List (Option Bytes)) → Status × Store A
unfolding abi_del_keys
abi_del os v st nkeys none = if ltb 0 nkeys then (some invalid_arguments, st) else (none, st)
abi_del os v st nkeys (some keys) = abi_del_keys os v st keys

module _ (os : Os) (w : Wire) (v : Viewer) {A : Allocator} (st : Store A) where
  -- `kvspaceDelTree` and `kvspaceClear`
  unfoldable pub abi_deltree : Bytes → Status × Store A
  unfolding deltree
  abi_deltree prefix = let (ok, st') = deltree os w v st prefix in (status_of ok, st')

  unfoldable pub abi_clear : Status × Store A
  unfolding deltree
  abi_clear = let (ok, st') = deltree os w v st slash in (status_of ok, st')
