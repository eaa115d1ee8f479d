-- ===== src/Abi/Reading.antt =====
-- src/durable_abi.c, `kvspaceGetPart`, `kvspaceDel` and `kvspaceWatch`: bounds, errors and the end of
-- the wait.
use kvspace_c.Prelude.{
  ℕ, ◌+◌, ◌-◌, ◌≤◌, ◌<◌, ◌≡◌, ◌⊎◌, refl, sym, true, false, Option, none, some, List, [], ◌∷◌, ◌++◌,
  map, leb, arith, Bytes, min, Bool-cases, Option-cases, inl, inr,
}
use mathlib.Core.Path.{subst}
use kvspace_c.Allocator.{Allocator}
use kvspace_c.Regions.{Os}
use kvspace_c.Ring.{Viewer}
use kvspace_c.Values.{Wire}
use kvspace_c.Store.{Store, get}
use kvspace_c.Delete.{del}
use kvspace_c.Abi.{invalid_arguments, part_of, abi_get_part, abi_del_keys}
use kvspace_c.Abi.Values.{Watched, timed_out, arrived, awaited, watch, Reading}

-- What a read of a part gives, of a value at `off` with `total` bytes.
part_of-Within :
    (offset len off total : ℕ) {o n : ℕ}
    → part_of offset len (some (off, total)) ≡ some (o, n)
    → (o ≡ off + offset) × (n ≡ min len (total - offset)) × (o + n ≤ off + total) × (offset < total)
part_of-Within offset len off total {o} {n} h = ground arith

module _ (os : Os) (w : Wire) {A : Allocator} (st : Store A) where
  -- The part that `kvspaceGetPart` returns lies in the value that the read of the key finds, at the
  -- offset, and has the length that was asked for, or what the value has behind the offset.
  pub abi_get_part-Within :
      (key : Bytes) (offset len : ℕ) {o n : ℕ}
      → (abi_get_part os w st key offset len).0 ≡ some (o, n)
      → (off total : ℕ) × ((get os w st key true).0 ≡ some (off, total))
        × (o ≡ off + offset)
        × (n ≡ min len (total - offset))
        × (o + n ≤ off + total)
  unfolding abi_get_part
  abi_get_part-Within key offset len h = elim (Option-cases (get os w st key true).0) [
    | inl e ↦ absurd (let q = rw e at h in cc q)
    | inr ((off, total), e) ↦
        let (a, b, c, d) = part_of-Within offset len off total (rw e at h) in
        (off, total, e, a, b, c)
  ]

-- A null pointer among the keys ends `kvspaceDel` with an error; the keys before it are deleted, and
-- those behind it are not.
pub abi_del_keys-null :
    (os : Os) (v : Viewer) {A : Allocator} (st : Store A) (ks : List Bytes)
    (rest : List (Option Bytes))
    → abi_del_keys os v st (map some ks ++ none ∷ rest)
      ≡ (some invalid_arguments, (abi_del_keys os v st (map some ks)).1)
unfolding abi_del_keys
abi_del_keys-null os v st [] rest = refl
abi_del_keys-null os v st (k ∷ ks) rest = abi_del_keys-null os v (del os v st k).1 ks rest

module _ (w : Wire) (target : Bytes) (tick : ℕ) where
  watch-arrives :
      (d : Bytes) (elapsed : ℕ) (rs : List Reading)
      → awaited w target d ≡ true
      → watch w target tick ((d, elapsed) ∷ rs) ≡ arrived d
  unfolding watch
  watch-arrives d elapsed rs y = rw (watch, y) refl

  watch-stops :
      (d : Bytes) (elapsed : ℕ) (rs : List Reading)
      → awaited w target d ≡ false
      → leb tick elapsed ≡ true
      → watch w target tick ((d, elapsed) ∷ rs) ≡ timed_out
  unfolding watch
  watch-stops d elapsed rs n t = rw (watch, n, t) refl

  watch-goes_on :
      (d : Bytes) (elapsed : ℕ) (rs : List Reading)
      → awaited w target d ≡ false
      → leb tick elapsed ≡ false
      → watch w target tick ((d, elapsed) ∷ rs) ≡ watch w target tick rs
  unfolding watch
  watch-goes_on d elapsed rs n t = rw (watch, n, t) refl

  -- The result of a wait that is over.
  abbrev pub Over : Watched → Type 0
  Over r = (r ≡ timed_out) ⊎ ((d : Bytes) × (r ≡ arrived d) × (awaited w target d ≡ true))

  -- Once the time of a reading has come to the limit `kvspaceWatch` has returned: its time is over, or
  -- it returns a value that was waited for.
  pub watch-Over :
      (before : List Reading) (d : Bytes) (elapsed : ℕ) (rest : List Reading)
      → tick ≤ elapsed
      → Over (watch w target tick (before ++ (d, elapsed) ∷ rest))
  watch-Over [] d elapsed rest le = elim (Bool-cases (awaited w target d)) [
    | inl y ↦ inr (d, watch-arrives d elapsed rest y, y)
    | inr n ↦ inl (watch-stops d elapsed rest n (ground arith))
  ]
  watch-Over ((d', e') ∷ before) d elapsed rest le = elim (Bool-cases (awaited w target d')) [
    | inl y ↦ inr (d', watch-arrives d' e' (before ++ (d, elapsed) ∷ rest) y, y)
    | inr n ↦ elim (Bool-cases (leb tick e')) [
      | inl t ↦ inl (watch-stops d' e' (before ++ (d, elapsed) ∷ rest) n t)
      | inr t ↦
          subst Over (sym (watch-goes_on d' e' (before ++ (d, elapsed) ∷ rest) n t))
            (watch-Over before d elapsed rest le)
    ]
  ]
