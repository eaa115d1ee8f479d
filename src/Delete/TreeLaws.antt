-- ===== src/Delete/TreeLaws.antt =====
-- src/kvspace.c, the loop of `kvspaceShmDeltree`: every key of the subtree that was scanned is gone.
use kvspace_c.Prelude.{
  ◌<◌, ltb, not, ◌&&◌, arith, ℕ, ◌≡◌, refl, sym, ap, ◌∙◌, Bool, true, false, none, some, List, [],
  ◌∷◌, length, Bytes, All, Bool-cases, Option-cases, inl, inr,
}
use mathlib.Core.Path.{subst}
use kvspace_c.Allocator.{Allocator}
use kvspace_c.Keys.{subtree_key, reserved_meta_path}
use kvspace_c.Keys.Subtree.{Below, subtree_key_iff}
use kvspace_c.Ring.{Viewer}
use kvspace_c.Store.{Store, search, list_gen_bump}
use kvspace_c.Delete.{
  Deletion, hard, missing, deleted, del_key, del_keys, del_scanned, in_tree, seen,
}
use kvspace_c.Delete.KeyLaws.{search-list_gen}
use kvspace_c.Delete.Shrinking.{Shrinks, del_key-Shrinks, del_key-gone}

seen-false : (d : Deletion) (any : Bool) → (any' : Bool) × (seen d (false, any) ≡ (false, any'))
seen-false hard any = (any, refl)
seen-false missing any = (any, refl)
seen-false deleted any = (true, refl)

-- A key that is not to be deleted: one outside the subtree, a reserved one or a longer one.
abbrev pub Spared : Bytes → Bytes → Type 0
Spared base k = Below base k → reserved_meta_path k ≡ false → length k < 1024 → ⊥

Spared-in_tree : (base k : Bytes) → Spared base k → in_tree base k ≡ false
Spared-in_tree base k sp = elim (Bool-cases (in_tree base k)) [
  | inr o ↦ o
  | inl i ↦
      let (s, r, l) = in_tree-parts (subtree_key base k) (reserved_meta_path k) (length k) i in
      absurd (sp ((subtree_key_iff base k).0 s) r l)
]
  where
    in_tree-parts :
        (a b : Bool) (n : ℕ)
        → (a && not b && ltb n 1024) ≡ true
        → (a ≡ true) × (b ≡ false) × (n < 1024)
    in_tree-parts a b n h = ground arith

module _ {A : Allocator} where
  -- A key that the loop deletes is not found.
  abbrev Unfound : Bytes → Store A → Bytes → Type 0
  Unfound base st k = in_tree base k ≡ true → search st k ≡ none

  -- A key of the subtree that is shorter than 1024 bytes and not reserved is not found.
  abbrev pub Gone : Bytes → Store A → Bytes → Type 0
  Gone base st k =
      Below base k → reserved_meta_path k ≡ false → length k < 1024 → search st k ≡ none

  Unfound-Gone : (base k : Bytes) (st : Store A) → Unfound base st k → Gone base st k
  Unfound-Gone base k st u b r l =
      let s : subtree_key base k ≡ true = (subtree_key_iff base k).1 b in
      u (rw (s, r) (ground arith))

  All-Gone :
      (base : Bytes) (st : Store A) (ks : List Bytes)
      → All (Unfound base st) ks
      → All (Gone base st) ks
  All-Gone base st [] all = tt
  All-Gone base st (k ∷ ks) (u, all) = (Unfound-Gone base k st u, All-Gone base st ks all)

  Shrinks-Unfound :
      (st st' : Store A) (base k : Bytes) → Shrinks st st' → Unfound base st k → Unfound base st' k
  Shrinks-Unfound st st' base k s g t = elim (Option-cases (search st' k)) [
    | inl e ↦ e
    | inr (l, e) ↦ absurd (let q = s k l e in let z = g t in cc (q, z))
  ]

  del_keys-nil :
      (v : Viewer) (base : Bytes) (acc : Bool × Bool) (st : Store A)
      → del_keys v base [] acc st ≡ (acc, st)
  unfolding del_keys
  del_keys-nil v base acc st = refl

  module _ (v : Viewer) (base k : Bytes) (ks : List Bytes) (acc : Bool × Bool) (st : Store A) where
    del_keys-in :
        in_tree base k ≡ true
        → del_keys v base (k ∷ ks) acc st
          ≡ del_keys v base ks (seen (del_key v st k).0 acc) (del_key v st k).1
    unfolding del_keys
    del_keys-in i = rw i refl

    del_keys-out :
        in_tree base k ≡ false → del_keys v base (k ∷ ks) acc st ≡ del_keys v base ks acc st
    unfolding del_keys
    del_keys-out o = rw o refl

  -- Once a hard error was seen the loop does not forget it.
  del_keys-false :
      (v : Viewer) (base : Bytes) (ks : List Bytes) (any : Bool) (st : Store A)
      → (del_keys v base ks (false, any) st).0.0 ≡ false
  del_keys-false v base [] any st = ap (λ r. r.0.0) (del_keys-nil v base (false, any) st)
  del_keys-false v base (k ∷ ks) any st = elim (Bool-cases (in_tree base k)) [
    | inr o ↦ rw (del_keys-out v base k ks (false, any) st o) (del_keys-false v base ks any st)
    | inl i ↦
        let (any', e) = seen-false (del_key v st k).0 any in
        rw (del_keys-in v base k ks (false, any) st i, e)
          (del_keys-false v base ks any' (del_key v st k).1)
  ]

  -- What the loop leaves: it finds nothing new, and where it saw no hard error every key of the
  -- subtree is gone.
  abbrev Swept : Bytes → List Bytes → Store A → (Bool × Bool) × Store A → Type 0
  Swept base ks st (acc, st') = Shrinks st st' × (acc.0 ≡ true → All (Unfound base st') ks)

  del_keys-Swept :
      (v : Viewer) (base : Bytes) (ks : List Bytes) (acc : Bool × Bool) (st : Store A)
      → Swept base ks st (del_keys v base ks acc st)
  del_keys-Swept v base [] acc st = rw (del_keys-nil v base acc st) (λ k l f. f, λ h. tt)
  del_keys-Swept v base (k ∷ ks) (rc, any) st = elim (Bool-cases (in_tree base k)) [
    | inr o ↦
        let (s, all) = del_keys-Swept v base ks (rc, any) st in
        subst (Swept base (k ∷ ks) st) (sym (del_keys-out v base k ks (rc, any) st o))
          (s, λ h. (λ i. absurd (cc (i, o)), all h))
    | inl i ↦
        let st1 = (del_key v st k).1 in
        let (s, all) = del_keys-Swept v base ks (seen (del_key v st k).0 (rc, any)) st1 in
        let first = del_key-Shrinks v st k in
        let end = (del_keys v base ks (seen (del_key v st k).0 (rc, any)) st1).1 in
        let soft =
          λ (h : (del_keys v base ks (seen (del_key v st k).0 (rc, any)) st1).0.0 ≡ true)
              (e : (del_key v st k).0 ≡ hard).
            let f = del_keys-false v base ks any st1 in absurd (cc (f, rw e at h)) in
        subst (Swept base (k ∷ ks) st) (sym (del_keys-in v base k ks (rc, any) st i)) (
          λ j l f. first j l (s j l f),
          λ h. (Shrinks-Unfound st1 end base k s (λ t. del_key-gone v st k (soft h)), all h),
        )
  ]

  -- A loop over keys that are not to be deleted does nothing.
  del_keys-Spared :
      (v : Viewer) (base : Bytes) (ks : List Bytes) (acc : Bool × Bool) (st : Store A)
      → All (Spared base) ks
      → del_keys v base ks acc st ≡ (acc, st)
  del_keys-Spared v base [] acc st all = del_keys-nil v base acc st
  del_keys-Spared v base (k ∷ ks) acc st (sp, all) =
      del_keys-out v base k ks acc st (Spared-in_tree base k sp)
      ∙ del_keys-Spared v base ks acc st all

  bumped-Unfound :
      (base : Bytes) (st : Store A) (ks : List Bytes)
      → All (Unfound base st) ks
      → All (Unfound base (list_gen_bump st)) ks
  bumped-Unfound base st [] all = tt
  bumped-Unfound base st (k ∷ ks) (g, all) =
      (λ i. search-list_gen st k ∙ g i, bumped-Unfound base st ks all)

  -- Where `kvspaceShmDeltree` comes to its loop over the keys `ks` that it scanned and returns 0, no key
  -- of the subtree among them is found any more that is shorter than 1024 bytes and not reserved.
  -- Nothing is found that was not found before, and where every scanned key is outside the subtree,
  -- reserved or longer, it returns 0 with the store as it was.
  pub del_scanned-Gone :
      (v : Viewer) (base : Bytes) (st : Store A) (ks : List Bytes)
      → let (ok, st') = del_scanned v base st (some ks) in
        Shrinks st st'
        × (ok ≡ true → All (Gone base st') ks)
        × (All (Spared base) ks → (ok ≡ true) × (st' ≡ st))
  unfolding del_scanned
  del_scanned-Gone v base st ks =
      let r = del_keys v base ks (true, false) st in
      let (s, all) = del_keys-Swept v base ks (true, false) st in
      let idle = λ (sp : All (Spared base) ks). del_keys-Spared v base ks (true, false) st sp in
      elim (Bool-cases r.0.1) [
        | inr n ↦ rw n (
          s,
          λ h. All-Gone base r.1 ks (all h),
          λ sp. (ap (λ z. z.0.0) (idle sp), ap (λ z. z.1) (idle sp)),
        )
        | inl y ↦ rw y (
          λ k l f. s k l (sym (search-list_gen r.1 k) ∙ f),
          λ h. All-Gone base (list_gen_bump r.1) ks (bumped-Unfound base r.1 ks (all h)),
          λ sp. absurd (let q = ap (λ z. z.0.1) (idle sp) in cc (q, y)),
        )
      ]
