-- ===== src/Ring/DrainLoop.antt =====
-- src/kvspace.c, the loop of `p2_drain`: it ends, and frees in order what its verdicts say.
use kvspace_c.Prelude.{
  ℕ, zero, suc, ◌+◌, ◌-◌, ◌<◌, ◌≡◌, ◌≢◌, refl, ◌∙◌, sym, ap, inl, inr, true, false, some, List, [],
  ◌∷◌, arith, leb, Bool-cases, ◌++◌,
}
use kvspace_c.Allocator.{Allocator}
use kvspace_c.Registry.{claim_alive}
use kvspace_c.Ring.{
  Entry, Ring, Viewer, Verdict, stop, skip, leak, release, verdict, entry_at, Draining, drain_entry,
  finished, drain_loop, drain, newer, ge_state, ge_committed, ge_reserved, ge_claim,
}
use kvspace_c.Ring.Window.{contents, IsValid, contents-cons}
use kvspace_c.Ring.Fate.{
  kept, released, leaked, keep_by, release_by, kept-cons, released-cons, leaked-cons,
}
use kvspace_c.Ring.Drain.{
  free_all, Drained, drain_entry-advance, drain_entry-IsValid, finished-Drained, contents-nil,
  cons-Drained,
}

module _ (A : Allocator) (v : Viewer) (round : ℕ) where
  -- The loop goes on behind an entry that does not stop it.
  loop_on :
      (fuel : ℕ) (d : Verdict) (s : Draining A)
      → leb s.ring.tail s.ring.head ≡ false
      → d ≢ stop
      → verdict v round (entry_at s.ring s.ring.head) ≡ d
      → drain_loop A (suc fuel) v round s.ring.head s
        ≡ drain_loop A fuel v round
            (drain_entry A d s.ring.head s).ring.head
            (drain_entry A d s.ring.head s)
  unfolding drain_loop
  loop_on fuel stop s lt ne e = absurd (ne refl)
  loop_on fuel skip s lt ne e = rw (lt, e)
  loop_on fuel leak s lt ne e = rw (lt, e)
  loop_on fuel release s lt ne e = rw (lt, e)

  loop_stops :
      (fuel : ℕ) (s : Draining A)
      → IsValid s.ring
      → leb s.ring.tail s.ring.head ≡ true
      → (drain_loop A (suc fuel) v round s.ring.head s ≡ some (finished A s))
        × Drained A v round s (finished A s)
  unfolding drain_loop kept released leaked
  loop_stops fuel s valid h =
      let e = contents-nil A v round s.ring (ground arith) in
      (rw h, finished-Drained A v round s valid (rw e) (rw e) (rw e))

  loop_halts :
      (fuel : ℕ) (s : Draining A)
      → IsValid s.ring
      → leb s.ring.tail s.ring.head ≡ false
      → verdict v round (entry_at s.ring s.ring.head) ≡ stop
      → (drain_loop A (suc fuel) v round s.ring.head s ≡ some (finished A s))
        × Drained A v round s (finished A s)
  unfolding drain_loop
  loop_halts fuel s valid lt e =
      let c = contents-cons s.ring (ground arith) in
      (
        rw (lt, e),
        finished-Drained A v round s valid (rw (c, kept-cons v round _ _ _ e))
            (rw (c, released-cons v round _ _ _ e)) (rw (c, leaked-cons v round _ _ _ e)),
      )

  abbrev Ends : ℕ → Draining A → Type 0
  Ends fuel s =
      (t : Draining A) × (drain_loop A fuel v round s.ring.head s ≡ some t) × Drained A v round s t

  next-Ends :
      (fuel : ℕ) (d : Verdict) (s : Draining A)
      → IsValid s.ring
      → leb s.ring.tail s.ring.head ≡ false
      → d ≢ stop
      → verdict v round (entry_at s.ring s.ring.head) ≡ d
      → Ends fuel (drain_entry A d s.ring.head s)
      → Ends (suc fuel) s
  next-Ends fuel d s valid lt ne e (t, run, dr) =
      let some_left : s.ring.head < s.ring.tail = ground arith in
      let c =
        contents-cons s.ring some_left
        ∙ ap (λ (l : List Entry). entry_at s.ring s.ring.head ∷ l)
            (sym (drain_entry-advance A v round d s valid some_left ne)) in
      (t, loop_on fuel d s lt ne e ∙ run, cons-Drained A v round d s t ne e c dr)

  drain_entry-shorter :
      (d : Verdict) (s : Draining A) (fuel : ℕ)
      → IsValid s.ring
      → leb s.ring.tail s.ring.head ≡ false
      → d ≢ stop
      → s.ring.tail - s.ring.head < suc fuel
      → (drain_entry A d s.ring.head s).ring.tail - (drain_entry A d s.ring.head s).ring.head < fuel
  drain_entry-shorter stop s fuel valid lt ne m = absurd (ne refl)
  drain_entry-shorter skip s fuel valid lt ne m = ground arith
  drain_entry-shorter leak s fuel valid lt ne m = ground arith
  drain_entry-shorter release s fuel valid lt ne m = ground arith

  -- With a unit of fuel for each index before the tail, and one more, the loop ends.
  loop-Ends :
      (fuel : ℕ) (s : Draining A) → IsValid s.ring → s.ring.tail - s.ring.head < fuel → Ends fuel s
  loop-Ends zero s valid m = absurd (omega arith)
  loop-Ends (suc fuel) s valid m = elim (Bool-cases (leb s.ring.tail s.ring.head)) [
    | inl past ↦ let (a, b) = loop_stops fuel s valid past in (finished A s, a, b)
    | inr lt ↦ by_verdict lt (verdict v round (entry_at s.ring s.ring.head)) refl (λ d ne.
        loop-Ends fuel (drain_entry A d s.ring.head s)
          (drain_entry-IsValid A v round d s valid (ground arith))
          (drain_entry-shorter d s fuel valid lt ne m))
  ]
    where
      by_verdict :
          leb s.ring.tail s.ring.head ≡ false
          → (d : Verdict) → verdict v round (entry_at s.ring s.ring.head) ≡ d
          → ((d' : Verdict) → d' ≢ stop → Ends fuel (drain_entry A d' s.ring.head s))
          → Ends (suc fuel) s
      by_verdict lt stop e ih = let (a, b) = loop_halts fuel s valid lt e in (finished A s, a, b)
      by_verdict lt skip e ih = next-Ends fuel skip s valid lt (λ p. cc) e (ih skip (λ p. cc))
      by_verdict lt leak e ih = next-Ends fuel leak s valid lt (λ p. cc) e (ih leak (λ p. cc))
      by_verdict lt release e ih =
          next-Ends fuel release s valid lt (λ p. cc) e (ih release (λ p. cc))

  -- On a well-formed ring a drain ends. It takes from the front of the queue the entries up to the
  -- first that stops it, by their states: cancelled entries, reservations of dead claims, counted as
  -- leaks, and committed boxes of an older round, the only ones that it frees, in order, counting
  -- them and their sizes. It stops at a reservation of a live claim, at a box that is too young and at
  -- an unknown state, and leaves the rest of the queue, the tail and a well-formed ring.
  pub drain_lem :
      (r : Ring) (b : A.Boxes)
      → IsValid r
      → (t : Draining A) × (drain A v round r b ≡ some t)
        × Drained A v round (record { ring = r; boxes = b; freed = 0 }) t
  unfolding drain
  drain_lem r b valid =
      loop-Ends (r.tail - r.head + 1) (record { ring = r; boxes = b; freed = 0 }) valid
        (omega arith)

module _ (v : Viewer) (round : ℕ) where
  kept-append :
      (es : List Entry) (e : Entry) (fs : List Entry)
      → verdict v round e ≡ stop
      → kept v round (es ++ e ∷ fs) ≡ kept v round es ++ e ∷ fs
  unfolding kept
  kept-append [] e fs h = kept-cons v round stop e fs h
  kept-append (x ∷ es) e fs h = by_verdict (verdict v round x) (kept-append es e fs h)
    where
      by_verdict :
          (d : Verdict)
          → kept v round (es ++ e ∷ fs) ≡ kept v round es ++ e ∷ fs
          → keep_by d x (es ++ e ∷ fs) (kept v round (es ++ e ∷ fs))
            ≡ keep_by d x es (kept v round es) ++ e ∷ fs
      by_verdict stop ih = refl
      by_verdict skip ih = ih
      by_verdict leak ih = ih
      by_verdict release ih = ih

  released-append :
      (es : List Entry) (e : Entry) (fs : List Entry)
      → verdict v round e ≡ stop
      → released v round (es ++ e ∷ fs) ≡ released v round es
  unfolding released
  released-append [] e fs h = released-cons v round stop e fs h
  released-append (x ∷ es) e fs h =
      ap (λ l. release_by (verdict v round x) x l) (released-append es e fs h)

-- An entry at which the drain must stop: reserved by a live claim, or committed in a round that is
-- not older than this one.
pub data Holds (v : Viewer) (round : ℕ) (e : Entry) : Type 0 where
  reserved_live :
      ge_state e.meta ≡ ge_reserved
      → claim_alive v.procs v.slots (ge_claim e.meta) ≡ true
      → Holds v round e
  too_young : ge_state e.meta ≡ ge_committed → newer round e.epoch ≡ false → Holds v round e

Holds-stop : {v : Viewer} {round : ℕ} {e : Entry} → Holds v round e → verdict v round e ≡ stop
unfolding verdict
Holds-stop (reserved_live h k) = ground arith
Holds-stop (too_young h k) = ground arith

-- On a well-formed ring no box behind an entry that holds the drain is freed: the drain ends,
-- leaves that entry and all behind it in the queue, and frees only boxes of the entries before
-- it.
pub drain_held :
    (A : Allocator) (v : Viewer) (round : ℕ) (r : Ring) (b : A.Boxes) (es : List Entry) (e : Entry)
    (fs : List Entry)
    → IsValid r
    → contents r ≡ es ++ e ∷ fs
    → Holds v round e
    → (t : Draining A) × (drain A v round r b ≡ some t)
      × (contents t.ring ≡ kept v round es ++ e ∷ fs)
      × (t.boxes ≡ free_all A b (released v round es))
drain_held A v round r b es e fs valid c h =
    let (t, run, dr) = drain_lem A v round r b valid in
    (
      t,
      run,
      dr.queue ∙ ap (kept v round) c ∙ kept-append v round es e fs (Holds-stop h),
      dr.boxes
          ∙ ap (λ l. free_all A b (released v round l)) c
          ∙ ap (free_all A b) (released-append v round es e fs (Holds-stop h)),
    )
