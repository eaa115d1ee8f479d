-- ===== src/Ring/Fate.antt =====
-- src/kvspace.c, `p2_drain`: what becomes of the entries of the queue, by their states.
use kvspace_c.Prelude.{
  ℕ, suc, ◌+◌, ◌-◌, ◌%◌, ◌<◌, ◌≡◌, refl, ap, List, [], ◌∷◌, arith, ◌⊎◌, inl, inr, true, false, ◌^◌,
}
use kvspace_c.Registry.{claim_alive}
use kvspace_c.Ring.{
  Entry, Viewer, Verdict, stop, skip, leak, release, verdict, newer, ge_state, ge_claim, ge_empty,
  ge_reserved, ge_committed,
}

-- What each verdict on an entry leaves of the queue, frees and drops, given what the entries behind
-- it come to.
abbrev pub keep_by : Verdict → Entry → List Entry → List Entry → List Entry
keep_by stop e es rest = e ∷ es
keep_by skip e es rest = rest
keep_by leak e es rest = rest
keep_by release e es rest = rest

abbrev pub release_by : Verdict → Entry → List ℕ → List ℕ
release_by stop e rest = []
release_by skip e rest = rest
release_by leak e rest = rest
release_by release e rest = e.off ∷ rest

abbrev pub leak_by : Verdict → ℕ → ℕ
leak_by stop rest = 0
leak_by skip rest = rest
leak_by leak rest = suc rest
leak_by release rest = rest

module _ (v : Viewer) (round : ℕ) where
  -- What is left of a queue when the drain has stopped.
  unfoldable pub kept : List Entry → List Entry
  kept [] = []
  kept (e ∷ es) = keep_by (verdict v round e) e es (kept es)

  -- The boxes that it has freed, in order.
  unfoldable pub released : List Entry → List ℕ
  released [] = []
  released (e ∷ es) = release_by (verdict v round e) e (released es)

  -- How many reservations of dead writers it has dropped.
  unfoldable pub leaked : List Entry → ℕ
  leaked [] = 0
  leaked (e ∷ es) = leak_by (verdict v round e) (leaked es)

  module _ (d : Verdict) (e : Entry) (es : List Entry) (h : verdict v round e ≡ d) where
    pub kept-cons : kept (e ∷ es) ≡ keep_by d e es (kept es)
    unfolding kept
    kept-cons = ap (λ k. keep_by k e es (kept es)) h

    pub released-cons : released (e ∷ es) ≡ release_by d e (released es)
    unfolding released
    released-cons = ap (λ k. release_by k e (released es)) h

    pub leaked-cons : leaked (e ∷ es) ≡ leak_by d (leaked es)
    unfolding leaked
    leaked-cons = ap (λ k. leak_by k (leaked es)) h

-- `round` is newer than `epoch` as 32-bit counters: it is ahead of it, by less than half of them.
abbrev pub Older : ℕ → ℕ → Type 0
Older epoch round =
    (0 < (round + 2 ^ 32 - epoch) % 2 ^ 32) × ((round + 2 ^ 32 - epoch) % 2 ^ 32 < 2 ^ 31)

-- What a drain in a round may do with a queue, by the states of its entries: what it leaves, the
-- boxes that it frees, in order, and how many reservations it drops. It goes on behind a cancelled
-- entry, behind a reservation whose claim is dead, and behind a box committed in an older round, the
-- only ones that it frees; it stops at a reservation of a live claim, at a box that is too young, and
-- at a state that is none of the three.
pub data Fate (v : Viewer) (round : ℕ) : List Entry → List Entry → List ℕ → ℕ → Type 0 where
  ended : Fate v round [] [] [] 0
  at_live :
      (e : Entry) (es : List Entry)
      → ge_state e.meta ≡ ge_reserved
      → claim_alive v.procs v.slots (ge_claim e.meta) ≡ true
      → Fate v round (e ∷ es) (e ∷ es) [] 0
  at_young :
      (e : Entry) (es : List Entry)
      → ge_state e.meta ≡ ge_committed
      → (Older e.epoch round → ⊥)
      → Fate v round (e ∷ es) (e ∷ es) [] 0
  at_unknown :
      (e : Entry) (es : List Entry) → ge_state e.meta ≡ 3 → Fate v round (e ∷ es) (e ∷ es) [] 0
  cancelled :
      (e : Entry) (es ks : List Entry) (offs : List ℕ) (n : ℕ)
      → ge_state e.meta ≡ ge_empty
      → Fate v round es ks offs n
      → Fate v round (e ∷ es) ks offs n
  dropped :
      (e : Entry) (es ks : List Entry) (offs : List ℕ) (n : ℕ)
      → ge_state e.meta ≡ ge_reserved
      → claim_alive v.procs v.slots (ge_claim e.meta) ≡ false
      → Fate v round es ks offs n
      → Fate v round (e ∷ es) ks offs (suc n)
  freed :
      (e : Entry) (es ks : List Entry) (offs : List ℕ) (n : ℕ)
      → ge_state e.meta ≡ ge_committed
      → Older e.epoch round
      → Fate v round es ks offs n
      → Fate v round (e ∷ es) ks (e.off ∷ offs) n

module _ (v : Viewer) (round : ℕ) (e : Entry) where
  -- What each verdict means for the state of the entry.
  verdict-skip : verdict v round e ≡ skip → ge_state e.meta ≡ ge_empty
  unfolding verdict
  verdict-skip h = ground arith

  verdict-leak :
      verdict v round e ≡ leak
      → (ge_state e.meta ≡ ge_reserved) × (claim_alive v.procs v.slots (ge_claim e.meta) ≡ false)
  unfolding verdict
  verdict-leak h = ground arith

  verdict-release :
      verdict v round e ≡ release → (ge_state e.meta ≡ ge_committed) × Older e.epoch round
  unfolding verdict newer
  verdict-release h = ground arith

  verdict-stop :
      verdict v round e ≡ stop
      → ((ge_state e.meta ≡ ge_reserved) × (claim_alive v.procs v.slots (ge_claim e.meta) ≡ true))
        ⊎ (((ge_state e.meta ≡ ge_committed) × (newer round e.epoch ≡ false))
            ⊎ (ge_state e.meta ≡ 3))
  unfolding verdict
  verdict-stop h = ground arith

newer-Older : (epoch round : ℕ) → newer round epoch ≡ false → Older epoch round → ⊥
unfolding newer
newer-Older epoch round h (lo, hi) = ground arith

module _ (v : Viewer) (round : ℕ) where
  stopped-Fate :
      (e : Entry) (es : List Entry) → verdict v round e ≡ stop → Fate v round (e ∷ es) (e ∷ es) [] 0
  stopped-Fate e es h = elim (verdict-stop v round e h) [
    | inl (s, a) ↦ at_live e es s a
    | inr (inl (s, y)) ↦ at_young e es s (newer-Older e.epoch round y)
    | inr (inr s) ↦ at_unknown e es s
  ]

  -- The verdicts of the code do this.
  pub kept-Fate :
      (es : List Entry)
      → Fate v round es (kept v round es) (released v round es) (leaked v round es)
  unfolding kept released leaked
  kept-Fate [] = ended
  kept-Fate (e ∷ es) = by_verdict (verdict v round e) refl (kept-Fate es)
    where
      by_verdict :
          (d : Verdict)
          → verdict v round e ≡ d
          → Fate v round es (kept v round es) (released v round es) (leaked v round es)
          → Fate v round
              (e ∷ es)
              (keep_by d e es (kept v round es))
              (release_by d e (released v round es))
              (leak_by d (leaked v round es))
      by_verdict stop h f = stopped-Fate e es h
      by_verdict skip h f = cancelled e es _ _ _ (verdict-skip v round e h) f
      by_verdict leak h f = let (s, a) = verdict-leak v round e h in dropped e es _ _ _ s a f
      by_verdict release h f = let (s, o) = verdict-release v round e h in freed e es _ _ _ s o f
