-- ===== src/Barrier/Election.antt =====
-- src/kvspace.c, `p2_elect` and `p2_release_busy` run by any number of processes at once. Each
-- load, decision, compare-and-swap and store is one atomic step. A dead claim stays dead.
use kvspace_c.Prelude.{
  ℕ, ◌^◌, ◌<◌, ◌≡◌, ◌≢◌, sym, ap, ◌∙◌, Bool, true, false, List, arith, ◌==◌, if◌then◌else◌,
}
use kvspace_c.Registry.{Slot, Procs, claim_alive}
use kvspace_c.Ring.{ge_make, ge_claim}
use kvspace_c.Barrier.{take, busy, decide, barrier_free, owned_by}

-- Where a process stands: outside, with the word that it loaded, past a decision to swap, or leader.
pub data Pc : Type 0 where
  outside : Pc
  loaded : ℕ → Pc
  swapping : ℕ → Pc
  leader : Pc

pub record System : Type 0 where
  pub word : ℕ
  pub pc : ℕ → Pc
  pub procs : Procs

abbrev pub at_pc : (ℕ → Pc) → ℕ → Pc → ℕ → Pc
at_pc f i p j = if j == i then p else f j

-- The slots with their claims stand still; `claim i` is the claim of process `i`.
module _ (slots : List Slot) (claim : ℕ → ℕ) where
  abbrev pub alive : System → ℕ → Bool
  alive s c = claim_alive s.procs slots c

  pub data Step : System → System → Type 0 where
    load :
        (s : System) (i : ℕ)
        → s.pc i ≡ outside
        → claim i ≢ 0
        → Step s (record s { pc = at_pc s.pc i (loaded s.word) })
    decided_take :
        (s : System) (i cur : ℕ)
        → s.pc i ≡ loaded cur
        → decide s.procs slots (claim i) cur ≡ take
        → Step s (record s { pc = at_pc s.pc i (swapping cur) })
    decided_busy :
        (s : System) (i cur : ℕ)
        → s.pc i ≡ loaded cur
        → decide s.procs slots (claim i) cur ≡ busy
        → Step s (record s { pc = at_pc s.pc i outside })
    swap_wins :
        (s : System) (i cur : ℕ)
        → s.pc i ≡ swapping cur
        → s.word ≡ cur
        → Step s (record s { word = owned_by (claim i); pc = at_pc s.pc i leader })
    swap_fails :
        (s : System) (i cur : ℕ)
        → s.pc i ≡ swapping cur
        → s.word ≢ cur
        → Step s (record s { pc = at_pc s.pc i outside })
    release :
        (s : System) (i : ℕ)
        → s.pc i ≡ leader
        → s.word ≡ owned_by (claim i)
        → Step s (record s { word = ge_make barrier_free 0; pc = at_pc s.pc i outside })
    release_lost :
        (s : System) (i : ℕ)
        → s.pc i ≡ leader
        → s.word ≢ owned_by (claim i)
        → Step s (record s { pc = at_pc s.pc i outside })
    dies :
        (s : System) (procs : Procs)
        → ((c : ℕ) → claim_alive procs slots c ≡ true → alive s c ≡ true)
        → Step s (record s { procs = procs })

  pub data Reach (s : System) : System → Type 0 where
    here : Reach s s
    next : {t u : System} → Reach s t → Step t u → Reach s u

  -- A leader that lives owns the word, and a process that decided to swap out a word saw it free or
  -- owned by a dead claim.
  pub record IsSafe (s : System) : Type 0 where
    pub leads : (i : ℕ) → s.pc i ≡ leader → alive s (claim i) ≡ true → s.word ≡ owned_by (claim i)
    pub swaps :
        (i cur : ℕ)
        → s.pc i ≡ swapping cur
        → cur ≢ ge_make barrier_free 0
        → alive s (ge_claim cur) ≡ false

  decide-take :
      (procs : Procs) (mine cur : ℕ)
      → decide procs slots mine cur ≡ take
      → cur ≢ ge_make barrier_free 0
      → claim_alive procs slots (ge_claim cur) ≡ false
  unfolding decide
  decide-take procs mine cur h ne = ground arith

  module _ (small : (i : ℕ) → claim i < 2 ^ 30)
      (distinct : (i j : ℕ) → claim j ≢ 0 → claim i ≡ claim j → i ≡ j) where
    ge_claim-owned_by : (i : ℕ) → ge_claim (owned_by (claim i)) ≡ claim i
    ge_claim-owned_by i = omega (arith, small i)

    owned_by-ne-free : (i : ℕ) → owned_by (claim i) ≢ ge_make barrier_free 0
    owned_by-ne-free i = omega arith

    alive-claim : (s : System) (c : ℕ) → alive s c ≡ true → c ≢ 0
    unfolding claim_alive
    alive-claim s c h = ground arith

    same_owner :
        (s : System) (i j : ℕ)
        → s.word ≡ owned_by (claim i)
        → alive s (claim j) ≡ true
        → s.word ≡ owned_by (claim j)
        → i ≡ j
    same_owner s i j wi aj wj =
        distinct i j (alive-claim s (claim j) aj) (omega (arith, small i, small j))

    -- A process may not swap out the word of a leader that lives.
    no_live_leader :
        {s : System}
        → IsSafe s
        → (i j cur : ℕ) → s.pc i ≡ swapping cur
        → s.word ≡ cur
        → s.pc j ≡ leader
        → alive s (claim j) ≡ true
        → ⊥
    no_live_leader {s} safe i j cur pi w pj aj =
        let own : cur ≡ owned_by (claim j) = sym w ∙ safe.leads j pj aj in
        let dead = safe.swaps i cur pi (λ e. owned_by-ne-free j (sym own ∙ e)) in
        let same : ge_claim cur ≡ claim j = ap (λ (m : ℕ). ge_claim m) own ∙ ge_claim-owned_by j in
        let dead' : alive s (claim j) ≡ false = rw same at dead in cc

    Step-IsSafe : {s t : System} → Step s t → IsSafe s → IsSafe t
    Step-IsSafe (load s i p m) safe = record {
      leads = λ j. ground (arith, safe.leads j);
      swaps = λ j cur. ground (arith, safe.swaps j cur);
    }
    Step-IsSafe (decided_take s i cur p d) safe = record {
      leads = λ j. ground (arith, safe.leads j);
      swaps = λ j c. ground (arith, safe.swaps j c, decide-take s.procs (claim i) cur d);
    }
    Step-IsSafe (decided_busy s i cur p d) safe = record {
      leads = λ j. ground (arith, safe.leads j);
      swaps = λ j c. ground (arith, safe.swaps j c);
    }
    Step-IsSafe (swap_wins s i cur p w) safe = record {
      leads = λ j. ground (arith, no_live_leader safe i j cur p w);
      swaps = λ j c. ground (arith, safe.swaps j c);
    }
    Step-IsSafe (swap_fails s i cur p w) safe = record {
      leads = λ j. ground (arith, safe.leads j);
      swaps = λ j c. ground (arith, safe.swaps j c);
    }
    Step-IsSafe (release s i p w) safe = record {
      leads = λ j. ground (arith, safe.leads j, same_owner s i j w);
      swaps = λ j c. ground (arith, safe.swaps j c);
    }
    Step-IsSafe (release_lost s i p w) safe = record {
      leads = λ j. ground (arith, safe.leads j);
      swaps = λ j c. ground (arith, safe.swaps j c);
    }
    Step-IsSafe (dies s procs d) safe = record {
      leads = λ j pj aj. safe.leads j pj (d (claim j) aj);
      swaps = λ j c. ground (arith, safe.swaps j c, d (ge_claim c));
    }

    Reach-IsSafe : {s t : System} → IsSafe s → Reach s t → IsSafe t
    Reach-IsSafe h here = h
    Reach-IsSafe h (next r st) = Step-IsSafe st (Reach-IsSafe h r)

    -- From a state in which nobody leads or swaps, whatever the processes do, in any order, and
    -- whichever of them die, two leaders that both live are one process. Claims are 30-bit numbers,
    -- distinct where they are not 0, and slots are neither claimed nor released meanwhile.
    pub one_leader :
        {s t : System}
        → ((i : ℕ) → s.pc i ≡ outside)
        → Reach s t
        → (i j : ℕ) → t.pc i ≡ leader
        → t.pc j ≡ leader
        → alive t (claim i) ≡ true
        → alive t (claim j) ≡ true
        → i ≡ j
    one_leader {s} {t} start r i j pi pj ai aj =
        let safe =
          Reach-IsSafe {s = s}
            (record {
              leads = λ k. ground (arith, start k);
              swaps = λ k c. ground (arith, start k);
            })
            r in
        same_owner t i j (safe.leads i pi ai) aj (safe.leads j pj aj)
