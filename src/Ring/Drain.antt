-- ===== src/Ring/Drain.antt =====
-- src/kvspace.c, `p2_drain` on the queue of entries.
use kvspace_c.Prelude.{
  ℕ, ◌+◌, ◌-◌, ◌%◌, ◌≤◌, ◌<◌, ◌≡◌, ◌≢◌, refl, ◌∙◌, sym, ap, List, [], ◌∷◌, arith, length,
}
use mathlib.Core.Path.{subst}
use kvspace_c.Allocator.{Allocator}
use kvspace_c.Ring.{
  Ring, Viewer, Verdict, stop, skip, leak, release, verdict, entry_at, cleared, u64, Draining,
  drain_entry, finished,
}
use kvspace_c.Ring.Window.{
  window, contents, IsValid, behind_head, contents-advance, window-put_head,
}
use kvspace_c.Ring.Fate.{
  kept, released, leaked, kept-cons, released-cons, leaked-cons, Fate, kept-Fate,
}

module _ (A : Allocator) where
  open A use {Boxes, allocated_size, free_box}

  -- The allocator after boxes are freed one after the other, and the sizes they had.
  pub free_all : Boxes → List ℕ → Boxes
  free_all b [] = b
  free_all b (off ∷ offs) = free_all (free_box b off) offs

  pub sizes : Boxes → List ℕ → ℕ
  sizes b [] = 0
  sizes b (off ∷ offs) = allocated_size b off + sizes (free_box b off) offs

  module _ (v : Viewer) (round : ℕ) where
    -- From `s` the drain has ended in `t`.
    pub record Drained (s t : Draining A) : Type 0 where
      pub fate :
          Fate v round
            (contents s.ring)
            (contents t.ring)
            (released v round (contents s.ring))
            (leaked v round (contents s.ring))
      pub valid : IsValid t.ring
      pub queue : contents t.ring ≡ kept v round (contents s.ring)
      pub boxes : t.boxes ≡ free_all s.boxes (released v round (contents s.ring))
      pub count : t.freed ≡ s.freed + length (released v round (contents s.ring))
      pub bytes :
          t.ring.freed_bytes
          ≡ (s.ring.freed_bytes + sizes s.boxes (released v round (contents s.ring))) % u64
      pub leaks : t.ring.leak_boxes ≡ (s.ring.leak_boxes + leaked v round (contents s.ring)) % u64
      pub idle : t.ring.freeing ≡ 0
      pub tail : t.ring.tail ≡ s.ring.tail

    -- The queue loses its first entry when the drain passes the head.
    pub drain_entry-advance :
        (d : Verdict) (s : Draining A)
        → IsValid s.ring
        → s.ring.head < s.ring.tail
        → d ≢ stop
        → contents (drain_entry A d s.ring.head s).ring ≡ behind_head s.ring
    drain_entry-advance stop s valid lt ne = absurd (ne refl)
    drain_entry-advance skip s valid lt ne =
        contents-advance s.ring.entries s.ring _ valid lt refl refl refl
    drain_entry-advance leak s valid lt ne =
        contents-advance _ s.ring _ valid lt refl refl refl
        ∙ window-put_head s.ring (cleared (entry_at s.ring s.ring.head)) valid lt
    drain_entry-advance release s valid lt ne =
        contents-advance _ s.ring _ valid lt refl refl refl
        ∙ window-put_head s.ring (cleared (entry_at s.ring s.ring.head)) valid lt

    pub drain_entry-IsValid :
        (d : Verdict) (s : Draining A)
        → IsValid s.ring
        → s.ring.head < s.ring.tail
        → IsValid (drain_entry A d s.ring.head s).ring
    drain_entry-IsValid stop s valid lt = valid
    drain_entry-IsValid skip s valid lt = ground arith
    drain_entry-IsValid leak s valid lt = ground arith
    drain_entry-IsValid release s valid lt = ground arith

    Fate-of :
        (s t : Draining A)
        → contents t.ring ≡ kept v round (contents s.ring)
        → Fate v round
            (contents s.ring)
            (contents t.ring)
            (released v round (contents s.ring))
            (leaked v round (contents s.ring))
    Fate-of s t q =
        subst
          (λ l.
            Fate v round (contents s.ring) l (released v round (contents s.ring))
              (leaked v round (contents s.ring)))
          (sym q) (kept-Fate v round (contents s.ring))

    pub finished-Drained :
        (s : Draining A)
        → IsValid s.ring
        → (kept v round (contents s.ring) ≡ contents s.ring)
        → (released v round (contents s.ring) ≡ [])
        → (leaked v round (contents s.ring) ≡ 0)
        → Drained s (finished A s)
    unfolding contents free_all sizes
    finished-Drained s valid k r l = record {
      fate = Fate-of s (finished A s) (sym k);
      valid = record {
        ordered = valid.ordered;
        fits = valid.fits;
        capacity = valid.capacity;
        counters = valid.counters;
        freed_word = valid.freed_word;
        leak_word = valid.leak_word;
      };
      queue = sym k;
      boxes = rw r;
      count = rw r (omega arith);
      bytes = rw r (omega (arith, valid.freed_word));
      leaks = rw l (omega (arith, valid.leak_word));
      idle = refl;
      tail = refl;
    }

    pub contents-nil : (r : Ring) → r.tail ≤ r.head → contents r ≡ []
    unfolding contents window
    contents-nil r h = let e : r.tail - r.head ≡ 0 = omega arith in ap (window r.entries r.head) e

    pub cons-Drained :
        (d : Verdict) (s t : Draining A)
        → d ≢ stop
        → verdict v round (entry_at s.ring s.ring.head) ≡ d
        → contents s.ring
          ≡ entry_at s.ring s.ring.head ∷ contents (drain_entry A d s.ring.head s).ring
        → Drained (drain_entry A d s.ring.head s) t
        → Drained s t
    unfolding free_all sizes
    cons-Drained stop s t ne e c dr = absurd (ne refl)
    cons-Drained skip s t ne e c dr = record {
      fate = Fate-of s t (rw (c, kept-cons v round _ _ _ e) dr.queue);
      valid = dr.valid;
      queue = rw (c, kept-cons v round _ _ _ e) dr.queue;
      boxes = rw (c, released-cons v round _ _ _ e) dr.boxes;
      count = rw (c, released-cons v round _ _ _ e) dr.count;
      bytes = rw (c, released-cons v round _ _ _ e) dr.bytes;
      leaks = rw (c, leaked-cons v round _ _ _ e) dr.leaks;
      idle = dr.idle;
      tail = dr.tail;
    }
    cons-Drained leak s t ne e c dr = record {
      fate = Fate-of s t (rw (c, kept-cons v round _ _ _ e) dr.queue);
      valid = dr.valid;
      queue = rw (c, kept-cons v round _ _ _ e) dr.queue;
      boxes = rw (c, released-cons v round _ _ _ e) dr.boxes;
      count = rw (c, released-cons v round _ _ _ e) dr.count;
      bytes = rw (c, released-cons v round _ _ _ e) dr.bytes;
      leaks = rw (c, leaked-cons v round _ _ _ e) (omega (arith, dr.leaks));
      idle = dr.idle;
      tail = dr.tail;
    }
    cons-Drained release s t ne e c dr = record {
      fate = Fate-of s t (rw (c, kept-cons v round _ _ _ e) dr.queue);
      valid = dr.valid;
      queue = rw (c, kept-cons v round _ _ _ e) dr.queue;
      boxes = rw (c, released-cons v round _ _ _ e) dr.boxes;
      count = rw (c, released-cons v round _ _ _ e) (omega (arith, dr.count));
      bytes = rw (c, released-cons v round _ _ _ e) (omega (arith, dr.bytes));
      leaks = rw (c, leaked-cons v round _ _ _ e) dr.leaks;
      idle = dr.idle;
      tail = dr.tail;
    }
