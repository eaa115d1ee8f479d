-- ===== src/Ring/Window.antt =====
-- src/kvspace.c, the garbage ring as a queue: the entries from the head to the tail, in order.
use kvspace_c.Prelude.{
  ℕ, zero, suc, ◌+◌, ◌-◌, ◌^◌, ◌%◌, ap₂, ◌∙◌, ◌≤◌, ◌<◌, ◌≡◌, ◌≢◌, refl, ap, ◌∙◌, List, [], ◌∷◌,
  ◌++◌, arith, length, set,
}
use kvspace_c.Ring.{Entry, Ring, garb_cap, slot_of, update}

-- The `n` entries from index `h` on.
unfoldable pub window : (ℕ → Entry) → ℕ → ℕ → List Entry
window f h zero = []
window f h (suc n) = f (slot_of h) ∷ window f (h + 1) n

unfoldable pub contents : Ring → List Entry
unfolding window
contents r = window r.entries r.head (r.tail - r.head)

-- The head is not past the tail, no more than the capacity lies between them, and the counters are
-- short of the point at which they would wrap.
pub record IsValid (r : Ring) : Type 0 where
  pub ordered : r.head ≤ r.tail
  pub fits : r.tail - r.head ≤ r.cap
  pub capacity : r.cap ≡ garb_cap
  pub counters : r.tail + 1 < 2 ^ 64
  pub freed_word : r.freed_bytes < 2 ^ 64
  pub leak_word : r.leak_boxes < 2 ^ 64

pub length-window : (f : ℕ → Entry) (h n : ℕ) → length (window f h n) ≡ n
unfolding window
length-window f h zero = refl
length-window f h (suc n) = ap suc (length-window f (h + 1) n)

pub window-update_out :
    (f : ℕ → Entry) (h n t : ℕ) (e : Entry)
    → h + n ≤ t
    → t < h + garb_cap
    → window (update f (slot_of t) e) h n ≡ window f h n
unfolding window
window-update_out f h zero t e lo hi = refl
window-update_out f h (suc n) t e lo hi =
    let ne : slot_of h ≢ slot_of t = omega arith in
    ground (arith, window-update_out f (h + 1) n t e)

pub window-snoc :
    (f : ℕ → Entry) (h n : ℕ) → window f h (suc n) ≡ window f h n ++ f (slot_of (h + n)) ∷ []
unfolding window
window-snoc f h zero = let e : h + 0 ≡ h = omega arith in rw e
window-snoc f h (suc n) =
    let e : h + suc n ≡ h + 1 + n = omega arith in
    rw e (ap (λ (l : List Entry). f (slot_of h) ∷ l) (window-snoc f (h + 1) n))

-- The entry written at index `k` is the one `j` places after the head.
pub window-update_in :
    (f : ℕ → Entry) (h n j k : ℕ) (e : Entry)
    → k ≡ h + j
    → j < n
    → n ≤ garb_cap
    → window (update f (slot_of k) e) h n ≡ set (window f h n) j e
unfolding window
window-update_in f h zero j k e at lt small = absurd (omega arith)
window-update_in f h (suc n) zero k e at lt small =
    let round : slot_of (h + garb_cap) ≡ slot_of k = omega arith in
    let same : slot_of h ≡ slot_of k = omega arith in
    let out : window (update f (slot_of k) e) (h + 1) n ≡ window f (h + 1) n =
      rw round at (window-update_out f (h + 1) n (h + garb_cap) e (omega arith) (omega arith)) in
    ground (arith, out)
window-update_in f h (suc n) (suc j) k e at lt small =
    let ne : slot_of h ≢ slot_of k = omega arith in
    ground (arith, window-update_in f (h + 1) n j k e (omega arith) (omega arith))

abbrev pub behind_head : Ring → List Entry
behind_head r = window r.entries (r.head + 1) (r.tail - (r.head + 1))

pub contents-cons :
    (r : Ring) → r.head < r.tail → contents r ≡ r.entries (slot_of r.head) ∷ behind_head r
unfolding contents window
contents-cons r some_left =
    let e : r.tail - r.head ≡ suc (r.tail - (r.head + 1)) = omega arith in
    ap (window r.entries r.head) e

-- Behind the head nothing changes when the entry at the head does.
pub window-put_head :
    (r : Ring) (e : Entry)
    → IsValid r
    → r.head < r.tail
    → window (update r.entries (slot_of r.head) e) (r.head + 1) (r.tail - (r.head + 1))
      ≡ behind_head r
window-put_head r e valid some_left =
    let round : slot_of (r.head + garb_cap) ≡ slot_of r.head = omega arith in
    rw round at (
      window-update_out r.entries (r.head + 1) (r.tail - (r.head + 1)) (r.head + garb_cap) e
        (omega (arith, valid.fits, valid.capacity)) (omega arith))

-- The ring with its head moved on by one holds what was behind the head.
pub contents-advance :
    (f : ℕ → Entry) (r s : Ring)
    → IsValid r
    → r.head < r.tail
    → s.entries ≡ f
    → s.head ≡ (r.head + 1) % 2 ^ 64
    → s.tail ≡ r.tail
    → contents s ≡ window f (r.head + 1) (r.tail - (r.head + 1))
unfolding contents
contents-advance f r s valid some_left ef eh et =
    let h : s.head ≡ r.head + 1 = omega (arith, valid.counters) in
    ap (λ g. window g s.head (s.tail - s.head)) ef ∙ ap₂ (λ a b. window f a (b - a)) h et
