-- ===== src/Store/Hops.antt =====
-- src/kvspace.c, `resolve_fetch`: what the key it comes to has, after at most 16 pointers.
use kvspace_c.Prelude.{
  ℕ, zero, suc, ◌+◌, ◌-◌, ◌<◌, ◌≡◌, refl, sym, ap, ◌∙◌, true, false, Option, none, some, [], ◌∷◌,
  take, length, Bytes, arith, Bool-cases, Option-cases, inl, inr,
}
use mathlib.Core.Path.{subst}
use kvspace_c.Allocator.{Allocator}
use kvspace_c.Values.{Wire, head_of, capped, bytes_at, head_len}
use kvspace_c.Store.State.{Store, search, value_of, ro_bound, read_value_ro}
use kvspace_c.Store.Reading.{
  Fetch, c_string, fetched_value, followed, resolve_loop, resolve_fetch, key_limit,
}

module _ (w : Wire) {A : Allocator} (st : Store A) where
  -- A pointer at a key that can be followed: the key to which it points is `next`.
  pub record Points (key next : Bytes) : Type 0 where
    pub node : ℕ
    pub off : ℕ
    pub head : Bytes
    pub at : search st key ≡ some node
    pub value : value_of st node ≡ some off
    pub readable : head_of w (bytes_at st.bytes off (capped (ro_bound st off))) ≡ some head
    pub is_followed : followed w st off head ≡ true
    pub target : next ≡ c_string (bytes_at st.bytes (off + head_len) (w.body_len head))

  -- From a key to another by so many pointers.
  pub data Chain : ℕ → Bytes → Bytes → Type 0 where
    stays : (key : Bytes) → Chain 0 key key
    hops :
        (n : ℕ) (key next end : Bytes) → Points key next → Chain n next end → Chain (suc n) key end

  -- What a search and a read find at a key that is no pointer to follow.
  pub record Ends (key : Bytes) (off rl : ℕ) : Type 0 where
    pub node : ℕ
    pub head : Bytes
    pub at : search st key ≡ some node
    pub value : value_of st node ≡ some off
    pub readable : head_of w (bytes_at st.bytes off (capped (ro_bound st off))) ≡ some head
    pub not_followed : followed w st off head ≡ false
    pub length_read : read_value_ro w st off ≡ some rl

  module _ (n : ℕ) (key : Bytes) where
    abbrev here : Fetch
    here = resolve_loop w st (suc n) key

    at-missing : search st key ≡ none → here.fetched ≡ none
    unfolding resolve_loop
    at-missing e = rw (resolve_loop, e) refl

    module _ (node : ℕ) (e : search st key ≡ some node) where
      at-empty : value_of st node ≡ none → here.fetched ≡ none
      unfolding resolve_loop
      at-empty f = rw (resolve_loop, e, f) refl

      module _ (off : ℕ) (f : value_of st node ≡ some off) where
        abbrev peek : Option Bytes
        peek = head_of w (bytes_at st.bytes off (capped (ro_bound st off)))

        at-bad : peek ≡ none → here.fetched ≡ none
        unfolding resolve_loop
        at-bad g = rw (resolve_loop, e, f, g) refl

        at-pointer :
            (head : Bytes)
            → peek ≡ some head
            → followed w st off head ≡ true
            → here
              ≡ resolve_loop w st n
                  (c_string (bytes_at st.bytes (off + head_len) (w.body_len head)))
        unfolding resolve_loop
        at-pointer head g p = rw (resolve_loop, e, f, g, p) refl

        at-value :
            (head : Bytes)
            → peek ≡ some head
            → followed w st off head ≡ false
            → here ≡ fetched_value w st node key off (read_value_ro w st off)
        unfolding resolve_loop
        at-value head g p = rw (resolve_loop, e, f, g, p) refl

  fetched_value-inv :
      (node : ℕ) (key : Bytes) (off : ℕ) (o : Option ℕ) {off' rl : ℕ}
      → (fetched_value w st node key off o).fetched ≡ some (off', rl)
      → (o ≡ some rl) × (off ≡ off') × ((fetched_value w st node key off o).out ≡ key)
  fetched_value-inv node key off none h = absurd (cc h)
  fetched_value-inv node key off (some rl) h = (ap some (cc h), cc h, refl)

  no_fuel : (key : Bytes) → (resolve_loop w st 0 key).fetched ≡ none
  unfolding resolve_loop
  no_fuel key = refl

  -- What the loop leads to.
  abbrev pub Led : ℕ → Bytes → ℕ → ℕ → Fetch → Type 0
  Led n key off rl f = (m : ℕ) × (m < n) × Chain m key f.out × Ends f.out off rl

  resolve_loop-Led :
      (n : ℕ) (key : Bytes) {off rl : ℕ}
      → (resolve_loop w st n key).fetched ≡ some (off, rl)
      → Led n key off rl (resolve_loop w st n key)
  resolve_loop-Led zero key h = absurd (cc (no_fuel key, h))
  resolve_loop-Led (suc n) key {off} {rl} h = elim (Option-cases (search st key)) [
    | inl e ↦ absurd (cc (at-missing n key e, h))
    | inr (node, e) ↦ elim (Option-cases (value_of st node)) [
      | inl f ↦ absurd (cc (at-empty n key node e f, h))
      | inr (o, f) ↦ elim (Option-cases (peek n key node e o f)) [
        | inl g ↦ absurd (cc (at-bad n key node e o f g, h))
        | inr (head, g) ↦ elim (Bool-cases (followed w st o head)) [
          | inl p ↦
              let next = c_string (bytes_at st.bytes (o + head_len) (w.body_len head)) in
              let step = at-pointer n key node e o f head g p in
              let (m, lt, ch, en) =
                resolve_loop-Led n next (ap (λ (z : Fetch). z.fetched) (sym step) ∙ h) in
              let pt : Points key next = record {
                node = node;
                off = o;
                head = head;
                at = e;
                value = f;
                readable = g;
                is_followed = p;
                target = refl;
              } in
              subst (Led (suc n) key off rl) (sym step)
                (suc m, omega arith, hops m key next _ pt ch, en)
          | inr p ↦
              let step = at-value n key node e o f head g p in
              let (read, same, out) =
                fetched_value-inv node key o (read_value_ro w st o)
                  (ap (λ (z : Fetch). z.fetched) (sym step) ∙ h) in
              let en : Ends key o rl = record {
                node = node;
                head = head;
                at = e;
                value = f;
                readable = g;
                not_followed = p;
                length_read = read;
              } in
              let led : Led (suc n) key off rl
                  (fetched_value w st node key o (read_value_ro w st o)) =
                rw (out, sym same) (0, omega arith, stays key, en) in
              subst (Led (suc n) key off rl) (sym step) led
        ]
      ]
    ]
  ]

  take-short : (n : ℕ) (s : Bytes) → length s < n → take (n - 1) s ≡ s
  take-short zero s h = absurd (omega arith)
  take-short (suc n) s h = rw (minus_one n) (whole n s (omega arith))
    where
      minus_one : (k : ℕ) → suc k - 1 ≡ k
      minus_one k = omega arith

      whole : (k : ℕ) (t : Bytes) → length t < suc k → take k t ≡ t
      whole zero [] q = refl
      whole zero (b ∷ t) q = absurd (omega arith)
      whole (suc k) [] q = refl
      whole (suc k) (b ∷ t) q = ap (λ r. b ∷ r) (whole k t (omega arith))

  -- A value that `resolve_fetch` reads for a path shorter than 1024 bytes is the one at the end of a
  -- chain of at most 15 pointers that begins at the path, and is itself no pointer that can be
  -- followed.
  pub resolve_fetch-Led :
      (path : Bytes) {off rl : ℕ}
      → length path < key_limit
      → (resolve_fetch w st path).fetched ≡ some (off, rl)
      → Led 16 path off rl (resolve_fetch w st path)
  unfolding resolve_fetch
  resolve_fetch-Led path {off} {rl} short h =
      let e = take-short key_limit path short in
      subst (λ p. Led 16 path off rl (resolve_loop w st 16 p)) (sym e)
        (resolve_loop-Led 16 path (rw e at h))
