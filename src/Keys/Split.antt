-- ===== src/Keys/Split.antt =====
-- src/kvspace.c, `psplit` against `pjoin`, and the directory forms `edir` and `memdir`.
use kvspace_c.Prelude.{
  ℕ, ◌≤◌, ◌-◌, ◌≡◌, ◌≢◌, refl, sym, ap, ◌∙◌, ◌⊎◌, inl, inr, false, Option, none, some, [], ◌∷◌,
  ◌++◌, arith, All, length, length-append, take, take-append, Bytes, append_assoc, bytes_eq,
  bytes_eq_iff, Bool-cases,
}
use kvspace_c.Keys.{
  slash, dot, last_byte, last_but_one, pjoin, split_last, psplit, bad_dir_prefix, edir, memdir,
  deltree_base,
}

-- No byte is a slash.
abbrev pub NoSlash : Bytes → Type 0
NoSlash = All (λ c. c ≢ b'/')

pub last_byte-snoc : (s : Bytes) (c : ℕ) → last_byte (s ++ c ∷ []) ≡ c
last_byte-snoc [] c = refl
last_byte-snoc (x ∷ []) c = refl
last_byte-snoc (x ∷ y ∷ s) c = last_byte-snoc (y ∷ s) c

pub last_but_one-snoc : (s : Bytes) (c d : ℕ) → last_but_one (s ++ c ∷ d ∷ []) ≡ c
last_but_one-snoc [] c d = refl
last_but_one-snoc (x ∷ []) c d = refl
last_but_one-snoc (x ∷ y ∷ []) c d = refl
last_but_one-snoc (x ∷ y ∷ z ∷ s) c d = last_but_one-snoc (y ∷ z ∷ s) c d

split_last-NoSlash : (n : Bytes) → NoSlash n → split_last n ≡ none
unfolding split_last
split_last-NoSlash [] h = refl
split_last-NoSlash (c ∷ s) (h, hs) = ground (arith, split_last-NoSlash s hs)

split_last-append : (p n : Bytes) → NoSlash n → split_last (p ++ b'/' ∷ n) ≡ some (p ++ slash, n)
unfolding split_last
split_last-append [] n h = ground (arith, split_last-NoSlash n h)
split_last-append (c ∷ p) n h = ground (arith, split_last-append p n h)

split_last-none : (k : Bytes) → split_last k ≡ none → NoSlash k
unfolding split_last
split_last-none [] h = tt
split_last-none (c ∷ s) h = go (split_last s) refl (split_last-none s)
  where
    go :
        (o : Option (Bytes × Bytes))
        → split_last s ≡ o
        → (split_last s ≡ none → NoSlash s)
        → (c ≢ b'/') × NoSlash s
    go none e ih = (ground arith, ih e)
    go (some (p, n)) e ih = absurd (ground arith)

-- The last slash of a key, with what stands before it.
record LastSlash (k p n : Bytes) : Type 0 where
  before : Bytes
  parent : p ≡ before ++ slash
  whole : k ≡ before ++ b'/' ∷ n
  rest : NoSlash n

split_last-some : (k : Bytes) {p n : Bytes} → split_last k ≡ some (p, n) → LastSlash k p n
unfolding split_last
split_last-some [] h = cc
split_last-some (c ∷ s) {p} {n} h =
    go (split_last s) refl (λ q m. split_last-some s {p = q} {n = m})
  where
    go :
        (o : Option (Bytes × Bytes))
        → split_last s ≡ o
        → ((q m : Bytes) → split_last s ≡ some (q, m) → LastSlash s q m)
        → LastSlash (c ∷ s) p n
    go none e ih = record {
      before = [];
      parent = ground arith;
      whole = ground arith;
      rest = let r = split_last-none s e in let same : n ≡ s = ground arith in rw same r;
    }
    go (some (q, m)) e ih =
        let l = ih q m e in
        record {
          before = c ∷ l.before;
          parent = ground (arith, l.parent);
          whole = ground (arith, l.whole);
          rest = let same : n ≡ m = ground arith in rw same l.rest;
        }

pjoin-slash : (q n : Bytes) → pjoin (q ++ slash) n ≡ q ++ b'/' ∷ n
unfolding pjoin
pjoin-slash [] n = refl
pjoin-slash (c ∷ q) n =
    let e : last_byte (c ∷ (q ++ slash)) ≡ b'/' = last_byte-snoc (c ∷ q) b'/' in
    rw e (append_assoc (c ∷ q) slash n)

-- A key that has a slash is the join of the two parts that it is split into; the parent ends in a
-- slash and the name has none. A key without a slash is split into `/` and itself.
pub pjoin-psplit :
    (k : Bytes)
    → (NoSlash k × (psplit k ≡ (slash, k)))
      ⊎ ((pjoin (psplit k).0 (psplit k).1 ≡ k)
          × (last_byte (psplit k).0 ≡ b'/')
          × NoSlash (psplit k).1)
unfolding psplit
pjoin-psplit k = go (split_last k) refl
  where
    go :
        (o : Option (Bytes × Bytes))
        → split_last k ≡ o
        → (NoSlash k × (psplit k ≡ (slash, k)))
          ⊎ ((pjoin (psplit k).0 (psplit k).1 ≡ k)
              × (last_byte (psplit k).0 ≡ b'/')
              × NoSlash (psplit k).1)
    go none e = inl (split_last-none k e, rw (e, psplit))
    go (some (p, n)) e =
        let l = split_last-some k e in
        inr (
          rw (e, psplit) (ap (λ x. pjoin x n) l.parent ∙ pjoin-slash l.before n ∙ sym l.whole),
          rw (e, psplit) (ap last_byte l.parent ∙ last_byte-snoc l.before b'/'),
          rw (e, psplit) l.rest,
        )

-- The join of a directory in its `edir` form and a name without a slash splits into the two.
pub psplit-pjoin : (q n : Bytes) → NoSlash n → psplit (pjoin (q ++ slash) n) ≡ (q ++ slash, n)
unfolding psplit
psplit-pjoin q n h = rw (pjoin-slash q n, split_last-append q n h, psplit)

take-snoc : (p : Bytes) (c : ℕ) → take (length (p ++ c ∷ []) - 1) (p ++ c ∷ []) ≡ p
take-snoc p c =
    let e : length (p ++ c ∷ []) - 1 ≡ length p = omega (arith, length-append p (c ∷ [])) in
    rw e (take-append p (c ∷ []))

take-snoc_two : (p : Bytes) (c d : ℕ) → take (length (p ++ c ∷ d ∷ []) - 2) (p ++ c ∷ d ∷ []) ≡ p
take-snoc_two p c d =
    let e : length (p ++ c ∷ d ∷ []) - 2 ≡ length p = omega (arith, length-append p (c ∷ d ∷ [])) in
    rw e (take-append p (c ∷ d ∷ []))

last_byte-dot : (p : Bytes) → last_byte (p ++ dot) ≡ 0xB7
last_byte-dot p =
    let e : p ++ dot ≡ (p ++ 0xC2 ∷ []) ++ 0xB7 ∷ [] =
      sym (append_assoc p (0xC2 ∷ []) (0xB7 ∷ [])) in
    ap last_byte e ∙ last_byte-snoc (p ++ 0xC2 ∷ []) 0xB7

not_slash : (p : Bytes) → last_byte p ≢ b'/' → bytes_eq p slash ≡ false
not_slash p h = elim (Bool-cases (bytes_eq p slash)) [
  | inl e ↦ absurd (h (ap last_byte ((bytes_eq_iff p slash).0 e)))
  | inr e ↦ e
]

bad_dir_prefix-slash : (p : Bytes) → bad_dir_prefix (p ++ slash) ≡ false
unfolding bad_dir_prefix
bad_dir_prefix-slash [] = refl
bad_dir_prefix-slash (c ∷ p) = ground (arith, last_byte-snoc (c ∷ p) b'/')

bad_dir_prefix-dot : (p : Bytes) → bad_dir_prefix (p ++ dot) ≡ false
unfolding bad_dir_prefix
bad_dir_prefix-dot [] = refl
bad_dir_prefix-dot (c ∷ p) =
    ground (arith, last_byte-dot (c ∷ p), last_but_one-snoc (c ∷ p) 0xC2 0xB7)

deltree_base-slash : (p : Bytes) → deltree_base (p ++ slash) ≡ p
unfolding deltree_base
deltree_base-slash p = elim (Bool-cases (bytes_eq (p ++ slash) slash)) [
  | inl e ↦ let same : p ≡ [] = nil p ((bytes_eq_iff (p ++ slash) slash).0 e) in ground (arith)
  | inr e ↦ ground (arith, last_byte-snoc p b'/', take-snoc p b'/')
]
  where
    nil : (q : Bytes) → q ++ slash ≡ slash → q ≡ []
    nil [] h = refl
    nil (c ∷ q) h = absurd (omega (arith, ap length h, length-append q slash))

deltree_base-dot : (p : Bytes) → deltree_base (p ++ dot) ≡ p
unfolding deltree_base
deltree_base-dot p =
    let last = last_byte-dot p in
    let ns : bytes_eq (p ++ dot) slash ≡ false = not_slash (p ++ dot) (rw last (omega arith)) in
    let long : 2 ≤ length (p ++ dot) = omega (arith, length-append p dot) in
    ground (arith, last, last_but_one-snoc p 0xC2 0xB7, take-snoc_two p 0xC2 0xB7)

-- The two directory forms of a key that does not end in a slash are directories, and deleting
-- the subtree of either form starts from the key itself.
pub dirs_have_base :
    (p : Bytes)
    → last_byte p ≢ b'/'
    → (bad_dir_prefix (edir p) ≡ false)
      × (bad_dir_prefix (memdir p) ≡ false)
      × (deltree_base (edir p) ≡ p)
      × (deltree_base (memdir p) ≡ p)
unfolding edir memdir
dirs_have_base p h = (
  ground (arith, bad_dir_prefix-slash p),
  bad_dir_prefix-dot p,
  ground (arith, deltree_base-slash p),
  deltree_base-dot p,
)
