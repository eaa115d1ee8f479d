-- ===== src/Registry/Stat.antt =====
-- src/kvspace.c, `p2_proc_starttime` on Linux: the start time of a process from its `/proc/<pid>/stat`.
-- `strtoull` is the C library's and a parameter.
use kvspace_c.Prelude.{
  ℕ, ◌+◌, ◌≡◌, refl, true, false, Bool, ◌&&◌, ◌||◌, Option, none, some, [], ◌∷◌, ◌++◌, ◌==◌,
  if◌then◌else◌, Bytes,
}
use kvspace_c.Registry.{Proc, running, gone, unknown}

-- What `fopen` and `fread` of the file give: `ENOENT`, another error, or at most 1023 bytes.
pub data StatFile : Type 0 where
  absent : StatFile
  failed : StatFile
  text : Bytes → StatFile

abbrev pub until_nul : Bytes → Bytes
until_nul [] = []
until_nul (c ∷ s) = if c == 0 then [] else c ∷ until_nul s

-- What stands behind the last `)`.
unfoldable pub behind_paren : Bytes → Option Bytes
behind_paren [] = none
behind_paren (c ∷ s) = elim (behind_paren s) [
  | some t ↦ some t
  | none ↦ if c == b')' then some s else none
]

-- The loop over the fields, inside a field that is passed over or before the next one.
unfoldable pub fields : (Bytes → ℕ) → Bool → ℕ → Bytes → Proc
fields strtoull inside n [] = unknown
fields strtoull true n (c ∷ s) =
    let outside = fields strtoull false (n + 1) s in
    let on = fields strtoull true n s in if c == b' ' then outside else on
fields strtoull false n (c ∷ s) =
    let outside = fields strtoull false n s in
    let on = fields strtoull true n s in
    if c == b' '
    then outside
    else if n == 3 && (c == b'Z' || c == b'X')
    then gone
    else if n == 22
    then running (strtoull (c ∷ s))
    else on

-- The fields from the third on.
unfoldable pub start_field : (Bytes → ℕ) → Option Bytes → Proc
unfolding fields
start_field strtoull none = unknown
start_field strtoull (some s) = fields strtoull false 3 s

-- `p2_proc_starttime`
unfoldable pub proc_starttime : (Bytes → ℕ) → StatFile → Proc
unfolding start_field behind_paren
proc_starttime strtoull absent = gone
proc_starttime strtoull failed = unknown
proc_starttime strtoull (text s) = start_field strtoull (behind_paren (until_nul s))

-- The name of the program may hold anything, parentheses too: only what stands behind the last one
-- counts.
pub behind_paren-append :
    (p s : Bytes) → behind_paren s ≡ none → behind_paren (p ++ b')' ∷ s) ≡ some s
unfolding behind_paren
behind_paren-append [] s h = rw (behind_paren, h) refl
behind_paren-append (c ∷ p) s h = rw (behind_paren, behind_paren-append p s h) refl
