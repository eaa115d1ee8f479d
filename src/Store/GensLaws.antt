-- ===== src/Store/GensLaws.antt =====
-- src/kvspace.c, `gens_at`, `gen_bump_struct` and `gen_bump_value`: what a bump changes.
use kvspace_c.Prelude.{
  ℕ, ◌+◌, ◌%◌, ◌≡◌, ◌≢◌, refl, some, ltb, arith, Bool-cases, Option-cases, inl, inr, ==_refl,
}
use kvspace_c.Allocator.{Allocator}
use kvspace_c.Registry.{u32}
use kvspace_c.Store.State.{Store, Gens, gens_at, put_gens, bump_struct, bump_value}

module _ {A : Allocator} where
  pub gens_at-put_gens :
      (st : Store A) (id : ℕ) {g : Gens} (g' : Gens)
      → gens_at st id ≡ some g
      → gens_at (put_gens st id g') id ≡ some g'
  unfolding gens_at
  gens_at-put_gens st id g' h = elim (Bool-cases st.regions.gens.based) [
    | inr b ↦ absurd (let q = rw (gens_at, b) at h in cc q)
    | inl b ↦ elim (Bool-cases (ltb id st.regions.gen_n)) [
      | inr l ↦ absurd (let q = rw (gens_at, b, l) at h in cc q)
      | inl l ↦ rw (gens_at, b, l, ==_refl id) refl
    ]
  ]

  -- Where a node has generations, a bump adds to them modulo 2^32.
  pub gens_at-bump_struct :
      (st : Store A) (id : ℕ) {g : Gens}
      → gens_at st id ≡ some g
      → gens_at (bump_struct id st) id ≡ some (record g { struct_gen = (g.struct_gen + 1) % u32 })
  unfolding bump_struct
  gens_at-bump_struct st id {g} h =
      rw (bump_struct, h)
        (gens_at-put_gens st id (record g { struct_gen = (g.struct_gen + 1) % u32 }) h)

  pub gens_at-bump_value :
      (n : ℕ) (st : Store A) (id : ℕ) {g : Gens}
      → gens_at st id ≡ some g
      → gens_at (bump_value n id st) id ≡ some (record g { value_gen = (g.value_gen + n) % u32 })
  unfolding bump_value
  gens_at-bump_value n st id {g} h =
      rw (bump_value, h)
        (gens_at-put_gens st id (record g { value_gen = (g.value_gen + n) % u32 }) h)

  -- A bump changes nothing but the table of generations, and there only the entry of its node.
  pub bump_value-rest :
      (n : ℕ) (st : Store A) (id : ℕ)
      → (record st { gens = (bump_value n id st).gens } ≡ bump_value n id st)
        × ((i : ℕ) → i ≢ id → (bump_value n id st).gens i ≡ st.gens i)
  unfolding bump_value
  bump_value-rest n st id = elim (Option-cases (gens_at st id)) [
    | inl e ↦ rw (bump_value, e) (refl, λ i ne. refl)
    | inr (g, e) ↦ rw (bump_value, e) (refl, λ i ne. ground arith)
  ]

  pub bump_struct-rest :
      (st : Store A) (id : ℕ)
      → (record st { gens = (bump_struct id st).gens } ≡ bump_struct id st)
        × ((i : ℕ) → i ≢ id → (bump_struct id st).gens i ≡ st.gens i)
  unfolding bump_struct
  bump_struct-rest st id = elim (Option-cases (gens_at st id)) [
    | inl e ↦ rw (bump_struct, e) (refl, λ i ne. refl)
    | inr (g, e) ↦ rw (bump_struct, e) (refl, λ i ne. ground arith)
  ]
