-- ===== src/View/Writing.antt =====
-- src/kvspace.c, `kvspaceShmViewWrite`: what it writes, and when it writes nothing.
use kvspace_c.Prelude.{
  ℕ, ◌+◌, ◌%◌, ◌≤◌, ◌≡◌, ◌≢◌, refl, sym, ap, ◌∙◌, Bool, true, ◌&&◌, some, leb, ◌==◌, length, Bytes,
  arith, Bool-cases, inl, inr,
}
use kvspace_c.Allocator.{Allocator}
use kvspace_c.Registry.{u32}
use kvspace_c.Values.{Wire, head_len, bytes_at}
use kvspace_c.Values.Memory.{Outside, write_at-Outside, bytes_at-write_at}
use kvspace_c.Store.{Store, Gens, gens_at, bump_value, put_gens, value_of, written}
use kvspace_c.Store.GensLaws.{gens_at-put_gens}
use kvspace_c.View.{
  Token, Answer, done, stale, refused, view_check, body_written, write_checked, view_write,
}
use kvspace_c.View.Fresh.{Current, Current-view_check}

abbrev raised : ℕ → Gens → Gens
raised n g = record g { value_gen = (g.value_gen + n) % u32 }

raised-raised : (g : Gens) → raised 1 (raised 1 g) ≡ raised 2 g
raised-raised g =
    let e : ((g.value_gen + 1) % u32 + 1) % u32 ≡ (g.value_gen + 2) % u32 = omega arith in
    ap (λ v. record g { value_gen = v }) e

module _ {A : Allocator} where
  -- The test of the length of what is written.
  abbrev fits_body : Wire → Store A → Token → Bytes → Bool
  fits_body w st tok buf =
      length buf == w.body_len (bytes_at st.bytes tok.head head_len)
      && leb (length buf) tok.body_cap

  write_checked-kept :
      (w : Wire) (st : Store A) (tok : Token) (buf : Bytes) (a : Answer)
      → (write_checked w st tok buf a).0 ≢ done
      → write_checked w st tok buf a ≡ ((write_checked w st tok buf a).0, tok, st)
  unfolding write_checked
  write_checked-kept w st tok buf refused h = refl
  write_checked-kept w st tok buf stale h = refl
  write_checked-kept w st tok buf done h =
      let fits = fits_body w st tok buf in
      elim (Bool-cases fits) [
        | inl yes' ↦ absurd (h (rw (write_checked, yes') refl))
        | inr no' ↦ rw (write_checked, no') refl
      ]

  -- An answer other than 0 changes neither the token nor the store.
  pub view_write-kept :
      (w : Wire) (st : Store A) (tok : Token) (buf : Bytes)
      → (view_write w st tok buf).0 ≢ done
      → view_write w st tok buf ≡ ((view_write w st tok buf).0, tok, st)
  unfolding view_write
  view_write-kept w st tok buf h = write_checked-kept w st tok buf (view_check st tok) h

  -- What a write through a current token leaves: the bytes at the body, every other byte as it was,
  -- the value generation of the node two higher, and nothing else changed.
  pub record ViewWritten (st : Store A) (tok : Token) (g : Gens) (buf : Bytes) (st' : Store A)
      : Type 0 where
    pub there : bytes_at st'.bytes (tok.head + head_len) (length buf) ≡ buf
    pub elsewhere :
        (i : ℕ) → Outside (tok.head + head_len) (length buf) i → st'.bytes i ≡ st.bytes i
    pub gens_here :
        gens_at st' tok.node_id ≡ some (record g { value_gen = (g.value_gen + 2) % u32 })
    pub gens_elsewhere : (i : ℕ) → i ≢ tok.node_id → st'.gens i ≡ st.gens i
    pub rest : record st { bytes = st'.bytes; gens = st'.gens } ≡ st'

  bump_value-eq :
      (n : ℕ) (st : Store A) (id : ℕ) {g : Gens}
      → gens_at st id ≡ some g
      → bump_value n id st ≡ put_gens st id (raised n g)
  unfolding bump_value
  bump_value-eq n st id h = rw (bump_value, h) refl

  -- The table of generations does not depend on the bytes.
  gens_at-written :
      (st : Store A) (off : ℕ) (buf : Bytes) (id : ℕ)
      → gens_at (written st off buf) id ≡ gens_at st id
  unfolding gens_at
  gens_at-written st off buf id = refl

  module _ (st : Store A) (tok : Token) (buf : Bytes) {g : Gens}
      (at : gens_at st tok.node_id ≡ some g) where
    abbrev first : Store A
    first = written (put_gens st tok.node_id (raised 1 g)) (tok.head + head_len) buf

    gens_at-first : gens_at first tok.node_id ≡ some (raised 1 g)
    gens_at-first =
        gens_at-written (put_gens st tok.node_id (raised 1 g)) (tok.head + head_len) buf tok.node_id
        ∙ gens_at-put_gens st tok.node_id (raised 1 g) at

    body_written-eq : body_written st tok buf ≡ put_gens first tok.node_id (raised 2 g)
    unfolding body_written
    body_written-eq =
        ap (λ s. bump_value 1 tok.node_id (written s (tok.head + head_len) buf))
          (bump_value-eq 1 st tok.node_id at)
        ∙ bump_value-eq 1 first tok.node_id gens_at-first
        ∙ ap (put_gens first tok.node_id) (raised-raised g)

    body_written-ViewWritten : ViewWritten st tok g buf (body_written st tok buf)
    body_written-ViewWritten = rw body_written-eq (record {
      there = bytes_at-write_at st.bytes (tok.head + head_len) buf;
      elsewhere = write_at-Outside st.bytes (tok.head + head_len) buf;
      gens_here = gens_at-put_gens first tok.node_id (raised 2 g) gens_at-first;
      gens_elsewhere = λ i ne. ground arith;
      rest = refl;
    })

    value_of-first :
        value_of (put_gens first tok.node_id (raised 2 g)) tok.node_id ≡ value_of st tok.node_id
    unfolding value_of
    value_of-first = refl

    body_written-Current :
        Current st tok → Current (body_written st tok buf) (record tok { value_len = length buf })
    body_written-Current c =
        let (g', at', same) = c.gens in
        let q : some g ≡ some g' = sym at ∙ at' in
        let one : g.struct_gen ≡ g'.struct_gen = cc q in
        rw body_written-eq (record {
          in_use = c.in_use;
          store = c.store;
          epoch = c.epoch;
          gens = (
            raised 2 g,
            gens_at-put_gens first tok.node_id (raised 2 g) gens_at-first,
            one ∙ same,
          );
          value = value_of-first ∙ c.value;
        })

  -- A write of as many bytes as the body has, within the capacity, through a current token answers 0;
  -- it writes the body and raises the value generation of the node by two, and nothing else, and
  -- the token is still current.
  pub view_write-ViewWritten :
      (w : Wire) (st : Store A) (tok : Token) (buf : Bytes)
      → Current st tok
      → length buf ≡ w.body_len (bytes_at st.bytes tok.head head_len)
      → length buf ≤ tok.body_cap
      → let (a, tok', st') = view_write w st tok buf in
        (a ≡ done)
        × Current st' tok'
        × ((g : Gens) × (gens_at st tok.node_id ≡ some g) × ViewWritten st tok g buf st')
  unfolding view_write write_checked
  view_write-ViewWritten w st tok buf c len fits =
      let (g, at, same) = c.gens in
      let yes' : fits_body w st tok buf ≡ true = ground (arith, len) in
      rw (Current-view_check st tok c, write_checked, yes')
        (
          refl,
          body_written-Current st tok buf at c,
          (g, at, body_written-ViewWritten st tok buf at),
        )
