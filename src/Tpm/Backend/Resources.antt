-- ===== src/Tpm/Backend/Resources.antt =====
-- What RegisterKey and SignASN1 take of the TPM, they give back on every path.
use blueripple_passkey.Prelude.{
  ℕ, ◌↔◌, ap, ◌≡◌, ◌≤◌, ◌<◌, refl, not, Option, none, some, List, [], ◌∷◌, Bytes, length, ◌==◌,
  if◌then◌else◌, arith, inl, inr, Bool-cases, if_intro,
}
use blueripple_passkey.Tpm.KeyHandle.{parse_key_handle}
use blueripple_passkey.Prelude.Outcome.{Outcome}
use blueripple_passkey.Tpm.Backend.{
  Library, World, Public, Call, opened, closed, created, loaded, flushed, counter, primary_key_tmpl,
  child_template, seed_size_bytes, flush_after, close_after, with_loaded, with_created,
  with_primary, with_open, public_point, register_child, register_seed, register_key, signed,
  sign_parts, sign_asn1,
}

-- What is held: the open connection, and handles within it.
pub data Held : Type 0 where
  connection : Held
  handle : ℕ → Held

-- A call gives back what was taken last, and nothing else.
unfoldable pub give_back : List Held → Call → Option (List Held)
give_back st opened = some (connection ∷ st)
give_back st (created p) = some (handle p ∷ st)
give_back st (loaded k) = some (handle k ∷ st)
give_back (connection ∷ st) closed = some st
give_back (handle k ∷ st) (flushed j) = if k == j then some st else none
give_back _ _ = none

-- What a list of calls, newest first, leaves held; none where one of them gives back something else.
unfoldable pub held : List Call → Option (List Held)
held [] = some []
held (c ∷ cs) = elim (held cs) [ none ↦ none | some st ↦ give_back st c ]

-- A run that holds the same before and after.
unfoldable pub Holds : {S A : Type 0} → List Held → World S × Outcome A → Type 0
Holds st r = held r.0.calls ≡ some st

module _ {S : Type 0} (lib : Library S) where
  with_loaded-Holds :
      {A : Type 0} (st : List Held) (w : World S) (r : S × Option ℕ)
      (body : World S → ℕ → World S × Outcome A)
      → held w.calls ≡ some st
      → ((w' : World S) (k : ℕ)
          → held w'.calls ≡ some (handle k ∷ st)
          → Holds (handle k ∷ st) (body w' k))
      → Holds st (with_loaded lib w r body)
  unfolding with_loaded flush_after Holds held give_back
  with_loaded-Holds st w (s, none) body h b = h
  with_loaded-Holds st w (s, some k) body h b =
      let e = b (record w { tpm = s; calls = loaded k ∷ w.calls }) k (rw h refl) in
      rw e (ground arith)

  with_created-Holds :
      {A : Type 0} (st : List Held) (w : World S) (r : S × Option ℕ)
      (body : World S → ℕ → World S × Outcome A)
      → held w.calls ≡ some st
      → ((w' : World S) (p : ℕ)
          → held w'.calls ≡ some (handle p ∷ st)
          → Holds (handle p ∷ st) (body w' p))
      → Holds st (with_created lib w r body)
  unfolding with_created flush_after Holds held give_back
  with_created-Holds st w (s, none) body h b = h
  with_created-Holds st w (s, some p) body h b =
      let e = b (record w { tpm = s; calls = created p ∷ w.calls }) p (rw h refl) in
      rw e (ground arith)

  with_primary-Holds :
      {A : Type 0} (st : List Held) (w : World S) (t : Option Public)
      (body : World S → ℕ → World S × Outcome A)
      → held w.calls ≡ some st
      → ((w' : World S) (p : ℕ)
          → held w'.calls ≡ some (handle p ∷ st)
          → Holds (handle p ∷ st) (body w' p))
      → Holds st (with_primary lib w t body)
  unfolding with_primary
  with_primary-Holds st w none body h b = unfold Holds in h
  with_primary-Holds st w (some t) body h b =
      with_created-Holds st w (lib.create_primary w.tpm t) body h b

  with_open-Holds :
      {A : Type 0} (st : List Held) (w : World S) (body : World S → World S × Outcome A)
      → held w.calls ≡ some st
      → ((w' : World S)
          → held w'.calls ≡ some (connection ∷ st)
          → Holds (connection ∷ st) (body w'))
      → Holds st (with_open lib w body)
  unfolding with_open close_after Holds held give_back
  with_open-Holds st w body h b =
      let e = b (record w { tpm = (lib.open_tpm w.tpm).0; calls = opened ∷ w.calls }) (rw h refl) in
      elim (Bool-cases (lib.open_tpm w.tpm).1) [ inl f ↦ rw f h | inr f ↦ rw (f, e) refl ]

  public_point-Holds :
      (st : List Held) (b : Bytes) (w : World S) (r : S × Option (Bytes × Bytes))
      → held w.calls ≡ some st
      → Holds st (public_point lib b w r)
  unfolding public_point Holds
  public_point-Holds st b w (s, none) h = h
  public_point-Holds st b w (s, some p) h = h

  signed-Holds :
      (st : List Held) (w : World S) (r : S × Option (Bytes × Bytes))
      → held w.calls ≡ some st
      → Holds st (signed lib w r)
  unfolding signed Holds
  signed-Holds st w (s, none) h = h
  signed-Holds st w (s, some rs) h = ground arith

  register_child-Holds :
      (st : List Held) (seed : Bytes) (p : ℕ) (w : World S) (r : S × Option (Bytes × Bytes))
      → held w.calls ≡ some st
      → Holds st (register_child lib seed p w r)
  unfolding register_child
  register_child-Holds st seed p w (s, none) h = unfold Holds in h
  register_child-Holds st seed p w (s, some (private, public)) h =
      with_loaded-Holds st (record w { tpm = s }) (lib.load s p public private) _ h
        (λ w' k h'. public_point-Holds (handle k ∷ st) _ w' (lib.read_public w'.tpm k) h')

  register_seed-Holds :
      (st : List Held) (app : Bytes) (w : World S) (r : S × Option Bytes)
      → held w.calls ≡ some st
      → Holds st (register_seed lib app w r)
  unfolding register_seed
  register_seed-Holds st app w (s, none) h = unfold Holds in h
  register_seed-Holds st app w (s, some seed) h =
      with_primary-Holds st (record w { tpm = s }) (primary_key_tmpl lib seed app) _ h
        (λ w' p h'.
          register_child-Holds (handle p ∷ st) seed p w' (lib.create_key w'.tpm p child_template)
            h')

  sign_parts-Holds :
      (st : List Held) (app digest : Bytes) (w : World S) (r : Option (Bytes × Bytes × Bytes))
      → held w.calls ≡ some st
      → Holds st (sign_parts lib app digest w r)
  unfolding sign_parts
  sign_parts-Holds st app digest w none h = unfold Holds in h
  sign_parts-Holds st app digest w (some (private, public, seed)) h =
      with_primary-Holds st w (primary_key_tmpl lib seed app) _ h (λ w' p h'.
        with_loaded-Holds (handle p ∷ st) w' (lib.load w'.tpm p public private) _ h' (λ w'' k h''.
          signed-Holds (handle k ∷ handle p ∷ st) w'' (lib.sign_digest w''.tpm k digest) h''))

  -- RegisterKey and SignASN1 hold the same before and after, whatever the library's calls answer,
  -- also where they return an error or panic: for every connection Close is called and for every
  -- handle FlushContext, once, in the opposite order of their making. Whether those two calls
  -- succeed is not said.
  pub all_given_back :
      (st : List Held) (w : World S) (key app digest : Bytes)
      → held w.calls ≡ some st
      → (held (register_key lib w app).0.calls ≡ some st)
        × (held (sign_asn1 lib w key app digest).0.calls ≡ some st)
  unfolding register_key sign_asn1 Holds
  all_given_back st w key app digest h = (
    with_open-Holds st w (λ w'. register_seed lib app w' (lib.random w'.tpm seed_size_bytes)) h
        (λ w' h'.
          register_seed-Holds (connection ∷ st) app w' (lib.random w'.tpm seed_size_bytes) h'),
    if_intro (Holds st) (not (length digest == 32)) _ _ (λ _. h)
        (λ _.
          with_open-Holds st w (λ w'. sign_parts lib app digest w' (parse_key_handle key)) h
            (λ w' h'. sign_parts-Holds (connection ∷ st) app digest w' (parse_key_handle key) h')),
  )

-- While the clock stands between 2021 and the wrap of 32 bits in 2157, the counter never goes back,
-- and stands still exactly within a second.
pub counter-le :
    (t u : ℕ)
    → 1609459200 ≤ t
    → t ≤ u
    → u < 5904426496
    → (counter t ≤ counter u) × ((counter t ≡ counter u) ↔ (t ≡ u))
unfolding counter
counter-le t u h k l = (omega arith, ((λ e. omega arith), (λ e. ap counter e)))
