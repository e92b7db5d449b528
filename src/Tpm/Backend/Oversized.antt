-- ===== src/Tpm/Backend/Oversized.antt =====
-- RegisterKey where the TPM makes a key whose parts do not fit the key handle.
use blueripple_passkey.Prelude.{
  ℕ, ◌<◌, ◌≡◌, ◌⊎◌, refl, sym, subst, codes, ◌++◌, false, Option, none, some, Bytes, length, arith,
}
use blueripple_passkey.Prelude.Outcome.{Outcome, returned, refused}
use blueripple_passkey.Tpm.KeyHandle.{key_handle, parse_key_handle}
use blueripple_passkey.Tpm.KeyHandle.Oversized.{parse-key_handle_long}
use blueripple_passkey.Tpm.Backend.{
  Library, World, Public, child_template, seed_size_bytes, big_int_of, primary_key_tmpl,
  with_loaded, with_created, with_primary, with_open, flush_after, close_after, public_point,
  register_child, register_seed, register_key, sign_parts, sign_asn1,
}

-- The calls that RegisterKey makes succeed, and CreateKey answers with these two parts.
pub record Makes {S : Type 0} (lib : Library S) (private public : Bytes) : Type 0 where
  pub opens : (s : S) → (lib.open_tpm s).1 ≡ false
  pub draws : (s : S) (n : ℕ) → (b : Bytes) × ((lib.random s n).1 ≡ some b)
  pub derives : (seed info : Bytes) (n : ℕ) → (b : Bytes) × (lib.hkdf seed info n ≡ some b)
  pub creates_primary : (s : S) (t : Public) → (p : ℕ) × ((lib.create_primary s t).1 ≡ some p)
  pub creates : (s : S) (p : ℕ) (t : Public) → (lib.create_key s p t).1 ≡ some (private, public)
  pub loads :
      (s : S) (p : ℕ) (public' private' : Bytes)
      → (k : ℕ) × ((lib.load s p public' private').1 ≡ some k)
  pub reads : (s : S) (k : ℕ) → (xy : Bytes × Bytes) × ((lib.read_public s k).1 ≡ some xy)

-- The result is a handle of these parts, for some seed.
abbrev Gives : Bytes → Bytes → Outcome (Bytes × Bytes × Bytes) → Type 0
Gives private public r = (seed x y : Bytes) × (r ≡ returned (key_handle private public seed, x, y))

module _ {S : Type 0} (lib : Library S) where
  module _ {A : Type 0} (P : Outcome A → Type 0) where
    loaded_lem :
        (w : World S) (r : S × Option ℕ) (body : World S → ℕ → World S × Outcome A) (k : ℕ)
        → r.1 ≡ some k
        → ((w' : World S) (k' : ℕ) → P (body w' k').1)
        → P (with_loaded lib w r body).1
    unfolding with_loaded flush_after
    loaded_lem w (s, none) body k e h = absurd (ground arith)
    loaded_lem w (s, some j) body k e h = h _ j

    created_lem :
        (w : World S) (r : S × Option ℕ) (body : World S → ℕ → World S × Outcome A) (p : ℕ)
        → r.1 ≡ some p
        → ((w' : World S) (p' : ℕ) → P (body w' p').1)
        → P (with_created lib w r body).1
    unfolding with_created flush_after
    created_lem w (s, none) body k e h = absurd (ground arith)
    created_lem w (s, some j) body k e h = h _ j

    primary_lem :
        (w : World S) (r : Option Public) (body : World S → ℕ → World S × Outcome A) (t : Public)
        → r ≡ some t
        → ((w' : World S) (t' : Public)
            → P (with_created lib w' (lib.create_primary w'.tpm t') body).1)
        → P (with_primary lib w r body).1
    unfolding with_primary
    primary_lem w none body t e h = absurd (ground arith)
    primary_lem w (some t') body t e h = h w t'

    open_lem :
        (w : World S) (body : World S → World S × Outcome A)
        → (lib.open_tpm w.tpm).1 ≡ false
        → ((w' : World S) → P (body w').1)
        → P (with_open lib w body).1
    unfolding with_open close_after
    open_lem w body e h = rw (e, with_open) (h _)

  parsed_none :
      (w : World S) (handle app digest : Bytes)
      → parse_key_handle handle ≡ none
      → (sign_asn1 lib w handle app digest).1 ≡ refused
  unfolding sign_asn1 with_open close_after sign_parts
  parsed_none w handle app digest e = rw (e, sign_asn1, with_open, sign_parts) (ground arith)

  module _ (private public : Bytes) (makes : Makes lib private public) where
    read_lem :
        (seed : Bytes) (w : World S) (r : S × Option (Bytes × Bytes)) (xy : Bytes × Bytes)
        → r.1 ≡ some xy
        → Gives private public (public_point lib (key_handle private public seed) w r).1
    unfolding public_point
    read_lem seed w (s, none) xy e = absurd (ground arith)
    read_lem seed w (s, some (x, y)) xy e = (seed, big_int_of x, big_int_of y, refl)

    child_lem :
        (seed : Bytes) (p : ℕ) (w : World S) (s : S)
        → Gives private public (register_child lib seed p w (s, some (private, public))).1
    unfolding register_child
    child_lem seed p w s =
        let (k, l) = makes.loads s p public private in
        loaded_lem (Gives private public) (record w { tpm = s }) (lib.load s p public private) _ k l
          (λ w' k'.
            let (xy, e) = makes.reads w'.tpm k' in
            read_lem seed w' (lib.read_public w'.tpm k') xy e)

    template_lem : (seed app : Bytes) → (t : Public) × (primary_key_tmpl lib seed app ≡ some t)
    unfolding primary_key_tmpl
    template_lem seed app =
        let (b, e) =
          makes.derives seed (codes "authentik-biometric-application-key-v1" ++ app) 64 in
        rw (e, primary_key_tmpl) (_, refl)

    seed_lem :
        (app : Bytes) (w : World S) (r : S × Option Bytes) (b : Bytes)
        → r.1 ≡ some b
        → Gives private public (register_seed lib app w r).1
    unfolding register_seed
    seed_lem app w (s, none) b e = absurd (ground arith)
    seed_lem app w (s, some seed) b e =
        let (t, l) = template_lem seed app in
        primary_lem (Gives private public) (record w { tpm = s }) (primary_key_tmpl lib seed app) _
          t l
          (λ w' t'.
            let (p, c) = makes.creates_primary w'.tpm t' in
            created_lem (Gives private public) w' (lib.create_primary w'.tpm t') _ p c (λ w'' p'.
              let made = lib.create_key w''.tpm p' child_template in
              subst (λ o. Gives private public (register_child lib seed p' w'' (made.0, o)).1)
                (sym (makes.creates w''.tpm p' child_template)) (child_lem seed p' w'' made.0)))

    registered_lem : (w : World S) (app : Bytes) → Gives private public (register_key lib w app).1
    unfolding register_key
    registered_lem w app =
        open_lem (Gives private public) w
          (λ w'. register_seed lib app w' (lib.random w'.tpm seed_size_bytes)) (makes.opens w.tpm)
          (λ w'.
            let (b, e) = makes.draws w'.tpm seed_size_bytes in
            seed_lem app w' (lib.random w'.tpm seed_size_bytes) b e)

-- Where the library's calls in RegisterKey succeed and CreateKey answers with a private or a public
-- part of more than 255 bytes: RegisterKey returns a handle and a point, not an error, and SignASN1
-- refuses this handle at any time, for every application and digest.
pub register_key_oversized :
    {S : Type 0} (lib : Library S) (private public : Bytes)
    → Makes lib private public
    → (255 < length private) ⊎ (255 < length public)
    → (w : World S) (app : Bytes)
    → (handle x y : Bytes) × ((register_key lib w app).1 ≡ returned (handle, x, y))
      × ((w' : World S) (app' digest : Bytes) → (sign_asn1 lib w' handle app' digest).1 ≡ refused)
register_key_oversized lib private public makes long w app =
    let (seed, x, y, e) = registered_lem lib private public makes w app in
    (
      key_handle private public seed,
      x,
      y,
      e,
      λ w' app' digest.
          parsed_none lib w' (key_handle private public seed) app' digest
            (parse-key_handle_long private public seed long),
    )
