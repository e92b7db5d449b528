-- ===== src/Tpm/Backend.antt =====
-- RegisterKey, SignASN1 and Counter of tpm/tpm.go. The calls of go-tpm, of HKDF, of the random source
-- and of encoding/asn1 are parameters; S is the state of the TPM behind them.
pub mod Resources
pub mod Oversized
use blueripple_passkey.Prelude.{
  ℕ, ◌+◌, ◌%◌, Bool, true, false, not, Option, none, some, List, [], ◌∷◌, ◌++◌, Bytes, length, take,
  drop, replicate, ◌==◌, if◌then◌else◌, codes,
}
use blueripple_passkey.Prelude.Outcome.{Outcome, returned, refused, panics}
use blueripple_passkey.Tpm.KeyHandle.{key_handle, parse_key_handle}

pub data Attribute : Type 0 where
  restricted decrypt fixed_tpm fixed_parent sensitive_data_origin user_with_auth sign : Attribute

pub data Scheme : Type 0 where
  aes_128_cfb ecdsa_sha256 : Scheme

-- tpm2.Public of an ECC key on P-256 with SHA-256 names: what the two templates differ in.
pub record Public : Type 0 where
  pub attributes : List Attribute
  pub scheme : Scheme
  pub x_raw : Bytes
  pub y_raw : Bytes

pub record Library (S : Type 0) : Type 0 where
  -- whether it failed
  pub open_tpm : S → S × Bool
  pub random : S → ℕ → S × Option Bytes
  pub hkdf : Bytes → Bytes → ℕ → Option Bytes
  pub create_primary : S → Public → S × Option ℕ
  -- the private and the public part
  pub create_key : S → ℕ → Public → S × Option (Bytes × Bytes)
  -- parent, public and private part
  pub load : S → ℕ → Bytes → Bytes → S × Option ℕ
  pub read_public : S → ℕ → S × Option (Bytes × Bytes)
  pub sign_digest : S → ℕ → Bytes → S × Option (Bytes × Bytes)
  -- whether it failed, which the code ignores
  pub flush_context : S → ℕ → S × Bool
  pub close : S → S × Bool
  pub marshal : Bytes × Bytes → Option Bytes

-- The calls that take something of the TPM, where they succeed, and those that give it back, whether
-- or not they succeed.
pub data Call : Type 0 where
  opened closed : Call
  created loaded flushed : ℕ → Call

-- The calls stand newest first.
pub record World (S : Type 0) : Type 0 where
  pub tpm : S
  pub calls : List Call

abbrev pub seed_size_bytes : ℕ
seed_size_bytes = 20

abbrev pub sensitive_key : List Attribute
sensitive_key = fixed_tpm ∷ fixed_parent ∷ sensitive_data_origin ∷ user_with_auth ∷ []

abbrev pub child_template : Public
child_template = record {
  attributes = sensitive_key ++ sign ∷ [];
  scheme = ecdsa_sha256;
  x_raw = replicate 32 0;
  y_raw = replicate 32 0;
}

-- uint32(unix - baseTime.Unix()), where baseTime is 1609459200 and 2685508096 its negative
unfoldable pub counter : ℕ → ℕ
counter unix = (unix + 2685508096) % 4294967296

-- The number that big.Int's SetBytes makes of bytes, as its bytes without leading zeros.
unfoldable pub big_int_of : Bytes → Bytes
big_int_of [] = []
big_int_of (b ∷ bs) = let rest = big_int_of bs in if b == 0 then rest else b ∷ bs

module _ {S : Type 0} (lib : Library S) where
  -- primaryKeyTmpl; none is its panic.
  unfoldable pub primary_key_tmpl : Bytes → Bytes → Option Public
  primary_key_tmpl seed app =
      elim (lib.hkdf seed (codes "authentik-biometric-application-key-v1" ++ app) 64) [
        | none ↦ none
        | some derived ↦ some (record {
          attributes = restricted ∷ decrypt ∷ sensitive_key;
          scheme = aes_128_cfb;
          x_raw = take 32 derived;
          y_raw = drop 32 derived;
        })
      ]

  -- The deferred calls, which run on every way out.
  unfoldable pub flush_after : {A : Type 0} → ℕ → World S × Outcome A → World S × Outcome A
  flush_after h (w, r) =
      (record w { tpm = (lib.flush_context w.tpm h).0; calls = flushed h ∷ w.calls }, r)

  unfoldable pub close_after : {A : Type 0} → World S × Outcome A → World S × Outcome A
  close_after (w, r) = (record w { tpm = (lib.close w.tpm).0; calls = closed ∷ w.calls }, r)

  -- A body with a loaded key, which is flushed behind it.
  unfoldable pub with_loaded :
      {A : Type 0}
      → World S
      → S × Option ℕ
      → (World S → ℕ → World S × Outcome A)
      → World S × Outcome A
  unfolding flush_after
  with_loaded w (s, none) body = (record w { tpm = s }, refused)
  with_loaded w (s, some k) body =
      flush_after k (body (record w { tpm = s; calls = loaded k ∷ w.calls }) k)

  -- A body with the primary key of a seed and an application, which is flushed behind it.
  with_created :
      {A : Type 0}
      → World S
      → S × Option ℕ
      → (World S → ℕ → World S × Outcome A)
      → World S × Outcome A
  unfolding flush_after
  with_created w (s, none) body = (record w { tpm = s }, refused)
  with_created w (s, some p) body =
      flush_after p (body (record w { tpm = s; calls = created p ∷ w.calls }) p)

  unfoldable pub with_primary :
      {A : Type 0}
      → World S
      → Option Public
      → (World S → ℕ → World S × Outcome A)
      → World S × Outcome A
  unfolding with_created
  with_primary w none body = (w, panics)
  with_primary w (some template) body = with_created w (lib.create_primary w.tpm template) body

  -- A body with an open TPM, which is closed behind it.
  unfoldable pub with_open :
      {A : Type 0} → World S → (World S → World S × Outcome A) → World S × Outcome A
  unfolding close_after
  with_open w body =
      let (s, failed) = lib.open_tpm w.tpm in
      if failed
      then (record w { tpm = s }, refused)
      else close_after (body (record w { tpm = s; calls = opened ∷ w.calls }))

  -- The result's coordinates are big numbers, each as its bytes without leading zeros.
  public_point :
      Bytes → World S → S × Option (Bytes × Bytes) → World S × Outcome (Bytes × Bytes × Bytes)
  public_point handle w (s, none) = (record w { tpm = s }, refused)
  public_point handle w (s, some (x, y)) =
      (record w { tpm = s }, returned (handle, big_int_of x, big_int_of y))

  -- RegisterKey from CreateKey's result on.
  unfoldable pub register_child :
      Bytes → ℕ → World S → S × Option (Bytes × Bytes) → World S × Outcome (Bytes × Bytes × Bytes)
  unfolding public_point with_loaded
  register_child seed p w (s, none) = (record w { tpm = s }, refused)
  register_child seed p w (s, some (private, public)) =
      with_loaded (record w { tpm = s }) (lib.load s p public private)
        (λ w' k. public_point (key_handle private public seed) w' (lib.read_public w'.tpm k))

  register_seed : Bytes → World S → S × Option Bytes → World S × Outcome (Bytes × Bytes × Bytes)
  unfolding with_primary register_child
  register_seed app w (s, none) = (record w { tpm = s }, panics)
  register_seed app w (s, some seed) =
      with_primary (record w { tpm = s }) (primary_key_tmpl seed app)
        (λ w' p. register_child seed p w' (lib.create_key w'.tpm p child_template))

  unfoldable pub register_key : World S → Bytes → World S × Outcome (Bytes × Bytes × Bytes)
  unfolding with_open register_seed
  register_key w app = with_open w (λ w'. register_seed app w' (lib.random w'.tpm seed_size_bytes))

  signed : World S → S × Option (Bytes × Bytes) → World S × Outcome Bytes
  signed w (s, none) = (record w { tpm = s }, refused)
  signed w (s, some rs) = elim (lib.marshal rs) [
    | none ↦ (record w { tpm = s }, refused)
    | some der ↦ (record w { tpm = s }, returned der)
  ]

  -- SignASN1 from the parts of the key handle on.
  unfoldable pub sign_parts :
      Bytes → Bytes → World S → Option (Bytes × Bytes × Bytes) → World S × Outcome Bytes
  unfolding with_primary with_loaded signed
  sign_parts app digest w none = (w, refused)
  sign_parts app digest w (some (private, public, seed)) =
      with_primary w (primary_key_tmpl seed app) (λ w' p.
        with_loaded w' (lib.load w'.tpm p public private)
          (λ w'' k. signed w'' (lib.sign_digest w''.tpm k digest)))

  unfoldable pub sign_asn1 : World S → Bytes → Bytes → Bytes → World S × Outcome Bytes
  unfolding with_open sign_parts
  sign_asn1 w handle app digest =
      if not (length digest == 32)
      then (w, refused)
      else with_open w (λ w'. sign_parts app digest w' (parse_key_handle handle))
