-- ===== src/Memory.antt =====
-- memory/memory.go: the backend for tests, whose key handles hold the wrapped private keys. The calls
-- of crypto/aes, crypto/cipher, crypto/ecdsa, crypto/elliptic, crypto/rand and crypto/sha256 are
-- parameters; S is the state of the random source.
pub mod Wrapping
use blueripple_passkey.Prelude.{
  ℕ, ◌+◌, ◌*◌, ◌%◌, Bool, not, Option, none, some, [], ◌∷◌, ◌++◌, Bytes, length, take, drop, ltb,
  ◌==◌, if◌then◌else◌, codes,
}
use blueripple_passkey.Prelude.Outcome.{Outcome, returned, refused, panics}

pub record Library (S : Type 0) : Type 0 where
  -- rand.Read
  pub random : S → ℕ → S × Option Bytes
  -- elliptic.GenerateKey on P-256: the private key and the bytes of the coordinates
  pub generate_key : S → S × Option (Bytes × Bytes × Bytes)
  pub sha256 : Bytes → Bytes
  -- whether aes.NewCipher or cipher.NewGCM fails with the key
  pub gcm_fails : Bytes → Bool
  pub nonce_size : ℕ
  -- AES-GCM under a key: nonce, text, additional data
  pub seal : Bytes → Bytes → Bytes → Bytes → Bytes
  pub open_sealed : Bytes → Bytes → Bytes → Bytes → Option Bytes
  -- ScalarBaseMult with the bytes of a number
  pub scalar_base_mult : ℕ → Bytes × Bytes
  -- ecdsa.SignASN1 with D and the point of the key
  pub sign : S → ℕ → Bytes × Bytes → Bytes → S × Option Bytes

pub record Mem : Type 0 where
  pub master_private_key : Bytes
  pub sign_counter : ℕ

-- big.Int.SetBytes
unfoldable pub set_bytes : ℕ → Bytes → ℕ
set_bytes n [] = n
set_bytes n (c ∷ b) = set_bytes (n * 256 + c) b

-- Add(1) of an atomic 32-bit number
unfoldable pub counter : Mem → Mem × ℕ
counter m = let n = (m.sign_counter + 1) % 4294967296 in (record m { sign_counter = n }, n)

module _ {S : Type 0} (lib : Library S) where
  -- mustRand, and what goes on with the bytes
  with_random : {A : Type 0} → S × Option Bytes → (S → Bytes → S × Outcome A) → S × Outcome A
  with_random (s, none) body = (s, panics)
  with_random (s, some b) body = body s b

  unfoldable pub new : S → S × Outcome Mem
  unfolding with_random
  new s =
      with_random (lib.random s 32)
        (λ s' b. (s', returned (record { master_private_key = b; sign_counter = 0 })))

  -- The additional data that binds a handle to its application.
  unfoldable pub wrapping_sum : Bytes → Bytes
  wrapping_sum app = lib.sha256 (codes "fido_wrapping_key" ++ app)

  -- The nonce and the private key under it.
  unfoldable pub wrapped : Mem → Bytes → Bytes → Bytes → Bytes
  wrapped m app nonce private =
      nonce ++ lib.seal m.master_private_key nonce private (wrapping_sum app)

  register_child :
      Mem → Bytes → S × Option (Bytes × Bytes × Bytes) → S × Outcome (Bytes × Bytes × Bytes)
  unfolding with_random
  register_child m app (s, none) = (s, refused)
  register_child m app (s, some (private, x, y)) =
      if lib.gcm_fails m.master_private_key
      then (s, refused)
      else with_random (lib.random s lib.nonce_size) (λ s' nonce.
        let handle = wrapped m app nonce private in
        (s', if ltb 255 (length handle) then panics else returned (handle, x, y)))

  unfoldable pub register_key : Mem → S → Bytes → S × Outcome (Bytes × Bytes × Bytes)
  unfolding register_child
  register_key m s app = register_child m app (lib.generate_key s)

  unfoldable pub sign_result : S × Option Bytes → S × Outcome Bytes
  sign_result (s, none) = (s, refused)
  sign_result (s, some sig) = (s, returned sig)

  -- SignASN1 from the text of the handle on.
  unfoldable pub sign_opened : S → Bytes → Option Bytes → S × Outcome Bytes
  unfolding sign_result
  sign_opened s digest none = (s, refused)
  sign_opened s digest (some private) =
      let d = set_bytes 0 private in sign_result (lib.sign s d (lib.scalar_base_mult d) digest)

  -- From a handle to the private key in it, past the tests of its length.
  unfoldable pub unwrap : Mem → Bytes → Bytes → Option Bytes
  unwrap m handle app =
      if lib.gcm_fails m.master_private_key
      then none
      else if ltb (length handle) lib.nonce_size
      then none
      else lib.open_sealed m.master_private_key (take lib.nonce_size handle)
          (drop lib.nonce_size handle) (wrapping_sum app)

  unfoldable pub sign_asn1 : Mem → S → Bytes → Bytes → Bytes → S × Outcome Bytes
  unfolding sign_opened
  sign_asn1 m s handle app digest =
      if not (length digest == 32) then (s, refused) else sign_opened s digest (unwrap m handle app)
