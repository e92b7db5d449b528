-- ===== src/Authenticator/Software.antt =====
-- The handler with the memory backend as its signer.
use blueripple_passkey.Prelude.{ℕ, ◌≡◌, refl, ap, ◌∙◌, true, Option, none, some, Bytes, length}
use blueripple_passkey.Prelude.Outcome.{Outcome, returned, refused, panics}
use blueripple_passkey.Memory
use blueripple_passkey.Memory.{Library, Mem, sign_result, unwrap, sign_opened}
use blueripple_passkey.Memory.Wrapping.{IsGcm, IsSource, register-sign}
use blueripple_passkey.Ctap2.Handler.{Env, can_sign}
use blueripple_passkey.Ctap2.Resident.{SignsOwn}

-- A result for the handler. A panic, which ends the daemon, counts as an error.
abbrev answer_of : {A : Type 0} → Outcome A → Option A
answer_of (returned a) = some a
answer_of refused = none
answer_of panics = none

abbrev mem_of : Bytes → ℕ → Mem
mem_of key n = record { master_private_key = key; sign_counter = n }

-- The state is the counter and the random source; the master key does not change.
unfoldable pub memory_env : {S : Type 0} → Library S → Bytes → Env (ℕ × S) → Env (ℕ × S)
memory_env lib key base = record base {
  register_key = λ w app.
      let (s, made) = Memory.register_key lib (mem_of key w.0) w.1 app in
      ((w.0, s), answer_of made);
  sign_asn1 = λ w handle app digest.
      let (s, sig) = Memory.sign_asn1 lib (mem_of key w.0) w.1 handle app digest in
      ((w.0, s), answer_of sig);
  counter = λ w. let (m, n) = Memory.counter (mem_of key w.0) in ((m.sign_counter, w.1), n);
}

-- ecdsa.SignASN1 gives a signature.
pub record IsSigner {S : Type 0} (lib : Library S) : Type 0 where
  pub gives :
      (s : S) (d : ℕ) (point : Bytes × Bytes) (digest : Bytes)
      → (b : Bytes) × ((lib.sign s d point digest).1 ≡ some b)

answer_of-some : {A : Type 0} (o : Outcome A) (a : A) → answer_of o ≡ some a → o ≡ returned a
answer_of-some (returned b) a h = cc
answer_of-some refused a h = absurd (cc)
answer_of-some panics a h = absurd (cc)

sign_result-some :
    {S : Type 0} (lib : Library S) (r : S × Option Bytes) (b : Bytes)
    → r.1 ≡ some b
    → (sign_result lib r).1 ≡ returned b
unfolding sign_result
sign_result-some lib (s, o) b h = rw (h, sign_result)

same_key :
    {S : Type 0} (lib : Library S) (key : Bytes) (m n : ℕ) (s : S) (handle app digest : Bytes)
    → Memory.sign_asn1 lib (mem_of key m) s handle app digest
      ≡ Memory.sign_asn1 lib (mem_of key n) s handle app digest
unfolding Memory.sign_asn1 unwrap
same_key lib key m n s handle app digest = refl

module _ {S : Type 0} (lib : Library S) (key : Bytes) (base : Env (ℕ × S)) where
  registered_as :
      (w : ℕ × S) (app id x y : Bytes)
      → ((memory_env lib key base).register_key w app).1 ≡ some (id, x, y)
      → Memory.register_key lib (mem_of key w.0) w.1 app
        ≡ ((Memory.register_key lib (mem_of key w.0) w.1 app).0, returned (id, x, y))
  unfolding memory_env
  registered_as w app id x y h =
      let made = Memory.register_key lib (mem_of key w.0) w.1 app in
      ap (λ o. (made.0, o)) (answer_of-some made.1 (id, x, y) h)

  can_sign_lem :
      (later : ℕ × S) (id app text b : Bytes)
      → (Memory.sign_asn1 lib (mem_of key later.0) later.1 id app (base.sha256 text)).1 ≡ returned b
      → (can_sign (memory_env lib key base) later id app text).1 ≡ true
  unfolding can_sign memory_env
  can_sign_lem later id app text b e = rw (e, can_sign)

  -- The memory backend, with a master key of 32 bytes, is a signer that signs with every key handle
  -- that it has made for the application, whatever its counter and its random source have come to,
  -- if digests are 32 bytes long and ECDSA gives a signature, besides what AES-GCM, the random source
  -- and the key generation do.
  pub memory-SignsOwn :
      (gcm : IsGcm lib) (source : IsSource lib) (signer : IsSigner lib)
      → length key ≡ 32
      → ((b : Bytes) → length (base.sha256 b) ≡ 32)
      → SignsOwn (memory_env lib key base)
  memory-SignsOwn gcm source signer hk hd = record {
    signs = λ w later app id x y text h.
        let digest = base.sha256 text in
        let (d, point, signed) =
          register-sign lib gcm (mem_of key w.0) source w.1
            (Memory.register_key lib (mem_of key w.0) w.1 app).0 later.1 app id x y digest hk
            (registered_as w app id x y h) (hd text) in
        let (b, given) = signer.gives later.1 d (x, y) digest in
        can_sign_lem later id app text b (
          ap (λ r. r.1) (same_key lib key later.0 w.0 later.1 id app digest ∙ signed)
          ∙ sign_result-some lib (lib.sign later.1 d (x, y) digest) b given);
  }
