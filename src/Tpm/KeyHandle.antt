-- ===== src/Tpm/KeyHandle.antt =====
-- The key handle of tpm/tpm.go: what RegisterKey writes and how SignASN1 takes it apart.
pub mod Canonical
pub mod Oversized
use blueripple_passkey.Prelude.{
  ℕ, Bool, true, false, Option, none, some, List, [], ◌∷◌, ◌++◌, Bytes,
}
use blueripple_passkey.Lencode.{
  Error, eof, Encoder, Decoder, Decoded, ok, failed, panic, separator_opt, new_encoder, encode,
  buffer_write, new_decoder, decode,
}

-- T, P, M
abbrev pub separator : Bytes
separator = 0x54 ∷ 0x50 ∷ 0x4d ∷ []

infixl 5 ◌>>=◌
abbrev pub ◌>>=◌ {ℓ κ} : {A : Type ℓ} {B : Type κ} → Option A → (A → Option B) → Option B
none >>= f = none
some a >>= f = f a

-- The errors of the three Encode calls are dropped, as RegisterKey drops them.
unfoldable pub key_handle : Bytes → Bytes → Bytes → Bytes
unfolding new_encoder
key_handle private public seed =
    let enc = new_encoder [] (separator_opt (some separator) ∷ []) in
    (encode buffer_write (encode buffer_write (encode buffer_write enc private) public) seed).w

-- A Decode whose error makes the handle invalid. (Decode does not panic.)
decoded : Decoder × Decoded → Option (Bytes × Decoder)
decoded (d, ok m) = some (m, d)
decoded (d, failed e) = none
decoded (d, panic) = none

-- The last Decode must report the end of the input.
ended : Decoded → Option (Unit {0})
ended (failed eof) = some tt
ended _ = none

-- The private and public parts and the seed; `none` is invalidHandleErr.
unfoldable pub parse_key_handle : Bytes → Option (Bytes × Bytes × Bytes)
unfolding decoded ended
parse_key_handle h = do
  (private, dec1) ← decoded (decode (new_decoder h (separator_opt (some separator) ∷ [])))
  (public, dec2) ← decoded (decode dec1)
  (seed, dec3) ← decoded (decode dec2)
  _ ← ended (decode dec3).1
  some (private, public, seed)
