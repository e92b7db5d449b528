-- ===== src/Tpm/KeyHandle/Oversized.antt =====
-- Key handles whose parts do not fit the codec's length byte.
use blueripple_passkey.Prelude.{
  ◌≤◌, ◌<◌, ◌≡◌, ◌⊎◌, inl, inr, refl, ap, ◌∙◌, none, some, [], Bytes, length, lt→ltb, arith,
}
use native.Mathlib.Decide.{dec_le}
use blueripple_passkey.Lencode.{
  Error, message_too_long, Encoder, new_encoder, encode, buffer_write, new_decoder,
}
use blueripple_passkey.Lencode.Format.{frame, decode_at_end}
use blueripple_passkey.Tpm.KeyHandle.{separator, key_handle, parse_key_handle}
use blueripple_passkey.Tpm.KeyHandle.Canonical.{writing, encode_fits, decode_last}

encode_long :
    (e : Encoder Bytes) (m : Bytes)
    → 255 < length m
    → e.err ≡ none
    → encode buffer_write e m ≡ record e { err = some message_too_long }
unfolding encode
encode_long e m h k = ground (arith, lt→ltb 255 (length m) h)

encode_stopped :
    (e : Encoder Bytes) (m : Bytes) (x : Error) → e.err ≡ some x → encode buffer_write e m ≡ e
unfolding encode
encode_stopped e m x k = ground arith

parse_one : (p : Bytes) → parse_key_handle (frame separator p) ≡ none
unfolding parse_key_handle new_decoder
parse_one p = rw (decode_last separator p, decode_at_end separator)

parse_empty : parse_key_handle [] ≡ none
unfolding parse_key_handle new_decoder
parse_empty = rw (decode_at_end separator)

abbrev stopped : Bytes → Encoder Bytes
stopped w = record (writing w) { err = some message_too_long }

encode_long_private :
    (p u s : Bytes)
    → 255 < length p
    → encode buffer_write (encode buffer_write (encode buffer_write (writing []) p) u) s
      ≡ stopped []
encode_long_private p u s h =
    rw (encode_long (writing []) p h refl, encode_stopped (stopped []) u message_too_long refl)
      (encode_stopped (stopped []) s message_too_long refl)

encode_long_public :
    (p u s : Bytes)
    → length p ≤ 255
    → 255 < length u
    → encode buffer_write (encode buffer_write (encode buffer_write (writing []) p) u) s
      ≡ stopped (frame separator p)
encode_long_public p u s h k =
    rw (encode_fits [] p h, encode_long (writing (frame separator p)) u k refl)
      (encode_stopped (stopped (frame separator p)) s message_too_long refl)

long_private : (p u s : Bytes) → 255 < length p → parse_key_handle (key_handle p u s) ≡ none
unfolding key_handle new_encoder
long_private p u s h =
    ap (λ (e : Encoder Bytes). parse_key_handle e.w) (encode_long_private p u s h) ∙ parse_empty

long_public :
    (p u s : Bytes) → length p ≤ 255 → 255 < length u → parse_key_handle (key_handle p u s) ≡ none
unfolding key_handle new_encoder
long_public p u s h k =
    ap (λ (e : Encoder Bytes). parse_key_handle e.w) (encode_long_public p u s h k) ∙ parse_one p

-- Where the private or the public part is longer than 255 bytes, RegisterKey still returns a handle,
-- which SignASN1 never accepts.
pub parse-key_handle_long :
    (p u s : Bytes)
    → (255 < length p) ⊎ (255 < length u)
    → parse_key_handle (key_handle p u s) ≡ none
parse-key_handle_long p u s (inl h) = long_private p u s h
parse-key_handle_long p u s (inr h) = elim (dec_le (length p) 255) [
  | yes k ↦ long_public p u s k h
  | no k ↦ long_private p u s (omega arith)
]
