-- ===== src/Tests/CodecTests.antt =====
-- Runs of the models of lencode.go and of the key handles of tpm.go.
use blueripple_passkey.Prelude.{
  ◌≤◌, bytes_eq, ◌≡◌, ◌↔◌, refl, some, [], ◌∷◌, ◌++◌, Bytes, length, arith,
}
use blueripple_passkey.Lencode.{
  Decoder, ok, failed, panic, separator_mismatch, decode, decode_into, next_len, read_prefix,
  read_full,
}
use blueripple_passkey.Lencode.Format.{frame, ready}
use blueripple_passkey.Lencode.RoundTrip.{decode-ok}
use blueripple_passkey.Lencode.Errors.{decode_into_buffer, decode_failed_sticky}
use blueripple_passkey.Tpm.KeyHandle.{key_handle, parse_key_handle}
use blueripple_passkey.Tpm.KeyHandle.Canonical.{parse_key_handle_iff}

abbrev mark : Bytes
mark = 9 ∷ []

abbrev two_records : Bytes
two_records = 9 ∷ 2 ∷ 40 ∷ 41 ∷ 9 ∷ 0 ∷ []

decoded_first : decode (ready mark two_records) ≡ (ready mark (9 ∷ 0 ∷ []), ok (40 ∷ 41 ∷ []))
unfolding decode decode_into read_prefix read_full bytes_eq
decoded_first = refl

decode-ok_example :
    (rest : Bytes) × (two_records ≡ frame mark (40 ∷ 41 ∷ []) ++ rest)
    × (ready mark (9 ∷ 0 ∷ []) ≡ ready mark rest)
decode-ok_example =
    decode-ok mark two_records (40 ∷ 41 ∷ []) (ready mark (9 ∷ 0 ∷ [])) decoded_first

abbrev failed_decoder : Decoder
failed_decoder = (decode (ready mark (8 ∷ 2 ∷ 40 ∷ []))).0

decoded_wrong : decode (ready mark (8 ∷ 2 ∷ 40 ∷ [])) ≡ (failed_decoder, failed separator_mismatch)
unfolding decode decode_into read_prefix read_full bytes_eq
decoded_wrong = refl

decode_failed_sticky_example :
    (decode failed_decoder ≡ (failed_decoder, failed separator_mismatch))
    × (decode_into failed_decoder (0 ∷ []) ≡ (failed_decoder, failed separator_mismatch))
    × (next_len failed_decoder ≡ (failed_decoder, (0, some separator_mismatch)))
decode_failed_sticky_example =
    decode_failed_sticky (ready mark (8 ∷ 2 ∷ 40 ∷ [])) failed_decoder separator_mismatch (0 ∷ [])
      decoded_wrong

short_buffer : (decode_into (ready mark (frame mark (40 ∷ 41 ∷ []) ++ [])) (0 ∷ [])).1 ≡ panic
short_buffer = decode_into_buffer mark (40 ∷ 41 ∷ []) [] (0 ∷ [])

abbrev private_part : Bytes
private_part = 10 ∷ []

abbrev public_part : Bytes
public_part = 20 ∷ 21 ∷ []

abbrev no_seed : Bytes
no_seed = []

abbrev handle : Bytes
handle =
    0x54 ∷ 0x50 ∷ 0x4d ∷ 1 ∷ 10 ∷ 0x54 ∷ 0x50 ∷ 0x4d ∷ 2 ∷ 20 ∷ 21 ∷ 0x54 ∷ 0x50 ∷ 0x4d ∷ 0 ∷ []

parse_key_handle_iff_example :
    (parse_key_handle handle ≡ some (private_part, public_part, no_seed)) ↔ (
      (handle ≡ key_handle private_part public_part no_seed)
      × (length private_part ≤ 255)
      × (length public_part ≤ 255)
      × (length no_seed ≤ 255))
parse_key_handle_iff_example =
    parse_key_handle_iff handle private_part public_part no_seed (ground arith)
