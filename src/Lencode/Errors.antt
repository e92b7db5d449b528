-- ===== src/Lencode/Errors.antt =====
-- The error paths of the decoder and of the encoder, and the buffer test of DecodeInto.
use blueripple_passkey.Prelude.{
  ◌≡◌, refl, Option, none, some, ◌∷◌, ◌++◌, append_assoc, arith, Bytes, length, append-nil,
  drop_all, ltb, if◌then◌else◌, replicate,
}
use blueripple_passkey.Lencode.{
  Error, Decoder, ReadResult, ok, failed, panic, read_full, read_prefix, check_prefix, read_into,
  decode, decode_into, decode_rest, read_message, fail, buffer_not_large_enough, next_len,
}
use blueripple_passkey.Lencode.Format.{frame, ready, read_prefix_frame, read_full-append}

-- DecodeInto with a record next in the input: a buffer that is longer than the message is refused, a
-- shorter one panics, and one of the message's length receives it.
pub decode_into_buffer :
    (s m rest b : Bytes)
    → (decode_into (ready s (frame s m ++ rest)) b).1 ≡ (
        if ltb (length m) (length b)
        then failed buffer_not_large_enough
        else if ltb (length b) (length m)
        then panic
        else ok m)
unfolding decode_into read_into read_message
decode_into_buffer s m rest b =
    rw (append_assoc s (length m ∷ m) rest, read_prefix_frame s (m ++ rest) (length m))
      (ground (arith, read_full-append m rest (length m), drop_all (length m) b, append-nil m))

check_prefix-some :
    (d p : Decoder) (x : ReadResult) (e : Error)
    → check_prefix d x ≡ (p, some e)
    → d.err ≡ none
    → p.err ≡ some e
unfolding check_prefix fail
check_prefix-some d p x e h k = ground arith

read_prefix-some : (d p : Decoder) (e : Error) → read_prefix d ≡ (p, some e) → p.err ≡ some e
unfolding read_prefix
read_prefix-some d p e h = ground (arith, check_prefix-some d p (read_full d.r d.prefix_len) e)

read_into-failed :
    (d d' : Decoder) (b : Bytes) (e : Error)
    → read_into b (d, none) ≡ (d', failed e)
    → d'.err ≡ some e
unfolding read_into read_message
read_into-failed d d' b e h = ground arith

read_into_after :
    (d d' : Decoder) (b : Bytes) (e : Error) (x : Decoder × Option Error)
    → read_prefix d ≡ x
    → read_into b x ≡ (d', failed e)
    → d'.err ≡ some e
read_into_after d d' b e (p, none) q h = read_into-failed p d' b e h
read_into_after d d' b e (p, some e') q h =
    unfold read_into in ground (arith, read_prefix-some d p e' q)

decode_rest_after :
    (d d' : Decoder) (e : Error) (x : Decoder × Option Error)
    → read_prefix d ≡ x
    → decode_rest x ≡ (d', failed e)
    → d'.err ≡ some e
unfolding decode_rest decode_into
decode_rest_after d d' e (p, none) q h = read_into_after p d' (replicate p.pending_len 0) e _ refl h
decode_rest_after d d' e (p, some e') q h = ground (arith, read_prefix-some d p e' q)

-- A decoder that has failed.
all_fail :
    (d : Decoder) (e : Error) (b : Bytes)
    → d.err ≡ some e
    → (decode d ≡ (d, failed e))
      × (decode_into d b ≡ (d, failed e))
      × (next_len d ≡ (d, (0, some e)))
unfolding decode decode_into decode_rest read_into read_prefix next_len
all_fail d e b h = ground arith

-- Once a Decode has failed, Decode, DecodeInto and NextLen all fail with the same error from then
-- on and leave the decoder as it is.
pub decode_failed_sticky :
    (d d' : Decoder) (e : Error) (b : Bytes)
    → decode d ≡ (d', failed e)
    → (decode d' ≡ (d', failed e))
      × (decode_into d' b ≡ (d', failed e))
      × (next_len d' ≡ (d', (0, some e)))
unfolding decode
decode_failed_sticky d d' e b h = all_fail d' e b (decode_rest_after d d' e _ refl h)
