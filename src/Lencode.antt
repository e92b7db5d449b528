-- ===== src/Lencode.antt =====
-- internal/lencode/lencode.go: records of a separator, a length byte and a message.
-- The decoder's reader is the list of bytes that a bytes.Reader has left; the encoder's writer is
-- any io.Writer, a state with a `Write` that may fail.
pub mod Format
pub mod RoundTrip
pub mod Errors
use blueripple_passkey.Prelude.{
  ℕ, ◌+◌, Bool, true, false, not, ◌&&◌, Option, none, some, List, [], ◌∷◌, ◌++◌, Bytes, length,
  take, drop, get_or, replicate, ltb, leb, ◌==◌, bytes_eq, if◌then◌else◌,
}

pub data Error : Type 0 where
  message_too_long separator_mismatch buffer_not_large_enough eof unexpected_eof : Error
  write_failed : ℕ → Error

-- The options that the package offers: SeparatorOpt, with `none` for a nil separator.
pub data CodecOption : Type 0 where
  separator_opt : Option Bytes → CodecOption

-- l, e, n, c
abbrev pub default_separator : Bytes
default_separator = 0x6c ∷ 0x65 ∷ 0x6e ∷ 0x63 ∷ []

pub record Encoder (W : Type 0) : Type 0 where
  pub w : W
  pub separator : Option Bytes
  pub err : Option Error

module _ {W : Type 0} where
  pub encoder_opts : Encoder W → List CodecOption → Encoder W
  encoder_opts e [] = e
  encoder_opts e (separator_opt s ∷ opts) = encoder_opts (record e { separator = s }) opts

  unfoldable pub new_encoder : W → List CodecOption → Encoder W
  unfolding encoder_opts
  new_encoder w opts =
      encoder_opts (record { w = w; separator = some default_separator; err = none }) opts

-- An io.Writer: the writer after the call, and its error.
module _ {W : Type 0} (write_to : W → Bytes → W × Option Error) where
  -- Encoder.write; its callers drop the result and look at e.err.
  written : Encoder W → W × Option Error → Encoder W
  written e (w', none) = record e { w = w' }
  written e (w', some x) = record e { w = w'; err = some x }

  unfoldable pub write : Encoder W → Bytes → Encoder W
  unfolding written
  write e b = elim e.err [ none ↦ written e (write_to e.w b) | some x ↦ e ]

  write_separator : Encoder W → Option Bytes → Encoder W
  write_separator e none = e
  write_separator e (some s) = write e s

  -- The returned error is e.err of the encoder afterwards, on every path.
  unfoldable pub encode : Encoder W → Bytes → Encoder W
  unfolding write_separator
  encode e msg = elim e.err [
    | some x ↦ e
    | none ↦
        if ltb 0xff (length msg)
        then record e { err = some message_too_long }
        else write (write (write_separator e e.separator) (length msg ∷ [])) msg
  ]

-- A bytes.Buffer takes every write.
abbrev pub buffer_write : Bytes → Bytes → Bytes × Option Error
buffer_write w b = (w ++ b, none)

-- io.ReadFull of n bytes from a bytes.Reader: the error, or what was read; and what is left.
pub data ReadResult : Type 0 where
  full : Bytes → Bytes → ReadResult
  short : Error → ReadResult

unfoldable pub read_full : Bytes → ℕ → ReadResult
read_full r n =
    if leb n (length r)
    then full (take n r) (drop n r)
    else if length r == 0
    then short eof
    else short unexpected_eof

pub record Decoder : Type 0 where
  pub r : Bytes
  pub separator : Bytes
  -- len(d.prefixBuf); its contents are overwritten before they are read
  pub prefix_len : ℕ
  pub err : Option Error
  pub pending_prefix : Bool
  pub pending_len : ℕ

-- Of the decoder's separator only its bytes are read, so a nil one is an empty one.
decoder_opts : Bytes → List CodecOption → Bytes
decoder_opts s [] = s
decoder_opts s (separator_opt none ∷ opts) = decoder_opts [] opts
decoder_opts s (separator_opt (some t) ∷ opts) = decoder_opts t opts

unfoldable pub new_decoder : Bytes → List CodecOption → Decoder
unfolding decoder_opts
new_decoder r opts =
    let s = decoder_opts default_separator opts in
    record {
      r = r;
      separator = s;
      prefix_len = length s + 1;
      err = none;
      pending_prefix = false;
      pending_len = 0;
    }

pub fail : Decoder → Error → Decoder × Option Error
fail d e = (record d { err = some e }, some e)

-- What readPrefix does with the bytes of the prefix.
check_prefix : Decoder → ReadResult → Decoder × Option Error
unfolding fail
check_prefix d (short e) = fail (record d { r = [] }) e
check_prefix d (full buf rest) =
    let n = length d.separator in
    if ltb 0 n && not (bytes_eq (take n buf) d.separator)
    then fail (record d { r = rest }) separator_mismatch
    else (record d { r = rest; pending_prefix = true; pending_len = get_or buf n 0 }, d.err)

unfoldable pub read_prefix : Decoder → Decoder × Option Error
unfolding check_prefix
read_prefix d = elim d.err [
  | some e ↦ (d, some e)
  | none ↦ if d.pending_prefix then (d, none) else check_prefix d (read_full d.r d.prefix_len)
]

-- A decoded message, an error, or the panic of a slice beyond the buffer.
pub data Decoded : Type 0 where
  ok : Bytes → Decoded
  failed : Error → Decoded
  panic : Decoded

-- io.EOF within a message is an unexpected one.
message_error : Error → Error
message_error eof = unexpected_eof
message_error e = e

read_message : Decoder → Bytes → ReadResult → Decoder × Decoded
unfolding message_error
read_message d b (short e) =
    (record d { r = []; err = some (message_error e) }, failed (message_error e))
read_message d b (full msg rest) = (
  record d { r = rest; pending_prefix = false; pending_len = 0 },
  ok (msg ++ drop (length msg) b),
)

-- The part of DecodeInto after readPrefix. The buffer's capacity is its length.
read_into : Bytes → Decoder × Option Error → Decoder × Decoded
unfolding read_message
read_into b (d, some e) = (d, failed e)
read_into b (d, none) =
    if ltb d.pending_len (length b)
    then (record d { err = some buffer_not_large_enough }, failed buffer_not_large_enough)
    else if ltb (length b) d.pending_len
    then (d, panic)
    else read_message d b (read_full d.r d.pending_len)

-- DecodeInto; the result is the buffer's new contents.
unfoldable pub decode_into : Decoder → Bytes → Decoder × Decoded
unfolding read_into
decode_into d b = read_into b (read_prefix d)

decode_rest : Decoder × Option Error → Decoder × Decoded
unfolding decode_into
decode_rest (d, some e) = (d, failed e)
decode_rest (d, none) = decode_into d (replicate d.pending_len 0)

unfoldable pub decode : Decoder → Decoder × Decoded
unfolding decode_rest
decode d = decode_rest (read_prefix d)

next_len_rest : Decoder × Option Error → Decoder × (ℕ × Option Error)
next_len_rest (d, some e) = (d, (0, some e))
next_len_rest (d, none) = (d, (d.pending_len, none))

-- NextLen
unfoldable pub next_len : Decoder → Decoder × (ℕ × Option Error)
unfolding next_len_rest
next_len d = elim d.err [
  | some e ↦ (d, (0, some e))
  | none ↦ if d.pending_prefix then (d, (d.pending_len, none)) else next_len_rest (read_prefix d)
]
