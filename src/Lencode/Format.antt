-- ===== src/Lencode/Format.antt =====
-- The record format: what one encoded message is, and how the steps of the codec meet it.
use blueripple_passkey.Prelude.{
  ℕ, ◌+◌, ◌≡◌, refl, true, false, none, [], ◌∷◌, ◌++◌, append_assoc, arith, Bytes, length,
  length-append, drop_all, get_or, length-replicate, take-append_length, drop-append_length,
  bytes_eq_refl, le→ltb, append-nil,
}
use blueripple_passkey.Lencode.{
  Decoder, ok, failed, full, eof, read_full, read_prefix, check_prefix, decode, decode_into,
}

abbrev pub frame : Bytes → Bytes → Bytes
frame s m = s ++ length m ∷ m

-- A decoder between two records.
abbrev pub ready : Bytes → Bytes → Decoder
ready s r = record {
  r = r;
  separator = s;
  prefix_len = length s + 1;
  err = none;
  pending_prefix = false;
  pending_len = 0;
}

-- A decoder that has read the prefix of a record of n bytes.
abbrev pub pending : Bytes → Bytes → ℕ → Decoder
pending s r n = record (ready s r) { pending_prefix = true; pending_len = n }

pub read_full-append : (xs ys : Bytes) (n : ℕ) → n ≡ length xs → read_full (xs ++ ys) n ≡ full xs ys
unfolding read_full
read_full-append xs ys n h =
    ground (arith, length-append xs ys, take-append_length n xs ys, drop-append_length n xs ys)

get_or-append : (s : Bytes) (x : ℕ) → get_or (s ++ x ∷ []) (length s) 0 ≡ x
get_or-append [] x = refl
get_or-append (y ∷ s) x = get_or-append s x

check_prefix_full :
    (s r rest : Bytes) (n : ℕ)
    → check_prefix (ready s r) (full (s ++ n ∷ []) rest) ≡ (pending s rest n, none)
unfolding check_prefix
check_prefix_full s r rest n =
    rw (take-append_length (length s) s (n ∷ []) refl, bytes_eq_refl s, get_or-append s n)
      (ground arith)

pub read_prefix_frame :
    (s rest : Bytes) (n : ℕ) → read_prefix (ready s (s ++ n ∷ rest)) ≡ (pending s rest n, none)
unfolding read_prefix
read_prefix_frame s rest n =
    rw
      (
        ← append_assoc s (n ∷ []) rest,
        read_full-append (s ++ n ∷ []) rest (length s + 1)
            (omega (arith, length-append s (n ∷ []))),
      )
      (check_prefix_full s [] rest n)

pub decode_into-pending :
    (s m rest b : Bytes)
    → length b ≡ length m
    → decode_into (pending s (m ++ rest) (length m)) b ≡ (ready s rest, ok m)
unfolding decode_into read_prefix
decode_into-pending s m rest b h = rw (
  le→ltb (length m) (length b) (omega arith),
  le→ltb (length b) (length m) (omega arith),
  read_full-append m rest (length m) refl,
  drop_all (length m) b (omega arith),
  append-nil m,
)

-- A decoder between records reads the next one and stands between records again.
pub decode-frame : (s m rest : Bytes) → decode (ready s (frame s m ++ rest)) ≡ (ready s rest, ok m)
unfolding decode
decode-frame s m rest =
    rw (append_assoc s (length m ∷ m) rest, read_prefix_frame s (m ++ rest) (length m))
      (decode_into-pending s m rest _ (length-replicate (length m) 0))

-- At the end of the input it reports the end.
pub decode_at_end : (s : Bytes) → (decode (ready s [])).1 ≡ failed eof
unfolding decode read_prefix read_full
decode_at_end s = ground arith
