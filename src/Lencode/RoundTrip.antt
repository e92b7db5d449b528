-- ===== src/Lencode/RoundTrip.antt =====
-- The decoder accepts exactly the records that the encoder writes.
use blueripple_passkey.Prelude.{
  ℕ, zero, suc, ◌+◌, ◌≡◌, refl, sym, ap, ◌∙◌, false, Option, none, some, [], ◌∷◌, ◌++◌,
  append_assoc, arith, Bytes, length, take, drop_all, get_or, replicate, append-nil,
  length-replicate, take-append-drop, length-take, bytes_eq, bytes_eq_iff, ltb, le→ltb, not, ◌&&◌,
}
use blueripple_passkey.Lencode.{
  Error, Decoder, ReadResult, ok, failed, full, short, read_full, read_prefix, check_prefix, eof,
  read_into, decode, decode_into, decode_rest, read_message, fail,
}
use blueripple_passkey.Lencode.Format.{frame, ready, pending}
use blueripple_passkey.Prelude.{◌≢◌}

read_full-full : (r a b : Bytes) (n : ℕ) → read_full r n ≡ full a b → (r ≡ a ++ b) × (length a ≡ n)
unfolding read_full
read_full-full r a b n h = ground (arith, take-append-drop n r, length-take n r)

last_byte : (n : ℕ) (buf : Bytes) → length buf ≡ n + 1 → buf ≡ take n buf ++ get_or buf n 0 ∷ []
last_byte n [] h = absurd (omega arith)
last_byte zero (x ∷ []) h = refl
last_byte zero (x ∷ y ∷ buf) h = absurd (omega arith)
last_byte (suc n) (x ∷ buf) h = ap (◌∷◌ x) (last_byte n buf (omega arith))

separator_accepted :
    (s buf : Bytes)
    → (ltb 0 (length s) && not (bytes_eq (take (length s) buf) s)) ≡ false
    → take (length s) buf ≡ s
separator_accepted [] buf h = refl
separator_accepted (x ∷ s) buf h =
    (bytes_eq_iff (take (suc (length s)) buf) (x ∷ s)).0 (ground arith)

prefix_bytes :
    (s r buf rest : Bytes)
    → read_full r (length s + 1) ≡ full buf rest
    → take (length s) buf ≡ s
    → r ≡ s ++ get_or buf (length s) 0 ∷ rest
prefix_bytes s r buf rest q h =
    let split = read_full-full r buf rest (length s + 1) q in
    let b : ℕ = get_or buf (length s) 0 in
    let whole : buf ≡ s ++ b ∷ [] = rw h at (last_byte (length s) buf split.1) in
    split.0 ∙ ap (λ t. t ++ rest) whole ∙ append_assoc s (b ∷ []) rest

module _ (s r : Bytes) where
  check_prefix-none :
      (d : Decoder) (x : ReadResult)
      → read_full r (length s + 1) ≡ x
      → check_prefix (ready s r) x ≡ (d, none)
      → (n : ℕ) × (rest : Bytes) × (r ≡ s ++ n ∷ rest) × (d ≡ pending s rest n)
  unfolding check_prefix fail
  check_prefix-none d (short e) q h = cc
  check_prefix-none d (full buf rest) q h = (
    get_or buf (length s) 0,
    rest,
    prefix_bytes s r buf rest q (separator_accepted s buf (ground arith)),
    ground arith,
  )

  read_prefix-none :
      (d : Decoder)
      → read_prefix (ready s r) ≡ (d, none)
      → (n : ℕ) × (rest : Bytes) × (r ≡ s ++ n ∷ rest) × (d ≡ pending s rest n)
  unfolding read_prefix
  read_prefix-none d h = check_prefix-none d _ refl h

message_read :
    (s r m b : Bytes) (n : ℕ) (d : Decoder) (x : ReadResult)
    → length b ≡ n
    → read_full r n ≡ x
    → read_message (pending s r n) b x ≡ (d, ok m)
    → (rest : Bytes) × (r ≡ m ++ rest) × (length m ≡ n) × (d ≡ ready s rest)
unfolding read_message
message_read s r m b n d (short e) l q h = cc
message_read s r m b n d (full a rest) l q h = (
  rest,
  ground (arith, read_full-full r a rest n q, drop_all n b, append-nil a),
  ground (arith, read_full-full r a rest n q, drop_all n b, append-nil a),
  ground arith,
)

decode_into-ok :
    (s r m b : Bytes) (n : ℕ) (d : Decoder)
    → length b ≡ n
    → decode_into (pending s r n) b ≡ (d, ok m)
    → (rest : Bytes) × (r ≡ m ++ rest) × (length m ≡ n) × (d ≡ ready s rest)
unfolding decode_into read_prefix
decode_into-ok s r m b n d l h =
    message_read s r m b n d _ l refl
      (rw (le→ltb n (length b) (omega arith), le→ltb (length b) n (omega arith)) at h)

reframe :
    (s r m body rest : Bytes) (n : ℕ)
    → r ≡ s ++ n ∷ body
    → body ≡ m ++ rest
    → length m ≡ n
    → r ≡ frame s m ++ rest
reframe s r m body rest n split cut l =
    rw (split, cut, ← l) (sym (append_assoc s (length m ∷ m) rest))

decode_rest-ok :
    (s r m : Bytes) (d : Decoder) (x : Decoder × Option Error)
    → read_prefix (ready s r) ≡ x
    → decode_rest x ≡ (d, ok m)
    → (rest : Bytes) × (r ≡ frame s m ++ rest) × (d ≡ ready s rest)
unfolding decode_rest
decode_rest-ok s r m d (p, some e) q h = cc
decode_rest-ok s r m d (p, none) q h =
    let (n, body, split, e) = read_prefix-none s r p q in
    let (rest, cut, l, e') =
      decode_into-ok s body m (replicate n 0) n d (length-replicate n 0) (rw e at h) in
    (rest, reframe s r m body rest n split cut l, e')

-- What the decoder accepts is a record in front of the input that it leaves unread.
pub decode-ok :
    (s r m : Bytes) (d : Decoder)
    → decode (ready s r) ≡ (d, ok m)
    → (rest : Bytes) × (r ≡ frame s m ++ rest) × (d ≡ ready s rest)
unfolding decode
decode-ok s r m d h = decode_rest-ok s r m d _ refl h

read_full-eof : (r : Bytes) (n : ℕ) → read_full r n ≡ short eof → r ≡ []
unfolding read_full
read_full-eof [] n h = refl
read_full-eof (x ∷ r) n h = ground arith

read_message-ne-eof :
    (d : Decoder) (b : Bytes) (x : ReadResult) → (read_message d b x).1 ≢ failed eof
unfolding read_message
read_message-ne-eof d b x h = ground arith

read_into-ne-eof : (d : Decoder) (b : Bytes) → (read_into b (d, none)).1 ≢ failed eof
unfolding read_into
read_into-ne-eof d b h = ground (arith, read_message-ne-eof d b (read_full d.r d.pending_len))

check_prefix-eof :
    (s r : Bytes) (x : ReadResult)
    → read_full r (length s + 1) ≡ x
    → (decode_rest (check_prefix (ready s r) x)).1 ≡ failed eof
    → x ≡ short eof
unfolding check_prefix decode_rest fail decode_into read_prefix
check_prefix-eof s r (short e) q h = ground arith
check_prefix-eof s r (full buf rest) q h =
    let n : ℕ = get_or buf (length s) 0 in
    ground (arith, read_into-ne-eof (pending s rest n) (replicate n 0))

-- It reports the end of the input only where nothing is left.
pub decode-eof : (s r : Bytes) → (decode (ready s r)).1 ≡ failed eof → r ≡ []
unfolding decode read_prefix
decode-eof s r h = read_full-eof r (length s + 1) (check_prefix-eof s r _ refl h)
