-- ===== src/Tpm/KeyHandle/Canonical.antt =====
-- A key handle is accepted exactly when it is what RegisterKey writes.
use blueripple_passkey.Prelude.{
  ◌≤◌, ◌<◌, ◌≡◌, refl, sym, ap, subst, ◌∙◌, Option, none, some, [], ◌∷◌, ◌++◌, Bytes, append_assoc,
  append-nil, length, le→ltb, arith, AreBytes, All-right, ◌↔◌,
}
use blueripple_passkey.Lencode.{
  eof, Encoder, Decoder, Decoded, ok, failed, panic, new_encoder, encode, write, buffer_write,
  new_decoder, decode,
}
use blueripple_passkey.Lencode.Format.{frame, ready, decode-frame, decode_at_end}
use blueripple_passkey.Lencode.RoundTrip.{decode-ok, decode-eof}
use blueripple_passkey.Tpm.KeyHandle.{
  separator, key_handle, parse_key_handle, decoded, ended, ◌>>=◌,
}

abbrev pub writing : Bytes → Encoder Bytes
writing w = record { w = w; separator = some separator; err = none }

pub encode_fits :
    (w m : Bytes)
    → length m ≤ 255
    → encode buffer_write (writing w) m ≡ writing (w ++ frame separator m)
unfolding encode write
encode_fits w m h = rw (le→ltb 255 (length m) h) (
    ap writing
      (append_assoc (w ++ separator) (length m ∷ []) m ∙ append_assoc w separator (length m ∷ m)))

encode_three :
    (p u s : Bytes)
    → length p ≤ 255
    → length u ≤ 255
    → length s ≤ 255
    → encode buffer_write (encode buffer_write (encode buffer_write (writing []) p) u) s
      ≡ writing ((frame separator p ++ frame separator u) ++ frame separator s)
encode_three p u s hp hu hs =
    rw (encode_fits [] p hp, encode_fits (frame separator p) u hu) (encode_fits _ s hs)

key_handle-frames :
    (p u s : Bytes)
    → length p ≤ 255
    → length u ≤ 255
    → length s ≤ 255
    → key_handle p u s ≡ frame separator p ++ (frame separator u ++ frame separator s)
unfolding key_handle new_encoder
key_handle-frames p u s hp hu hs =
    ap (λ (e : Encoder Bytes). e.w) (encode_three p u s hp hu hs)
    ∙ append_assoc (frame separator p) (frame separator u) (frame separator s)

pub decode_last : (s m : Bytes) → decode (ready s (frame s m)) ≡ (ready s [], ok m)
decode_last s m =
    subst (λ r. decode (ready s r) ≡ (ready s [], ok m)) (append-nil (frame s m))
      (decode-frame s m [])

parse-frames :
    (p u s : Bytes)
    → parse_key_handle (frame separator p ++ (frame separator u ++ frame separator s))
      ≡ some (p, u, s)
unfolding parse_key_handle new_decoder
parse-frames p u s = rw (
  decode-frame separator p (frame separator u ++ frame separator s),
  decode-frame separator u (frame separator s),
  decode_last separator s,
  decode_at_end separator,
)

-- Handles whose parts fit their length bytes are read back as they were written.
pub parse-key_handle :
    (p u s : Bytes)
    → length p ≤ 255
    → length u ≤ 255
    → length s ≤ 255
    → parse_key_handle (key_handle p u s) ≡ some (p, u, s)
parse-key_handle p u s hp hu hs = rw (key_handle-frames p u s hp hu hs) (parse-frames p u s)

decoded-some :
    (x : Decoder × Decoded) (m : Bytes) (d : Decoder) → decoded x ≡ some (m, d) → x ≡ (d, ok m)
unfolding decoded
decoded-some (d', ok m') m d h = ground arith
decoded-some (d', failed e) m d h = cc
decoded-some (d', panic) m d h = cc

bind-some {ℓ κ} :
    {A : Type ℓ} {B : Type κ} (o : Option A) (f : A → Option B) (b : B)
    → (o >>= f) ≡ some b
    → (a : A) × (o ≡ some a) × (f a ≡ some b)
bind-some none f b h = cc
bind-some (some a) f b h = (a, refl, h)

next_record :
    (r : Bytes) {B : Type 0} (f : Bytes × Decoder → Option B) (b : B)
    → (decoded (decode (ready separator r)) >>= f) ≡ some b
    → (m : Bytes) × (rest : Bytes) × (r ≡ frame separator m ++ rest)
      × (f (m, ready separator rest) ≡ some b)
next_record r f b h =
    let ((m, d), e, k) = bind-some _ f b h in
    let (rest, split, e') = decode-ok separator r m d (decoded-some _ m d e) in
    (m, rest, split, subst (λ x. f (m, x) ≡ some b) e' k)

ended-some : (x : Decoded) → ended x ≡ some tt → x ≡ failed eof
unfolding ended
ended-some x h = ground arith

at_end :
    (r : Bytes) {B : Type 0} (a b : B)
    → (ended (decode (ready separator r)).1 >>= λ _. some a) ≡ some b
    → (r ≡ []) × (a ≡ b)
at_end r a b h =
    let (e, k, l) = bind-some (ended (decode (ready separator r)).1) (λ _. some a) b h in
    (decode-eof separator r (ended-some _ k), ground arith)

assemble :
    (h p u s p' u' s' r1 r2 r3 : Bytes)
    → h ≡ frame separator p' ++ r1
    → r1 ≡ frame separator u' ++ r2
    → r2 ≡ frame separator s' ++ r3
    → r3 ≡ []
    → ◌≡◌ {A = Bytes × Bytes × Bytes} (p', u', s') (p, u, s)
    → h ≡ frame separator p ++ (frame separator u ++ frame separator s)
assemble h p u s p' u' s' r1 r2 r3 e1 e2 e3 e4 k = ground (arith, append-nil (frame separator s'))

-- A handle that SignASN1 accepts is the three records of its parts, and nothing else.
pub parse-some :
    (h p u s : Bytes)
    → parse_key_handle h ≡ some (p, u, s)
    → h ≡ frame separator p ++ (frame separator u ++ frame separator s)
unfolding parse_key_handle new_decoder
parse-some h p u s e =
    let (p', r1, e1, k1) = next_record h _ _ e in
    let (u', r2, e2, k2) = next_record r1 _ _ k1 in
    let (s', r3, e3, k3) = next_record r2 _ _ k2 in
    let (e4, k4) = at_end r3 (p', u', s') (p, u, s) k3 in
    assemble h p u s p' u' s' r1 r2 r3 e1 e2 e3 e4 k4

frames_fit :
    (p u s : Bytes)
    → AreBytes (frame separator p ++ (frame separator u ++ frame separator s))
    → (length p ≤ 255) × (length u ≤ 255) × (length s ≤ 255)
frames_fit p u s b =
    let b1 = All-right (λ x. x < 256) p _ b.1.1.1.1 in
    let b2 = All-right (λ x. x < 256) u _ b1.1.1.1.1 in (omega arith, omega arith, omega arith)

-- SignASN1 accepts a byte string as a key handle for three parts exactly when the string is what
-- RegisterKey writes for these parts and each part is at most 255 bytes long.
pub parse_key_handle_iff :
    (h p u s : Bytes)
    → AreBytes h
    → (parse_key_handle h ≡ some (p, u, s))
      ↔ ((h ≡ key_handle p u s) × (length p ≤ 255) × (length u ≤ 255) × (length s ≤ 255))
parse_key_handle_iff h p u s b = (
  λ e.
      let split = parse-some h p u s e in
      let (hp, hu, hs) = frames_fit p u s (subst AreBytes split b) in
      (split ∙ sym (key_handle-frames p u s hp hu hs), hp, hu, hs),
  λ (e, hp, hu, hs). rw e (parse-key_handle p u s hp hu hs),
)
