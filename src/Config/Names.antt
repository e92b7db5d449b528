-- ===== src/Config/Names.antt =====
-- What a valid site name is: the tests for forbidden bytes and for IP addresses decide nothing that
-- the labels do not.
use blueripple_passkey.Prelude.{
  ℕ, ◌+◌, ◌-◌, ◌*◌, ◌≤◌, ◌<◌, ◌≡◌, ◌≢◌, ◌↔◌, ◌⊎◌, inl, inr, refl, true, false, some, List, [], ◌∷◌,
  Bytes, length, get_or, ◌==◌, if◌then◌else◌, ne→==, le→ltb, All, arith, Option-cases,
}
use blueripple_passkey.Prelude.Strings.{split, parse_digits, cons_head}
use blueripple_passkey.Config.{
  forbidden, has_byte, contains_any, all_of, is_octet, is_ip, label_byte, label_bytes, good_label,
  valid_rp_id,
}

-- A small letter, a digit or a hyphen.
abbrev pub LabelByte : ℕ → Type 0
LabelByte c = ((97 ≤ c) × (c ≤ 122)) ⊎ ((48 ≤ c) × (c ≤ 57)) ⊎ (c ≡ 45)

abbrev pub IsLabel : Bytes → Type 0
IsLabel label =
    (0 < length label)
    × (length label ≤ 63)
    × (get_or label 0 0 ≢ 45)
    × (get_or label (length label - 1) 0 ≢ 45)
    × All LabelByte label

label_byte_iff : (c : ℕ) → (label_byte c ≡ true) ↔ LabelByte c
unfolding label_byte
label_byte_iff c = ground arith

label_bytes_iff : (s : Bytes) → (label_bytes s ≡ true) ↔ All LabelByte s
unfolding label_bytes
label_bytes_iff [] = ground arith
label_bytes_iff (c ∷ s) = ground (arith, label_byte_iff c, label_bytes_iff s)

good_label_iff : (label : Bytes) → (good_label label ≡ true) ↔ IsLabel label
unfolding good_label
good_label_iff label = ground (arith, label_bytes_iff label)

labels_iff : (ls : List Bytes) → (all_of good_label ls ≡ true) ↔ All IsLabel ls
unfolding all_of
labels_iff [] = ground arith
labels_iff (l ∷ ls) = ground (arith, good_label_iff l, labels_iff ls)

abbrev Digit : ℕ → Type 0
Digit c = (48 ≤ c) × (c ≤ 57)

parse_digits-Digit : (n v : ℕ) (s : Bytes) → parse_digits n s ≡ some v → All Digit s × (n ≤ v)
unfolding parse_digits
parse_digits-Digit n v [] h = ground arith
parse_digits-Digit n v (c ∷ s) h = ground (arith, parse_digits-Digit (n * 10 + (c - 48)) v s)

-- No number up to 255 has more than two digits behind a first one that is not zero.
few_digits : (n v : ℕ) (s : Bytes) → parse_digits n s ≡ some v → 0 < n → v ≤ 255 → length s ≤ 2
unfolding parse_digits
few_digits n v [] h p l = omega arith
few_digits n v (a ∷ []) h p l = omega arith
few_digits n v (a ∷ b ∷ []) h p l = omega arith
few_digits n v (a ∷ b ∷ c ∷ s) h p l =
    ground (arith, parse_digits-Digit (((n * 10 + (a - 48)) * 10 + (b - 48)) * 10 + (c - 48)) v s)

digits-IsLabel : (l : Bytes) → 0 < length l → length l ≤ 3 → All Digit l → IsLabel l
digits-IsLabel [] h k d = absurd (omega arith)
digits-IsLabel (a ∷ []) h k d = ground arith
digits-IsLabel (a ∷ b ∷ []) h k d = ground arith
digits-IsLabel (a ∷ b ∷ c ∷ []) h k d = ground arith
digits-IsLabel (a ∷ b ∷ c ∷ e ∷ l) h k d = absurd (omega arith)

octet-IsLabel : (l : Bytes) → is_octet l ≡ true → IsLabel l
unfolding is_octet
octet-IsLabel [] h = cc
octet-IsLabel (c ∷ s) h = elim (Option-cases (parse_digits 0 (c ∷ s))) [
  | inl e ↦ absurd (ground arith)
  | inr (v, e) ↦
      let digits = parse_digits-Digit 0 v (c ∷ s) e in
      let few : length s ≤ 2 = unfold parse_digits in ground (arith, few_digits (c - 48) v s) in
      digits-IsLabel (c ∷ s) (omega arith) (omega arith) digits.0
]

octets-IsLabel : (ls : List Bytes) → all_of is_octet ls ≡ true → All IsLabel ls
unfolding all_of
octets-IsLabel [] h = tt
octets-IsLabel (l ∷ ls) h = (octet-IsLabel l (ground arith), octets-IsLabel ls (ground arith))

-- What the labels hold and the dots between them are all that the name holds.
split_head :
    (c : ℕ) (rest : List Bytes)
    → All (All LabelByte) (if c == 46 then [] ∷ rest else cons_head c rest)
    → ((c ≡ 46) ⊎ LabelByte c) × All (All LabelByte) rest
split_head c [] h = ground arith
split_head c (l ∷ ls) h = ground arith

allowed_byte : (c : ℕ) → (c ≡ 46) ⊎ LabelByte c → has_byte forbidden c ≡ false
unfolding has_byte
allowed_byte c h = ground arith

no_forbidden : (s : Bytes) → All (All LabelByte) (split 46 s) → contains_any s forbidden ≡ false
unfolding split contains_any
no_forbidden [] h = refl
no_forbidden (c ∷ s) h =
    let (head, tail) = split_head c (split 46 s) h in rw (allowed_byte c head, no_forbidden s tail)

labels_bytes : (ls : List Bytes) → All IsLabel ls → All (All LabelByte) ls
labels_bytes [] h = tt
labels_bytes (l ∷ ls) h = (h.0.4, labels_bytes ls h.1)

split-nonempty : (s : Bytes) → All IsLabel (split 46 s) → length s ≢ 0
unfolding split
split-nonempty [] h = absurd (omega arith)
split-nonempty (c ∷ s) h = omega arith

-- A site name is valid exactly where it has at most 253 bytes and its labels between the dots have 1
-- to 63 small letters, digits and hyphens each, without a hyphen at either end. The tests for
-- forbidden bytes and for IP addresses decide nothing beyond that.
pub valid_rp_id_iff :
    (rp : Bytes) → (valid_rp_id rp ≡ true) ↔ ((length rp ≤ 253) × All IsLabel (split 46 rp))
unfolding valid_rp_id is_ip
valid_rp_id_iff rp = (
  (λ h. ground (arith, octets-IsLabel (split 46 rp), labels_iff (split 46 rp))),
  (λ h.
      rw
        (
          no_forbidden rp (labels_bytes (split 46 rp) h.1),
          (labels_iff (split 46 rp)).1 h.1,
          ne→== (length rp) 0 (split-nonempty rp h.1),
          le→ltb 253 (length rp) h.0,
        )
        (ground arith)),
)
