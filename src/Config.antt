-- ===== src/Config.antt =====
-- configuredRPIDs and validRPID of main.go: the site names that the daemon is limited to. Flags and
-- environment are taken to be ASCII text, beyond which ToLower and TrimSpace know more letters and
-- blanks.
pub mod Names
pub mod Order
pub mod Configured
use blueripple_passkey.Prelude.{
  ℕ, ◌+◌, ◌-◌, Bool, true, false, not, ◌&&◌, ◌||◌, Option, none, some, List, [], ◌∷◌, ◌++◌, map,
  Bytes, length, get_or, ltb, leb, ◌==◌, if◌then◌else◌, codes,
}
use blueripple_passkey.Prelude.Dict
use blueripple_passkey.Prelude.Dict.{Dict}
use blueripple_passkey.Prelude.Strings.{split, trim_space, to_lower, parse_digits}

-- slash, colon, asterisk, question mark, space, tab, return, line feed
abbrev pub forbidden : Bytes
forbidden = codes "/:*? " ++ 9 ∷ 13 ∷ 10 ∷ []

unfoldable pub has_byte : Bytes → ℕ → Bool
has_byte [] c = false
has_byte (x ∷ s) c = x == c || has_byte s c

-- strings.ContainsAny
unfoldable pub contains_any : Bytes → Bytes → Bool
contains_any [] chars = false
contains_any (c ∷ s) chars = has_byte chars c || contains_any s chars

unfoldable pub all_of : (Bytes → Bool) → List Bytes → Bool
all_of test [] = true
all_of test (b ∷ bs) = test b && all_of test bs

-- A field of an IPv4 address: a number up to 255 without a leading zero.
unfoldable pub is_octet : Bytes → Bool
is_octet [] = false
is_octet (c ∷ s) = elim (parse_digits 0 (c ∷ s)) [
  | none ↦ false
  | some n ↦ leb n 255 && (length s == 0 || not (c == 48))
]

-- net.ParseIP(s) != nil for a text without a colon, which can only be an IPv4 address.
unfoldable pub is_ip : Bytes → Bool
is_ip s = length (split 46 s) == 4 && all_of is_octet (split 46 s)

unfoldable pub label_byte : ℕ → Bool
label_byte c = (leb 97 c && leb c 122) || (leb 48 c && leb c 57) || c == 45

unfoldable pub label_bytes : Bytes → Bool
label_bytes [] = true
label_bytes (c ∷ s) = label_byte c && label_bytes s

-- The body of the loop over the labels.
unfoldable pub good_label : Bytes → Bool
good_label label =
    if length label == 0
      || ltb 63 (length label)
      || get_or label 0 0 == 45
      || get_or label (length label - 1) 0 == 45
    then false
    else label_bytes label

unfoldable pub valid_rp_id : Bytes → Bool
valid_rp_id rp =
    if length rp == 0 || ltb 253 (length rp) || contains_any rp forbidden
    then false
    else if is_ip rp
    then true
    else all_of good_label (split 46 rp)

-- strings.ToLower(strings.TrimSpace(raw))
unfoldable pub normalised : Bytes → Bytes
normalised raw = to_lower (trim_space raw)

-- The loop over the values, with the map `seen`; none is the error.
unfoldable pub collect : Dict (Unit {0}) → List Bytes → Option (Dict (Unit {0}))
collect seen [] = some seen
collect seen (raw ∷ values) =
    let rp = normalised raw in
    let skipped = collect seen values in
    let added = collect (Dict.insert rp tt seen) values in
    if length rp == 0 then skipped else if not (valid_rp_id rp) then none else added

-- Go's order of strings.
unfoldable pub bytes_less : Bytes → Bytes → Bool
bytes_less [] [] = false
bytes_less [] (y ∷ ys) = true
bytes_less (x ∷ xs) [] = false
bytes_less (x ∷ xs) (y ∷ ys) =
    let rest = bytes_less xs ys in if ltb x y then true else if ltb y x then false else rest

unfoldable pub insert_sorted : Bytes → List Bytes → List Bytes
insert_sorted b [] = b ∷ []
insert_sorted b (x ∷ xs) =
    let rest = insert_sorted b xs in if bytes_less x b then x ∷ rest else b ∷ x ∷ xs

-- sort.Strings; of distinct strings every sort gives the same list.
unfoldable pub sort_strings : List Bytes → List Bytes
sort_strings [] = []
sort_strings (b ∷ bs) = insert_sorted b (sort_strings bs)

abbrev pub keys : Dict (Unit {0}) → List Bytes
keys [] = []
keys ((k, v) ∷ m) = k ∷ keys m

-- The flags, then the parts of the environment variable.
abbrev pub values_of : List Bytes → Bytes → List Bytes
values_of flags environment = flags ++ split 44 environment

unfoldable pub configured_rp_ids : List Bytes → Bytes → Option (List Bytes)
configured_rp_ids flags environment = elim (collect [] (values_of flags environment)) [
  | none ↦ none
  | some seen ↦ some (sort_strings (keys seen))
]
