-- ===== src/Tests/ConfigTests.antt =====
-- Runs of the model of main.go's site names, among them the cases of its own test.
use blueripple_passkey.Prelude.{
  ◌≡◌, ◌≤◌, ◌↔◌, refl, true, false, none, some, List, [], ◌∷◌, Bytes, length, All, WhereSome, codes,
  bytes_eq,
}
use blueripple_passkey.Prelude.Dict
use blueripple_passkey.Prelude.Strings.{
  is_space, split, trim_left, trim_right, trim_space, parse_digits,
}
use blueripple_passkey.Config.{
  has_byte, contains_any, all_of, is_octet, is_ip, label_byte, label_bytes, good_label, valid_rp_id,
  normalised, collect, bytes_less, insert_sorted, sort_strings, values_of, configured_rp_ids,
}
use blueripple_passkey.Config.Names.{IsLabel, valid_rp_id_iff}
use blueripple_passkey.Config.Configured.{Bad, IsSetOf, configured_rp_ids_cases}

abbrev flags : List Bytes
flags = codes "LOGIN.EXAMPLE.COM" ∷ codes "auth.example.com" ∷ []

abbrev environment : Bytes
environment = codes "auth.example.com, login.example.com"

both :
    configured_rp_ids flags environment
    ≡ some (codes "auth.example.com" ∷ codes "login.example.com" ∷ [])
unfolding configured_rp_ids collect normalised valid_rp_id contains_any has_byte is_ip all_of
    good_label label_bytes label_byte is_octet parse_digits split trim_space trim_left trim_right
    is_space sort_strings insert_sorted bytes_less Dict.insert bytes_eq
both = refl

unsafe :
    (valid_rp_id (codes "https://auth.example.com") ≡ false)
    × (valid_rp_id (codes "*.example.com") ≡ false)
    × (valid_rp_id (codes "-bad.example.com") ≡ false)
    × (valid_rp_id (codes "bad..example.com") ≡ false)
    × (valid_rp_id (codes "10.0.0.255") ≡ true)
unfolding valid_rp_id contains_any has_byte is_ip all_of good_label label_bytes label_byte is_octet
    parse_digits split
unsafe = (refl, refl, refl, refl, refl)

valid_rp_id_iff_example :
    (valid_rp_id (codes "a-1.example") ≡ true)
    ↔ ((length (codes "a-1.example") ≤ 253) × All IsLabel (split 46 (codes "a-1.example")))
valid_rp_id_iff_example = valid_rp_id_iff (codes "a-1.example")

configured_rp_ids_cases_example :
    ((configured_rp_ids flags environment ≡ none) ↔ Bad (values_of flags environment))
    × WhereSome
        (IsSetOf (values_of flags environment) (codes "auth.example.com"))
        (configured_rp_ids flags environment)
configured_rp_ids_cases_example =
    configured_rp_ids_cases flags environment (codes "auth.example.com")
