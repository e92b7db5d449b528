-- ===== src/Ctap2/Command.antt =====
-- The command bytes of ctap2/commands.go that HandleCommand answers.
use blueripple_passkey.Prelude.{ℕ}

abbrev pub make_credential : ℕ
make_credential = 0x01

abbrev pub get_assertion : ℕ
get_assertion = 0x02

abbrev pub get_info : ℕ
get_info = 0x04

abbrev pub get_next_assertion : ℕ
get_next_assertion = 0x08
