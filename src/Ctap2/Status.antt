-- ===== src/Ctap2/Status.antt =====
-- The status codes of ctap2/commands.go that the handlers return.
use blueripple_passkey.Prelude.{ℕ}

abbrev pub success : ℕ
success = 0x00

abbrev pub invalid_command : ℕ
invalid_command = 0x01

abbrev pub invalid_parameter : ℕ
invalid_parameter = 0x02

abbrev pub invalid_cbor : ℕ
invalid_cbor = 0x12

abbrev pub unsupported_extension : ℕ
unsupported_extension = 0x16

abbrev pub credential_excluded : ℕ
credential_excluded = 0x19

abbrev pub unsupported_algorithm : ℕ
unsupported_algorithm = 0x26

abbrev pub operation_denied : ℕ
operation_denied = 0x27

abbrev pub no_credentials : ℕ
no_credentials = 0x2e

abbrev pub user_action_timeout : ℕ
user_action_timeout = 0x2f

abbrev pub not_allowed : ℕ
not_allowed = 0x30

abbrev pub other : ℕ
other = 0x7f
