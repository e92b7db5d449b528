-- ===== src/Fidohid/Cmd.antt =====
-- CTAPHID command identifiers of fidohid.go.
use blueripple_passkey.Prelude.{ℕ}

abbrev pub ping : ℕ
ping = 0x01

abbrev pub msg : ℕ
msg = 0x03

abbrev pub init : ℕ
init = 0x06

abbrev pub cbor : ℕ
cbor = 0x10

abbrev pub cancel : ℕ
cancel = 0x11

abbrev pub keepalive : ℕ
keepalive = 0x3b

abbrev pub error : ℕ
error = 0x3f
