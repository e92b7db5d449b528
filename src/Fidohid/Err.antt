-- ===== src/Fidohid/Err.antt =====
-- The CTAPHID error codes that fidohid.go sends.
use blueripple_passkey.Prelude.{ℕ}

abbrev pub invalid_cmd : ℕ
invalid_cmd = 0x01

abbrev pub invalid_len : ℕ
invalid_len = 0x03

abbrev pub invalid_seq : ℕ
invalid_seq = 0x04

abbrev pub invalid_channel : ℕ
invalid_channel = 0x0b
