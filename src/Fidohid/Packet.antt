-- ===== src/Fidohid/Packet.antt =====
-- The constants of fidohid.go and the 64-byte reports that sendResponse builds.
use blueripple_passkey.Prelude.{
  ℕ, zero, suc, ◌+◌, ◌-◌, ◌%◌, List, [], ◌∷◌, ◌++◌, Bytes, length, take, drop, replicate,
  put_uint16, put_uint32, bit_or,
}

abbrev pub report_len : ℕ
report_len = 64

abbrev pub init_data_len : ℕ
init_data_len = 57

abbrev pub cont_data_len : ℕ
cont_data_len = 59

abbrev pub max_message_len : ℕ
max_message_len = 1200

abbrev pub broadcast_cid : ℕ
broadcast_cid = 0xffffffff

abbrev pub keepalive_processing : ℕ
keepalive_processing = 0x01

-- capCBOR | capNMSG
abbrev pub capabilities : ℕ
capabilities = bit_or 0x04 0x08

-- 30 seconds, in nanoseconds
abbrev pub channel_timeout : ℕ
channel_timeout = 30000000000

-- copy(pkt[..], data) into n zero bytes.
abbrev pub padded : ℕ → Bytes → Bytes
padded n b = take n b ++ replicate (n - length b) 0

unfoldable pub init_packet : ℕ → ℕ → Bytes → Bytes
init_packet cid cmd b =
    put_uint32 cid ++ (bit_or cmd 0x80 ∷ (put_uint16 (length b) ++ padded init_data_len b))

unfoldable pub cont_packet : ℕ → ℕ → Bytes → Bytes
cont_packet cid seq b = put_uint32 cid ++ (seq ∷ padded cont_data_len b)

-- The reports that are left while `len(data) > 0`; seq is a byte and wraps.
unfoldable pub cont_packets : ℕ → ℕ → ℕ → Bytes → List Bytes
cont_packets zero cid seq b = []
cont_packets (suc fuel) cid seq [] = []
cont_packets (suc fuel) cid seq (x ∷ b) =
    cont_packet cid seq (x ∷ b)
    ∷ cont_packets fuel cid ((seq + 1) % 256) (drop cont_data_len (x ∷ b))

-- The reports of a whole message; every round takes a byte, so its length is fuel enough.
unfoldable pub packets : ℕ → ℕ → Bytes → List Bytes
packets cid cmd b =
    let rest = drop init_data_len b in init_packet cid cmd b ∷ cont_packets (length rest) cid 0 rest
