-- ===== src/Fidohid/Parsing.antt =====
-- How handleOutput reads the reports that sendResponse builds, behind a report ID of zero.
use blueripple_passkey.Prelude.{
  ℕ, ◌+◌, ◌-◌, ◌*◌, ◌/◌, ◌%◌, ◌<◌, ◌≡◌, ◌∙◌, Bool, some, List, ◌∷◌, Bytes, length, take, replicate,
  bit_and, bit_or, arith, length-append, length-take, length-replicate, top_bit, low_bits,
  set_top_bit,
}
use blueripple_passkey.Fidohid.Packet.{
  padded, init_packet, cont_packet, cont_data_len, init_data_len,
}
use blueripple_passkey.Fidohid.Device.{Device, Draw}
use blueripple_passkey.Fidohid.Handlers.{
  handle_output, handle_packet, handle_init_packet, handle_cont_packet, strip_report_id,
  padded_report,
}

pub length-padded : (n : ℕ) (b : Bytes) → length (padded n b) ≡ n
length-padded n b = omega (
  arith,
  length-append (take n b) (replicate (n - length b) 0),
  length-take n b,
  length-replicate {A = ℕ} (n - length b) 0,
)

pub length-init_packet : (cid cmd : ℕ) (b : Bytes) → length (init_packet cid cmd b) ≡ 64
unfolding init_packet
length-init_packet cid cmd b = omega (arith, length-padded init_data_len b)

pub length-cont_packet : (cid seq : ℕ) (b : Bytes) → length (cont_packet cid seq b) ≡ 64
unfolding cont_packet
length-cont_packet cid seq b = omega (arith, length-padded cont_data_len b)

uint32_put :
    (cid : ℕ)
    → cid < 4294967296
    → (cid / 16777216 % 256) * 16777216
        + (cid / 65536 % 256) * 65536
        + (cid / 256 % 256) * 256
        + cid % 256
      ≡ cid
uint32_put cid h = omega arith

uint16_put : (n : ℕ) → (n / 256 % 256) * 256 + n % 256 ≡ n % 65536
uint16_put n = omega arith

init_head :
    (cmd : ℕ)
    → cmd < 128
    → (bit_and (bit_or cmd 0x80) 0x80 ≡ 128) × (bit_and (bit_or cmd 0x80) 0x7f ≡ cmd)
init_head cmd h = rw (set_top_bit cmd h) (
  omega (arith, top_bit (cmd + 128), low_bits (cmd + 128)),
  omega (arith, top_bit (cmd + 128), low_bits (cmd + 128)),
)

cont_head : (seq : ℕ) → seq < 128 → bit_and seq 0x80 ≡ 0
cont_head seq h = omega (arith, top_bit seq)

module _ {Dev : Type 0} (inject : Dev → Bytes → Dev × Bool) (d : Device Dev) (draws : List Draw)
    (now : ℕ) where
  report_packet :
      (p : Bytes)
      → length p ≡ 64
      → handle_output inject d draws now (0 ∷ p) ≡ handle_packet inject d draws now p
  unfolding handle_output strip_report_id padded_report
  report_packet p h = ground arith

  pub handle_output-init_packet :
      (cid cmd : ℕ) (b : Bytes)
      → cid < 4294967296
      → cmd < 128
      → handle_output inject d draws now (0 ∷ init_packet cid cmd b)
        ≡ handle_init_packet inject d draws now cid cmd (length b % 65536) (padded init_data_len b)
  unfolding init_packet handle_packet
  handle_output-init_packet cid cmd b hc hm =
      report_packet (init_packet cid cmd b) (length-init_packet cid cmd b)
      ∙ rw (uint32_put cid hc, uint16_put (length b), (init_head cmd hm).0, (init_head cmd hm).1)

  pub handle_output-cont_packet :
      (cid seq : ℕ) (b : Bytes)
      → cid < 4294967296
      → seq < 128
      → handle_output inject d draws now (0 ∷ cont_packet cid seq b)
        ≡ some (handle_cont_packet inject d now cid seq (padded cont_data_len b))
  unfolding cont_packet handle_packet
  handle_output-cont_packet cid seq b hc hs =
      report_packet (cont_packet cid seq b) (length-cont_packet cid seq b)
      ∙ rw (uint32_put cid hc, cont_head seq hs)
