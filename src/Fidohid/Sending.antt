-- ===== src/Fidohid/Sending.antt =====
-- What sendResponse puts on the wire.
use blueripple_passkey.Prelude.{
  ℕ, zero, suc, ◌+◌, ◌-◌, ◌*◌, ◌/◌, ◌%◌, ◌≤◌, ◌<◌, ◌≡◌, refl, ap, Bool, List, [], ◌∷◌, Bytes,
  length, drop, length-drop, uint32_at, if◌then◌else◌, arith, All,
}
use blueripple_passkey.Fidohid.Packet.{
  init_packet, cont_packet, cont_packets, packets, cont_data_len, init_data_len, report_len,
}
use blueripple_passkey.Fidohid.Device.{send_cont, send_response}
use blueripple_passkey.Fidohid.Parsing.{length-init_packet, length-cont_packet}

module _ {Dev : Type 0} (inject : Dev → Bytes → Dev × Bool) where
  -- Reports injected in order, up to the first that fails.
  pub inject_all : Dev → List Bytes → Dev
  inject_all dev [] = dev
  inject_all dev (p ∷ ps) =
      let (dev', failed) = inject dev p in
      let rest = inject_all dev' ps in if failed then dev' else rest

  send_cont-packets :
      (fuel : ℕ) (dev : Dev) (cid seq : ℕ) (b : Bytes)
      → send_cont inject fuel dev cid seq b ≡ inject_all dev (cont_packets fuel cid seq b)
  unfolding send_cont cont_packets inject_all
  send_cont-packets zero dev cid seq b = refl
  send_cont-packets (suc fuel) dev cid seq [] = refl
  send_cont-packets (suc fuel) dev cid seq (x ∷ b) =
      let (dev', failed) = inject dev (cont_packet cid seq (x ∷ b)) in
      ap (λ r. if failed then dev' else r)
        (send_cont-packets fuel dev' cid ((seq + 1) % 256) (drop cont_data_len (x ∷ b)))

  -- sendResponse injects the reports of the message in order, and stops at the first that the
  -- device refuses.
  pub send_response-packets :
      (dev : Dev) (cid cmd : ℕ) (b : Bytes)
      → send_response inject dev cid cmd b ≡ inject_all dev (packets cid cmd b)
  unfolding send_response packets inject_all
  send_response-packets dev cid cmd b =
      let (dev', failed) = inject dev (init_packet cid cmd b) in
      let rest = drop init_data_len b in
      ap (λ r. if failed then dev' else r) (send_cont-packets (length rest) dev' cid 0 rest)

uint32_head :
    (cid : ℕ)
    → cid < 4294967296
    → cid / 16777216 % 256 * 16777216
        + cid / 65536 % 256 * 65536
        + cid / 256 % 256 * 256
        + cid % 256
      ≡ cid
uint32_head cid h = omega arith

abbrev pub IsReportOn : ℕ → Bytes → Type 0
IsReportOn cid p = (length p ≡ report_len) × (uint32_at p 0 ≡ cid)

module _ (cid : ℕ) (hc : cid < 4294967296) where
  init_packet-IsReportOn : (cmd : ℕ) (b : Bytes) → IsReportOn cid (init_packet cid cmd b)
  init_packet-IsReportOn cmd b =
      (length-init_packet cid cmd b, unfold init_packet in uint32_head cid hc)

  cont_packets-IsReportOn :
      (fuel seq : ℕ) (b : Bytes) → All (IsReportOn cid) (cont_packets fuel cid seq b)
  unfolding cont_packets
  cont_packets-IsReportOn zero seq b = tt
  cont_packets-IsReportOn (suc fuel) seq [] = tt
  cont_packets-IsReportOn (suc fuel) seq (x ∷ b) = (
    (length-cont_packet cid seq (x ∷ b), unfold cont_packet in uint32_head cid hc),
    cont_packets-IsReportOn fuel ((seq + 1) % 256) (drop cont_data_len (x ∷ b)),
  )

length-cont_packets :
    (fuel cid seq : ℕ) (b : Bytes)
    → length b ≤ fuel
    → length (cont_packets fuel cid seq b) ≡ (length b + 58) / 59
unfolding cont_packets
length-cont_packets zero cid seq [] h = omega arith
length-cont_packets zero cid seq (x ∷ b) h = absurd (omega arith)
length-cont_packets (suc fuel) cid seq [] h = omega arith
length-cont_packets (suc fuel) cid seq (x ∷ b) h = omega (
  arith,
  length-drop cont_data_len (x ∷ b),
  length-cont_packets fuel cid ((seq + 1) % 256) (drop cont_data_len (x ∷ b))
      (omega (arith, length-drop cont_data_len (x ∷ b))),
)

-- Every report of a message is 64 bytes long and carries its channel ID, and there are as many as
-- 57 bytes in the first and 59 in each later one make necessary.
pub packets_shape :
    (cid cmd : ℕ) (b : Bytes)
    → cid < 4294967296
    → All (IsReportOn cid) (packets cid cmd b)
      × (length (packets cid cmd b) ≡ 1 + (length b - 57 + 58) / 59)
unfolding packets
packets_shape cid cmd b hc =
    let rest : Bytes = drop init_data_len b in
    (
      (init_packet-IsReportOn cid hc cmd b, cont_packets-IsReportOn cid hc (length rest) 0 rest),
      omega (
        arith,
        length-cont_packets (length rest) cid 0 rest (omega arith),
        length-drop init_data_len b,
      ),
    )
