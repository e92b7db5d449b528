-- ===== src/Fidohid/Faults.antt =====
-- Two places where the channel state does not follow the message that it is for.
use blueripple_passkey.Prelude.{
  ℕ, ◌-◌, ◌%◌, ◌≤◌, ◌<◌, ◌≡◌, refl, ap, ◌∙◌, min, Bool, some, List, [], ◌∷◌, ◌++◌, Bytes, length,
  take, append-nil, append_assoc, take_all, arith, ne→==, le→leb,
}
use blueripple_passkey.Fidohid.Packet.{
  broadcast_cid, init_data_len, cont_data_len, max_message_len, init_packet, cont_packet, padded,
}
use blueripple_passkey.Fidohid.Cmd
use blueripple_passkey.Fidohid.Channels.{Channel, lookup, lookup-insert_self}
use blueripple_passkey.Fidohid.Device.{Device, Draw, put_channel, cancel_channel, dispatch_command}
use blueripple_passkey.Fidohid.Handlers.{
  opened, handle_cont_packet, continue_message, next_part, handle_init_packet,
}
use blueripple_passkey.Fidohid.Cbor.{cbor_begin, cbor_loop, done, store_cancel, clear_cancel}
use blueripple_passkey.Fidohid.Cancel.{
  cancel_request, store_cancel-found, clear_cancel-found, cancel_channel_idle,
  started-cancel_channel,
}
use blueripple_passkey.Fidohid.Parsing.{handle_output-cont_packet}
use blueripple_passkey.Fidohid.Continuation.{receive}
use blueripple_passkey.Fidohid.Reassembly.{first_report, begin_last}

next_part_none : (ch : Channel) (p : Bytes) → ch.total_len ≤ length ch.message → next_part ch p ≡ []
next_part_none ch p h =
    ap (λ (n : ℕ). take n p)
      (let z : min (min (ch.total_len - length ch.message) cont_data_len) (length p) ≡ 0 =
          omega arith in
        z)

-- The channel that a continuation report leaves when the message was complete already.
abbrev answered : ℕ → ℕ → Channel
answered now cmd = record (opened now cmd 0 []) { seq_num = 1 }

module _ {Dev : Type 0} (inject : Dev → Bytes → Dev × Bool) (draws : List Draw) (now : ℕ) where
  replayed :
      (d : Device Dev) (cid cmd : ℕ) (b p : Bytes)
      → 0 < length b
      → length b ≤ init_data_len
      → lookup cid d.channels ≡ some (opened now cmd (length b) b)
      → handle_cont_packet inject d now cid 0 p
        ≡ dispatch_command inject (put_channel d cid (answered now cmd)) cid cmd b
  unfolding handle_cont_packet continue_message
  replayed d cid cmd b p h k e = rw (
    e,
    next_part_none (opened now cmd (length b) b) p (omega arith),
    ne→== (length b) 0 (omega arith),
    append-nil b,
    le→leb (length b) (length b % 65536) (omega arith),
    take_all (length b) b (omega arith),
  )

  -- A CBOR command of 1 to 57 bytes is complete with its first report and is started then. Any
  -- continuation report with number 0 that follows on the channel starts the same command again.
  pub single_report_replay :
      (d : Device Dev) (cid : ℕ) (b p : Bytes)
      → cid < broadcast_cid
      → 0 < length b
      → length b ≤ init_data_len
      → (d' : Device Dev) × (receive inject draws now d
            (init_packet cid Cmd.cbor b ∷ cont_packet cid 0 p ∷ [])
          ≡ some d')
        × (d'.started ≡ d.started ++ (cid, b) ∷ (cid, b) ∷ [])
  unfolding receive dispatch_command
  single_report_replay d cid b p hc h k =
      let d1 : Device Dev =
        put_channel (cancel_channel d cid) cid (opened now Cmd.cbor (length b) b) in
      let d2 : Device Dev = record d1 { started = d1.started ++ (cid, b) ∷ [] } in
      let d3 : Device Dev = put_channel d2 cid (answered now Cmd.cbor) in
      let again : handle_cont_packet inject d2 now cid 0 (padded cont_data_len p)
          ≡ record d3 { started = d3.started ++ (cid, b) ∷ [] } =
        replayed d2 cid Cmd.cbor b (padded cont_data_len p) h k (lookup-insert_self cid _ _) in
      (
        record d3 { started = d3.started ++ (cid, b) ∷ [] },
        rw (
          first_report inject draws now cid Cmd.cbor d b hc (omega arith) (omega arith)
              (omega arith) (omega arith),
          begin_last inject draws now cid Cmd.cbor d b k,
          handle_output-cont_packet inject d2 draws now cid 0 p (omega arith) (omega arith),
          again,
        ),
        rw (started-cancel_channel d cid, append_assoc d.started ((cid, b) ∷ []) ((cid, b) ∷ [])),
      )

  -- When the goroutine of an earlier command on a channel ends because its context is over, after
  -- a later command has stored its cancel function there, a CANCEL of the host on that channel
  -- cancels nothing.
  pub stale_done_loses_cancel :
      (d : Device Dev) (cid op c n : ℕ) (b payload : Bytes)
      → cid < broadcast_cid
      → n ≤ max_message_len
      → let later = (cbor_begin inject d now op cid (c ∷ b)).0 in
        let earlier_ends = cbor_loop inject later cid (done ∷ []) in
        handle_init_packet inject earlier_ends draws now cid Cmd.cancel n payload
        ≡ some earlier_ends
  unfolding cbor_begin cbor_loop
  stale_done_loses_cancel d cid op c n b payload hc hn =
      let d' : Device Dev = store_cancel d now op cid in
      let (ch, e, k) = store_cancel-found d now op cid in
      cancel_request inject draws now (clear_cancel d' cid) cid n payload hc hn
      ∙ ap some
          (cancel_channel_idle (clear_cancel d' cid) cid _ (clear_cancel-found d' cid ch e) refl)
