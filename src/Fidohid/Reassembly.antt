-- ===== src/Fidohid/Reassembly.antt =====
-- A message that the host sends in the reports of `packets` is dispatched once, as it was sent.
use blueripple_passkey.Prelude.{
  ℕ, ◌%◌, ◌<◌, ◌≤◌, ◌≡◌, ◌≢◌, refl, ap, ◌∙◌, Bool, some, List, ◌∷◌, Bytes, length, take, drop,
  arith, le→ltb, ne→==, lt→leb, le→leb, length-take, length-drop, take_all, drop_all,
  take-append-drop,
}
use blueripple_passkey.Fidohid.Packet.{
  padded, init_packet, packets, init_data_len, broadcast_cid, max_message_len,
}
use native.Mathlib.Decide.{dec_le}
use blueripple_passkey.Fidohid.Cmd
use blueripple_passkey.Fidohid.Channels.{Channel, lookup-insert_self, insert-insert}
use blueripple_passkey.Fidohid.Device.{Device, Draw, dispatch_command, put_channel, cancel_channel}
use blueripple_passkey.Fidohid.Handlers.{opened, handle_output, handle_init_packet, begin_message}
use blueripple_passkey.Fidohid.Parsing.{handle_output-init_packet}
use blueripple_passkey.Fidohid.Continuation.{
  take_sent, Waits, cont_packets-nil, receive, receive-cont,
}

module _ {Dev : Type 0} (inject : Dev → Bytes → Dev × Bool) (draws : List Draw) (now : ℕ) where
  module _ (cid cmd : ℕ) where
    pub begin_last :
        (d : Device Dev) (b : Bytes)
        → length b ≤ init_data_len
        → begin_message inject d now cid cmd (length b) (padded init_data_len b)
          ≡ dispatch_command inject
              (put_channel (cancel_channel d cid) cid (opened now cmd (length b) b))
              cid
              cmd
              b
    unfolding begin_message
    begin_last d b h = rw (
      take_sent init_data_len (length b) b refl,
      take_all init_data_len b h,
      le→leb (length b) (length b % 65536) (omega arith),
      take_all (length b) b (omega arith),
    )

    begin_more :
        (d : Device Dev) (b : Bytes)
        → init_data_len < length b
        → length b ≤ max_message_len
        → begin_message inject d now cid cmd (length b) (padded init_data_len b)
          ≡ put_channel
              (cancel_channel d cid)
              cid
              (opened now cmd (length b) (take init_data_len b))
    unfolding begin_message
    begin_more d b h k = rw (
      take_sent init_data_len (length b) b refl,
      lt→leb (length b) (length (take init_data_len b) % 65536)
          (omega (arith, length-take init_data_len b)),
    )

    opened-Waits :
        (b : Bytes)
        → init_data_len < length b
        → length b ≤ max_message_len
        → Waits (opened now cmd (length b) (take init_data_len b)) cmd 0 (drop init_data_len b)
    opened-Waits b h k = record {
      of_cmd = refl;
      at_seq = refl;
      so_far = omega (arith, length-take init_data_len b);
      fits = omega (arith, length-take init_data_len b, length-drop init_data_len b);
      short = k;
      open_yet = omega (arith, length-drop init_data_len b);
    }

    -- The first report of a message, past the guards of handleInitPacket.
    pub first_report :
        (d : Device Dev) (b : Bytes)
        → cid < broadcast_cid
        → cmd < 128
        → cmd ≢ Cmd.init
        → cmd ≢ Cmd.cancel
        → length b ≤ max_message_len
        → handle_output inject d draws now (0 ∷ init_packet cid cmd b)
          ≡ some (begin_message inject d now cid cmd (length b) (padded init_data_len b))
    unfolding handle_init_packet
    first_report d b hc hm ni nc hl =
        handle_output-init_packet inject d draws now cid cmd b (omega arith) hm
        ∙ rw
            (
              ne→== cmd Cmd.init ni,
              ne→== cid broadcast_cid (omega arith),
              le→ltb max_message_len (length b % 65536) (omega arith),
              ne→== cmd Cmd.cancel nc,
            )
            (ap (λ (n : ℕ). some (begin_message inject d now cid cmd n (padded init_data_len b)))
              (omega arith))

    -- A message of at most 1200 bytes, other than INIT and CANCEL, that arrives on a channel in the
    -- reports of `packets` is dispatched exactly once and as it was sent, whatever state the device
    -- is in: the command that ran on the channel is cancelled first, and only this channel changes.
    pub receive-packets :
        (d : Device Dev) (b : Bytes)
        → cid < broadcast_cid
        → cmd < 128
        → cmd ≢ Cmd.init
        → cmd ≢ Cmd.cancel
        → length b ≤ max_message_len
        → (end : Channel) × (receive inject draws now d (packets cid cmd b)
            ≡ some (dispatch_command inject (put_channel (cancel_channel d cid) cid end) cid cmd b))
    unfolding receive packets
    receive-packets d b hc hm ni nc hl = elim (dec_le (length b) init_data_len) [
      | yes h ↦ (
        opened now cmd (length b) b,
        rw (
          first_report d b hc hm ni nc hl,
          begin_last d b h,
          drop_all init_data_len b h,
          cont_packets-nil,
        ),
      )
      | no h ↦
          let ch : Channel = opened now cmd (length b) (take init_data_len b) in
          let d' : Device Dev = cancel_channel d cid in
          let (end, rest) =
            receive-cont inject draws now cid cmd (length (drop init_data_len b))
              (put_channel d' cid ch) ch 0 (drop init_data_len b) (omega arith) (omega arith)
              (lookup-insert_self cid ch d'.channels) (opened-Waits b (omega arith) hl) in
          (
            end,
            rw (first_report d b hc hm ni nc hl, begin_more d b (omega arith) hl)
                (rest
                  ∙ rw (insert-insert cid ch end d'.channels, take-append-drop init_data_len b)),
          )
    ]
