-- ===== src/Fidohid/Invariant.antt =====
-- What holds of the channels after any report: the slices that the handlers take are in range, and
-- no command that is started is longer than the limit.
use blueripple_passkey.Prelude.{
  ℕ, ◌-◌, ◌%◌, ◌≤◌, ◌≡◌, min, Bool, Option, none, some, List, [], ◌∷◌, ◌++◌, Bytes, length, take,
  length-take, length-append, arith, All, WhereSome, ltb→le, bit_and, get_or, if_intro, All-append,
  inl, inr, Option-cases, ltb, leb, not, ◌==◌, ◌||◌,
}
use blueripple_passkey.Fidohid.Packet.{max_message_len, broadcast_cid}
use blueripple_passkey.Fidohid.Cmd
use blueripple_passkey.Fidohid.Err
use blueripple_passkey.Fidohid.Channels.{
  Channel, Channels, lookup, insert, Distinct, insert-Distinct,
}
use blueripple_passkey.Fidohid.Device.{
  Device, Draw, put_channel, cancel_channel, respond, send_error, dispatch_command, allocate_cid,
}
use blueripple_passkey.Fidohid.Handlers.{
  handle_output, allocated, finish_init, init_response, strip_report_id, padded_report,
  handle_init_packet, handle_init, handle_cont_packet, begin_message, continue_message,
  idle_channel, first_part, next_part, opened,
}

pub record Fits (ch : Channel) : Type 0 where
  pub so_far : length ch.message ≤ ch.total_len
  pub limited : ch.total_len ≤ max_message_len

abbrev pub AllFit : Channels → Type 0
AllFit = All (λ kv. Fits kv.1)

pub record IsSound {Dev : Type 0} (d : Device Dev) : Type 0 where
  pub channels_fit : AllFit d.channels
  pub distinct : Distinct d.channels
  pub started_fit : All (λ s. length s.1 ≤ max_message_len) d.started

insert-AllFit :
    (cid : ℕ) (ch : Channel) (m : Channels) → Fits ch → AllFit m → AllFit (insert cid ch m)
unfolding insert
insert-AllFit cid ch [] f h = (f, tt)
insert-AllFit cid ch ((k, old) ∷ m) f h = ground (arith, insert-AllFit cid ch m f h.1)

pub lookup-Fits :
    (cid : ℕ) (ch : Channel) (m : Channels) → lookup cid m ≡ some ch → AllFit m → Fits ch
unfolding lookup
lookup-Fits cid ch [] e h = cc
lookup-Fits cid ch ((k, old) ∷ m) e h = ground (arith, lookup-Fits cid ch m)

module _ {Dev : Type 0} where
  pub cancel_channel-IsSound :
      (d : Device Dev) (cid : ℕ) → IsSound d → IsSound (cancel_channel d cid)
  unfolding cancel_channel
  cancel_channel-IsSound d cid h = ground arith

  pub put_channel-IsSound :
      (d : Device Dev) (cid : ℕ) (ch : Channel)
      → Fits ch
      → IsSound d
      → IsSound (put_channel d cid ch)
  put_channel-IsSound d cid ch f h = record {
    channels_fit = insert-AllFit cid ch d.channels f h.channels_fit;
    distinct = insert-Distinct cid ch d.channels h.distinct;
    started_fit = h.started_fit;
  }

module _ {Dev : Type 0} (inject : Dev → Bytes → Dev × Bool) where
  pub respond-IsSound :
      (d : Device Dev) (cid cmd : ℕ) (b : Bytes) → IsSound d → IsSound (respond inject d cid cmd b)
  unfolding respond
  respond-IsSound d cid cmd b h = record {
    channels_fit = h.channels_fit;
    distinct = h.distinct;
    started_fit = h.started_fit;
  }

  pub send_error-IsSound :
      (d : Device Dev) (cid code : ℕ) → IsSound d → IsSound (send_error inject d cid code)
  unfolding send_error
  send_error-IsSound d cid code h = respond-IsSound d cid Cmd.error (code ∷ []) h

  dispatch_command-IsSound :
      (d : Device Dev) (cid cmd : ℕ) (b : Bytes)
      → length b ≤ max_message_len
      → IsSound d
      → IsSound (dispatch_command inject d cid cmd b)
  unfolding dispatch_command
  dispatch_command-IsSound d cid cmd b l h =
      if_intro IsSound (cmd == Cmd.cbor) _ _
        (λ _. record {
          channels_fit = h.channels_fit;
          distinct = h.distinct;
          started_fit = All-append _ d.started ((cid, b) ∷ []) h.started_fit (l, tt);
        })
        (λ _.
          if_intro IsSound (cmd == Cmd.ping) _ _ (λ _. respond-IsSound d cid Cmd.ping b h)
            (λ _. send_error-IsSound d cid Err.invalid_cmd h))

  begin_message-IsSound :
      (d : Device Dev) (now cid cmd bcnt : ℕ) (payload : Bytes)
      → bcnt ≤ max_message_len
      → IsSound d
      → IsSound (begin_message inject d now cid cmd bcnt payload)
  unfolding begin_message
  begin_message-IsSound d now cid cmd bcnt payload l h =
      let msg = first_part bcnt payload in
      let short : length msg ≤ bcnt =
        omega (arith, length-take (min (min bcnt 57) (length payload)) payload) in
      let sound =
        put_channel-IsSound (cancel_channel d cid) cid (opened now cmd bcnt msg)
          (record { so_far = short; limited = l }) (cancel_channel-IsSound d cid h) in
      if_intro IsSound (leb bcnt (length msg % 65536)) _ _
        (λ _.
          dispatch_command-IsSound _ cid cmd (take bcnt msg) (omega (arith, length-take bcnt msg))
            sound)
        (λ _. sound)

  continue_message-IsSound :
      (d : Device Dev) (now cid : ℕ) (ch : Channel) (payload : Bytes)
      → Fits ch
      → IsSound d
      → IsSound (continue_message inject d now cid ch payload)
  unfolding continue_message
  continue_message-IsSound d now cid ch payload f h =
      let msg = ch.message ++ next_part ch payload in
      if_intro IsSound (leb ch.total_len (length msg % 65536)) _ _
        (λ _.
          dispatch_command-IsSound _ cid ch.cmd (take ch.total_len msg)
            (omega (arith, length-take ch.total_len msg, f.limited))
            (put_channel-IsSound d cid _ (record { so_far = omega arith; limited = omega arith })
              h))
        (λ _.
          put_channel-IsSound d cid _
            (record {
              so_far = omega (
                arith,
                length-append ch.message (next_part ch payload),
                length-take (min (min (ch.total_len - length ch.message) 59) (length payload))
                    payload,
                f.so_far,
              );
              limited = f.limited;
            })
            h)

  pub finish_init-IsSound :
      (d : Device Dev) (now cid new_cid : ℕ) (nonce : Bytes)
      → IsSound d
      → IsSound (finish_init inject d now cid new_cid nonce)
  unfolding finish_init
  finish_init-IsSound d now cid new_cid nonce h =
      respond-IsSound _ cid Cmd.init (init_response nonce new_cid) (
        put_channel-IsSound d new_cid (idle_channel now)
          (record { so_far = omega arith; limited = omega arith }) h)

  handle_cont_packet-IsSound :
      (d : Device Dev) (now cid seq : ℕ) (payload : Bytes)
      → IsSound d
      → IsSound (handle_cont_packet inject d now cid seq payload)
  unfolding handle_cont_packet
  handle_cont_packet-IsSound d now cid seq payload h = elim (Option-cases (lookup cid d.channels)) [
    | inl e ↦ rw (e, handle_cont_packet) (send_error-IsSound d cid Err.invalid_channel h)
    | inr (ch, e) ↦
        rw (e, handle_cont_packet)
          (if_intro IsSound (ch.total_len == 0) _ _
            (λ _. send_error-IsSound d cid Err.invalid_channel h)
            (λ _.
              if_intro IsSound (not (seq == ch.seq_num)) _ _
                (λ _. send_error-IsSound d cid Err.invalid_seq h)
                (λ _.
                  continue_message-IsSound d now cid ch payload
                    (lookup-Fits cid ch d.channels e h.channels_fit) h)))
  ]

  allocated-IsSound :
      (d : Device Dev) (now cid : ℕ) (nonce : Bytes) (o : Option ℕ)
      → IsSound d
      → WhereSome IsSound (allocated inject d now cid nonce o)
  unfolding allocated
  allocated-IsSound d now cid nonce none h = tt
  allocated-IsSound d now cid nonce (some new_cid) h = finish_init-IsSound d now cid new_cid nonce h

  handle_init-IsSound :
      (d : Device Dev) (draws : List Draw) (now cid : ℕ) (nonce : Bytes)
      → IsSound d
      → WhereSome IsSound (handle_init inject d draws now cid nonce)
  unfolding handle_init
  handle_init-IsSound d draws now cid nonce h =
      if_intro (WhereSome IsSound) (cid == broadcast_cid) _ _
        (λ _. allocated-IsSound d now cid nonce (allocate_cid d.channels draws) h)
        (λ _.
          finish_init-IsSound (cancel_channel d cid) now cid cid nonce
            (cancel_channel-IsSound d cid h))

  handle_init_packet-IsSound :
      (d : Device Dev) (draws : List Draw) (now cid cmd bcnt : ℕ) (payload : Bytes)
      → IsSound d
      → WhereSome IsSound (handle_init_packet inject d draws now cid cmd bcnt payload)
  unfolding handle_init_packet
  handle_init_packet-IsSound d draws now cid cmd bcnt payload h =
      let P = WhereSome IsSound in
      if_intro P (cmd == Cmd.init) _ _
        (λ _.
          if_intro P (not (bcnt == 8) || ltb (length payload) 8) _ _
            (λ _. send_error-IsSound d cid Err.invalid_len h)
            (λ _. handle_init-IsSound d draws now cid (take 8 payload) h))
        (λ _.
          if_intro P (cid == broadcast_cid) _ _
            (λ _. send_error-IsSound d cid Err.invalid_channel h)
            (λ _.
              if_intro P (ltb max_message_len bcnt) _ _
                (λ _. send_error-IsSound d cid Err.invalid_len h)
                (λ l.
                  if_intro P (cmd == Cmd.cancel) _ _ (λ _. cancel_channel-IsSound d cid h)
                    (λ _.
                      begin_message-IsSound d now cid cmd bcnt payload
                        (ltb→le max_message_len bcnt l) h))))

  -- If every channel holds at most as many bytes as its message announces, and no announced or
  -- started message is longer than 1200 bytes, and no channel ID stands twice, then the same holds
  -- after any report, malformed or not.
  pub handle_output-IsSound :
      (d : Device Dev) (draws : List Draw) (now : ℕ) (report : Bytes)
      → IsSound d
      → WhereSome IsSound (handle_output inject d draws now report)
  unfolding handle_output
  handle_output-IsSound d draws now report h =
      let P = WhereSome IsSound in
      let b = strip_report_id report in
      let p = padded_report b in
      if_intro P (ltb (length b) 7) _ _ (λ _. h)
        (λ _.
          if_intro P (bit_and (get_or p 4 0) 0x80 == 0) _ _
            (λ _. handle_cont_packet-IsSound d now _ _ _ h)
            (λ _. handle_init_packet-IsSound d draws now _ _ _ _ h))
