-- ===== src/Fidohid/Running.antt =====
-- A CBOR command that runs, and what else may go on meanwhile.
use blueripple_passkey.Prelude.{
  ℕ, ◌≤◌, ◌<◌, ◌≡◌, ◌≢◌, refl, ap, ◌∙◌, some, List, [], ◌∷◌, ◌++◌, Bytes, length, Option-cases,
  Bool, arith, inl, inr, ne→==, if_intro, WhereSome, subst, ◌==◌, not, ◌||◌, ltb, leb, take, ◌%◌,
}
use blueripple_passkey.Fidohid.Packet.{broadcast_cid, max_message_len}
use blueripple_passkey.Fidohid.Cmd
use blueripple_passkey.Fidohid.Channels.{Channel, lookup, insert, lookup-insert}
use blueripple_passkey.Fidohid.Device.{
  Device, Draw, cancel_channel, put_channel, dispatch_command, respond, send_error, send_keepalive,
}
use blueripple_passkey.Fidohid.Handlers.{
  handle_init_packet, handle_init, finish_init, begin_message, handle_cont_packet, continue_message,
  opened, first_part, next_part,
}
use blueripple_passkey.Fidohid.Cbor.{
  CborEvent, result, tick, done, cbor_begin, cbor_loop, store_cancel, clear_cancel,
}
use blueripple_passkey.Fidohid.Cleanup.{cleanup_channels}
use blueripple_passkey.Fidohid.Cancel.{store_cancel-found, cancel_channel_busy, cancel_request}

module _ {Dev : Type 0} (inject : Dev → Bytes → Dev × Bool) (cid : ℕ) where
  -- A step that is not one of the channel's own but for the keepalives of its command: reports,
  -- starts and goroutines of other channels, and cleanups in which the channel stays as it is. An
  -- INIT on the broadcast channel is left out, since it chooses its channel itself.
  pub data Elsewhere : Device Dev → Device Dev → Type 0 where
    keeps_alive : (d : Device Dev) → Elsewhere d (cbor_loop inject d cid (tick ∷ []))
    starts :
        (d : Device Dev) (now op k : ℕ) (b : Bytes)
        → k ≢ cid
        → Elsewhere d (cbor_begin inject d now op k b).0
    goes_on :
        (d : Device Dev) (k : ℕ) (e : CborEvent)
        → k ≢ cid
        → Elsewhere d (cbor_loop inject d k (e ∷ []))
    init_report :
        (d e : Device Dev) (draws : List Draw) (now k cmd n : ℕ) (payload : Bytes)
        → k ≢ cid
        → k ≢ broadcast_cid
        → handle_init_packet inject d draws now k cmd n payload ≡ some e
        → Elsewhere d e
    cont_report :
        (d : Device Dev) (now k seq : ℕ) (payload : Bytes)
        → k ≢ cid
        → Elsewhere d (handle_cont_packet inject d now k seq payload)
    cleaned :
        (d : Device Dev) (now : ℕ)
        → lookup cid (cleanup_channels d now).channels ≡ lookup cid d.channels
        → Elsewhere d (cleanup_channels d now)

  pub data Meanwhile (d : Device Dev) : Device Dev → Type 0 where
    here : Meanwhile d d
    next : {e f : Device Dev} → Meanwhile d e → Elsewhere e f → Meanwhile d f

  abbrev Keeps : Device Dev → Device Dev → Type 0
  Keeps d e = lookup cid e.channels ≡ lookup cid d.channels

  channels-cancel_channel : (d : Device Dev) (k : ℕ) → (cancel_channel d k).channels ≡ d.channels
  unfolding cancel_channel
  channels-cancel_channel d k = ground arith

  channels-dispatch_command :
      (d : Device Dev) (k cmd : ℕ) (b : Bytes)
      → (dispatch_command inject d k cmd b).channels ≡ d.channels
  unfolding dispatch_command respond send_error
  channels-dispatch_command d k cmd b = ground arith

  insert-Keeps :
      (d : Device Dev) (k : ℕ) (ch : Channel)
      → k ≢ cid
      → lookup cid (insert k ch d.channels) ≡ lookup cid d.channels
  insert-Keeps d k ch h = ground (arith, lookup-insert cid k ch d.channels)

  put_channel-Keeps :
      (d : Device Dev) (k : ℕ) (ch : Channel) → k ≢ cid → Keeps d (put_channel d k ch)
  put_channel-Keeps d k ch h = insert-Keeps d k ch h

  store_cancel-Keeps : (d : Device Dev) (now op k : ℕ) → k ≢ cid → Keeps d (store_cancel d now op k)
  unfolding store_cancel
  store_cancel-Keeps d now op k h = elim (Option-cases (lookup k d.channels)) [
    | inl e ↦ rw (e, store_cancel) (put_channel-Keeps d k _ h)
    | inr (ch, e) ↦ rw (e, store_cancel) (put_channel-Keeps d k _ h)
  ]

  clear_cancel-Keeps : (d : Device Dev) (k : ℕ) → k ≢ cid → Keeps d (clear_cancel d k)
  unfolding clear_cancel
  clear_cancel-Keeps d k h = elim (Option-cases (lookup k d.channels)) [
    | inl e ↦ rw (e, clear_cancel) refl
    | inr (ch, e) ↦ rw (e, clear_cancel) (put_channel-Keeps d k _ h)
  ]

  cbor_begin-Keeps :
      (d : Device Dev) (now op k : ℕ) (b : Bytes)
      → k ≢ cid
      → Keeps d (cbor_begin inject d now op k b).0
  unfolding cbor_begin send_error respond
  cbor_begin-Keeps d now op k [] h = refl
  cbor_begin-Keeps d now op k (c ∷ b) h = store_cancel-Keeps d now op k h

  cbor_loop-Keeps :
      (d : Device Dev) (k : ℕ) (e : CborEvent) → k ≢ cid → Keeps d (cbor_loop inject d k (e ∷ []))
  unfolding cbor_loop send_keepalive respond
  cbor_loop-Keeps d k (result status resp) h = clear_cancel-Keeps _ k h
  cbor_loop-Keeps d k tick h = refl
  cbor_loop-Keeps d k done h = clear_cancel-Keeps d k h

  finish_init-Keeps :
      (d : Device Dev) (now k : ℕ) (nonce : Bytes)
      → k ≢ cid
      → Keeps d (finish_init inject d now k k nonce)
  unfolding finish_init respond
  finish_init-Keeps d now k nonce h = put_channel-Keeps d k _ h

  begin_message-Keeps :
      (d : Device Dev) (now k cmd n : ℕ) (payload : Bytes)
      → k ≢ cid
      → Keeps d (begin_message inject d now k cmd n payload)
  unfolding begin_message
  begin_message-Keeps d now k cmd n payload h =
      let msg = first_part n payload in
      let d' = put_channel (cancel_channel d k) k (opened now cmd n msg) in
      let kept : Keeps d d' =
        put_channel-Keeps (cancel_channel d k) k (opened now cmd n msg) h
        ∙ ap (lookup cid) (channels-cancel_channel d k) in
      if_intro (Keeps d) (leb n (length msg % 65536)) _ _
        (λ _. ap (lookup cid) (channels-dispatch_command d' k cmd (take n msg)) ∙ kept) (λ _. kept)

  continue_message-Keeps :
      (d : Device Dev) (now k : ℕ) (ch : Channel) (payload : Bytes)
      → k ≢ cid
      → Keeps d (continue_message inject d now k ch payload)
  unfolding continue_message
  continue_message-Keeps d now k ch payload h =
      let msg = ch.message ++ next_part ch payload in
      if_intro (Keeps d) (leb ch.total_len (length msg % 65536)) _ _
        (λ _.
          ap (lookup cid) (channels-dispatch_command _ k ch.cmd (take ch.total_len msg))
          ∙ put_channel-Keeps d k _ h)
        (λ _. put_channel-Keeps d k _ h)

  cont_packet-Keeps :
      (d : Device Dev) (now k seq : ℕ) (payload : Bytes)
      → k ≢ cid
      → Keeps d (handle_cont_packet inject d now k seq payload)
  unfolding handle_cont_packet send_error respond
  cont_packet-Keeps d now k seq payload h = elim (Option-cases (lookup k d.channels)) [
    | inl e ↦ rw (e, handle_cont_packet) refl
    | inr (ch, e) ↦
        rw (e, handle_cont_packet)
          (if_intro (Keeps d) (ch.total_len == 0) _ _ (λ _. refl)
            (λ _.
              if_intro (Keeps d) (not (seq == ch.seq_num)) _ _ (λ _. refl)
                (λ _. continue_message-Keeps d now k ch payload h)))
  ]

  handle_init-Keeps :
      (d : Device Dev) (draws : List Draw) (now k : ℕ) (nonce : Bytes)
      → k ≢ cid
      → k ≢ broadcast_cid
      → WhereSome (Keeps d) (handle_init inject d draws now k nonce)
  unfolding handle_init
  handle_init-Keeps d draws now k nonce h b = rw (ne→== k broadcast_cid b) (
      finish_init-Keeps (cancel_channel d k) now k nonce h
      ∙ ap (lookup cid) (channels-cancel_channel d k))

  init_packet-Keeps :
      (d : Device Dev) (draws : List Draw) (now k cmd n : ℕ) (payload : Bytes)
      → k ≢ cid
      → k ≢ broadcast_cid
      → WhereSome (Keeps d) (handle_init_packet inject d draws now k cmd n payload)
  unfolding handle_init_packet send_error respond
  init_packet-Keeps d draws now k cmd n payload h b =
      let P = WhereSome (Keeps d) in
      if_intro P (cmd == Cmd.init) _ _
        (λ _.
          if_intro P (not (n == 8) || ltb (length payload) 8) _ _ (λ _. refl)
            (λ _. handle_init-Keeps d draws now k (take 8 payload) h b))
        (λ _.
          if_intro P (k == broadcast_cid) _ _ (λ _. refl)
            (λ _.
              if_intro P (ltb max_message_len n) _ _ (λ _. refl)
                (λ _.
                  if_intro P (cmd == Cmd.cancel) _ _
                    (λ _. ap (lookup cid) (channels-cancel_channel d k))
                    (λ _. begin_message-Keeps d now k cmd n payload h))))

  Elsewhere-Keeps : {d e : Device Dev} → Elsewhere d e → Keeps d e
  unfolding cbor_loop send_keepalive respond
  Elsewhere-Keeps (keeps_alive d) = refl
  Elsewhere-Keeps (starts d now op k b h) = cbor_begin-Keeps d now op k b h
  Elsewhere-Keeps (goes_on d k e h) = cbor_loop-Keeps d k e h
  Elsewhere-Keeps (init_report d e draws now k cmd n payload h b q) =
      subst (WhereSome (Keeps d)) q (init_packet-Keeps d draws now k cmd n payload h b)
  Elsewhere-Keeps (cont_report d now k seq payload h) = cont_packet-Keeps d now k seq payload h
  Elsewhere-Keeps (cleaned d now q) = q

  Meanwhile-Keeps : {d e : Device Dev} → Meanwhile d e → Keeps d e
  Meanwhile-Keeps here = refl
  Meanwhile-Keeps (next r s) = Elsewhere-Keeps s ∙ Meanwhile-Keeps r

-- A CBOR command has begun on a channel, and since then reports, starts and goroutines of other
-- channels, cleanups in which the channel stays as it is, and the command's own keepalives have gone
-- on in any order, but no report of the channel itself, no goroutine of an earlier command on it that
-- ended, and no INIT on the broadcast channel: then a CANCEL of at most 1200 announced bytes on the
-- channel calls the cancel function of that command's context, and no other.
pub cancel_while_running :
    {Dev : Type 0} (inject : Dev → Bytes → Dev × Bool) (d running : Device Dev) (draws : List Draw)
    (begun now op cid c n : ℕ) (b payload : Bytes)
    → cid < broadcast_cid
    → n ≤ max_message_len
    → Meanwhile inject cid (cbor_begin inject d begun op cid (c ∷ b)).0 running
    → handle_init_packet inject running draws now cid Cmd.cancel n payload
      ≡ some (record running { cancelled = running.cancelled ++ op ∷ [] })
unfolding cbor_begin
cancel_while_running inject d running draws begun now op cid c n b payload hc hn r =
    let (ch, e, k) = store_cancel-found d begun op cid in
    cancel_request inject draws now running cid n payload hc hn
    ∙ ap some (cancel_channel_busy running cid op ch (Meanwhile-Keeps inject cid r ∙ e) k)
