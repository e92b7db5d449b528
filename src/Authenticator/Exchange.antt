-- ===== src/Authenticator/Exchange.antt =====
-- A CBOR message from its reports to the reports of its answer.
use blueripple_passkey.Prelude.{
  ℕ, zero, suc, ◌≤◌, ◌<◌, ◌≡◌, refl, subst, ◌∙◌, Bool, none, some, List, [], ◌∷◌, ◌++◌, Bytes,
  length, arith,
}
use blueripple_passkey.Fidohid.Packet.{
  broadcast_cid, max_message_len, packets, keepalive_processing,
}
use blueripple_passkey.Fidohid.Cmd
use blueripple_passkey.Fidohid.Channels.{Channel, lookup}
use blueripple_passkey.Fidohid.Device.{
  Device, Draw, put_channel, cancel_channel, dispatch_command, respond, send_keepalive,
}
use blueripple_passkey.Fidohid.Cbor.{result, cbor_begin, cbor_loop, clear_cancel, store_cancel}
use blueripple_passkey.Fidohid.Cancel.{
  store_cancel-found, clear_cancel-found, started-cancel_channel,
}
use blueripple_passkey.Fidohid.Continuation.{receive}
use blueripple_passkey.Fidohid.Reassembly.{receive-packets}
use blueripple_passkey.Fidohid.Sending.{inject_all, send_response-packets}
use blueripple_passkey.Ctap2.Handler.{Env, Handler}
use blueripple_passkey.Ctap2.Commands.{handle_command}
use blueripple_passkey.Authenticator.{run_cbor, response_bytes, ticks}

-- What a device has sent, and that no cancel function is left on the channel.
abbrev pub HasAnswered : {Dev : Type 0} → Device Dev → ℕ → Dev → Type 0
HasAnswered d cid dev =
    (d.dev ≡ dev) × ((ch : Channel) × (lookup cid d.channels ≡ some ch) × (ch.cancel_func ≡ none))

module _ {Dev : Type 0} (inject : Dev → Bytes → Dev × Bool) where
  -- The reports of so many keepalives, each message up to its first report that fails.
  pub keepalives : ℕ → ℕ → Dev → Dev
  keepalives cid zero dev = dev
  keepalives cid (suc n) dev =
      keepalives cid n
        (inject_all inject dev (packets cid Cmd.keepalive (keepalive_processing ∷ [])))

  cbor_loop-ticks :
      (d : Device Dev) (cid n status : ℕ) (response : Bytes)
      → cbor_loop inject d cid (ticks n (result status response ∷ []))
        ≡ clear_cancel
            (record d {
              dev =
                  inject_all inject
                    (keepalives cid n d.dev)
                    (packets cid Cmd.cbor (status ∷ response));
            })
            cid
  unfolding cbor_loop respond send_keepalive keepalives
  cbor_loop-ticks d cid zero status response =
      rw (send_response-packets inject d.dev cid Cmd.cbor (status ∷ response))
  cbor_loop-ticks d cid (suc n) status response =
      cbor_loop-ticks (send_keepalive inject d cid keepalive_processing) cid n status response
      ∙ rw (send_response-packets inject d.dev cid Cmd.keepalive (keepalive_processing ∷ []))

  dev-clear_cancel : (d : Device Dev) (cid : ℕ) → (clear_cancel d cid).dev ≡ d.dev
  unfolding clear_cancel
  dev-clear_cancel d cid = ground arith

  dev-store_cancel : (d : Device Dev) (now op cid : ℕ) → (store_cancel d now op cid).dev ≡ d.dev
  unfolding store_cancel
  dev-store_cancel d now op cid = ground arith

  dev-cancel_channel : (d : Device Dev) (cid : ℕ) → (cancel_channel d cid).dev ≡ d.dev
  unfolding cancel_channel
  dev-cancel_channel d cid = ground arith

  answered_loop :
      (d : Device Dev) (now op cid n status : ℕ) (response : Bytes)
      → HasAnswered
          (cbor_loop inject (store_cancel d now op cid) cid (ticks n (result status response ∷ [])))
          cid
          (inject_all inject (keepalives cid n d.dev) (packets cid Cmd.cbor (status ∷ response)))
  answered_loop d now op cid n status response =
      let begun : Device Dev = store_cancel d now op cid in
      let sent : Device Dev = record begun {
        dev =
            inject_all inject (keepalives cid n begun.dev)
              (packets cid Cmd.cbor (status ∷ response));
      } in
      let (ch, e, k) = store_cancel-found d now op cid in
      rw (cbor_loop-ticks begun cid n status response) (
        dev-clear_cancel sent cid ∙ rw (dev-store_cancel d now op cid),
        (record ch { cancel_func = none }, clear_cancel-found sent cid ch e, refl),
      )

  module _ {W : Type 0} (env : Env W) where
    -- The reports of the answer to a command, after the keepalives.
    abbrev pub reply_reports : Handler W → ℕ → ℕ → Bytes → List Bytes
    reply_reports h cid cmd b =
        let (status, response) = (handle_command env h cmd b).1 in
        packets cid Cmd.cbor (status ∷ response_bytes response)

    run_cbor_lem :
        (d : Device Dev) (h : Handler W) (now op cid n cmd : ℕ) (b : Bytes)
        → let (d', h') = run_cbor env inject d h now op cid n (cmd ∷ b) in
          (h' ≡ (handle_command env h cmd b).0)
          × HasAnswered d' cid
              (inject_all inject (keepalives cid n d.dev) (reply_reports h cid cmd b))
    unfolding run_cbor cbor_begin
    run_cbor_lem d h now op cid n cmd b =
        let (status, response) = (handle_command env h cmd b).1 in
        (refl, answered_loop d now op cid n status (response_bytes response))

    dispatched_cbor :
        (d : Device Dev) (cid : ℕ) (ch : Channel) (b : Bytes)
        → let d' =
            dispatch_command inject (put_channel (cancel_channel d cid) cid ch) cid Cmd.cbor b in
          (d'.started ≡ d.started ++ (cid, b) ∷ []) × (d'.dev ≡ d.dev)
    unfolding dispatch_command
    dispatched_cbor d cid ch b = (rw (started-cancel_channel d cid), dev-cancel_channel d cid)

    -- A command byte with its data, at most 1200 bytes together, that arrives on a channel in its
    -- reports starts one goroutine with it. When the handler's result is there after n ticks of the
    -- keepalive timer, before the context ends, and nothing else runs on the device meanwhile, the
    -- goroutine has sent n keepalives and then the reports of exactly the status and the response
    -- that the handler gave to the command, and no cancel function is left on the channel. Of each
    -- message the sending stops at a report that the device refuses.
    pub command_answered :
        (d : Device Dev) (h : Handler W) (draws : List Draw) (now later op cid n cmd : ℕ)
        (b : Bytes)
        → cid < broadcast_cid
        → length (cmd ∷ b) ≤ max_message_len
        → (d' : Device Dev) × (receive inject draws now d (packets cid Cmd.cbor (cmd ∷ b))
            ≡ some d')
          × (d'.started ≡ d.started ++ (cid, cmd ∷ b) ∷ [])
          × ((run_cbor env inject d' h later op cid n (cmd ∷ b)).1 ≡ (handle_command env h cmd b).0)
          × HasAnswered
              (run_cbor env inject d' h later op cid n (cmd ∷ b)).0
              cid
              (inject_all inject (keepalives cid n d.dev) (reply_reports h cid cmd b))
    command_answered d h draws now later op cid n cmd b hc hl =
        let (end, arrived) =
          receive-packets inject draws now cid Cmd.cbor d (cmd ∷ b) hc (omega arith) (omega arith)
            (omega arith) hl in
        let d' : Device Dev =
          dispatch_command inject (put_channel (cancel_channel d cid) cid end) cid Cmd.cbor
            (cmd ∷ b) in
        let (started, untouched) = dispatched_cbor d cid end (cmd ∷ b) in
        let (state, ran) = run_cbor_lem d' h later op cid n cmd b in
        (
          d',
          arrived,
          started,
          state,
          subst
              (λ dev.
                HasAnswered (run_cbor env inject d' h later op cid n (cmd ∷ b)).0 cid
                  (inject_all inject (keepalives cid n dev) (reply_reports h cid cmd b)))
              untouched ran,
        )
