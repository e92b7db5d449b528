-- ===== src/Fidohid/Cbor.antt =====
-- handleCBOR: a goroutine for each CBOR command. What its select loop receives is a list of
-- events: the command handler's result, ticks of the keepalive timer, the end of the context.
use blueripple_passkey.Prelude.{ℕ, Bool, Option, none, some, List, [], ◌∷◌, Bytes}
use blueripple_passkey.Fidohid.Packet.{keepalive_processing}
use blueripple_passkey.Fidohid.Cmd
use blueripple_passkey.Fidohid.Err
use blueripple_passkey.Fidohid.Channels.{Channel, lookup}
use blueripple_passkey.Fidohid.Device.{Device, put_channel, respond, send_error, send_keepalive}
use blueripple_passkey.Fidohid.Handlers.{idle_channel}

pub data CborEvent : Type 0 where
  result : ℕ → Bytes → CborEvent
  tick done : CborEvent

module _ {Dev : Type 0} where
  -- ch.cancelFunc = cancel, on the channel or on a new one
  store_cancel_in : Device Dev → ℕ → ℕ → ℕ → Option Channel → Device Dev
  store_cancel_in d now op cid none =
      put_channel d cid (record (idle_channel now) { cancel_func = some op })
  store_cancel_in d now op cid (some ch) = put_channel d cid (record ch { cancel_func = some op })

  unfoldable pub store_cancel : Device Dev → ℕ → ℕ → ℕ → Device Dev
  unfolding store_cancel_in
  store_cancel d now op cid = store_cancel_in d now op cid (lookup cid d.channels)

  clear_cancel_in : Device Dev → ℕ → Option Channel → Device Dev
  clear_cancel_in d cid none = d
  clear_cancel_in d cid (some ch) = put_channel d cid (record ch { cancel_func = none })

  -- ch.cancelFunc = nil, if the channel is there
  unfoldable pub clear_cancel : Device Dev → ℕ → Device Dev
  unfolding clear_cancel_in
  clear_cancel d cid = clear_cancel_in d cid (lookup cid d.channels)

module _ {Dev : Type 0} (inject : Dev → Bytes → Dev × Bool) where
  -- Up to the select loop, with op for the new context: the command byte and its data go to
  -- HandleCommand, unless the message is empty.
  unfoldable pub cbor_begin : Device Dev → ℕ → ℕ → ℕ → Bytes → Device Dev × Option (ℕ × Bytes)
  cbor_begin d now op cid [] = (send_error inject d cid Err.invalid_len, none)
  cbor_begin d now op cid (cmd ∷ b) = (store_cancel d now op cid, some (cmd, b))

  -- The select loop, over the events in the order in which it takes them.
  unfoldable pub cbor_loop : Device Dev → ℕ → List CborEvent → Device Dev
  cbor_loop d cid [] = d
  cbor_loop d cid (result status resp ∷ es) =
      clear_cancel (respond inject d cid Cmd.cbor (status ∷ resp)) cid
  cbor_loop d cid (tick ∷ es) = cbor_loop (send_keepalive inject d cid keepalive_processing) cid es
  cbor_loop d cid (done ∷ es) = clear_cancel d cid
