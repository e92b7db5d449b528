-- ===== src/Fidohid/Cancel.antt =====
-- The cancel function of a channel: storing, clearing and running it.
use blueripple_passkey.Prelude.{
  ℕ, ◌≤◌, ◌<◌, ◌≡◌, refl, Bool, none, some, List, [], ◌∷◌, ◌++◌, Bytes, Option-cases, arith, inl,
  inr, ne→==, le→ltb,
}
use blueripple_passkey.Fidohid.Packet.{broadcast_cid, max_message_len}
use blueripple_passkey.Fidohid.Cmd
use blueripple_passkey.Fidohid.Channels.{Channel, lookup, lookup-insert_self}
use blueripple_passkey.Fidohid.Device.{Device, Draw, cancel_channel}
use blueripple_passkey.Fidohid.Handlers.{idle_channel, handle_init_packet}
use blueripple_passkey.Fidohid.Cbor.{store_cancel, clear_cancel}

module _ {Dev : Type 0} where
  pub started-cancel_channel :
      (d : Device Dev) (cid : ℕ) → (cancel_channel d cid).started ≡ d.started
  unfolding cancel_channel
  started-cancel_channel d cid = ground arith

  pub store_cancel-found :
      (d : Device Dev) (now op cid : ℕ)
      → (ch : Channel) × (lookup cid (store_cancel d now op cid).channels ≡ some ch)
        × (ch.cancel_func ≡ some op)
  unfolding store_cancel
  store_cancel-found d now op cid = elim (Option-cases (lookup cid d.channels)) [
    | inl e ↦ (
      record (idle_channel now) { cancel_func = some op },
      rw (e, store_cancel) (lookup-insert_self cid _ d.channels),
      refl,
    )
    | inr (ch, e) ↦ (
      record ch { cancel_func = some op },
      rw (e, store_cancel) (lookup-insert_self cid _ d.channels),
      refl,
    )
  ]

  pub clear_cancel-found :
      (d : Device Dev) (cid : ℕ) (ch : Channel)
      → lookup cid d.channels ≡ some ch
      → lookup cid (clear_cancel d cid).channels ≡ some (record ch { cancel_func = none })
  unfolding clear_cancel
  clear_cancel-found d cid ch e = rw (e, clear_cancel) (lookup-insert_self cid _ d.channels)

  pub cancel_channel_idle :
      (d : Device Dev) (cid : ℕ) (ch : Channel)
      → lookup cid d.channels ≡ some ch
      → ch.cancel_func ≡ none
      → cancel_channel d cid ≡ d
  unfolding cancel_channel
  cancel_channel_idle d cid ch e k = rw (e, cancel_channel, k)

  pub cancel_channel_busy :
      (d : Device Dev) (cid op : ℕ) (ch : Channel)
      → lookup cid d.channels ≡ some ch
      → ch.cancel_func ≡ some op
      → cancel_channel d cid ≡ record d { cancelled = d.cancelled ++ op ∷ [] }
  unfolding cancel_channel
  cancel_channel_busy d cid op ch e k = rw (e, cancel_channel, k)

  pub cancelled-store_cancel :
      (d : Device Dev) (now op cid : ℕ) → (store_cancel d now op cid).cancelled ≡ d.cancelled
  unfolding store_cancel
  cancelled-store_cancel d now op cid = ground arith

module _ {Dev : Type 0} (inject : Dev → Bytes → Dev × Bool) (draws : List Draw) (now : ℕ) where
  -- CANCEL on a channel other than the broadcast one, its length within the limit.
  pub cancel_request :
      (d : Device Dev) (cid n : ℕ) (payload : Bytes)
      → cid < broadcast_cid
      → n ≤ max_message_len
      → handle_init_packet inject d draws now cid Cmd.cancel n payload ≡ some (cancel_channel d cid)
  unfolding handle_init_packet
  cancel_request d cid n payload hc hn =
      rw (ne→== cid broadcast_cid (omega arith), le→ltb max_message_len n hn)
