-- ===== src/Fidohid/Lifecycle.antt =====
-- The device as a transition system: reports of the host, the goroutines of CBOR commands, rounds
-- of the cleanup and Close, in any order. Each holds the device's lock where it changes channels, and
-- handleInit, which gives it back in between, stands here in two parts as well.
use blueripple_passkey.Prelude.{
  ℕ, ◌≡◌, refl, Bool, Option, none, some, List, [], ◌∷◌, Bytes, Option-cases, inl, inr, WhereSome,
  subst, arith, if◌then◌else◌,
}
use blueripple_passkey.Fidohid.Packet.{keepalive_processing}
use blueripple_passkey.Fidohid.Cmd
use blueripple_passkey.Fidohid.Err
use blueripple_passkey.Fidohid.Channels.{Channel, Channels, lookup, Distinct}
use blueripple_passkey.Fidohid.Device.{Device, Draw, new_device, send_keepalive, cancel_channel}
use blueripple_passkey.Fidohid.Handlers.{handle_output, finish_init}
use blueripple_passkey.Fidohid.Cbor.{
  CborEvent, result, tick, done, cbor_begin, cbor_loop, store_cancel, clear_cancel,
}
use blueripple_passkey.Fidohid.Cleanup.{cleanup_loop, cleanup_channels, close, is_expired}
use blueripple_passkey.Fidohid.Invariant.{
  AllFit, IsSound, put_channel-IsSound, respond-IsSound, send_error-IsSound, handle_output-IsSound,
  lookup-Fits, cancel_channel-IsSound, finish_init-IsSound,
}

-- Of a channel that was found: whether cleanupChannels lets it stay.
abbrev pub kept_by : ℕ → Option Channel → Option Channel
kept_by now none = none
kept_by now (some ch) = if is_expired now ch then none else some ch

lookup_rest_none :
    (now j : ℕ) (m : Channels) → lookup j m ≡ none → lookup j (cleanup_loop now m).0 ≡ none
unfolding cleanup_loop lookup
lookup_rest_none now j [] h = refl
lookup_rest_none now j ((k, ch) ∷ m) h = ground (arith, lookup_rest_none now j m)

lookup-cleanup_loop :
    (now j : ℕ) (m : Channels)
    → Distinct m
    → lookup j (cleanup_loop now m).0 ≡ kept_by now (lookup j m)
unfolding cleanup_loop lookup
lookup-cleanup_loop now j [] h = refl
lookup-cleanup_loop now j ((k, ch) ∷ m) h =
    ground (arith, lookup-cleanup_loop now j m h.1, lookup_rest_none now k m h.0, h.0)

cleanup_loop-AllFit : (now : ℕ) (m : Channels) → AllFit m → AllFit (cleanup_loop now m).0
unfolding cleanup_loop
cleanup_loop-AllFit now [] h = tt
cleanup_loop-AllFit now ((k, ch) ∷ m) h = ground (arith, cleanup_loop-AllFit now m h.1)

cleanup_loop-Distinct : (now : ℕ) (m : Channels) → Distinct m → Distinct (cleanup_loop now m).0
unfolding cleanup_loop
cleanup_loop-Distinct now [] h = tt
cleanup_loop-Distinct now ((k, ch) ∷ m) h =
    ground (arith, cleanup_loop-Distinct now m h.1, lookup_rest_none now k m)

module _ {Dev : Type 0} where
  -- A round of the cleanup removes exactly the channels that were last used more than 30 seconds
  -- ago, and changes no other, on a device whose channel IDs are distinct.
  pub lookup-cleanup_channels :
      (d : Device Dev) (now j : ℕ)
      → Distinct d.channels
      → lookup j (cleanup_channels d now).channels ≡ kept_by now (lookup j d.channels)
  unfolding cleanup_channels
  lookup-cleanup_channels d now j h = lookup-cleanup_loop now j d.channels h

  cleanup_channels-IsSound :
      (d : Device Dev) (now : ℕ) → IsSound d → IsSound (cleanup_channels d now)
  unfolding cleanup_channels
  cleanup_channels-IsSound d now h = record {
    channels_fit = cleanup_loop-AllFit now d.channels h.channels_fit;
    distinct = cleanup_loop-Distinct now d.channels h.distinct;
    started_fit = h.started_fit;
  }

  close-IsSound : (close_dev : Dev → Dev) (d : Device Dev) → IsSound d → IsSound (close close_dev d)
  unfolding close
  close-IsSound close_dev d h = record {
    channels_fit = tt;
    distinct = tt;
    started_fit = h.started_fit;
  }

  store_cancel-IsSound :
      (d : Device Dev) (now op cid : ℕ) → IsSound d → IsSound (store_cancel d now op cid)
  unfolding store_cancel
  store_cancel-IsSound d now op cid h = elim (Option-cases (lookup cid d.channels)) [
    | inl e ↦
        rw (e, store_cancel)
          (put_channel-IsSound d cid _ (record { so_far = omega arith; limited = omega arith }) h)
    | inr (ch, e) ↦
        let f = lookup-Fits cid ch d.channels e h.channels_fit in
        rw (e, store_cancel)
          (put_channel-IsSound d cid _ (record { so_far = f.so_far; limited = f.limited }) h)
  ]

  clear_cancel-IsSound : (d : Device Dev) (cid : ℕ) → IsSound d → IsSound (clear_cancel d cid)
  unfolding clear_cancel
  clear_cancel-IsSound d cid h = elim (Option-cases (lookup cid d.channels)) [
    | inl e ↦ rw (e, clear_cancel) h
    | inr (ch, e) ↦
        let f = lookup-Fits cid ch d.channels e h.channels_fit in
        rw (e, clear_cancel)
          (put_channel-IsSound d cid _ (record { so_far = f.so_far; limited = f.limited }) h)
  ]

module _ {Dev : Type 0} (inject : Dev → Bytes → Dev × Bool) (close_dev : Dev → Dev) where
  pub data Step : Device Dev → Device Dev → Type 0 where
    report :
        (d e : Device Dev) (draws : List Draw) (now : ℕ) (r : Bytes)
        → handle_output inject d draws now r ≡ some e
        → Step d e
    cbor_starts :
        (d : Device Dev) (now op cid : ℕ) (b : Bytes) → Step d (cbor_begin inject d now op cid b).0
    cbor_goes_on :
        (d : Device Dev) (cid : ℕ) (e : CborEvent) → Step d (cbor_loop inject d cid (e ∷ []))
    cleaned : (d : Device Dev) (now : ℕ) → Step d (cleanup_channels d now)
    -- handleInit gives the lock back after its cancel or its allocation, and then stores the channel.
    init_cancels : (d : Device Dev) (cid : ℕ) → Step d (cancel_channel d cid)
    init_stores :
        (d : Device Dev) (now cid new_cid : ℕ) (nonce : Bytes)
        → Step d (finish_init inject d now cid new_cid nonce)
    closes : (d : Device Dev) → Step d (close close_dev d)

  pub data Reach (d : Device Dev) : Device Dev → Type 0 where
    here : Reach d d
    next : {e f : Device Dev} → Reach d e → Step e f → Reach d f

  cbor_begin-IsSound :
      (d : Device Dev) (now op cid : ℕ) (b : Bytes)
      → IsSound d
      → IsSound (cbor_begin inject d now op cid b).0
  unfolding cbor_begin
  cbor_begin-IsSound d now op cid [] h = send_error-IsSound inject d cid Err.invalid_len h
  cbor_begin-IsSound d now op cid (c ∷ b) h = store_cancel-IsSound d now op cid h

  cbor_loop-IsSound :
      (d : Device Dev) (cid : ℕ) (e : CborEvent)
      → IsSound d
      → IsSound (cbor_loop inject d cid (e ∷ []))
  unfolding cbor_loop send_keepalive
  cbor_loop-IsSound d cid (result status resp) h =
      clear_cancel-IsSound _ cid (respond-IsSound inject d cid Cmd.cbor (status ∷ resp) h)
  cbor_loop-IsSound d cid tick h =
      respond-IsSound inject d cid Cmd.keepalive (keepalive_processing ∷ []) h
  cbor_loop-IsSound d cid done h = clear_cancel-IsSound d cid h

  Step-IsSound : {d e : Device Dev} → Step d e → IsSound d → IsSound e
  Step-IsSound (report d e draws now r q) h =
      subst (WhereSome IsSound) q (handle_output-IsSound inject d draws now r h)
  Step-IsSound (cbor_starts d now op cid b) h = cbor_begin-IsSound d now op cid b h
  Step-IsSound (cbor_goes_on d cid e) h = cbor_loop-IsSound d cid e h
  Step-IsSound (cleaned d now) h = cleanup_channels-IsSound d now h
  Step-IsSound (init_cancels d cid) h = cancel_channel-IsSound d cid h
  Step-IsSound (init_stores d now cid new_cid nonce) h =
      finish_init-IsSound inject d now cid new_cid nonce h
  Step-IsSound (closes d) h = close-IsSound close_dev d h

  Reach-IsSound : {d e : Device Dev} → IsSound d → Reach d e → IsSound e
  Reach-IsSound h here = h
  Reach-IsSound h (next r s) = Step-IsSound s (Reach-IsSound h r)

  -- Whatever reports arrive from a new device on, and however they, and the two parts of handleInit
  -- that its unlocking divides, interleave with the goroutines of commands, with the cleanup and with
  -- Close: each channel holds at most as many bytes as its message
  -- announces, no announced or started message is longer than 1200 bytes, and no channel ID stands
  -- twice.
  pub new_device-IsSound : (dev : Dev) (e : Device Dev) → Reach (new_device dev) e → IsSound e
  unfolding new_device
  new_device-IsSound dev e =
      Reach-IsSound (record { channels_fit = tt; distinct = tt; started_fit = tt })
