-- ===== src/Fidohid/Device.antt =====
-- The device and its handlers. The uhid library's InjectEvent is a parameter: the virtual device
-- after the call, and whether it reported an error. Times are arguments.
use blueripple_passkey.Prelude.{
  ℕ, zero, suc, ◌+◌, ◌%◌, Bool, true, false, not, ◌&&◌, Option, none, some, List, [], ◌∷◌, ◌++◌,
  Bytes, length, drop, uint32_at, bit_and, ◌==◌, if◌then◌else◌,
}
use blueripple_passkey.Fidohid.Packet.{
  init_data_len, cont_data_len, broadcast_cid, init_packet, cont_packet,
}
use blueripple_passkey.Fidohid.Cmd
use blueripple_passkey.Fidohid.Err
use blueripple_passkey.Fidohid.Channels.{Channel, Channels, lookup, insert}

-- `cancelled` holds the contexts whose cancel function was called through a channel (the deferred
-- cancel with which handleCBOR leaves its own context is not among them), and `started` the channel and
-- message of each handleCBOR goroutine, both in order.
pub record Device (Dev : Type 0) : Type 0 where
  pub dev : Dev
  pub channels : Channels
  pub cancelled : List ℕ
  pub started : List (ℕ × Bytes)

-- One round of allocateCID: rand.Read gave four bytes, or failed at a time in nanoseconds.
pub data Draw : Type 0 where
  random : Bytes → Draw
  fallback : ℕ → Draw

usable : ℕ → Bool
usable cid = not (cid == 0) && not (cid == broadcast_cid)

is_some : Option Channel → Bool
is_some none = false
is_some (some ch) = true

-- allocateCID over the rounds' draws; `none` if it is still looping after them.
unfoldable pub allocate_cid : Channels → List Draw → Option ℕ
unfolding usable is_some
allocate_cid m [] = none
allocate_cid m (fallback t ∷ draws) =
    let cid = bit_and t 0x7fffffff % 4294967296 in
    let rest = allocate_cid m draws in if usable cid then some cid else rest
allocate_cid m (random b ∷ draws) =
    let cid = uint32_at b 0 in
    let rest = allocate_cid m draws in
    if usable cid && not (is_some (lookup cid m)) then some cid else rest

module _ {Dev : Type 0} where
  -- The device that New returns, around the uhid library's.
  unfoldable pub new_device : Dev → Device Dev
  new_device dev = record { dev = dev; channels = []; cancelled = []; started = [] }

  -- d.channels[cid] = ch
  abbrev pub put_channel : Device Dev → ℕ → Channel → Device Dev
  put_channel d cid ch = record d { channels = insert cid ch d.channels }

  -- ch.cancelFunc(), where there is one
  run_cancel : Device Dev → Option ℕ → Device Dev
  run_cancel d none = d
  run_cancel d (some op) = record d { cancelled = d.cancelled ++ op ∷ [] }

  cancel_found : Device Dev → Option Channel → Device Dev
  unfolding run_cancel
  cancel_found d none = d
  cancel_found d (some ch) = run_cancel d ch.cancel_func

  -- The lookup and cancel that CANCEL, INIT and a new message begin with.
  unfoldable pub cancel_channel : Device Dev → ℕ → Device Dev
  unfolding cancel_found
  cancel_channel d cid = cancel_found d (lookup cid d.channels)

module _ {Dev : Type 0} (inject : Dev → Bytes → Dev × Bool) where
  -- The loop of sendResponse; it stops at an inject error.
  unfoldable pub send_cont : ℕ → Dev → ℕ → ℕ → Bytes → Dev
  send_cont zero dev cid seq b = dev
  send_cont (suc fuel) dev cid seq [] = dev
  send_cont (suc fuel) dev cid seq (x ∷ b) =
      let (dev', failed) = inject dev (cont_packet cid seq (x ∷ b)) in
      let rest = send_cont fuel dev' cid ((seq + 1) % 256) (drop cont_data_len (x ∷ b)) in
      if failed then dev' else rest

  unfoldable pub send_response : Dev → ℕ → ℕ → Bytes → Dev
  send_response dev cid cmd b =
      let rest = drop init_data_len b in
      let (dev', failed) = inject dev (init_packet cid cmd b) in
      if failed then dev' else send_cont (length rest) dev' cid 0 rest

  unfoldable pub respond : Device Dev → ℕ → ℕ → Bytes → Device Dev
  respond d cid cmd b = record d { dev = send_response d.dev cid cmd b }

  -- sendError and sendKeepalive
  unfoldable pub send_error : Device Dev → ℕ → ℕ → Device Dev
  unfolding respond
  send_error d cid code = respond d cid Cmd.error (code ∷ [])

  unfoldable pub send_keepalive : Device Dev → ℕ → ℕ → Device Dev
  unfolding respond
  send_keepalive d cid status = respond d cid Cmd.keepalive (status ∷ [])

  unfoldable pub dispatch_command : Device Dev → ℕ → ℕ → Bytes → Device Dev
  unfolding respond send_error
  dispatch_command d cid cmd b =
      if cmd == Cmd.cbor
      then record d { started = d.started ++ (cid, b) ∷ [] }
      else if cmd == Cmd.ping
      then respond d cid Cmd.ping b
      else send_error d cid Err.invalid_cmd
