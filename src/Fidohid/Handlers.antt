-- ===== src/Fidohid/Handlers.antt =====
-- handleOutput, handleInitPacket, handleContPacket and handleInit. Each is a function of the state
-- that it finds: for handleInit, which gives the lock back between its parts, the parts are steps of
-- Lifecycle.antt as well. `none` is the loop of allocateCID that has not found a channel ID with the
-- draws given.
use blueripple_passkey.Prelude.{
  ℕ, ◌+◌, ◌-◌, ◌%◌, min, Bool, not, ◌||◌, Option, none, some, List, [], ◌∷◌, ◌++◌, Bytes, length,
  take, drop, replicate, get_or, put_uint32, uint16_at, uint32_at, bit_and, ltb, leb, ◌==◌,
  if◌then◌else◌,
}
use blueripple_passkey.Fidohid.Packet.{
  report_len, init_data_len, cont_data_len, max_message_len, broadcast_cid, capabilities,
}
use blueripple_passkey.Fidohid.Cmd
use blueripple_passkey.Fidohid.Err
use blueripple_passkey.Fidohid.Channels.{Channel, lookup}
use blueripple_passkey.Fidohid.Device.{
  Device, Draw, allocate_cid, put_channel, cancel_channel, respond, send_error, dispatch_command,
}

-- &channel{lastSeen: time.Now()}
abbrev pub idle_channel : ℕ → Channel
idle_channel now = record {
  cmd = 0;
  total_len = 0;
  message = [];
  seq_num = 0;
  last_seen = now;
  cancel_func = none;
}

-- The channel that a new message opens.
abbrev pub opened : ℕ → ℕ → ℕ → Bytes → Channel
opened now cmd n msg = record {
  cmd = cmd;
  total_len = n;
  message = msg;
  seq_num = 0;
  last_seen = now;
  cancel_func = none;
}

-- nonce, channel ID, protocol version, major, minor, build, capabilities
unfoldable pub init_response : Bytes → ℕ → Bytes
init_response nonce cid = (nonce ++ put_uint32 cid) ++ (2 ∷ 1 ∷ 0 ∷ 0 ∷ capabilities ∷ [])

-- Of the reports to one message: the payload of the first, and what is still to come.
abbrev pub first_part : ℕ → Bytes → Bytes
first_part bcnt payload = take (min (min bcnt init_data_len) (length payload)) payload

abbrev pub next_part : Channel → Bytes → Bytes
next_part ch payload =
    take (min (min (ch.total_len - length ch.message) cont_data_len) (length payload)) payload

-- data[1:] where the report ID is there, then zeros up to 64 bytes.
unfoldable pub strip_report_id : Bytes → Bytes
strip_report_id [] = []
strip_report_id (x ∷ b) = if x == 0 then b else x ∷ b

unfoldable pub padded_report : Bytes → Bytes
padded_report b = if ltb (length b) report_len then b ++ replicate (report_len - length b) 0 else b

module _ {Dev : Type 0} (inject : Dev → Bytes → Dev × Bool) where
  unfoldable pub finish_init : Device Dev → ℕ → ℕ → ℕ → Bytes → Device Dev
  finish_init d now cid new_cid nonce =
      respond inject (put_channel d new_cid (idle_channel now)) cid Cmd.init
        (init_response nonce new_cid)

  unfoldable pub allocated : Device Dev → ℕ → ℕ → Bytes → Option ℕ → Option (Device Dev)
  unfolding finish_init
  allocated d now cid nonce none = none
  allocated d now cid nonce (some new_cid) = some (finish_init d now cid new_cid nonce)

  unfoldable pub handle_init : Device Dev → List Draw → ℕ → ℕ → Bytes → Option (Device Dev)
  unfolding allocated finish_init
  handle_init d draws now cid nonce =
      if cid == broadcast_cid
      then allocated d now cid nonce (allocate_cid d.channels draws)
      else some (finish_init (cancel_channel d cid) now cid cid nonce)

  -- The part of handleInitPacket after its guards.
  unfoldable pub begin_message : Device Dev → ℕ → ℕ → ℕ → ℕ → Bytes → Device Dev
  begin_message d now cid cmd bcnt payload =
      let msg = first_part bcnt payload in
      let d' = put_channel (cancel_channel d cid) cid (opened now cmd bcnt msg) in
      if leb bcnt (length msg % 65536)
      then dispatch_command inject d' cid cmd (take bcnt msg)
      else d'

  unfoldable pub handle_init_packet :
      Device Dev → List Draw → ℕ → ℕ → ℕ → ℕ → Bytes → Option (Device Dev)
  unfolding handle_init begin_message
  handle_init_packet d draws now cid cmd bcnt payload =
      if cmd == Cmd.init
      then (if not (bcnt == 8) || ltb (length payload) 8
          then some (send_error inject d cid Err.invalid_len)
          else handle_init d draws now cid (take 8 payload))
      else if cid == broadcast_cid
      then some (send_error inject d cid Err.invalid_channel)
      else if ltb max_message_len bcnt
      then some (send_error inject d cid Err.invalid_len)
      else if cmd == Cmd.cancel
      then some (cancel_channel d cid)
      else some (begin_message d now cid cmd bcnt payload)

  -- The part of handleContPacket on an open channel.
  unfoldable pub continue_message : Device Dev → ℕ → ℕ → Channel → Bytes → Device Dev
  continue_message d now cid ch payload =
      let msg = ch.message ++ next_part ch payload in
      let grown = record ch { message = msg; seq_num = (ch.seq_num + 1) % 256; last_seen = now } in
      if leb ch.total_len (length msg % 65536)
      then dispatch_command inject
          (put_channel d cid (record grown { total_len = 0; message = [] })) cid ch.cmd
          (take ch.total_len msg)
      else put_channel d cid grown

  continue_found : Device Dev → ℕ → ℕ → ℕ → Bytes → Option Channel → Device Dev
  unfolding continue_message
  continue_found d now cid seq payload none = send_error inject d cid Err.invalid_channel
  continue_found d now cid seq payload (some ch) =
      if ch.total_len == 0
      then send_error inject d cid Err.invalid_channel
      else if not (seq == ch.seq_num)
      then send_error inject d cid Err.invalid_seq
      else continue_message d now cid ch payload

  unfoldable pub handle_cont_packet : Device Dev → ℕ → ℕ → ℕ → Bytes → Device Dev
  unfolding continue_found
  handle_cont_packet d now cid seq payload =
      continue_found d now cid seq payload (lookup cid d.channels)

  -- A packet of at least 64 bytes, taken apart.
  unfoldable pub handle_packet : Device Dev → List Draw → ℕ → Bytes → Option (Device Dev)
  handle_packet d draws now b =
      let cid = uint32_at b 0 in
      let head = get_or b 4 0 in
      if bit_and head 0x80 == 0
      then some (handle_cont_packet d now cid head (drop 5 b))
      else handle_init_packet d draws now cid (bit_and head 0x7f) (uint16_at b 5) (drop 7 b)

  unfoldable pub handle_output : Device Dev → List Draw → ℕ → Bytes → Option (Device Dev)
  unfolding handle_packet
  handle_output d draws now report =
      let b = strip_report_id report in
      if ltb (length b) 7 then some d else handle_packet d draws now (padded_report b)
