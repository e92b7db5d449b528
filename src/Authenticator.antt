-- ===== src/Authenticator.antt =====
-- The parts together: main's site names, the CTAP2 handler over a history of commands, and the HID
-- device that hands it the commands.
pub mod Enumerations
pub mod Sites
pub mod Exchange
pub mod Software
use blueripple_passkey.Prelude.{ℕ, zero, suc, Option, none, some, List, [], ◌∷◌, ◌++◌, Bytes, Bool}
use blueripple_passkey.Ctap2.Handler.{Env, Handler, Reply}
use blueripple_passkey.Ctap2.Commands.{handle_command}
use blueripple_passkey.Fidohid.Device.{Device}
use blueripple_passkey.Fidohid.Cbor.{CborEvent, result, tick, cbor_begin, cbor_loop}

-- The commands that a handler has answered, one after the other.
unfoldable pub run_commands : {W : Type 0} → Env W → Handler W → List (ℕ × Bytes) → Handler W
run_commands env h [] = h
run_commands env h ((cmd, b) ∷ history) = run_commands env (handle_command env h cmd b).0 history

-- A nil slice has no bytes.
abbrev pub response_bytes : Option Bytes → Bytes
response_bytes none = []
response_bytes (some b) = b

abbrev pub ticks : ℕ → List CborEvent → List CborEvent
ticks zero es = es
ticks (suc n) es = tick ∷ ticks n es

-- The goroutine of a CBOR command on a channel, from its start to the handler's result: the device
-- and the handler after it. Before the result the keepalive timer has fired n times.
module _ {W Dev : Type 0} (env : Env W) (inject : Dev → Bytes → Dev × Bool) where
  answer : Device Dev → Handler W → ℕ → ℕ → Option (ℕ × Bytes) → Device Dev × Handler W
  answer d h cid n none = (d, h)
  answer d h cid n (some (cmd, b)) =
      let (h', (status, response)) = handle_command env h cmd b in
      (cbor_loop inject d cid (ticks n (result status (response_bytes response) ∷ [])), h')

  unfoldable pub run_cbor : Device Dev → Handler W → ℕ → ℕ → ℕ → ℕ → Bytes → Device Dev × Handler W
  unfolding answer
  run_cbor d h now op cid n b =
      let (d', command) = cbor_begin inject d now op cid b in answer d' h cid n command
