-- ===== src/Tests/HidTests.antt =====
-- Runs of fidohid.go's model, with a virtual device that keeps the reports it is given.
use blueripple_passkey.Prelude.{
  ℕ, ◌≡◌, ◌≢◌, ◌+◌, ◌-◌, ◌/◌, refl, Bool, false, none, some, List, [], ◌∷◌, ◌++◌, Bytes, length,
  replicate, All, arith, WhereSome,
}
use blueripple_passkey.Fidohid.Packet.{packets, init_packet, cont_packet, broadcast_cid}
use blueripple_passkey.Fidohid.Cmd
use blueripple_passkey.Fidohid.Channels.{Channel, Channels, lookup, insert}
use blueripple_passkey.Fidohid.Device.{
  Device, Draw, random, new_device, put_channel, cancel_channel, dispatch_command, allocate_cid,
  send_response,
}
use blueripple_passkey.Fidohid.Handlers.{
  opened, handle_init_packet, handle_output, handle_packet, begin_message, strip_report_id,
  padded_report,
}
use blueripple_passkey.Fidohid.Cbor.{cbor_begin, cbor_loop, done, tick}
use blueripple_passkey.Fidohid.Cleanup.{cleanup_channels}
use blueripple_passkey.Fidohid.Continuation.{receive}
use blueripple_passkey.Fidohid.Reassembly.{receive-packets}
use blueripple_passkey.Fidohid.Sending.{
  packets_shape, IsReportOn, send_response-packets, inject_all,
}
use blueripple_passkey.Fidohid.Invariant.{IsSound}
use blueripple_passkey.Fidohid.Lifecycle.{
  here, next, cleaned, report, cbor_starts, lookup-cleanup_channels, new_device-IsSound,
}
use blueripple_passkey.Fidohid.Run.{
  RunEvent, failed, output, open_event, no_more, run, outputs, end_of, ended, handle_all, run_lem,
}
use blueripple_passkey.Fidohid.Running
use blueripple_passkey.Fidohid.Running.{starts, goes_on, keeps_alive, cancel_while_running}
use blueripple_passkey.Fidohid.Faults.{single_report_replay, stale_done_loses_cancel}
use blueripple_passkey.Fidohid.Allocation.{allocate_cid-fresh, allocate_cid_total}

abbrev Log : Type 0
Log = List Bytes

abbrev inject : Log → Bytes → Log × Bool
inject log b = (log ++ b ∷ [], false)

abbrev start : Device Log
start = record { dev = []; channels = []; cancelled = []; started = [] }

abbrev no_reports : Log
no_reports = []

abbrev second : ℕ
second = 258

abbrev sixty : Bytes
sixty = replicate 60 7

abbrev one_channel : Channels
one_channel = (5, opened 0 Cmd.ping 60 sixty) ∷ []

abbrev one_open : Device Log
one_open = record start { channels = one_channel }

receive-packets_example :
    (end : Channel) × (receive inject [] 9 one_open (packets 5 Cmd.ping sixty)
      ≡ some (
          dispatch_command inject (put_channel (cancel_channel one_open 5) 5 end) 5 Cmd.ping sixty))
receive-packets_example =
    receive-packets inject [] 9 5 Cmd.ping one_open sixty (omega arith) (omega arith) (omega arith)
      (omega arith) (omega arith)

-- The first report of a message of 60 bytes has come, then a command begins on another channel, and
-- the cleanup runs.
abbrev waiting : Device Log
waiting = record (new_device no_reports) {
  channels = (5, opened 9 Cmd.ping 60 (replicate 57 7)) ∷ [];
}

first_report :
    handle_output inject (new_device no_reports) [] 9 (0 ∷ init_packet 5 Cmd.ping sixty)
    ≡ some waiting
unfolding handle_output handle_packet handle_init_packet begin_message strip_report_id padded_report
    cancel_channel lookup insert init_packet new_device
first_report = refl

abbrev busy : Device Log
busy = (cbor_begin inject waiting 10 3 6 (4 ∷ [])).0

new_device-IsSound_example : IsSound (cleanup_channels busy 11)
new_device-IsSound_example =
    new_device-IsSound inject (λ (d : Log). d) no_reports (cleanup_channels busy 11)
      (next
        (next
          (next here (
            report (new_device no_reports) waiting [] 9 (0 ∷ init_packet 5 Cmd.ping sixty)
              first_report))
          (cbor_starts waiting 10 3 6 (4 ∷ [])))
        (cleaned busy 11))

-- The command on channel 5 has begun. Another begins on channel 6 and ends, and the first one's
-- keepalive is sent.
abbrev begun : Device Log
begun = (cbor_begin inject start 9 3 5 (4 ∷ [])).0

abbrev both : Device Log
both = (cbor_begin inject begun 10 8 6 (4 ∷ [])).0

abbrev alone : Device Log
alone = cbor_loop inject (cbor_loop inject both 6 (done ∷ [])) 5 (tick ∷ [])

cancel_while_running_example :
    handle_init_packet inject alone [] 11 5 Cmd.cancel 0 []
    ≡ some (record alone { cancelled = alone.cancelled ++ 3 ∷ [] })
cancel_while_running_example =
    cancel_while_running inject start alone [] 9 11 3 5 4 0 [] [] (omega arith) (omega arith) (
      Running.next
        (Running.next (Running.next Running.here (starts begun 10 8 6 (4 ∷ []) (ground arith)))
          (goes_on both 6 done (ground arith)))
        (keeps_alive (cbor_loop inject both 6 (done ∷ []))))

lookup-cleanup_channels_example : lookup 5 (cleanup_channels one_open 30000000001).channels ≡ none
unfolding lookup
lookup-cleanup_channels_example = lookup-cleanup_channels one_open 30000000001 5 (refl, tt)

packets_shape_example :
    All (IsReportOn 5) (packets 5 Cmd.ping sixty)
    × (length (packets 5 Cmd.ping sixty) ≡ 1 + (length sixty - 57 + 58) / 59)
packets_shape_example = packets_shape 5 Cmd.ping sixty (omega arith)

sixty_sent :
    send_response inject [] 5 Cmd.ping sixty ≡ inject_all inject [] (packets 5 Cmd.ping sixty)
sixty_sent = send_response-packets inject [] 5 Cmd.ping sixty

abbrev answer_draws : List Draw
answer_draws = random (0 ∷ 0 ∷ 0 ∷ 0 ∷ []) ∷ random (0 ∷ 0 ∷ 1 ∷ 2 ∷ []) ∷ []

drawn : allocate_cid one_channel answer_draws ≡ some second
unfolding allocate_cid lookup
drawn = refl

allocate_cid-fresh_example :
    (second ≢ 0) × (second ≢ broadcast_cid) × (lookup second one_channel ≡ none)
allocate_cid-fresh_example = allocate_cid-fresh one_channel answer_draws second (tt, (tt, tt)) drawn

allocate_cid_total_example : allocate_cid one_channel answer_draws ≢ none
unfolding lookup
allocate_cid_total_example =
    allocate_cid_total one_channel (random (0 ∷ 0 ∷ 0 ∷ 0 ∷ []) ∷ []) [] (0 ∷ 0 ∷ 1 ∷ 2 ∷ [])
      (omega arith) (omega arith) refl

single_report_replay_example :
    (d' : Device Log) × (receive inject [] 9 start
        (init_packet 5 Cmd.cbor (4 ∷ []) ∷ cont_packet 5 0 (1 ∷ []) ∷ [])
      ≡ some d')
    × (d'.started ≡ (5, 4 ∷ []) ∷ (5, 4 ∷ []) ∷ [])
single_report_replay_example =
    single_report_replay inject [] 9 start 5 (4 ∷ []) (1 ∷ []) (omega arith) (omega arith)
      (omega arith)

stale_done_loses_cancel_example :
    handle_init_packet inject
      (cbor_loop inject (cbor_begin inject start 9 3 5 (4 ∷ [])).0 5 (done ∷ []))
      []
      9
      5
      Cmd.cancel
      0
      []
    ≡ some (cbor_loop inject (cbor_begin inject start 9 3 5 (4 ∷ [])).0 5 (done ∷ []))
stale_done_loses_cancel_example =
    stale_done_loses_cancel inject [] 9 start 5 3 4 0 [] [] (omega arith) (omega arith)

-- A report that comes after a failed event, and one behind the end, which is not handled.
abbrev events : List RunEvent
events =
    failed
    ∷ open_event
    ∷ output [] 9 (init_packet 5 Cmd.ping (1 ∷ []))
    ∷ no_more
    ∷ output [] 9 (init_packet 5 Cmd.ping (2 ∷ []))
    ∷ []

ran :
    (run inject (new_device no_reports) events
      ≡ ended (end_of events) (handle_all inject (new_device no_reports) (outputs events)))
    × WhereSome (λ x. IsSound x.0) (run inject (new_device no_reports) events)
ran = run_lem inject no_reports events
