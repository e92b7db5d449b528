-- ===== src/Tests/DaemonTests.antt =====
-- Runs of the daemon's model.
use blueripple_passkey.Prelude.{◌≡◌, refl, true, false}
use blueripple_passkey.Daemon.{
  Daemon, serving, start_device, toggle_clicked, auto_switch_clicked, poll, started, on_insert,
  set_active, stop_device,
}
use blueripple_passkey.Daemon.Guard.{
  Reach, here, after, polled, IsGuarded, started-IsGuarded, auto_switch_off, flag_not_shown,
}

abbrev begun : Daemon
begun = started true true

abbrev key_in : Daemon
key_in = poll true true begun

abbrev disabled : Daemon
disabled = toggle_clicked true begun

key_in-reached : Reach (started true true) key_in
key_in-reached = after (polled true true begun) (here key_in)

key_in-IsGuarded : IsGuarded key_in
key_in-IsGuarded = started-IsGuarded true true key_in key_in-reached

switched_off :
    ((auto_switch_clicked true key_in).dev ≡ serving)
    × ((auto_switch_clicked true key_in).auto_switch_on ≡ false)
    × ((auto_switch_clicked true key_in).stopped_by_auto ≡ false)
unfolding poll started start_device on_insert set_active stop_device
switched_off = auto_switch_off true true key_in key_in-reached refl refl

flag_forgotten :
    ((started false true).auto_switch_on ≡ false)
    × ((started false true).checked ≡ true)
    × ((auto_switch_clicked true (started false true)).auto_switch_on ≡ false)
    × ((auto_switch_clicked true (started false true)).checked ≡ false)
flag_forgotten = flag_not_shown true true
