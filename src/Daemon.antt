-- ===== src/Daemon.antt =====
-- runDaemonWithTray of main.go with the clicks of tray/tray.go and the polls of usbmon/usbmon.go.
-- Each callback runs as one step, so that what holds over these steps holds where callbacks do not
-- interleave; Sections splits them for the rest. The tray's menu exists. Whether
-- fidohid.New succeeds, and whether the scan of the USB devices finds the key, are arguments.
pub mod Guard
pub mod Sections
use blueripple_passkey.Prelude.{Bool, true, false, not, ◌&&◌, if◌then◌else◌}

-- The variable dev: nil, a device whose Run serves it, or one whose Run has returned and closed it.
pub data Slot : Type 0 where
  absent : Slot
  serving : Slot
  ended : Slot

-- The variables of runDaemonWithTray; active and checked are the tray's, present is the monitor's.
pub record Daemon : Type 0 where
  pub dev : Slot
  pub auto_switch_on : Bool
  pub stopped_by_auto : Bool
  pub yubi_key_present : Bool
  pub active : Bool
  pub checked : Bool
  pub present : Bool

unfoldable pub created : Bool → Slot → Slot
created ok absent = if ok then serving else absent
created ok serving = serving
created ok ended = ended

unfoldable pub start_device : Bool → Daemon → Daemon
start_device ok s = record s { dev = created ok s.dev }

unfoldable pub stop_device : Daemon → Daemon
stop_device s = record s { dev = absent }

-- Run returns: the goroutine closes the device and leaves the variable.
unfoldable pub run_ends : Daemon → Daemon
run_ends s = record s { dev = elim s.dev [ absent ↦ absent | serving ↦ ended | ended ↦ ended ] }

unfoldable pub set_active : Bool → Daemon → Daemon
set_active b s = record s { active = b }

unfoldable pub on_enable : Bool → Daemon → Daemon
on_enable ok s = start_device ok (record s { stopped_by_auto = false })

unfoldable pub on_disable : Daemon → Daemon
on_disable s = stop_device (record s { stopped_by_auto = false })

unfoldable pub on_auto_switch_changed : Bool → Bool → Daemon → Daemon
on_auto_switch_changed ok enabled s =
    let s' = record s { auto_switch_on = enabled } in
    if not enabled && s.stopped_by_auto
    then set_active true (start_device ok (record s' { stopped_by_auto = false }))
    else if enabled && s.yubi_key_present
    then set_active false (stop_device (record s' { stopped_by_auto = true }))
    else s'

unfoldable pub on_insert : Daemon → Daemon
on_insert s =
    let s' = record s { yubi_key_present = true } in
    if s.auto_switch_on
    then set_active false (stop_device (record s' { stopped_by_auto = true }))
    else s'

unfoldable pub on_remove : Bool → Daemon → Daemon
on_remove ok s =
    let s' = record s { yubi_key_present = false } in
    if s.auto_switch_on && s.stopped_by_auto
    then set_active true (start_device ok (record s' { stopped_by_auto = false }))
    else s'

-- A click on the toggle, as the tray's loop handles it.
unfoldable pub toggle_clicked : Bool → Daemon → Daemon
toggle_clicked ok s =
    if s.active then set_active false (on_disable s) else set_active true (on_enable ok s)

unfoldable pub auto_switch_clicked : Bool → Daemon → Daemon
auto_switch_clicked ok s =
    let checked = not s.checked in
    on_auto_switch_changed ok checked (record s { checked = checked })

-- One scan of the monitor's loop.
unfoldable pub poll : Bool → Bool → Daemon → Daemon
poll ok found s =
    if found && not s.present
    then on_insert (record s { present = true })
    else if not found && s.present
    then on_remove ok (record s { present = false })
    else s

-- The state when the tray is ready. SetAutoSwitch comes before the checkbox exists, which is made
-- checked, so the flag has no effect on it.
unfoldable pub started : Bool → Bool → Daemon
started auto_switch ok = start_device ok (record {
  dev = absent;
  auto_switch_on = auto_switch;
  stopped_by_auto = false;
  yubi_key_present = false;
  active = true;
  checked = true;
  present = false;
})
