-- ===== src/Daemon/Sections/Serial.antt =====
-- The callbacks of main.go where each runs to its end before the next begins.
use blueripple_passkey.Prelude.{ℕ, ◌<◌, ◌≡◌, ◌⊎◌, Bool, true, false, none, some, ◌∷◌, arith}
use blueripple_passkey.Daemon.Sections.{
  Shared, insert_begins, remove_begins, auto_switch_begins, toggle_begins, stop, started_dev,
  stopped_dev, perform, follow, at_start,
}
use blueripple_passkey.Daemon.Sections.Atomic.{finished}

-- A whole callback, a quit, or the end of a device's Run.
pub data Serial : Shared → Shared → Type 0 where
  inserted : (s : Shared) → Serial s (finished insert_begins s)
  removed : (ok : Bool) (s : Shared) → Serial s (finished (remove_begins ok) s)
  toggled : (ok : Bool) (s : Shared) → Serial s (finished (toggle_begins ok) s)
  auto_switched :
      (ok enabled : Bool) (s : Shared) → Serial s (finished (auto_switch_begins ok enabled) s)
  quits : (s : Shared) → Serial s (perform stop s)
  device_ends : (i : ℕ) (s : Shared) → i < s.made → Serial s (record s { closed = i ∷ s.closed })

pub data Run : Shared → Shared → Type 0 where
  here : (s : Shared) → Run s s
  after : {s t u : Shared} → Serial s t → Run t u → Run s u

-- A tray that shows the device as disabled has none, and a stop by the auto-switch is remembered
-- only while the switch is on, the key is in and the tray shows the device as disabled.
unfoldable pub IsGuarded : Shared → Type 0
IsGuarded s =
    ((s.active ≡ true) ⊎ (s.dev ≡ none))
    × ((s.stopped_by_auto ≡ false)
        ⊎ ((s.auto_switch_on ≡ true) × (s.yubi_key_present ≡ true) × (s.active ≡ false)))

inserted-IsGuarded : (s : Shared) → IsGuarded s → IsGuarded (finished insert_begins s)
unfolding IsGuarded perform follow stopped_dev
inserted-IsGuarded s g = ground arith

removed-IsGuarded :
    (ok : Bool) (s : Shared) → IsGuarded s → IsGuarded (finished (remove_begins ok) s)
unfolding IsGuarded perform follow started_dev
removed-IsGuarded ok s g = ground arith

toggled-IsGuarded :
    (ok : Bool) (s : Shared) → IsGuarded s → IsGuarded (finished (toggle_begins ok) s)
unfolding IsGuarded perform follow started_dev stopped_dev
toggled-IsGuarded ok s g = ground arith

auto_switched-IsGuarded :
    (ok enabled : Bool) (s : Shared)
    → IsGuarded s
    → IsGuarded (finished (auto_switch_begins ok enabled) s)
unfolding IsGuarded perform follow started_dev stopped_dev
auto_switched-IsGuarded ok enabled s g = ground arith

quits-IsGuarded : (s : Shared) → IsGuarded s → IsGuarded (perform stop s)
unfolding IsGuarded perform stopped_dev
quits-IsGuarded s g = ground arith

device_ends-IsGuarded :
    (i : ℕ) (s : Shared) → IsGuarded s → IsGuarded (record s { closed = i ∷ s.closed })
unfolding IsGuarded
device_ends-IsGuarded i s g = g

Serial-IsGuarded : {s t : Shared} → Serial s t → IsGuarded s → IsGuarded t
Serial-IsGuarded (inserted s) g = inserted-IsGuarded s g
Serial-IsGuarded (removed ok s) g = removed-IsGuarded ok s g
Serial-IsGuarded (toggled ok s) g = toggled-IsGuarded ok s g
Serial-IsGuarded (auto_switched ok enabled s) g = auto_switched-IsGuarded ok enabled s g
Serial-IsGuarded (quits s) g = quits-IsGuarded s g
Serial-IsGuarded (device_ends i s h) g = device_ends-IsGuarded i s g

Run-IsGuarded : {s t : Shared} → Run s t → IsGuarded s → IsGuarded t
Run-IsGuarded (here s) g = g
Run-IsGuarded (after st r) g = Run-IsGuarded r (Serial-IsGuarded st g)

-- Where each callback of the tray and the monitor runs to its end before the next begins: from the
-- start on, over all callbacks, quits and ends of devices, a tray that shows the device as disabled
-- has none, and a stop by the auto-switch is remembered only while the switch is on, the key is in
-- and the tray shows the device as disabled.
pub at_start-IsGuarded :
    (auto ok : Bool) (s : Shared) → Run (at_start auto ok).shared s → IsGuarded s
unfolding IsGuarded at_start started_dev
at_start-IsGuarded auto ok s r = Run-IsGuarded r (ground arith)

-- With the auto-switch on, in any state, where no section of another goroutine runs between: the
-- key's arrival takes the device away and the tray shows it as disabled. The key's removal after
-- that makes a new device where fidohid.New succeeds, and none where it fails, and in both cases the
-- tray shows it as active. This does not depend on what the user had chosen before.
pub insert_remove :
    (s : Shared)
    → s.auto_switch_on ≡ true
    → let t = finished insert_begins s in
      let made = finished (remove_begins true) t in
      let failed = finished (remove_begins false) t in
      ((t.dev ≡ none) × (t.active ≡ false))
      × ((made.dev ≡ some s.made) × (made.active ≡ true))
      × ((failed.dev ≡ none) × (failed.active ≡ true))
unfolding perform follow started_dev stopped_dev
insert_remove s a = ground arith
