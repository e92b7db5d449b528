-- ===== src/Daemon/Guard.antt =====
-- The flags and the device of the daemon over all sequences of clicks, polls and ends of Run, where each
-- callback runs to its end before the next begins. Where callbacks interleave, see Daemon/Sections.
use blueripple_passkey.Prelude.{◌≡◌, refl, ◌⊎◌, Bool, true, false, arith, inl}
use blueripple_passkey.Daemon.{
  Daemon, absent, serving, created, start_device, stop_device, run_ends, set_active, on_enable,
  on_disable, on_auto_switch_changed, on_insert, on_remove, toggle_clicked, auto_switch_clicked,
  poll, started,
}

pub data Step : Daemon → Daemon → Type 0 where
  toggle : (ok : Bool) (s : Daemon) → Step s (toggle_clicked ok s)
  auto_switch : (ok : Bool) (s : Daemon) → Step s (auto_switch_clicked ok s)
  polled : (ok found : Bool) (s : Daemon) → Step s (poll ok found s)
  ends : (s : Daemon) → Step s (run_ends s)

pub data Reach : Daemon → Daemon → Type 0 where
  here : (s : Daemon) → Reach s s
  after : {s t u : Daemon} → Step s t → Reach t u → Reach s u

-- The monitor and the daemon agree on the key, a tray that shows the device as disabled has none,
-- and a stop by the auto-switch is remembered only while the switch is on, the key is in and the
-- tray shows the device as disabled.
unfoldable pub IsGuarded : Daemon → Type 0
IsGuarded s =
    (s.present ≡ s.yubi_key_present)
    × ((s.active ≡ true) ⊎ (s.dev ≡ absent))
    × ((s.stopped_by_auto ≡ false)
        ⊎ ((s.auto_switch_on ≡ true) × (s.yubi_key_present ≡ true) × (s.active ≡ false)))

toggle-IsGuarded : (ok : Bool) (s : Daemon) → IsGuarded s → IsGuarded (toggle_clicked ok s)
unfolding IsGuarded toggle_clicked on_disable on_enable set_active stop_device start_device
toggle-IsGuarded ok s g = ground arith

auto_switch-IsGuarded :
    (ok : Bool) (s : Daemon) → IsGuarded s → IsGuarded (auto_switch_clicked ok s)
unfolding IsGuarded auto_switch_clicked on_auto_switch_changed set_active stop_device start_device
auto_switch-IsGuarded ok s g = ground arith

poll-IsGuarded : (ok found : Bool) (s : Daemon) → IsGuarded s → IsGuarded (poll ok found s)
unfolding IsGuarded poll on_insert on_remove set_active stop_device start_device
poll-IsGuarded ok found s g = ground arith

run_ends-IsGuarded : (s : Daemon) → IsGuarded s → IsGuarded (run_ends s)
unfolding IsGuarded run_ends
run_ends-IsGuarded s g = ground arith

Step-IsGuarded : {s t : Daemon} → Step s t → IsGuarded s → IsGuarded t
Step-IsGuarded (toggle ok s) g = toggle-IsGuarded ok s g
Step-IsGuarded (auto_switch ok s) g = auto_switch-IsGuarded ok s g
Step-IsGuarded (polled ok found s) g = poll-IsGuarded ok found s g
Step-IsGuarded (ends s) g = run_ends-IsGuarded s g

Reach-IsGuarded : {s t : Daemon} → Reach s t → IsGuarded s → IsGuarded t
Reach-IsGuarded (here s) g = g
Reach-IsGuarded (after st r) g = Reach-IsGuarded r (Step-IsGuarded st g)

-- Where callbacks do not interleave: from the start, whether or not the device could be created, every sequence of steps keeps the
-- agreement of IsGuarded.
pub started-IsGuarded : (auto ok : Bool) (s : Daemon) → Reach (started auto ok) s → IsGuarded s
unfolding IsGuarded started start_device
started-IsGuarded auto ok s r = Reach-IsGuarded r (refl, inl refl, inl refl)

-- Started with the auto-switch off, the daemon shows the checkbox as checked, and the first click
-- unchecks it and leaves the auto-switch off.
pub flag_not_shown :
    (ok ok' : Bool)
    → ((started false ok).auto_switch_on ≡ false)
      × ((started false ok).checked ≡ true)
      × ((auto_switch_clicked ok' (started false ok)).auto_switch_on ≡ false)
      × ((auto_switch_clicked ok' (started false ok)).checked ≡ false)
unfolding started start_device auto_switch_clicked on_auto_switch_changed
flag_not_shown ok ok' = (refl, refl, refl, refl)

-- Where callbacks do not interleave: switching the auto-switch off in a reachable state that it stopped brings the device back, where
-- the checkbox was checked and the device can be created.
pub auto_switch_off :
    (auto ok : Bool) (s : Daemon)
    → Reach (started auto ok) s
    → s.stopped_by_auto ≡ true
    → s.checked ≡ true
    → ((auto_switch_clicked true s).dev ≡ serving)
      × ((auto_switch_clicked true s).auto_switch_on ≡ false)
      × ((auto_switch_clicked true s).stopped_by_auto ≡ false)
unfolding IsGuarded auto_switch_clicked on_auto_switch_changed set_active start_device created
auto_switch_off auto ok s r b c = let g = started-IsGuarded auto ok s r in ground arith
