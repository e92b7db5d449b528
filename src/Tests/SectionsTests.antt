-- ===== src/Tests/SectionsTests.antt =====
-- Two callbacks of the daemon whose sections interleave.
use blueripple_passkey.Prelude.{◌≡◌, refl, true, false, none, some, [], ◌∷◌}
use blueripple_passkey.Daemon.{
  started, on_insert, on_remove, toggle_clicked, on_auto_switch_changed,
}
use blueripple_passkey.Daemon.Sections.{
  Shared, insert_begins, remove_begins, auto_switch_begins, toggle_begins, put_stopped, start, stop,
  show, started_dev, stopped_dev, perform, follow, System, inserted, monitor_goes_on, auto_switched,
  tray_goes_on, Reach, here, next, at_start,
}
use blueripple_passkey.Daemon.Sections.Devices.{IsKept, at_start-IsKept}
use blueripple_passkey.Daemon.Sections.Serial
use blueripple_passkey.Daemon.Sections.Serial.{
  Serial, Run, after, IsGuarded, at_start-IsGuarded, insert_remove,
}
use blueripple_passkey.Daemon.Sections.Atomic.{coarse, finished, finished_lem}

-- The key comes in, and before the monitor's goroutine stops the device the auto-switch is switched
-- off and would bring the device back: in the end the tray shows the device as active, and there is
-- none.
abbrev asked_to_stop : System
asked_to_stop = record (at_start true true) {
  shared = perform insert_begins (at_start true true).shared;
  monitor = stop ∷ show false ∷ [];
}

abbrev switched : System
switched = record asked_to_stop {
  shared = perform (auto_switch_begins true false) asked_to_stop.shared;
  tray = put_stopped false ∷ start true ∷ show true ∷ [];
}

abbrev brought_back : System
brought_back = record switched {
  shared = perform (start true) (perform (put_stopped false) switched.shared);
  tray = show true ∷ [];
}

abbrev taken_away : System
taken_away = record brought_back {
  shared = perform (show false) (perform stop brought_back.shared);
  monitor = [];
}

abbrev shown_active : System
shown_active = record taken_away { shared = perform (show true) taken_away.shared; tray = [] }

interleaved : Reach (at_start true true) shown_active
unfolding at_start perform follow started_dev stopped_dev
interleaved =
    next
      (next
        (next
          (next
            (next
              (next
                (next
                  (next (next here (inserted (at_start true true) refl)) (
                    monitor_goes_on (record (at_start true true) { monitor = insert_begins ∷ [] })
                      insert_begins [] refl))
                  (auto_switched asked_to_stop true false refl))
                (tray_goes_on (record asked_to_stop { tray = auto_switch_begins true false ∷ [] })
                  (auto_switch_begins true false) [] refl))
              (tray_goes_on switched (put_stopped false) (start true ∷ show true ∷ []) refl))
            (tray_goes_on
              (record switched {
                shared = perform (put_stopped false) switched.shared;
                tray = start true ∷ show true ∷ [];
              })
              (start true) (show true ∷ []) refl))
          (monitor_goes_on brought_back stop (show false ∷ []) refl))
        (monitor_goes_on
          (record brought_back {
            shared = perform stop brought_back.shared;
            monitor = show false ∷ [];
          })
          (show false) [] refl))
      (tray_goes_on taken_away (show true) [] refl)

no_device : (shown_active.shared.dev ≡ none) × (shown_active.shared.active ≡ true)
unfolding at_start perform started_dev stopped_dev
no_device = (refl, refl)

at_start-IsKept_example : IsKept shown_active.shared
at_start-IsKept_example = at_start-IsKept true true shown_active interleaved

sections_done :
    (coarse true false (at_start true true).shared ≡ started true true)
    × (coarse true true (finished insert_begins shown_active.shared)
        ≡ on_insert (coarse true true shown_active.shared))
    × (coarse true true (finished (remove_begins true) shown_active.shared)
        ≡ on_remove true (coarse true true shown_active.shared))
    × (coarse true true (finished (toggle_begins true) shown_active.shared)
        ≡ toggle_clicked true (coarse true true shown_active.shared))
    × (coarse true true (finished (auto_switch_begins true false) shown_active.shared)
        ≡ on_auto_switch_changed true false (coarse true true shown_active.shared))
sections_done = finished_lem true true true true true false shown_active interleaved

-- The key is in, and the user has enabled the device again.
abbrev enabled_again : Shared
enabled_again = finished (toggle_begins true) (finished insert_begins (at_start true true).shared)

at_start-IsGuarded_example : IsGuarded enabled_again
at_start-IsGuarded_example =
    at_start-IsGuarded true true enabled_again
      (after (Serial.inserted _) (after (Serial.toggled true _) (Serial.here _)))

insert_remove_example :
    let t = finished insert_begins enabled_again in
    let made = finished (remove_begins true) t in
    let failed = finished (remove_begins false) t in
    ((t.dev ≡ none) × (t.active ≡ false))
    × ((made.dev ≡ some enabled_again.made) × (made.active ≡ true))
    × ((failed.dev ≡ none) × (failed.active ≡ true))
unfolding at_start perform follow started_dev stopped_dev
insert_remove_example = insert_remove enabled_again refl
