-- ===== src/Daemon/Sections.antt =====
-- runDaemonWithTray again, down to the sections between which another goroutine can run: those under
-- the mutex, and the tray's SetActive, which holds none. The tray's goroutine and the monitor's run
-- one callback at a time each.
pub mod Devices
pub mod Atomic
pub mod Serial
use blueripple_passkey.Prelude.{
  ℕ, ◌+◌, ◌≡◌, ◌⊎◌, ◌<◌, Bool, true, false, not, ◌&&◌, ◌||◌, Option, none, some, List, [], ◌∷◌,
  ◌++◌, if◌then◌else◌,
}

-- The shared variables. Devices are known by their number; `closed` holds those on which Close was
-- called, `made` is the number of the next one.
pub record Shared : Type 0 where
  pub dev : Option ℕ
  pub made : ℕ
  pub closed : List ℕ
  pub auto_switch_on : Bool
  pub stopped_by_auto : Bool
  pub yubi_key_present : Bool
  pub active : Bool

-- A section that a callback begins with, which decides on the rest of it, or one of the rest. The
-- Boolean of what may create a device is whether fidohid.New succeeds.
pub data Action : Type 0 where
  insert_begins : Action
  remove_begins : Bool → Action
  auto_switch_begins : Bool → Bool → Action
  toggle_begins : Bool → Action
  put_stopped : Bool → Action
  start : Bool → Action
  stop : Action
  show : Bool → Action

unfoldable pub started_dev : Bool → Shared → Shared
started_dev ok s = elim s.dev [
  | some i ↦ s
  | none ↦ if ok then record s { dev = some s.made; made = s.made + 1 } else s
]

unfoldable pub stopped_dev : Shared → Shared
stopped_dev s = elim s.dev [ none ↦ s | some i ↦ record s { dev = none; closed = i ∷ s.closed } ]

unfoldable pub perform : Action → Shared → Shared
unfolding started_dev stopped_dev
perform insert_begins s = record s {
  yubi_key_present = true;
  stopped_by_auto = if s.auto_switch_on then true else s.stopped_by_auto;
}
perform (remove_begins ok) s = record s {
  yubi_key_present = false;
  stopped_by_auto = if s.auto_switch_on && s.stopped_by_auto then false else s.stopped_by_auto;
}
perform (auto_switch_begins ok enabled) s = record s { auto_switch_on = enabled }
perform (toggle_begins ok) s = s
perform (put_stopped b) s = record s { stopped_by_auto = b }
perform (start ok) s = started_dev ok s
perform stop s = stopped_dev s
perform (show b) s = record s { active = b }

-- What follows a section that read the variables as they were.
unfoldable pub follow : Action → Shared → List Action
follow insert_begins s = if s.auto_switch_on then stop ∷ show false ∷ [] else []
follow (remove_begins ok) s =
    if s.auto_switch_on && s.stopped_by_auto then start ok ∷ show true ∷ [] else []
follow (auto_switch_begins ok enabled) s =
    if not enabled && s.stopped_by_auto
    then put_stopped false ∷ start ok ∷ show true ∷ []
    else if enabled && s.yubi_key_present
    then put_stopped true ∷ stop ∷ show false ∷ []
    else []
follow (toggle_begins ok) s =
    if s.active
    then put_stopped false ∷ stop ∷ show false ∷ []
    else put_stopped false ∷ start ok ∷ show true ∷ []
follow action s = []

-- The sections that the two goroutines still have before them.
pub record System : Type 0 where
  pub shared : Shared
  pub monitor : List Action
  pub tray : List Action

pub data Step : System → System → Type 0 where
  inserted : (s : System) → s.monitor ≡ [] → Step s (record s { monitor = insert_begins ∷ [] })
  removed :
      (s : System) (ok : Bool)
      → s.monitor ≡ []
      → Step s (record s { monitor = remove_begins ok ∷ [] })
  monitor_goes_on :
      (s : System) (a : Action) (rest : List Action)
      → s.monitor ≡ a ∷ rest
      → Step s (record s { shared = perform a s.shared; monitor = follow a s.shared ++ rest })
  toggled :
      (s : System) (ok : Bool) → s.tray ≡ [] → Step s (record s { tray = toggle_begins ok ∷ [] })
  auto_switched :
      (s : System) (ok enabled : Bool)
      → s.tray ≡ []
      → Step s (record s { tray = auto_switch_begins ok enabled ∷ [] })
  tray_goes_on :
      (s : System) (a : Action) (rest : List Action)
      → s.tray ≡ a ∷ rest
      → Step s (record s { shared = perform a s.shared; tray = follow a s.shared ++ rest })
  -- onQuit, or the goroutine that waits for a signal
  quits : (s : System) → Step s (record s { shared = perform stop s.shared })
  -- Run of a device returns, and its goroutine closes it
  device_ends :
      (s : System) (i : ℕ)
      → i < s.shared.made
      → Step s (record s { shared = record (s.shared) { closed = i ∷ s.shared.closed } })

pub data Reach (s : System) : System → Type 0 where
  here : Reach s s
  next : {t u : System} → Reach s t → Step t u → Reach s u

-- The variables before the first startDevice.
abbrev pub no_device : Bool → Shared
no_device auto = record {
  dev = none;
  made = 0;
  closed = [];
  auto_switch_on = auto;
  stopped_by_auto = false;
  yubi_key_present = false;
  active = true;
}

unfoldable pub at_start : Bool → Bool → System
unfolding started_dev
at_start auto ok = record { shared = started_dev ok (no_device auto); monitor = []; tray = [] }
