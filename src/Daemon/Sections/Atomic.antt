-- ===== src/Daemon/Sections/Atomic.antt =====
-- A callback whose sections run without another's between them is the step of the coarse model.
use blueripple_passkey.Prelude.{
  ℕ, ◌<◌, ◌≡◌, inl, inr, refl, ap, ◌∙◌, Bool, true, false, not, ◌&&◌, ◌||◌, Option, none, some,
  List, [], ◌∷◌, All, arith, ◌==◌, if◌then◌else◌, Bool-cases,
}
use blueripple_passkey.Daemon.{
  Daemon, Slot, absent, serving, ended, created, start_device, stop_device, set_active, on_enable,
  on_disable, on_insert, on_remove, on_auto_switch_changed, toggle_clicked, started,
}
use blueripple_passkey.Daemon.Sections.{
  Shared, Action, insert_begins, remove_begins, auto_switch_begins, toggle_begins, put_stopped,
  start, stop, show, started_dev, stopped_dev, perform, follow, System, Reach, at_start,
}
use blueripple_passkey.Daemon.Sections.Devices.{IsKept, perform-IsKept, at_start-IsKept}

abbrev is_closed : ℕ → List ℕ → Bool
is_closed i [] = false
is_closed i (j ∷ js) = j == i || is_closed i js

abbrev slot_of : List ℕ → Option ℕ → Slot
slot_of closed none = absent
slot_of closed (some i) = if is_closed i closed then ended else serving

-- The coarse state, with the tray's checkbox and the monitor's variable.
abbrev pub coarse : Bool → Bool → Shared → Daemon
coarse checked present s = record {
  dev = slot_of s.closed s.dev;
  auto_switch_on = s.auto_switch_on;
  stopped_by_auto = s.stopped_by_auto;
  yubi_key_present = s.yubi_key_present;
  active = s.active;
  checked = checked;
  present = present;
}

abbrev pub perform_all : List Action → Shared → Shared
perform_all [] s = s
perform_all (a ∷ rest) s = perform_all rest (perform a s)

-- All sections of a callback.
abbrev pub finished : Action → Shared → Shared
finished a s = perform_all (follow a s) (perform a s)

is_closed-below : (n : ℕ) (js : List ℕ) → All (λ i. i < n) js → is_closed n js ≡ false
is_closed-below n [] h = refl
is_closed-below n (j ∷ js) h = ground (arith, is_closed-below n js h.1)

slot_started :
    (ok : Bool) (s : Shared)
    → IsKept s
    → (slot_of (started_dev ok s).closed (started_dev ok s).dev)
      ≡ created ok (slot_of s.closed s.dev)
unfolding started_dev created
slot_started ok s h = ground (arith, is_closed-below s.made s.closed h.closed_below)

slot_stopped : (s : Shared) → slot_of (stopped_dev s).closed (stopped_dev s).dev ≡ absent
unfolding stopped_dev
slot_stopped s = ground arith

module _ (checked present : Bool) where
  coarse-started :
      (ok : Bool) (dev : Option ℕ) (s : Shared)
      → s.dev ≡ dev
      → IsKept s
      → coarse checked present (started_dev ok s) ≡ start_device ok (coarse checked present s)
  unfolding started_dev start_device created
  coarse-started ok none s e h = elim (Bool-cases ok) [
    | inl o ↦
        rw
          (e, o, started_dev, start_device, created, is_closed-below s.made s.closed h.closed_below)
    | inr o ↦ rw (e, o, started_dev, start_device, created) (rw e)
  ]
  coarse-started ok (some i) s e h = elim (Bool-cases (is_closed i s.closed)) [
    | inl o ↦ rw (e, started_dev, start_device, created, o) (rw (e, o))
    | inr o ↦ rw (e, started_dev, start_device, created, o) (rw (e, o))
  ]

  coarse-stopped :
      (dev : Option ℕ) (s : Shared)
      → s.dev ≡ dev
      → coarse checked present (stopped_dev s) ≡ stop_device (coarse checked present s)
  unfolding stopped_dev stop_device
  coarse-stopped none s e = rw (e, stopped_dev, stop_device) (rw e)
  coarse-stopped (some i) s e = rw (e, stopped_dev, stop_device)

  -- The end of a callback that starts the device, and of one that stops it.
  start_and_show :
      (ok b : Bool) (s : Shared)
      → IsKept s
      → coarse checked present (perform_all (start ok ∷ show b ∷ []) s)
        ≡ set_active b (start_device ok (coarse checked present s))
  unfolding perform set_active
  start_and_show ok b s h =
      ap (λ (d : Daemon). record d { active = b }) (coarse-started ok s.dev s refl h)

  stop_and_show :
      (b : Bool) (s : Shared)
      → coarse checked present (perform_all (stop ∷ show b ∷ []) s)
        ≡ set_active b (stop_device (coarse checked present s))
  unfolding perform set_active
  stop_and_show b s = ap (λ (d : Daemon). record d { active = b }) (coarse-stopped s.dev s refl)

  -- A callback that goes on in one of two ways.
  pick :
      (b : Bool) (first second : List Action) (s : Shared) (u v : Daemon)
      → (b ≡ true → coarse checked present (perform_all first s) ≡ u)
      → (b ≡ false → coarse checked present (perform_all second s) ≡ v)
      → coarse checked present (perform_all (if b then first else second) s) ≡ (if b then u else v)
  pick true first second s u v h k = h refl
  pick false first second s u v h k = k refl

  -- The state after a first section that stores a Boolean depending on a test, where it is known.
  stored :
      (s : Shared) (key b c : Bool)
      → b ≡ c
      → (put : Bool → Bool)
      → coarse checked present (record s { yubi_key_present = key; stopped_by_auto = put b })
        ≡ record (coarse checked present s) { yubi_key_present = key; stopped_by_auto = put c }
  stored s key b c e put =
      ap
        (λ (x : Bool). record (coarse checked present s) {
          yubi_key_present = key;
          stopped_by_auto = put x;
        })
        e

  insert_atomic :
      (s : Shared)
      → coarse checked present (finished insert_begins s) ≡ on_insert (coarse checked present s)
  unfolding perform follow on_insert
  insert_atomic s =
      let put : Bool → Bool = λ b. if b then true else s.stopped_by_auto in
      pick s.auto_switch_on (stop ∷ show false ∷ []) [] (perform insert_begins s) _ _
        (λ e.
          stop_and_show false (perform insert_begins s)
          ∙ ap (λ d. set_active false (stop_device d)) (stored s true s.auto_switch_on true e put))
        (λ e. stored s true s.auto_switch_on false e put)

  remove_atomic :
      (ok : Bool) (s : Shared)
      → IsKept s
      → coarse checked present (finished (remove_begins ok) s)
        ≡ on_remove ok (coarse checked present s)
  unfolding perform follow on_remove
  remove_atomic ok s h =
      let put : Bool → Bool = λ b. if b then false else s.stopped_by_auto in
      let back = s.auto_switch_on && s.stopped_by_auto in
      pick back (start ok ∷ show true ∷ []) [] (perform (remove_begins ok) s) _ _
        (λ e.
          start_and_show ok true (perform (remove_begins ok) s)
            (perform-IsKept (remove_begins ok) s h)
          ∙ ap (λ d. set_active true (start_device ok d)) (stored s false back true e put))
        (λ e. stored s false back false e put)

  toggle_atomic :
      (ok : Bool) (s : Shared)
      → IsKept s
      → coarse checked present (finished (toggle_begins ok) s)
        ≡ toggle_clicked ok (coarse checked present s)
  unfolding perform follow toggle_clicked on_disable on_enable
  toggle_atomic ok s h =
      let s' : Shared = perform (put_stopped false) s in
      pick s.active (put_stopped false ∷ stop ∷ show false ∷ [])
        (put_stopped false ∷ start ok ∷ show true ∷ []) s _ _ (λ e. stop_and_show false s')
        (λ e. start_and_show ok true s' (perform-IsKept (put_stopped false) s h))

  auto_switch_atomic :
      (ok enabled : Bool) (s : Shared)
      → IsKept s
      → coarse checked present (finished (auto_switch_begins ok enabled) s)
        ≡ on_auto_switch_changed ok enabled (coarse checked present s)
  unfolding perform follow on_auto_switch_changed
  auto_switch_atomic ok enabled s h =
      let s' : Shared = perform (auto_switch_begins ok enabled) s in
      pick (not enabled && s.stopped_by_auto) (put_stopped false ∷ start ok ∷ show true ∷ []) _ s' _
        _
        (λ e. start_and_show ok true (perform (put_stopped false) s') (
          perform-IsKept (put_stopped false) s'
            (perform-IsKept (auto_switch_begins ok enabled) s h)))
        (λ e.
          pick (enabled && s.yubi_key_present) (put_stopped true ∷ stop ∷ show false ∷ []) [] s' _ _
            (λ k. stop_and_show false (perform (put_stopped true) s')) (λ k. refl))

begins : (auto ok : Bool) → coarse true false (at_start auto ok).shared ≡ started auto ok
unfolding at_start started_dev started start_device created
begins auto true = refl
begins auto false = refl

-- The states of the first startDevice agree, and each callback of main.go, where no section of
-- another runs between its own, on a state that is reached from there, does what the coarse model's
-- one step does: the monitor's two, the tray's toggle and the auto-switch.
pub finished_lem :
    (auto first checked present ok enabled : Bool) (t : System)
    → Reach (at_start auto first) t
    → let s = t.shared in
      let d = coarse checked present s in
      (coarse true false (at_start auto first).shared ≡ started auto first)
      × (coarse checked present (finished insert_begins s) ≡ on_insert d)
      × (coarse checked present (finished (remove_begins ok) s) ≡ on_remove ok d)
      × (coarse checked present (finished (toggle_begins ok) s) ≡ toggle_clicked ok d)
      × (coarse checked present (finished (auto_switch_begins ok enabled) s)
          ≡ on_auto_switch_changed ok enabled d)
finished_lem auto first checked present ok enabled t r =
    let h = at_start-IsKept auto first t r in
    (
      begins auto first,
      insert_atomic checked present t.shared,
      remove_atomic checked present ok t.shared h,
      toggle_atomic checked present ok t.shared h,
      auto_switch_atomic checked present ok enabled t.shared h,
    )
