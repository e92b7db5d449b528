-- ===== src/Daemon/Sections/Devices.antt =====
-- No device is lost, however the goroutines interleave.
use blueripple_passkey.Prelude.{
  ℕ, ◌+◌, ◌<◌, ◌≡◌, ◌⊎◌, inl, inr, refl, subst, Bool, Option, none, some, List, [], ◌∷◌, All, arith,
  if_intro, Option-cases,
}
use native.Mathlib.Decide.{dec_lt}
use blueripple_passkey.Daemon.Sections.{
  Shared, Action, insert_begins, remove_begins, auto_switch_begins, toggle_begins, put_stopped,
  start, stop, show, started_dev, stopped_dev, perform, System, Step, inserted, removed,
  monitor_goes_on, toggled, auto_switched, tray_goes_on, quits, device_ends, Reach, here, next,
  no_device, at_start,
}

abbrev pub IsCurrent : Option ℕ → ℕ → Type 0
IsCurrent none i = ⊥
IsCurrent (some j) i = j ≡ i

abbrev pub IsOneOf : ℕ → List ℕ → Type 0
IsOneOf i [] = ⊥
IsOneOf i (j ∷ js) = (j ≡ i) ⊎ IsOneOf i js

-- Every device that was made is the current one or closed.
pub record IsKept (s : Shared) : Type 0 where
  pub below : (i : ℕ) → IsCurrent s.dev i → i < s.made
  pub closed_below : All (λ i. i < s.made) s.closed
  pub kept : (i : ℕ) → i < s.made → IsCurrent s.dev i ⊎ IsOneOf i s.closed

below_next : (n : ℕ) (js : List ℕ) → All (λ i. i < n) js → All (λ i. i < n + 1) js
below_next n [] h = tt
below_next n (j ∷ js) h = (omega arith, below_next n js h.1)

made_one :
    (s : Shared)
    → s.dev ≡ none
    → IsKept s
    → IsKept (record s { dev = some s.made; made = s.made + 1 })
made_one s e h = record {
  below = λ i c. omega arith;
  closed_below = below_next s.made s.closed h.closed_below;
  kept = λ i l. elim (dec_lt i s.made) [
    | no k ↦ inl (omega arith)
    | yes k ↦ elim (h.kept i k) [ inl c ↦ absurd (subst (λ d. IsCurrent d i) e c) | inr o ↦ inr o ]
  ];
}

closed_one :
    (s : Shared) (j : ℕ)
    → s.dev ≡ some j
    → IsKept s
    → IsKept (record s { dev = none; closed = j ∷ s.closed })
closed_one s j e h = record {
  below = λ i c. absurd c;
  closed_below = (h.below j (rw e refl), h.closed_below);
  kept = λ i l. elim (h.kept i l) [
    | inl c ↦ inr (inl (subst (λ d. IsCurrent d i) e c))
    | inr o ↦ inr (inr o)
  ];
}

start-IsKept : (ok : Bool) (s : Shared) → IsKept s → IsKept (started_dev ok s)
unfolding started_dev
start-IsKept ok s h = elim (Option-cases s.dev) [
  | inl e ↦ rw (e, started_dev) (if_intro IsKept ok _ _ (λ _. made_one s e h) (λ _. h))
  | inr (j, e) ↦ rw (e, started_dev) h
]

stop-IsKept : (s : Shared) → IsKept s → IsKept (stopped_dev s)
unfolding stopped_dev
stop-IsKept s h = elim (Option-cases s.dev) [
  | inl e ↦ rw (e, stopped_dev) h
  | inr (j, e) ↦ rw (e, stopped_dev) (closed_one s j e h)
]

pub perform-IsKept : (a : Action) (s : Shared) → IsKept s → IsKept (perform a s)
unfolding perform
perform-IsKept insert_begins s h = record {
  below = h.below;
  closed_below = h.closed_below;
  kept = h.kept;
}
perform-IsKept (remove_begins ok) s h = record {
  below = h.below;
  closed_below = h.closed_below;
  kept = h.kept;
}
perform-IsKept (auto_switch_begins ok enabled) s h = record {
  below = h.below;
  closed_below = h.closed_below;
  kept = h.kept;
}
perform-IsKept (toggle_begins ok) s h = h
perform-IsKept (put_stopped b) s h = record {
  below = h.below;
  closed_below = h.closed_below;
  kept = h.kept;
}
perform-IsKept (start ok) s h = start-IsKept ok s h
perform-IsKept stop s h = stop-IsKept s h
perform-IsKept (show b) s h = record {
  below = h.below;
  closed_below = h.closed_below;
  kept = h.kept;
}

ended-IsKept :
    (s : Shared) (i : ℕ) → i < s.made → IsKept s → IsKept (record s { closed = i ∷ s.closed })
ended-IsKept s i l h = record {
  below = h.below;
  closed_below = (l, h.closed_below);
  kept = λ j k. elim (h.kept j k) [ inl c ↦ inl c | inr o ↦ inr (inr o) ];
}

Step-IsKept : {s t : System} → Step s t → IsKept s.shared → IsKept t.shared
Step-IsKept (inserted s e) h = h
Step-IsKept (removed s ok e) h = h
Step-IsKept (monitor_goes_on s a rest e) h = perform-IsKept a s.shared h
Step-IsKept (toggled s ok e) h = h
Step-IsKept (auto_switched s ok enabled e) h = h
Step-IsKept (tray_goes_on s a rest e) h = perform-IsKept a s.shared h
Step-IsKept (quits s) h = unfold perform in stop-IsKept s.shared h
Step-IsKept (device_ends s i l) h = ended-IsKept s.shared i l h

Reach-IsKept : {s t : System} → Reach s t → IsKept s.shared → IsKept t.shared
Reach-IsKept here h = h
Reach-IsKept (next r st) h = Step-IsKept st (Reach-IsKept r h)

no_device-IsKept : (auto : Bool) → IsKept (no_device auto)
no_device-IsKept auto = record {
  below = λ i c. absurd c;
  closed_below = tt;
  kept = λ i l. absurd (omega arith);
}

-- From the first startDevice on, whether or not it made a device, and however the sections of the
-- callbacks, quitting and the ends of devices interleave: every device that was made is the current
-- one or was closed, so that at most one device is open, the one that stopDevice would close.
pub at_start-IsKept : (auto ok : Bool) (s : System) → Reach (at_start auto ok) s → IsKept s.shared
unfolding at_start
at_start-IsKept auto ok s r =
    Reach-IsKept r (start-IsKept ok (no_device auto) (no_device-IsKept auto))
