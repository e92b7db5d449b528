-- ===== src/Usbmon/Polls.antt =====
-- What the monitor's calls do to the daemon.
use blueripple_passkey.Prelude.{
  ◌≡◌, refl, ap, ◌∙◌, Bool, true, false, ◌&&◌, Option, none, some, List, [], ◌∷◌, Bytes,
  if◌then◌else◌, codes,
}
use blueripple_passkey.Daemon.{
  Daemon, on_insert, on_remove, poll, set_active, start_device, stop_device,
}
use blueripple_passkey.Usbmon.{Callback, calls_insert, calls_remove, Monitor, scanned, run}

-- The callbacks come in turn; the Boolean is whether the key is taken to be in before them.
abbrev pub Alternates : Bool → List Callback → Type 0
Alternates present [] = Unit
Alternates true (calls_remove ∷ cs) = Alternates false cs
Alternates false (calls_insert name ∷ cs) = Alternates true cs
Alternates true (calls_insert name ∷ cs) = ⊥
Alternates false (calls_remove ∷ cs) = ⊥

abbrev pub called : Bool → Callback → Daemon → Daemon
called ok (calls_insert name) s = on_insert s
called ok calls_remove s = on_remove ok s

abbrev pub all_called : Bool → List Callback → Daemon → Daemon
all_called ok [] s = s
all_called ok (c ∷ cs) s = all_called ok cs (called ok c s)

abbrev pub is_found : Option Bytes → Bool
is_found none = false
is_found (some name) = true

-- The coarse model's polls, one for each scan.
abbrev pub polls : Bool → List (Option Bytes) → Daemon → Daemon
polls ok [] s = s
polls ok (found ∷ scans) s = polls ok scans (poll ok (is_found found) s)

abbrev with_present : Bool → Daemon → Daemon
with_present b s = record s { present = b }

if_present :
    (b c : Bool) (x y : Daemon)
    → (if c then with_present b x else with_present b y) ≡ with_present b (if c then x else y)
if_present b true x y = refl
if_present b false x y = refl

insert_present :
    (b : Bool) (s : Daemon) → on_insert (with_present b s) ≡ with_present b (on_insert s)
unfolding on_insert set_active stop_device
insert_present b s = if_present b s.auto_switch_on _ _

remove_present :
    (ok b : Bool) (s : Daemon) → on_remove ok (with_present b s) ≡ with_present b (on_remove ok s)
unfolding on_remove set_active start_device
remove_present ok b s = if_present b (s.auto_switch_on && s.stopped_by_auto) _ _

all_called_present :
    (ok b : Bool) (cs : List Callback) (s : Daemon)
    → all_called ok cs (with_present b s) ≡ with_present b (all_called ok cs s)
all_called_present ok b [] s = refl
all_called_present ok b (calls_insert name ∷ cs) s =
    ap (all_called ok cs) (insert_present b s) ∙ all_called_present ok b cs (on_insert s)
all_called_present ok b (calls_remove ∷ cs) s =
    ap (all_called ok cs) (remove_present ok b s) ∙ all_called_present ok b cs (on_remove ok s)

poll_same : (ok b : Bool) (s : Daemon) → s.present ≡ b → poll ok b s ≡ s
unfolding poll
poll_same ok true s e = rw (e, poll)
poll_same ok false s e = rw (e, poll)

poll_in :
    (ok : Bool) (s : Daemon) → s.present ≡ false → poll ok true s ≡ with_present true (on_insert s)
poll_in ok s e =
    let entered : poll ok true s ≡ on_insert (with_present true s) = unfold poll in rw (e, poll) in
    entered ∙ insert_present true s

poll_out :
    (ok : Bool) (s : Daemon)
    → s.present ≡ true
    → poll ok false s ≡ with_present false (on_remove ok s)
poll_out ok s e =
    let left : poll ok false s ≡ on_remove ok (with_present false s) =
      unfold poll in rw (e, poll) in
    left ∙ remove_present ok false s

-- The monitor that runDaemonWithTray makes.
abbrev pub yubi_monitor : Monitor
yubi_monitor = record { vendor_id = codes "1050"; has_insert = true; has_remove = true }

run-polls :
    (ok present : Bool) (scans : List (Option Bytes)) (s : Daemon)
    → s.present ≡ present
    → let (last, cs) = run yubi_monitor present scans in
      polls ok scans s ≡ with_present last (all_called ok cs s)
unfolding run scanned
run-polls ok present [] s e = ap (λ b. with_present b s) e
run-polls ok false (none ∷ scans) s e =
    ap (polls ok scans) (poll_same ok false s e) ∙ run-polls ok false scans s e
run-polls ok true (some name ∷ scans) s e =
    ap (polls ok scans) (poll_same ok true s e) ∙ run-polls ok true scans s e
run-polls ok false (some name ∷ scans) s e =
    let (last, cs) = run yubi_monitor true scans in
    ap (polls ok scans) (poll_in ok s e)
    ∙ run-polls ok true scans (with_present true (on_insert s)) refl
    ∙ ap (with_present last) (all_called_present ok true cs (on_insert s))
run-polls ok true (none ∷ scans) s e =
    let (last, cs) = run yubi_monitor false scans in
    ap (polls ok scans) (poll_out ok s e)
    ∙ run-polls ok false scans (with_present false (on_remove ok s)) refl
    ∙ ap (with_present last) (all_called_present ok false cs (on_remove ok s))

run-Alternates :
    (present : Bool) (scans : List (Option Bytes))
    → Alternates present (run yubi_monitor present scans).1
unfolding run scanned
run-Alternates present [] = tt
run-Alternates false (none ∷ scans) = run-Alternates false scans
run-Alternates true (none ∷ scans) = run-Alternates false scans
run-Alternates false (some name ∷ scans) = run-Alternates true scans
run-Alternates true (some name ∷ scans) = run-Alternates true scans

-- Where nobody clicks, the callbacks that the monitor's Run makes of its scans come in turn, an
-- insertion first, and do to the daemon what one poll of the coarse model for each scan does, from
-- any state in which the key is not in.
pub run-poll :
    (ok : Bool) (scans : List (Option Bytes)) (s : Daemon)
    → s.present ≡ false
    → let (last, cs) = run yubi_monitor false scans in
      Alternates false cs × (polls ok scans s ≡ record (all_called ok cs s) { present = last })
run-poll ok scans s e = (run-Alternates false scans, run-polls ok false scans s e)
