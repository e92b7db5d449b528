-- ===== src/Tray/Titles.antt =====
-- What the tray shows is what it takes the device for.
use blueripple_passkey.Prelude.{
  codes, ◌≡◌, ◌↔◌, refl, subst, Bool, true, false, Option, none, some, List, [], ◌∷◌, Bytes, arith,
}
use blueripple_passkey.Prelude.Outcome.{Outcome, returned, refused, panics}
use blueripple_passkey.Tray.{
  Menu, Tray, new_tray, set_active, set_auto_switch, set_yubi_key_detected, on_ready,
}

pub data Call : Type 0 where
  sets_active : Bool → Call
  sets_auto_switch : Bool → Call
  sets_detected : Bool → Bytes → Call

abbrev pub call : Call → Tray → Outcome Tray
call (sets_active active) t = set_active active t
call (sets_auto_switch enabled) t = returned (set_auto_switch enabled t)
call (sets_detected detected name) t = returned (set_yubi_key_detected detected name t)

-- The calls one after the other, up to a panic.
abbrev pub and_then : Outcome Tray → (Tray → Outcome Tray) → Outcome Tray
and_then (returned t) f = f t
and_then refused f = refused
and_then panics f = panics

unfoldable pub calls : List Call → Tray → Outcome Tray
calls [] t = returned t
calls (c ∷ cs) t = and_then (call c t) (calls cs)

-- What is shown for an active device and for a disabled one.
abbrev pub IsShownAs : Bool → Bytes → Bytes → Bool → Bytes → Type 0
IsShownAs true status toggle icon_active tooltip =
    (status ≡ codes "BlueRipple Passkey: Active")
    × (toggle ≡ codes "Disable Fingerprint Key")
    × (icon_active ≡ true)
    × (tooltip ≡ codes "BlueRipple Passkey: Active")
IsShownAs false status toggle icon_active tooltip =
    (status ≡ codes "BlueRipple Passkey: Disabled")
    × (toggle ≡ codes "Enable Fingerprint Key")
    × (icon_active ≡ false)
    × (tooltip ≡ codes "BlueRipple Passkey: Disabled")

abbrev pub Shows : Option Menu → Tray → Type 0
Shows none t = ⊥
Shows (some menu) t = IsShownAs t.active menu.status menu.toggle t.icon_active t.tooltip

abbrev pub ShowsActive : Outcome Tray → Type 0
ShowsActive (returned t) = Shows t.menu t
ShowsActive refused = ⊥
ShowsActive panics = ⊥

call-ShowsActive :
    (c : Call) (t : Tray) (menu : Menu)
    → t.menu ≡ some menu
    → Shows (some menu) t
    → ShowsActive (call c t)
unfolding set_active set_auto_switch set_yubi_key_detected
call-ShowsActive (sets_active true) t menu e h = rw (e, set_active) (refl, refl, refl, refl)
call-ShowsActive (sets_active false) t menu e h = rw (e, set_active) (refl, refl, refl, refl)
call-ShowsActive (sets_auto_switch enabled) t menu e h = rw (e, set_auto_switch) h
call-ShowsActive (sets_detected true name) t menu e h = rw (e, set_yubi_key_detected) h
call-ShowsActive (sets_detected false name) t menu e h = rw (e, set_yubi_key_detected) h

after-ShowsActive :
    (f : Tray → Outcome Tray)
    → ((t : Tray) → Shows t.menu t → ShowsActive (f t))
    → (r : Outcome Tray) → ShowsActive r
    → ShowsActive (and_then r f)
after-ShowsActive f k (returned t) h = k t h
after-ShowsActive f k refused h = h
after-ShowsActive f k panics h = h

shown_on :
    (t : Tray) (menu : Option Menu)
    → t.menu ≡ menu
    → Shows t.menu t
    → (c : Call) → ShowsActive (call c t)
shown_on t none e h c = absurd (subst (λ m. Shows m t) e h)
shown_on t (some menu) e h c = call-ShowsActive c t menu e (subst (λ m. Shows m t) e h)

calls-ShowsActive : (cs : List Call) (t : Tray) → Shows t.menu t → ShowsActive (calls cs t)
unfolding calls
calls-ShowsActive [] t h = h
calls-ShowsActive (c ∷ cs) t h =
    after-ShowsActive (calls cs) (calls-ShowsActive cs) (call c t) (shown_on t t.menu refl h c)

abbrev pub AnyActivation : List Call → Type 0
AnyActivation [] = ⊥
AnyActivation (sets_active active ∷ cs) = Unit
AnyActivation (c ∷ cs) = AnyActivation cs

early : (cs : List Call) → (calls cs new_tray ≡ panics) ↔ AnyActivation cs
unfolding calls set_active set_auto_switch set_yubi_key_detected
early [] = ground arith
early (sets_active active ∷ cs) = ground arith
early (sets_auto_switch enabled ∷ cs) = early cs
early (sets_detected detected name ∷ cs) = early cs

-- Once onReady has made the menu, no sequence of SetActive, SetAutoSwitch and SetYubiKeyDetected
-- panics, and the titles, the icon and the tooltip are always the ones for an active device where the
-- tray takes it for active, and otherwise the ones for a disabled device.
-- Before that, on the tray that New returns, a sequence panics exactly if SetActive is in it.
pub calls_lem :
    (cs : List Call)
    → ShowsActive (and_then (on_ready new_tray) (calls cs))
      × ((calls cs new_tray ≡ panics) ↔ AnyActivation cs)
unfolding on_ready set_active
calls_lem cs = (calls-ShowsActive cs _ (refl, refl, refl, refl), early cs)
