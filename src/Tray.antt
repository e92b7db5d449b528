-- ===== src/Tray.antt =====
-- tray/tray.go: what the tray shows. The menu items are nil until systray calls onReady. The systray
-- library's calls that show something succeed; a method of a nil item panics, as it writes to the
-- item.
pub mod Titles
use blueripple_passkey.Prelude.{
  Bool, true, false, Option, none, some, Bytes, codes, ◌++◌, if◌then◌else◌,
}
use blueripple_passkey.Prelude.Outcome.{Outcome, returned, panics}

-- The items status, toggle, autoSwitch and yubiStatus, where they are made.
pub record Menu : Type 0 where
  pub status : Bytes
  pub toggle : Bytes
  pub auto_switch : Bool
  pub yubi_title : Bytes
  pub yubi_shown : Bool

pub record Tray : Type 0 where
  pub menu : Option Menu
  pub active : Bool
  pub icon_active : Bool
  pub tooltip : Bytes

-- New: the device starts enabled; systray shows nothing yet.
abbrev pub new_tray : Tray
new_tray = record { menu = none; active = true; icon_active = false; tooltip = codes "" }

abbrev pub status_title : Bool → Bytes
status_title active =
    if active then codes "BlueRipple Passkey: Active" else codes "BlueRipple Passkey: Disabled"

abbrev pub toggle_title : Bool → Bytes
toggle_title active =
    if active then codes "Disable Fingerprint Key" else codes "Enable Fingerprint Key"

unfoldable pub set_active : Bool → Tray → Outcome Tray
set_active active t = elim t.menu [
  | none ↦ panics
  | some menu ↦ returned (record {
    menu = some (record menu { status = status_title active; toggle = toggle_title active });
    active = active;
    icon_active = active;
    tooltip = status_title active;
  })
]

unfoldable pub set_auto_switch : Bool → Tray → Tray
set_auto_switch enabled t = elim t.menu [
  | none ↦ t
  | some menu ↦ record t { menu = some (record menu { auto_switch = enabled }) }
]

-- Hide leaves the title as it is.
unfoldable pub set_yubi_key_detected : Bool → Bytes → Tray → Tray
set_yubi_key_detected detected name t = elim t.menu [
  | none ↦ t
  | some menu ↦ record t {
    menu = some (
        if detected
        then record menu { yubi_title = name ++ codes " detected"; yubi_shown = true }
        else record menu { yubi_shown = false });
  }
]

-- onReady up to the loop over the clicks.
unfoldable pub on_ready : Tray → Outcome Tray
unfolding set_active
on_ready t = set_active true (record t {
  menu = some (record {
    status = codes "BlueRipple Passkey: Active";
    toggle = codes "Disable Fingerprint Key";
    auto_switch = true;
    yubi_title = codes "";
    yubi_shown = false;
  });
})
