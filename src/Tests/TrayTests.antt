-- ===== src/Tests/TrayTests.antt =====
-- Runs of the tray's model.
use blueripple_passkey.Prelude.{◌≡◌, ◌↔◌, true, false, [], ◌∷◌, List, codes}
use blueripple_passkey.Prelude.Outcome.{panics}
use blueripple_passkey.Tray.{new_tray, on_ready}
use blueripple_passkey.Tray.Titles.{
  Call, sets_active, sets_auto_switch, sets_detected, calls, and_then, ShowsActive, AnyActivation,
  calls_lem,
}

-- The key comes in.
abbrev key_calls : List Call
key_calls = sets_auto_switch true ∷ sets_detected true (codes "YubiKey") ∷ sets_active false ∷ []

calls_lem_example :
    ShowsActive (and_then (on_ready new_tray) (calls key_calls))
    × ((calls key_calls new_tray ≡ panics) ↔ AnyActivation key_calls)
calls_lem_example = calls_lem key_calls
