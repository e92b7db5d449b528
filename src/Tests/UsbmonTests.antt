-- ===== src/Tests/UsbmonTests.antt =====
-- Runs of the model of usbmon.go.
use blueripple_passkey.Prelude.{
  ◌≡◌, refl, ◌++◌, true, false, none, some, [], ◌∷◌, Bytes, codes, bytes_eq, if◌then◌else◌,
}
use blueripple_passkey.Prelude.Strings.{trim_space, trim_left, trim_right, is_space}
use blueripple_passkey.Daemon.{started, start_device}
use blueripple_passkey.Usbmon.{
  Sysfs, scan, scan_paths, is_vendor, product_name, run, scanned, calls_insert, calls_remove,
}
use blueripple_passkey.Usbmon.Polls.{yubi_monitor, Alternates, polls, all_called, run-poll}

-- A hub and a key, whose files end with a line feed.
abbrev sysfs : Sysfs
sysfs = record {
  matches = some (codes "/hub" ∷ codes "/key" ∷ []);
  read_file = λ path.
      if bytes_eq path (codes "/hub")
      then some (codes "1d6b")
      else if bytes_eq path (codes "/key")
      then some (codes "1050" ++ 10 ∷ [])
      else some (codes "YubiKey 5 " ++ 10 ∷ []);
  product_file = λ path. path ++ codes "/product";
}

key_found : scan sysfs yubi_monitor ≡ some (codes "YubiKey 5")
unfolding scan scan_paths is_vendor product_name trim_space trim_left trim_right is_space bytes_eq
key_found = refl

abbrev key : Bytes
key = codes "YubiKey 5"

in_and_out :
    run yubi_monitor false (some key ∷ some key ∷ none ∷ [])
    ≡ (false, calls_insert key ∷ calls_remove ∷ [])
unfolding run scanned
in_and_out = refl

run-poll_example :
    Alternates false (run yubi_monitor false (some key ∷ none ∷ [])).1
    × (polls true (some key ∷ none ∷ []) (started true true)
        ≡ record (all_called true
            (run yubi_monitor false (some key ∷ none ∷ [])).1
            (started true true)) { present = (run yubi_monitor false (some key ∷ none ∷ [])).0 })
run-poll_example =
    run-poll true (some key ∷ none ∷ []) (started true true) (unfold started start_device in refl)
