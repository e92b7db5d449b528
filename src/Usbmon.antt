-- ===== src/Usbmon.antt =====
-- usbmon/usbmon.go: the scan of /sys/bus/usb/devices and the loop of Run. The files are a parameter;
-- what the scans find, at the start and with each tick of the timer, is a list.
pub mod Polls
use blueripple_passkey.Prelude.{
  Bool, true, false, not, ◌&&◌, Option, none, some, List, [], ◌∷◌, ◌++◌, Bytes, bytes_eq,
  if◌then◌else◌, codes,
}
use blueripple_passkey.Prelude.Strings.{trim_space}

pub record Sysfs : Type 0 where
  -- filepath.Glob of the idVendor files
  pub matches : Option (List Bytes)
  pub read_file : Bytes → Option Bytes
  -- the file "product" beside a file
  pub product_file : Bytes → Bytes

pub data Callback : Type 0 where
  calls_insert : Bytes → Callback
  calls_remove : Callback

-- VendorID, and which of OnInsert and OnRemove are not nil.
pub record Monitor : Type 0 where
  pub vendor_id : Bytes
  pub has_insert : Bool
  pub has_remove : Bool

unfoldable pub product_name : Sysfs → Bytes → Bytes
product_name fs path = elim (fs.read_file (fs.product_file path)) [
  | none ↦ codes "Unknown device"
  | some text ↦ trim_space text
]

-- Whether a file holds the vendor ID.
unfoldable pub is_vendor : Sysfs → Monitor → Bytes → Bool
is_vendor fs m path = elim (fs.read_file path) [
  | none ↦ false
  | some text ↦ bytes_eq (trim_space text) m.vendor_id
]

-- The loop of scan.
unfoldable pub scan_paths : Sysfs → Monitor → List Bytes → Option Bytes
scan_paths fs m [] = none
scan_paths fs m (path ∷ paths) =
    let rest = scan_paths fs m paths in
    if is_vendor fs m path then some (product_name fs path) else rest

unfoldable pub scan : Sysfs → Monitor → Option Bytes
scan fs m = elim fs.matches [ none ↦ none | some paths ↦ scan_paths fs m paths ]

-- What a scan makes of the variable `present`, and the callback that it calls.
unfoldable pub scanned : Monitor → Bool → Option Bytes → Bool × List Callback
scanned m present none =
    if present then (false, if m.has_remove then calls_remove ∷ [] else []) else (present, [])
scanned m present (some name) =
    if not present
    then (true, if m.has_insert then calls_insert name ∷ [] else [])
    else (present, [])

-- Run from a value of `present` on. At the start it is false, where the first scan, which comes
-- before the timer, does what a later one would.
unfoldable pub run : Monitor → Bool → List (Option Bytes) → Bool × List Callback
unfolding scanned
run m present [] = (present, [])
run m present (found ∷ scans) =
    let (present', first) = scanned m present found in
    let (present'', rest) = run m present' scans in (present'', first ++ rest)
