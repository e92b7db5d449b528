-- ===== src/Ctap2/Storage/File.antt =====
-- CredentialStorage.save: the file is written under a temporary name and then renamed. A failing
-- call is one whose fault is set; the JSON text comes from encoding/json.
use blueripple_passkey.Prelude.{
  ℕ, ◌≡◌, ◌≢◌, ◌⊎◌, Bool, true, false, none, some, [], Bytes, bytes_eq, bytes_eq_iff, bytes_eq_refl,
  if◌then◌else◌, arith,
}
use blueripple_passkey.Prelude.Dict
use blueripple_passkey.Prelude.Dict.{Dict, lookup-insert, lookup-remove}

pub record DiskFile : Type 0 where
  pub mode : ℕ
  pub content : Bytes

abbrev pub Disk : Type 0
Disk = Dict DiskFile

-- Which of the calls fail; a write that fails leaves `written` in the file.
pub record Faults : Type 0 where
  pub marshal : Bool
  pub create : Bool
  pub chmod : Bool
  pub write : Bool
  pub sync : Bool
  pub close : Bool
  pub rename : Bool
  pub remove : Bool
  pub written : Bytes

abbrev pub credential_mode : ℕ
credential_mode = 0o600

-- os.Rename within a directory.
unfoldable pub renamed : Bytes → Bytes → Disk → Disk
renamed from to disk = elim (Dict.lookup from disk) [
  | none ↦ disk
  | some file ↦ Dict.insert to file (Dict.remove from disk)
]

-- The deferred function: on an error the temporary file is removed.
unfoldable pub cleaned_up : Faults → Bytes → Disk → Disk
cleaned_up faults tmp disk = if faults.remove then disk else Dict.remove tmp disk

-- save, with the name that os.CreateTemp picks: the disk after it, and whether it failed.
unfoldable pub persist : Faults → Bytes → Bytes → Bytes → Disk → Disk × Bool
persist faults tmp path text disk =
    let created = Dict.insert tmp (record { mode = credential_mode; content = [] }) disk in
    let torn = Dict.insert tmp (record { mode = credential_mode; content = faults.written }) disk in
    let full = Dict.insert tmp (record { mode = credential_mode; content = text }) disk in
    if faults.marshal
    then (disk, true)
    else if faults.create
    then (disk, true)
    else if faults.chmod
    then (cleaned_up faults tmp created, true)
    else if faults.write
    then (cleaned_up faults tmp torn, true)
    else if faults.sync
    then (cleaned_up faults tmp full, true)
    else if faults.close
    then (cleaned_up faults tmp full, true)
    else if faults.rename
    then (cleaned_up faults tmp full, true)
    else (renamed tmp path full, false)

-- Of a write under the temporary name, seen by another file.
other_file :
    (tmp j : Bytes) (f : DiskFile) (disk : Disk) (faults : Faults)
    → tmp ≢ j
    → Dict.lookup j (cleaned_up faults tmp (Dict.insert tmp f disk)) ≡ Dict.lookup j disk
unfolding cleaned_up
other_file tmp j f disk faults h = ground (
  arith,
  lookup-insert j tmp f disk,
  lookup-remove j tmp (Dict.insert tmp f disk),
  bytes_eq_iff tmp j,
)

renamed_file :
    (tmp path j : Bytes) (f : DiskFile) (disk : Disk)
    → tmp ≢ path
    → Dict.lookup j (renamed tmp path (Dict.insert tmp f disk))
      ≡ (if bytes_eq path j then some f else if bytes_eq tmp j then none else Dict.lookup j disk)
unfolding renamed
renamed_file tmp path j f disk h =
    let disk' : Disk = Dict.insert tmp f disk in
    ground (
      arith,
      lookup-insert tmp tmp f disk,
      bytes_eq_refl tmp,
      lookup-insert j path f (Dict.remove tmp disk'),
      lookup-remove j tmp disk',
      lookup-insert j tmp f disk,
      bytes_eq_iff path j,
      bytes_eq_iff tmp j,
    )

-- Saving is atomic, whichever calls fail, if the temporary name is not the credential file's: after
-- a failure every file but the temporary one is as it was, and after a success the credential file
-- holds exactly the new text with mode 0600, the temporary file is gone, and every other file is as
-- it was.
pub persist_atomic :
    (faults : Faults) (tmp path text j : Bytes) (disk : Disk)
    → tmp ≢ path
    → tmp ≢ j
    → let (disk', failed) = persist faults tmp path text disk in
      (Dict.lookup j disk' ≡ (
        if failed
        then Dict.lookup j disk
        else if bytes_eq path j
        then some (record { mode = credential_mode; content = text })
        else Dict.lookup j disk))
      × ((failed ≡ true) ⊎ (Dict.lookup tmp disk' ≡ none))
unfolding persist
persist_atomic faults tmp path text j disk h k =
    let file =
      λ (b : Bytes). let f : DiskFile = record { mode = credential_mode; content = b } in f in
    (
      ground (
        arith,
        other_file tmp j (file []) disk faults k,
        other_file tmp j (file faults.written) disk faults k,
        other_file tmp j (file text) disk faults k,
        renamed_file tmp path j (file text) disk h,
        bytes_eq_iff tmp j,
      ),
      ground (
        arith,
        renamed_file tmp path tmp (file text) disk h,
        bytes_eq_iff path tmp,
        bytes_eq_refl tmp,
      ),
    )
