-- ===== src/Startup/Migration.antt =====
-- The credential file's move to the current directory.
use blueripple_passkey.Prelude.{
  ◌≡◌, ◌≢◌, true, false, Option, none, some, Bytes, bytes_eq, bytes_eq_iff, bytes_eq_refl,
  if◌then◌else◌, arith, Option-cases, inl, inr,
}
use blueripple_passkey.Prelude.Dict
use blueripple_passkey.Prelude.Dict.{lookup-insert, lookup-remove}
use blueripple_passkey.Ctap2.Storage.File.{Disk, DiskFile, renamed}
use blueripple_passkey.Startup.{Machine, migrated}

lookup-renamed :
    (from to j : Bytes) (f : DiskFile) (disk : Disk)
    → Dict.lookup from disk ≡ some f
    → Dict.lookup j (renamed from to disk)
      ≡ (if bytes_eq to j then some f else if bytes_eq from j then none else Dict.lookup j disk)
unfolding renamed
lookup-renamed from to j f disk e =
    rw (e, renamed, lookup-insert j to f (Dict.remove from disk), lookup-remove j from disk)

-- The credentials that a start finds: those of the current file, or else of the legacy one.
abbrev pub credentials_of : Option DiskFile → Option DiskFile → Option DiskFile
credentials_of (some f) legacy = some f
credentials_of none legacy = legacy

-- Where os.Stat has no other error for the two files than that they are not there, and whichever of
-- the other calls fail: the file at the path that credentialStoragePath returns is the current one,
-- or the legacy one where there is no current one, as it was before; a later start would find the
-- same again; and no other file is changed.
pub migrated_keeps :
    (m : Machine) (current legacy other : Bytes)
    → m.stat_fails current ≡ false
    → m.stat_fails legacy ≡ false
    → current ≢ legacy
    → other ≢ current
    → other ≢ legacy
    → let (path, disk) = migrated m current legacy in
      let found = credentials_of (Dict.lookup current m.disk) (Dict.lookup legacy m.disk) in
      (Dict.lookup path disk ≡ found)
      × (credentials_of (Dict.lookup current disk) (Dict.lookup legacy disk) ≡ found)
      × (Dict.lookup other disk ≡ Dict.lookup other m.disk)
unfolding migrated
migrated_keeps m current legacy other x y h k l = elim (Option-cases (Dict.lookup current m.disk)) [
  | inr (f, e) ↦ ground (arith, e)
  | inl e ↦ elim (Option-cases (Dict.lookup legacy m.disk)) [
    | inl n ↦ ground (arith, e, n)
    | inr (f, n) ↦ ground (
      arith,
      e,
      n,
      bytes_eq_refl current,
      bytes_eq_iff current other,
      bytes_eq_iff legacy other,
      bytes_eq_iff legacy current,
      bytes_eq_iff current legacy,
      lookup-renamed legacy current current f m.disk n,
      lookup-renamed legacy current legacy f m.disk n,
      lookup-renamed legacy current other f m.disk n,
    )
  ]
]

-- Where os.Stat fails for a current file that is there, and every other call succeeds, the legacy
-- file takes its place: the path returned is the current one, and what was stored there is lost.
pub migrated_overwrites :
    (m : Machine) (current legacy : Bytes) (kept old : DiskFile)
    → current ≢ legacy
    → Dict.lookup current m.disk ≡ some kept
    → Dict.lookup legacy m.disk ≡ some old
    → m.stat_fails current ≡ true
    → m.stat_fails legacy ≡ false
    → m.mkdir_fails ≡ false
    → m.rename_fails ≡ false
    → let (path, disk) = migrated m current legacy in
      (path ≡ current) × (Dict.lookup current disk ≡ some old) × (Dict.lookup legacy disk ≡ none)
unfolding migrated
migrated_overwrites m current legacy kept old h c l x y d r = ground (
  arith,
  bytes_eq_refl current,
  bytes_eq_refl legacy,
  bytes_eq_iff legacy current,
  bytes_eq_iff current legacy,
  lookup-renamed legacy current current old m.disk l,
  lookup-renamed legacy current legacy old m.disk l,
)
