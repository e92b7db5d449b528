-- ===== src/Startup.antt =====
-- main of main.go up to runDaemonMode, with credentialStoragePath, runChecks and New and
-- CheckFingerprintVerifier of userpresence/userpresence.go. What the calls of the operating system
-- and of the backends answer stands in a record; log messages are left out.
pub mod Migration
pub mod Preflight
use blueripple_passkey.Prelude.{
  ◌⊎◌, inl, inr, Bool, true, false, not, ◌&&◌, Option, none, some, List, [], ◌∷◌, Bytes, length,
  bytes_eq, ◌==◌, if◌then◌else◌, codes,
}
use blueripple_passkey.Prelude.Dict
use blueripple_passkey.Userpresence.{FileSystem, trusted_executable}
use blueripple_passkey.Ctap2.Storage.File.{Disk, renamed}
use blueripple_passkey.Config.{configured_rp_ids}

pub data Backend : Type 0 where
  tpm memory : Backend

pub data Reason : Type 0 where
  bad_rp_ids no_rp_ids bad_backend no_backend no_verifier no_home no_storage : Reason

-- userpresence.New: the verifier, and notify-send where it is trusted.
pub record UserPresence : Type 0 where
  pub fprintd_verify : Bytes
  pub notify_send : Option Bytes

-- What runDaemonMode is called with.
pub record Running : Type 0 where
  pub backend : Backend
  pub rp_ids : List Bytes
  pub presence : UserPresence
  pub storage_path : Bytes

-- How main ends: the version is printed, log.Fatal, the preflight with its result, or the daemon.
pub data Exit : Type 0 where
  printed : Exit
  fatal : Reason → Exit
  checked : Bool → Exit
  serves : Running → Exit

-- The flags.
pub record Settings : Type 0 where
  pub backend : Bytes
  pub device : Bytes
  pub check_only : Bool
  pub show_version : Bool
  pub allowed_rp_ids : List Bytes

pub record Machine : Type 0 where
  -- os.Getenv: empty where the variable is not set
  pub getenv : Bytes → Bytes
  -- the files that trustedExecutable looks at, and the credential files
  pub fs : FileSystem
  pub disk : Disk
  -- exec.LookPath finds the name
  pub look_path : Bytes → Bool
  pub tpm_fails : Bytes → Bool
  pub home : Option Bytes
  -- filepath.Join
  pub join : List Bytes → Bytes
  -- os.Stat of a credential file gives an error other than that it is not there
  pub stat_fails : Bytes → Bool
  pub mkdir_fails : Bool
  pub rename_fails : Bool
  -- NewCredentialStorage fails with the path
  pub storage_fails : Bytes → Bool

abbrev pub is_there {ℓ} : {A : Type ℓ} → Option A → Bool
is_there none = false
is_there (some a) = true

unfoldable pub rp_id_environment : Machine → Bytes
rp_id_environment m =
    let current = m.getenv (codes "BLUERIPPLE_PASSKEY_RP_IDS") in
    if length current == 0 then m.getenv (codes "AUTHENTIK_BIOMETRIC_RP_IDS") else current

-- os.Stat without an error
abbrev pub stat_finds : Machine → Bytes → Bool
stat_finds m path = is_there (Dict.lookup path m.disk) && not (m.stat_fails path)

-- credentialStoragePath, with the names of the two files: the path, and the files after it.
unfoldable pub migrated : Machine → Bytes → Bytes → Bytes × Disk
migrated m current legacy =
    if stat_finds m current
    then (current, m.disk)
    else if not (stat_finds m legacy)
    then (current, m.disk)
    else if m.mkdir_fails
    then (legacy, m.disk)
    else if m.rename_fails
    then (legacy, m.disk)
    else (current, renamed legacy current m.disk)

abbrev data_file : Machine → Bytes → Bytes → Bytes
data_file m home dir =
    m.join (home ∷ codes ".local" ∷ codes "share" ∷ dir ∷ codes "credentials.json" ∷ [])

unfoldable pub credential_storage_path : Machine → Bytes → Bytes × Disk
unfolding migrated
credential_storage_path m home =
    migrated m (data_file m home (codes "blueripple-passkey"))
      (data_file m home (codes "authentik-biometric"))

-- pathExists, which is the error nil
abbrev path_exists : Machine → Bytes → Bool
path_exists m path = is_there (m.fs.stat path)

unfoldable pub check_fingerprint_verifier : Machine → Bool
check_fingerprint_verifier m = is_there (trusted_executable m.fs (codes "fprintd-verify"))

unfoldable pub run_checks : Machine → Bytes → Bool
run_checks m device =
    path_exists m device
    && path_exists m (codes "/dev/uhid")
    && check_fingerprint_verifier m
    && m.look_path (codes "notify-send")

unfoldable pub new_presence : Machine → Option UserPresence
new_presence m = elim (trusted_executable m.fs (codes "fprintd-verify")) [
  | none ↦ none
  | some path ↦ some (record {
    fprintd_verify = path;
    notify_send = trusted_executable m.fs (codes "notify-send");
  })
]

-- The backend that --backend names, made ready. memory.New gives no error.
unfoldable pub new_signer : Machine → Settings → Reason ⊎ Backend
new_signer m s =
    if bytes_eq s.backend (codes "tpm")
    then (if m.tpm_fails s.device then inl no_backend else inr tpm)
    else if bytes_eq s.backend (codes "memory")
    then inr memory
    else inl bad_backend

-- main from the home directory on
with_home : Machine → Backend → List Bytes → UserPresence → Option Bytes → Exit
with_home m backend ids presence none = fatal no_home
with_home m backend ids presence (some home) =
    let path = (credential_storage_path m home).0 in
    if m.storage_fails path
    then fatal no_storage
    else serves
        (record { backend = backend; rp_ids = ids; presence = presence; storage_path = path })

with_presence : Machine → Backend → List Bytes → Option UserPresence → Exit
unfolding with_home
with_presence m backend ids none = fatal no_verifier
with_presence m backend ids (some presence) = with_home m backend ids presence m.home

with_signer : Machine → List Bytes → Reason ⊎ Backend → Exit
unfolding with_presence
with_signer m ids (inl reason) = fatal reason
with_signer m ids (inr backend) = with_presence m backend ids (new_presence m)

with_rp_ids : Machine → Settings → Option (List Bytes) → Exit
unfolding with_signer
with_rp_ids m s none = fatal bad_rp_ids
with_rp_ids m s (some []) = fatal no_rp_ids
with_rp_ids m s (some (rp ∷ rps)) =
    if s.check_only
    then checked (run_checks m s.device)
    else with_signer m (rp ∷ rps) (new_signer m s)

unfoldable pub start_up : Machine → Settings → Exit
unfolding with_rp_ids
start_up m s =
    if s.show_version
    then printed
    else with_rp_ids m s (configured_rp_ids s.allowed_rp_ids (rp_id_environment m))
