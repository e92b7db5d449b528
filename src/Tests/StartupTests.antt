-- ===== src/Tests/StartupTests.antt =====
-- Runs of the model of main's start, on a machine where nothing is missing but notify-send.
use blueripple_passkey.Prelude.{
  ◌≡◌, refl, true, false, none, some, List, [], ◌∷◌, Bytes, arith, codes, bytes_eq,
}
use blueripple_passkey.Prelude.Dict
use blueripple_passkey.Prelude.Strings.{
  is_space, split, trim_left, trim_right, trim_space, parse_digits,
}
use blueripple_passkey.Userpresence.{
  FileSystem, trusted_executable, first_trusted, accept, trusted_file, trusted_system_owner,
}
use blueripple_passkey.Ctap2.Storage.File.{Disk, DiskFile, renamed, credential_mode}
use blueripple_passkey.Config.{
  has_byte, contains_any, all_of, is_octet, is_ip, label_byte, label_bytes, good_label, valid_rp_id,
  normalised, collect, bytes_less, insert_sorted, sort_strings, configured_rp_ids,
}
use blueripple_passkey.Startup.{
  Machine, Settings, Running, checked, serves, tpm, start_up, run_checks,
  check_fingerprint_verifier, rp_id_environment, new_presence, new_signer, migrated,
  credential_storage_path,
}
use blueripple_passkey.Startup.Migration.{migrated_keeps, migrated_overwrites, credentials_of}
use blueripple_passkey.Startup.Preflight.{IsUnchecked, Starts, check_then_start}

abbrev fs : FileSystem
fs = record {
  eval_symlinks = λ path. some path;
  stat = λ path. some (record { is_regular = true; perm = 0o755; owner = some 0 });
  read_file = λ path. none;
}

abbrev legacy : Bytes
legacy = codes "/old"

abbrev current : Bytes
current = codes "/new"

abbrev file : DiskFile
file = record { mode = credential_mode; content = 1 ∷ [] }

abbrev disk : Disk
disk = (legacy, file) ∷ []

abbrev pub machine : Machine
machine = record {
  getenv = λ name. codes " Auth.example ";
  fs = fs;
  disk = disk;
  look_path = λ name. true;
  tpm_fails = λ device. false;
  home = some (codes "/home");
  join = λ parts. codes "/new";
  stat_fails = λ path. false;
  mkdir_fails = false;
  rename_fails = false;
  storage_fails = λ path. false;
}

abbrev pub settings : Settings
settings = record {
  backend = codes "tpm";
  device = codes "/dev/tpmrm0";
  check_only = false;
  show_version = false;
  allowed_rp_ids = [];
}

abbrev pub site : Bytes
site = codes "auth.example"

abbrev pub running : Running
running = record {
  backend = tpm;
  rp_ids = site ∷ [];
  presence = record {
    fprintd_verify = codes "/usr/bin/fprintd-verify";
    notify_send = some (codes "/usr/bin/notify-send");
  };
  storage_path = current;
}

pub runs : start_up machine settings ≡ serves running
unfolding start_up new_signer new_presence rp_id_environment credential_storage_path migrated
    trusted_executable first_trusted accept trusted_file trusted_system_owner configured_rp_ids
    collect normalised valid_rp_id contains_any has_byte is_ip all_of good_label label_bytes
    label_byte is_octet parse_digits split trim_space trim_left trim_right is_space sort_strings
    insert_sorted bytes_less Dict.insert Dict.lookup bytes_eq
runs = refl

passes : start_up machine (record settings { check_only = true }) ≡ checked true
unfolding start_up run_checks check_fingerprint_verifier rp_id_environment trusted_executable
    first_trusted accept trusted_file trusted_system_owner configured_rp_ids collect normalised
    valid_rp_id contains_any has_byte is_ip all_of good_label label_bytes label_byte is_octet
    parse_digits split trim_space trim_left trim_right is_space sort_strings insert_sorted
    bytes_less Dict.insert bytes_eq
passes = refl

check_then_start_example :
    (ids : List Bytes) × (configured_rp_ids [] (rp_id_environment machine) ≡ some ids)
    × Starts IsUnchecked ids (start_up machine settings)
check_then_start_example = check_then_start machine settings passes

migrated_keeps_example :
    (Dict.lookup (migrated machine current legacy).0 (migrated machine current legacy).1
      ≡ credentials_of (Dict.lookup current disk) (Dict.lookup legacy disk))
    × (credentials_of
          (Dict.lookup current (migrated machine current legacy).1)
          (Dict.lookup legacy (migrated machine current legacy).1)
        ≡ credentials_of (Dict.lookup current disk) (Dict.lookup legacy disk))
    × (Dict.lookup (codes "/other") (migrated machine current legacy).1
        ≡ Dict.lookup (codes "/other") disk)
migrated_keeps_example =
    migrated_keeps machine current legacy (codes "/other") refl refl (ground arith) (ground arith)
      (ground arith)

moved : migrated machine current legacy ≡ (current, (current, file) ∷ [])
unfolding migrated renamed Dict.lookup Dict.insert Dict.remove bytes_eq
moved = refl

abbrev newer : DiskFile
newer = record { mode = credential_mode; content = 2 ∷ [] }

-- Both files are there, and os.Stat fails for the current one.
abbrev unreadable : Machine
unreadable = record machine {
  disk = (current, newer) ∷ disk;
  stat_fails = λ path. bytes_eq path current;
}

migrated_overwrites_example :
    ((migrated unreadable current legacy).0 ≡ current)
    × (Dict.lookup current (migrated unreadable current legacy).1 ≡ some file)
    × (Dict.lookup legacy (migrated unreadable current legacy).1 ≡ none)
unfolding bytes_eq Dict.lookup
migrated_overwrites_example =
    migrated_overwrites unreadable current legacy newer file (ground arith) refl refl refl refl refl
      refl
