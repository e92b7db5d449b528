-- ===== src/Tests/PresenceTests.antt =====
-- Runs of the model of userpresence.go, among them the cases of its own test of hostUIDMapped.
use blueripple_passkey.Prelude.{
  bytes_eq, if◌then◌else◌, ◌≡◌, ◌++◌, refl, true, false, none, some, [], ◌∷◌, Bytes, All, codes,
}
use blueripple_passkey.Userpresence.{
  FileSystem, range_of, in_range, mapped_in, host_uid_mapped, overflow_uid, root_unmapped,
  trusted_system_owner, trusted_file, accept, first_trusted, trusted_executable,
}
use blueripple_passkey.Prelude.Strings.{
  is_space, fields, split, trim_left, trim_right, trim_space, parse_digits, parse_uint,
}
use blueripple_passkey.Userpresence.Requests.{
  Requests, no_requests, confirm_presence, go_on, verifying, sending, verified, taken, next_stage,
  handed_over,
}
use blueripple_passkey.Userpresence.Requests.Single.{
  IsSingle, followed_by, here, confirms, goes_on, no_requests-IsSingle,
}
use blueripple_passkey.Userpresence.Requests.Release.{Released, no_requests-Released}
use blueripple_passkey.Userpresence.Trust.{
  LeavesOut, IsTrusted, host_uid_mapped-false, trusted_executable-some,
}

abbrev unprivileged : Bytes
unprivileged = codes "1000 1000 1" ++ 10 ∷ []

leaves_root : host_uid_mapped unprivileged 0 ≡ some false
unfolding host_uid_mapped mapped_in range_of in_range fields split trim_space trim_left trim_right
    parse_uint parse_digits is_space
leaves_root = refl

other_maps :
    (host_uid_mapped (codes "0 0 4294967295") 0 ≡ some true)
    × (host_uid_mapped (unprivileged ++ codes "2000 0 1") 0 ≡ some true)
    × (host_uid_mapped (codes "1000 1000") 0 ≡ none)
    × (host_uid_mapped (codes "0 0 0") 0 ≡ none)
unfolding host_uid_mapped mapped_in range_of in_range fields split trim_space trim_left trim_right
    parse_uint parse_digits is_space
other_maps = (refl, refl, refl, refl)

root_left_out : All (LeavesOut 0) (split 10 (trim_space unprivileged))
root_left_out = host_uid_mapped-false unprivileged 0 leaves_root

abbrev asked : Requests
asked = (confirm_presence no_requests).0

abbrev confirmed : Requests
confirmed = go_on asked [] 0 verifying [] (verified true)

abbrev told : Requests
told = go_on confirmed [] 0 (sending true) [] taken

-- The first request's result is received, and a second request is refused until the lock is taken.
told_once : (told.received ≡ (0, true) ∷ []) × ((confirm_presence told).1 ≡ none)
unfolding go_on confirm_presence no_requests next_stage handed_over
told_once = (refl, refl)

no_requests-IsSingle_example : IsSingle told
unfolding go_on confirm_presence no_requests next_stage handed_over
no_requests-IsSingle_example = no_requests-IsSingle told (
    followed_by (confirms no_requests) (
      followed_by (goes_on asked [] [] 0 verifying (verified true) refl)
        (followed_by (goes_on confirmed [] [] 0 (sending true) taken refl) (here told))))

-- In the namespace of an unprivileged service the verifier's owner is the overflow user.
abbrev fs : FileSystem
fs = record {
  eval_symlinks = λ path. some path;
  stat = λ path. some (record { is_regular = true; perm = 0o755; owner = some 65534 });
  read_file = λ path.
      some (if bytes_eq path (codes "/proc/self/uid_map") then unprivileged else codes "65534");
}

abbrev verifier : Bytes
verifier = codes "fprintd-verify"

abbrev found_path : Bytes
found_path = codes "/usr/bin/fprintd-verify"

found : trusted_executable fs verifier ≡ some found_path
unfolding trusted_executable first_trusted accept trusted_file trusted_system_owner overflow_uid
    root_unmapped host_uid_mapped mapped_in range_of in_range fields split trim_space trim_left
    trim_right parse_uint parse_digits is_space bytes_eq
found = refl

trusted_executable-some_example : IsTrusted fs found_path
trusted_executable-some_example = trusted_executable-some fs verifier found_path found

no_requests-Released_example : Released asked
no_requests-Released_example =
    no_requests-Released asked (followed_by (confirms no_requests) (here asked))
