-- ===== src/Userpresence/Trust.antt =====
-- What a trusted executable and a uid_map without root have.
use blueripple_passkey.Prelude.{
  ℕ, ◌≡◌, ◌≢◌, ◌⊎◌, ◌≤◌, ◌<◌, ◌+◌, true, false, some, List, [], ◌∷◌, ◌++◌, Bytes, All, Option-cases,
  inl, inr, bit_and, arith,
}
use blueripple_passkey.Userpresence.{
  FileInfo, FileSystem, overflow_uid, root_unmapped, trusted_system_owner, trusted_file, accept,
  first_trusted, trusted_executable, range_of, in_range, mapped_in, host_uid_mapped,
}
use blueripple_passkey.Prelude.Strings.{fields, split, trim_space}

-- A line of uid_map that gives a range, which is not empty and leaves the user ID out.
abbrev pub LeavesOut : ℕ → Bytes → Type 0
LeavesOut uid line =
    (a : ℕ) × (n : ℕ) × (range_of (fields line) ≡ some (a, n)) × ((uid < a) ⊎ (a + n ≤ uid))

leaves_out :
    (uid : ℕ) (line : Bytes) (a n : ℕ)
    → range_of (fields line) ≡ some (a, n)
    → in_range uid (a, n) ≡ false
    → LeavesOut uid line
unfolding in_range
leaves_out uid line a n e h = (a, n, e, ground arith)

mapped_in-false :
    (uid : ℕ) (lines : List Bytes) → mapped_in uid lines ≡ some false → All (LeavesOut uid) lines
unfolding mapped_in
mapped_in-false uid [] h = tt
mapped_in-false uid (line ∷ lines) h = elim (Option-cases (range_of (fields line))) [
  | inl e ↦ absurd (ground arith)
  | inr ((a, n), e) ↦
      (leaves_out uid line a n e (ground arith), mapped_in-false uid lines (ground arith))
]

-- A host user ID that hostUIDMapped reports as not mapped lies in the range of no line, and every
-- line is well formed.
pub host_uid_mapped-false :
    (uid_map : Bytes) (uid : ℕ)
    → host_uid_mapped uid_map uid ≡ some false
    → All (LeavesOut uid) (split 10 (trim_space uid_map))
unfolding host_uid_mapped
host_uid_mapped-false uid_map uid h =
    mapped_in-false uid (split 10 (trim_space uid_map)) (ground arith)

module _ (fs : FileSystem) where
  -- A regular file that somebody may run and neither its group nor others may write, and that root
  -- owns, or the overflow user where root is not mapped.
  abbrev pub IsTrusted : Bytes → Type 0
  IsTrusted path =
      (info : FileInfo) × (uid : ℕ) × (fs.stat path ≡ some info)
      × (info.is_regular ≡ true)
      × (bit_and info.perm 0o111 ≢ 0)
      × (bit_and info.perm 0o022 ≡ 0)
      × (info.owner ≡ some uid)
      × ((uid ≡ 0) ⊎ ((overflow_uid fs ≡ some uid) × (root_unmapped fs ≡ true)))

  trusted_owner :
      (uid : ℕ)
      → trusted_system_owner fs uid ≡ true
      → (uid ≡ 0) ⊎ ((overflow_uid fs ≡ some uid) × (root_unmapped fs ≡ true))
  unfolding trusted_system_owner
  trusted_owner uid h = elim (Option-cases (overflow_uid fs)) [
    | inl e ↦ ground arith
    | inr (n, e) ↦ ground arith
  ]

  trusted_file-IsTrusted :
      (path : Bytes) (info : FileInfo)
      → fs.stat path ≡ some info
      → trusted_file fs info ≡ true
      → IsTrusted path
  unfolding trusted_file
  trusted_file-IsTrusted path info e h = elim (Option-cases info.owner) [
    | inl k ↦ absurd (ground arith)
    | inr (uid, k) ↦ (
      info,
      uid,
      e,
      ground arith,
      ground arith,
      ground arith,
      k,
      trusted_owner uid (ground arith),
    )
  ]

  accept-some : (candidate path : Bytes) → accept fs candidate ≡ some path → IsTrusted path
  unfolding accept
  accept-some candidate path h = elim (Option-cases (fs.eval_symlinks candidate)) [
    | inl e ↦ absurd (ground arith)
    | inr (resolved, e) ↦ elim (Option-cases (fs.stat resolved)) [
      | inl k ↦ absurd (ground arith)
      | inr (info, k) ↦ trusted_file-IsTrusted path info (ground arith) (ground arith)
    ]
  ]

  first_trusted-some :
      (dirs : List Bytes) (name path : Bytes)
      → first_trusted fs dirs name ≡ some path
      → IsTrusted path
  unfolding first_trusted
  first_trusted-some [] name path h = absurd (ground arith)
  first_trusted-some (dir ∷ dirs) name path h = elim (Option-cases (accept fs (dir ++ 47 ∷ name))) [
    | inl e ↦ first_trusted-some dirs name path (ground arith)
    | inr (p, e) ↦ accept-some (dir ++ 47 ∷ name) path (ground arith)
  ]

  -- What trustedExecutable returns is a trusted file.
  pub trusted_executable-some :
      (name path : Bytes) → trusted_executable fs name ≡ some path → IsTrusted path
  unfolding trusted_executable
  trusted_executable-some name path h = first_trusted-some _ name path h
