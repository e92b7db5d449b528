-- ===== src/Userpresence.antt =====
-- The trust in executables of userpresence/userpresence.go. The file system is a parameter,
-- and what it holds is taken as ASCII, as the kernel writes these files.
pub mod Trust
pub mod Requests
use blueripple_passkey.Prelude.{
  ℕ, zero, suc, ◌+◌, ◌-◌, ◌*◌, Bool, true, false, not, ◌&&◌, ◌||◌, Option, none, some, List, [],
  ◌∷◌, ◌++◌, Bytes, length, ltb, leb, ◌==◌, if◌then◌else◌, bit_and, codes,
}
use blueripple_passkey.Prelude.Strings.{fields, split, trim_space, parse_uint}

abbrev pub uint32_bound : ℕ
uint32_bound = 4294967296

abbrev pub uint64_bound : ℕ
uint64_bound = 18446744073709551616

-- The start and the length of the host range in a line of uid_map; none is an error.
unfoldable pub range_of : List Bytes → Option (ℕ × ℕ)
range_of (inside ∷ start ∷ size ∷ []) = elim (parse_uint uint64_bound start) [
  | none ↦ none
  | some a ↦ elim (parse_uint uint64_bound size) [
    | none ↦ none
    | some n ↦ if n == 0 then none else some (a, n)
  ]
]
range_of _ = none

unfoldable pub in_range : ℕ → ℕ × ℕ → Bool
in_range uid (a, n) = leb a uid && ltb (uid - a) n

-- The loop over the lines; none is an error.
unfoldable pub mapped_in : ℕ → List Bytes → Option Bool
mapped_in uid [] = some false
mapped_in uid (line ∷ lines) =
    let rest = mapped_in uid lines in
    elim (range_of (fields line)) [
      | none ↦ none
      | some r ↦ if in_range uid r then some true else rest
    ]

abbrev pub is_blank : List Bytes → Bool
is_blank (line ∷ []) = length (trim_space line) == 0
is_blank _ = false

-- hostUIDMapped
unfoldable pub host_uid_mapped : Bytes → ℕ → Option Bool
host_uid_mapped uid_map uid =
    let lines = split 10 (trim_space uid_map) in
    if is_blank lines then none else mapped_in uid lines

-- What os.Stat tells; the owner is there on systems with a Stat_t.
pub record FileInfo : Type 0 where
  pub is_regular : Bool
  pub perm : ℕ
  pub owner : Option ℕ

pub record FileSystem : Type 0 where
  pub eval_symlinks : Bytes → Option Bytes
  pub stat : Bytes → Option FileInfo
  pub read_file : Bytes → Option Bytes

abbrev pub is_unmapped : Option Bool → Bool
is_unmapped (some false) = true
is_unmapped _ = false

module _ (fs : FileSystem) where
  unfoldable pub overflow_uid : Option ℕ
  overflow_uid = elim (fs.read_file (codes "/proc/sys/kernel/overflowuid")) [
    | none ↦ none
    | some text ↦ parse_uint uint32_bound (trim_space text)
  ]

  unfoldable pub root_unmapped : Bool
  root_unmapped = elim (fs.read_file (codes "/proc/self/uid_map")) [
    | none ↦ false
    | some uid_map ↦ is_unmapped (host_uid_mapped uid_map 0)
  ]

  unfoldable pub trusted_system_owner : ℕ → Bool
  trusted_system_owner uid = if uid == 0 then true else elim overflow_uid [
    | none ↦ false
    | some overflow ↦ if uid == overflow then root_unmapped else false
  ]

  unfoldable pub trusted_file : FileInfo → Bool
  trusted_file info =
      info.is_regular
      && not (bit_and info.perm 0o111 == 0)
      && bit_and info.perm 0o022 == 0
      && (elim info.owner [ none ↦ false | some uid ↦ trusted_system_owner uid ])

  -- The body of the loop: the path where the candidate is accepted.
  unfoldable pub accept : Bytes → Option Bytes
  accept candidate = elim (fs.eval_symlinks candidate) [
    | none ↦ none
    | some resolved ↦ elim (fs.stat resolved) [
      | none ↦ none
      | some info ↦ if trusted_file info then some resolved else none
    ]
  ]

  unfoldable pub first_trusted : List Bytes → Bytes → Option Bytes
  first_trusted [] name = none
  first_trusted (dir ∷ dirs) name =
      let rest = first_trusted dirs name in
      elim (accept (dir ++ 47 ∷ name)) [ none ↦ rest | some path ↦ some path ]

  -- trustedExecutable, for a name without a slash; none is its error.
  unfoldable pub trusted_executable : Bytes → Option Bytes
  trusted_executable name =
      first_trusted (codes "/usr/bin" ∷ codes "/bin" ∷ codes "/usr/local/bin" ∷ []) name
