-- ===== src/Ctap2/Storage.antt =====
-- ctap2/storage.go: the credentials kept for discovery. A credential is never changed once it is
-- stored, so the pointers of the source are values here. Writing the file is the child `File`'s.
pub mod File
pub mod Indexes
pub mod Updates
pub mod Replaced
use blueripple_passkey.Prelude.{
  ℕ, Bool, true, false, ◌&&◌, not, Option, none, some, List, [], ◌∷◌, ◌++◌, Bytes, length, bytes_eq,
  if◌then◌else◌,
}
use blueripple_passkey.Prelude.Dict
use blueripple_passkey.Prelude.Dict.{Dict}

pub record CredentialMetadata : Type 0 where
  pub rp_id : Bytes
  pub rp_name : Bytes
  pub user_id : Bytes
  pub user_name : Bytes
  pub user_display_name : Bytes
  pub credential_id : Bytes
  pub public_key_x : Bytes
  pub public_key_y : Bytes
  pub created_at : ℕ

pub record CredentialStorage : Type 0 where
  pub file_path : Bytes
  pub credentials : List CredentialMetadata
  pub by_rp_id : Dict (List CredentialMetadata)
  pub by_credential_id : Dict CredentialMetadata

-- A missing key of a map of slices reads as the nil slice.
abbrev pub slice_of : Option (List CredentialMetadata) → List CredentialMetadata
slice_of none = []
slice_of (some l) = l

unfoldable pub index_rp :
    Dict (List CredentialMetadata) → List CredentialMetadata → Dict (List CredentialMetadata)
index_rp m [] = m
index_rp m (c ∷ cs) =
    index_rp (Dict.insert c.rp_id (slice_of (Dict.lookup c.rp_id m) ++ c ∷ []) m) cs

unfoldable pub index_id :
    Dict CredentialMetadata → List CredentialMetadata → Dict CredentialMetadata
index_id m [] = m
index_id m (c ∷ cs) = index_id (Dict.insert c.credential_id c m) cs

-- The loop of rebuildIndexes fills both maps; each in a loop of its own here.
unfoldable pub rebuild_indexes : CredentialStorage → CredentialStorage
rebuild_indexes cs = record cs {
  by_rp_id = index_rp [] cs.credentials;
  by_credential_id = index_id [] cs.credentials;
}

unfoldable pub same_user : CredentialMetadata → CredentialMetadata → Bool
same_user existing cred =
    bytes_eq existing.rp_id cred.rp_id && bytes_eq existing.user_id cred.user_id

-- Save's search: the first credential of the same site and user is replaced, else one is added.
unfoldable pub put_credential :
    CredentialMetadata → List CredentialMetadata → List CredentialMetadata
put_credential cred [] = cred ∷ []
put_credential cred (existing ∷ cs) =
    if same_user existing cred then cred ∷ cs else existing ∷ put_credential cred cs

unfoldable pub without_id : Bytes → List CredentialMetadata → List CredentialMetadata
without_id id [] = []
without_id id (c ∷ cs) =
    let rest = without_id id cs in if bytes_eq c.credential_id id then rest else c ∷ rest

-- GetByRPID; nil and an empty slice are one.
unfoldable pub get_by_rp_id : CredentialStorage → Bytes → List CredentialMetadata
get_by_rp_id cs rp = slice_of (Dict.lookup rp cs.by_rp_id)

unfoldable pub get_by_credential_id : CredentialStorage → Bytes → Option CredentialMetadata
get_by_credential_id cs id = Dict.lookup id cs.by_credential_id

unfoldable pub count : CredentialStorage → ℕ
count cs = length cs.credentials

unfoldable pub get_all : CredentialStorage → List CredentialMetadata
get_all cs = cs.credentials

-- The credentials that a file holds, once json.Unmarshal has read them.
unfoldable pub load : CredentialStorage → List CredentialMetadata → CredentialStorage
unfolding rebuild_indexes
load cs loaded = rebuild_indexes (record cs { credentials = loaded })

-- NewCredentialStorage once the directory is there: `none` is no file, an unreadable one or bad
-- JSON, after all of which the storage starts empty.
unfoldable pub new_storage : Bytes → Option (List CredentialMetadata) → CredentialStorage
unfolding load
new_storage path file =
    let cs : CredentialStorage = record {
      file_path = path;
      credentials = [];
      by_rp_id = [];
      by_credential_id = [];
    } in
    elim file [ none ↦ cs | some loaded ↦ load cs loaded ]

-- The writing of the file: the file system after the call, and whether it failed.
module _ {F : Type 0} (persist : F → CredentialStorage → F × Bool) where
  -- Save: the memory is changed before the file is written.
  unfoldable pub save : F → CredentialStorage → CredentialMetadata → F × CredentialStorage × Bool
  save f cs cred =
      let cs' = rebuild_indexes (record cs { credentials = put_credential cred cs.credentials }) in
      let (f', failed) = persist f cs' in (f', cs', failed)

  delete_found :
      F → CredentialStorage → Bytes → Option CredentialMetadata → F × CredentialStorage × Bool
  delete_found f cs id none = (f, cs, false)
  delete_found f cs id (some c) =
      let cs' = rebuild_indexes (record cs { credentials = without_id id cs.credentials }) in
      let (f', failed) = persist f cs' in (f', cs', failed)

  unfoldable pub delete : F → CredentialStorage → Bytes → F × CredentialStorage × Bool
  unfolding delete_found
  delete f cs id = delete_found f cs id (Dict.lookup id cs.by_credential_id)
