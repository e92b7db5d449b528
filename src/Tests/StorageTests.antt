-- ===== src/Tests/StorageTests.antt =====
-- Runs of the models of storage.go and authenticatordata.go.
use blueripple_passkey.Prelude.{
  ℕ, ◌≡◌, ◌⊎◌, refl, ◌+◌, ◌-◌, ◌++◌, Bool, true, false, none, some, List, [], ◌∷◌, Bytes, length,
  replicate, arith, if◌then◌else◌, bytes_eq,
}
use blueripple_passkey.Prelude.Dict
use blueripple_passkey.Ctap2.Storage.{
  CredentialMetadata, CredentialStorage, new_storage, rebuild_indexes, save, delete, get_by_rp_id,
  get_by_credential_id, put_credential,
}
use blueripple_passkey.Ctap2.Storage.File.{Faults, Disk, persist, credential_mode, persist_atomic}
use blueripple_passkey.Ctap2.Storage.Indexes.{
  IsIndexed, rebuild_indexes-IsIndexed, new_storage-IsIndexed,
}
use blueripple_passkey.Ctap2.Storage.Replaced.{Saved, save-Saved}
use blueripple_passkey.Ctap2.Storage.Updates.{
  get_by_rp_id-save, get_by_credential_id-delete, UniqueUsers, save-UniqueUsers,
}
use blueripple_passkey.Ctap2.AuthData.{marshal, pad_to_32, big_int_to_bytes}
use blueripple_passkey.Ctap2.AuthData.Layout.{
  parse, parse_credential, parse-marshal_assertion, parse-marshal_attested, pad_to_32_big_int,
}

abbrev cred : Bytes → ℕ → CredentialMetadata
cred site n = record {
  rp_id = site;
  rp_name = [];
  user_id = n ∷ [];
  user_name = [];
  user_display_name = [];
  credential_id = 7 ∷ n ∷ [];
  public_key_x = [];
  public_key_y = [];
  created_at = 0;
}

abbrev here_site : Bytes
here_site = 1 ∷ []

abbrev there : Bytes
there = 2 ∷ []

abbrev file : List CredentialMetadata
file = cred here_site 1 ∷ cred there 1 ∷ cred here_site 2 ∷ []

abbrev stored : CredentialStorage
stored = new_storage [] (some file)

abbrev write_fails : ℕ → CredentialStorage → ℕ × Bool
write_fails n cs = (n + 1, true)

abbrev calls : ℕ
calls = 0

stored-IsIndexed : IsIndexed stored
stored-IsIndexed = new_storage-IsIndexed [] (some file)

rebuilt : IsIndexed (rebuild_indexes stored)
rebuilt = rebuild_indexes-IsIndexed stored

saved_there :
    get_by_rp_id (save write_fails calls stored (cred here_site 2)).1 here_site
    ≡ put_credential (cred here_site 2) (get_by_rp_id stored here_site)
unfolding bytes_eq
saved_there =
    get_by_rp_id-save write_fails calls stored (cred here_site 2) here_site stored-IsIndexed

save-Saved_example :
    let saved = (save write_fails calls stored (cred here_site 2)).1 in
    Saved (cred here_site 2) (get_by_rp_id stored here_site) (get_by_rp_id saved here_site)
    × (get_by_rp_id saved there ≡ get_by_rp_id stored there)
save-Saved_example =
    save-Saved write_fails calls stored (cred here_site 2) there stored-IsIndexed (ground arith)

deleted_not_found :
    get_by_credential_id (delete write_fails calls stored (7 ∷ 1 ∷ [])).1 (7 ∷ 1 ∷ []) ≡ none
unfolding bytes_eq
deleted_not_found =
    get_by_credential_id-delete write_fails calls stored (7 ∷ 1 ∷ []) (7 ∷ 1 ∷ []) stored-IsIndexed

abbrev single : CredentialStorage
single = record stored { credentials = cred here_site 1 ∷ [] }

second_user_saved : UniqueUsers (save write_fails calls single (cred here_site 2)).1.credentials
second_user_saved = save-UniqueUsers write_fails calls single (cred here_site 2) (tt, tt)

abbrev rename_fails : Faults
rename_fails = record {
  marshal = false;
  create = false;
  chmod = false;
  write = false;
  sync = false;
  close = false;
  rename = true;
  remove = false;
  written = [];
}

abbrev disk : Disk
disk = (9 ∷ [], record { mode = credential_mode; content = 5 ∷ [] }) ∷ []

abbrev path : Bytes
path = 9 ∷ []

abbrev tmp : Bytes
tmp = 8 ∷ []

persist_atomic_example :
    let (disk', failed) = persist rename_fails tmp path (6 ∷ []) disk in
    (Dict.lookup path disk' ≡ (
      if failed
      then Dict.lookup path disk
      else if bytes_eq path path
      then some (record { mode = credential_mode; content = 6 ∷ [] })
      else Dict.lookup path disk))
    × ((failed ≡ true) ⊎ (Dict.lookup tmp disk' ≡ none))
persist_atomic_example =
    persist_atomic rename_fails tmp path (6 ∷ []) path disk (ground arith) (ground arith)

abbrev hash : Bytes
hash = replicate 32 3

assertion_read :
    parse (
      marshal (record {
        rp_id_hash = hash;
        flags = 5;
        sign_count = 70000;
        attested_credential_data = none;
        extensions = [];
      }))
    ≡ record { rp_id_hash = hash; flags = 5; sign_count = 70000; rest = [] }
assertion_read = parse-marshal_assertion hash 70000 refl (omega arith)

parse-marshal_attested_example :
    let p = parse (
      marshal (record {
        rp_id_hash = hash;
        flags = 0x45;
        sign_count = 70000;
        attested_credential_data = some (record {
          aaguid = replicate 16 4;
          credential_id = 7 ∷ 7 ∷ [];
          credential_public_key = 8 ∷ [];
        });
        extensions = [];
      })) in
    (p ≡ record { rp_id_hash = hash; flags = 0x45; sign_count = 70000; rest = p.rest })
    × (parse_credential p.rest
        ≡ record { aaguid = replicate 16 4; credential_id = 7 ∷ 7 ∷ []; public_key = 8 ∷ [] })
parse-marshal_attested_example =
    parse-marshal_attested hash (replicate 16 4) (7 ∷ 7 ∷ []) (8 ∷ []) 70000 refl (omega arith) refl
      (omega arith)

abbrev coordinate : Bytes
coordinate = 200 ∷ 100 ∷ []

padded_coordinate :
    (pad_to_32 coordinate ≡ big_int_to_bytes coordinate)
    × (pad_to_32 coordinate ≡ replicate (32 - length coordinate) 0 ++ coordinate)
    × (length (pad_to_32 coordinate) ≡ 32)
padded_coordinate = pad_to_32_big_int coordinate (omega arith)
