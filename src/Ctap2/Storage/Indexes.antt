-- ===== src/Ctap2/Storage/Indexes.antt =====
-- The two indexes answer as searches of the list of credentials would.
use blueripple_passkey.Prelude.{
  ◌≡◌, refl, sym, ◌∙◌, Option, none, some, List, [], ◌∷◌, ◌++◌, append-nil, append_assoc, Bytes,
  Bool-cases, inl, inr, bytes_eq, bytes_eq_iff, if◌then◌else◌, arith,
}
use blueripple_passkey.Prelude.Dict
use blueripple_passkey.Prelude.Dict.{Dict, lookup-insert}
use blueripple_passkey.Ctap2.Storage.{
  CredentialMetadata, CredentialStorage, slice_of, index_rp, index_id, rebuild_indexes,
  get_by_rp_id, get_by_credential_id, new_storage,
}

-- The credentials of a site, oldest first.
unfoldable pub of_rp : Bytes → List CredentialMetadata → List CredentialMetadata
of_rp rp [] = []
of_rp rp (c ∷ cs) = let rest = of_rp rp cs in if bytes_eq c.rp_id rp then c ∷ rest else rest

-- The last credential with an ID.
unfoldable pub last_with_id : Bytes → List CredentialMetadata → Option CredentialMetadata
last_with_id id [] = none
last_with_id id (c ∷ cs) = elim (last_with_id id cs) [
  | some found ↦ some found
  | none ↦ if bytes_eq c.credential_id id then some c else none
]

abbrev or_else : Option CredentialMetadata → Option CredentialMetadata → Option CredentialMetadata
or_else none o = o
or_else (some c) o = some c

or_else-none : (o : Option CredentialMetadata) → or_else o none ≡ o
or_else-none none = refl
or_else-none (some c) = refl

index_step :
    (m : Dict (List CredentialMetadata)) (k rp : Bytes) (c : CredentialMetadata)
    (rest : List CredentialMetadata)
    → slice_of
          (if bytes_eq k rp then some (slice_of (Dict.lookup k m) ++ c ∷ []) else Dict.lookup rp m)
        ++ rest
      ≡ slice_of (Dict.lookup rp m) ++ (if bytes_eq k rp then c ∷ rest else rest)
index_step m k rp c rest = elim (Bool-cases (bytes_eq k rp)) [
  | inl e ↦ rw e (rw ((bytes_eq_iff k rp).0 e) (append_assoc _ (c ∷ []) rest))
  | inr e ↦ rw e
]

index_rp_lem :
    (m : Dict (List CredentialMetadata)) (cs : List CredentialMetadata) (rp : Bytes)
    → slice_of (Dict.lookup rp (index_rp m cs)) ≡ slice_of (Dict.lookup rp m) ++ of_rp rp cs
unfolding index_rp of_rp
index_rp_lem m [] rp = sym (append-nil _)
index_rp_lem m (c ∷ cs) rp =
    let grown : List CredentialMetadata = slice_of (Dict.lookup c.rp_id m) ++ c ∷ [] in
    index_rp_lem (Dict.insert c.rp_id grown m) cs rp
    ∙ rw (lookup-insert rp c.rp_id grown m) (index_step m c.rp_id rp c (of_rp rp cs))

index_id_lem :
    (m : Dict CredentialMetadata) (cs : List CredentialMetadata) (id : Bytes)
    → Dict.lookup id (index_id m cs) ≡ or_else (last_with_id id cs) (Dict.lookup id m)
unfolding index_id last_with_id
index_id_lem m [] id = refl
index_id_lem m (c ∷ cs) id = ground (
  arith,
  index_id_lem (Dict.insert c.credential_id c m) cs id,
  lookup-insert id c.credential_id c m,
)

pub record IsIndexed (cs : CredentialStorage) : Type 0 where
  pub by_site : (rp : Bytes) → get_by_rp_id cs rp ≡ of_rp rp cs.credentials
  pub by_id : (id : Bytes) → get_by_credential_id cs id ≡ last_with_id id cs.credentials

-- After rebuildIndexes, whatever the indexes held before, the lookup of a site gives its credentials
-- in the order of the list, and the lookup of a credential ID gives the last credential with it.
pub rebuild_indexes-IsIndexed : (cs : CredentialStorage) → IsIndexed (rebuild_indexes cs)
unfolding rebuild_indexes get_by_rp_id get_by_credential_id Dict.lookup
rebuild_indexes-IsIndexed cs = record {
  by_site = λ rp. index_rp_lem [] cs.credentials rp;
  by_id = λ id. index_id_lem [] cs.credentials id ∙ or_else-none (last_with_id id cs.credentials);
}

pub new_storage-IsIndexed :
    (path : Bytes) (file : Option (List CredentialMetadata)) → IsIndexed (new_storage path file)
unfolding new_storage get_by_rp_id get_by_credential_id Dict.lookup of_rp last_with_id
new_storage-IsIndexed path none = record { by_site = λ rp. refl; by_id = λ id. refl }
new_storage-IsIndexed path (some loaded) =
    rebuild_indexes-IsIndexed
      (record { file_path = path; credentials = loaded; by_rp_id = []; by_credential_id = [] })
