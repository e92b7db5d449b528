-- ===== src/Ctap2/Storage/Updates.antt =====
-- What Save and Delete change, as the readers of the storage see it.
use blueripple_passkey.Prelude.{
  ◌≡◌, ◌∙◌, Bool, true, false, none, List, [], ◌∷◌, Bytes, bytes_eq, bytes_eq_iff, if◌then◌else◌,
  arith, All, Option-cases, inl, inr,
}
use blueripple_passkey.Prelude.Dict
use blueripple_passkey.Prelude.Dict.{Dict, lookup-insert}
use blueripple_passkey.Ctap2.Storage.{
  CredentialMetadata, CredentialStorage, same_user, rebuild_indexes, get_by_rp_id,
  get_by_credential_id, save, delete, delete_found, put_credential, without_id,
}
use blueripple_passkey.Ctap2.Storage.Indexes.{
  of_rp, last_with_id, IsIndexed, rebuild_indexes-IsIndexed,
}

pub of_rp-put_credential :
    (rp : Bytes) (c : CredentialMetadata) (cs : List CredentialMetadata)
    → of_rp rp (put_credential c cs)
      ≡ (if bytes_eq c.rp_id rp then put_credential c (of_rp rp cs) else of_rp rp cs)
unfolding of_rp put_credential same_user
of_rp-put_credential rp c [] = ground arith
of_rp-put_credential rp c (e ∷ cs) = ground (
  arith,
  of_rp-put_credential rp c cs,
  bytes_eq_iff e.rp_id c.rp_id,
  bytes_eq_iff e.rp_id rp,
  bytes_eq_iff c.rp_id rp,
)

last_with_id-without_id :
    (id j : Bytes) (cs : List CredentialMetadata)
    → last_with_id j (without_id id cs) ≡ (if bytes_eq id j then none else last_with_id j cs)
unfolding last_with_id without_id
last_with_id-without_id id j [] = ground arith
last_with_id-without_id id j (c ∷ cs) = ground (
  arith,
  last_with_id-without_id id j cs,
  bytes_eq_iff c.credential_id id,
  bytes_eq_iff c.credential_id j,
  bytes_eq_iff id j,
)

-- No two credentials are of one site and user.
abbrev pub UniqueUsers : List CredentialMetadata → Type 0
UniqueUsers [] = Unit
UniqueUsers (c ∷ cs) = All (λ e. same_user e c ≡ false) cs × UniqueUsers cs

put_credential-All :
    (c e : CredentialMetadata) (cs : List CredentialMetadata)
    → same_user c e ≡ false
    → All (λ x. same_user x e ≡ false) cs
    → All (λ x. same_user x e ≡ false) (put_credential c cs)
unfolding put_credential
put_credential-All c e [] h k = (h, tt)
put_credential-All c e (x ∷ cs) h k = ground (arith, put_credential-All c e cs h k.1)

same_user_replaced :
    (e c x : CredentialMetadata)
    → same_user e c ≡ true
    → same_user x e ≡ false
    → same_user x c ≡ false
unfolding same_user
same_user_replaced e c x h k = ground (
  arith,
  bytes_eq_iff e.rp_id c.rp_id,
  bytes_eq_iff e.user_id c.user_id,
  bytes_eq_iff x.rp_id e.rp_id,
  bytes_eq_iff x.user_id e.user_id,
  bytes_eq_iff x.rp_id c.rp_id,
  bytes_eq_iff x.user_id c.user_id,
)

same_user_sym : (e c : CredentialMetadata) → same_user e c ≡ false → same_user c e ≡ false
unfolding same_user
same_user_sym e c h = ground (
  arith,
  bytes_eq_iff e.rp_id c.rp_id,
  bytes_eq_iff e.user_id c.user_id,
  bytes_eq_iff c.rp_id e.rp_id,
  bytes_eq_iff c.user_id e.user_id,
)

All-replaced :
    (e c : CredentialMetadata) (cs : List CredentialMetadata)
    → same_user e c ≡ true
    → All (λ x. same_user x e ≡ false) cs
    → All (λ x. same_user x c ≡ false) cs
All-replaced e c [] h k = tt
All-replaced e c (x ∷ cs) h k = (same_user_replaced e c x h k.0, All-replaced e c cs h k.1)

put_credential-UniqueUsers :
    (c : CredentialMetadata) (cs : List CredentialMetadata)
    → UniqueUsers cs
    → UniqueUsers (put_credential c cs)
unfolding put_credential
put_credential-UniqueUsers c [] h = (tt, tt)
put_credential-UniqueUsers c (e ∷ cs) h = ground (
  arith,
  All-replaced e c cs,
  same_user_sym e c,
  put_credential-All c e cs,
  put_credential-UniqueUsers c cs h.1,
)

by_id-without_id :
    (cs : CredentialStorage) (id j : Bytes)
    → get_by_credential_id
        (rebuild_indexes (record cs { credentials = without_id id cs.credentials }))
        j
      ≡ (if bytes_eq id j then none else last_with_id j cs.credentials)
unfolding rebuild_indexes
by_id-without_id cs id j =
    (rebuild_indexes-IsIndexed (record cs { credentials = without_id id cs.credentials })).by_id j
    ∙ last_with_id-without_id id j cs.credentials

module _ {F : Type 0} (persist : F → CredentialStorage → F × Bool) where
  -- Saving a credential changes only what its own site's lookup returns: there the credential takes
  -- the place of the first one of the same user, or comes last. This holds whether or not the file
  -- can be written.
  pub get_by_rp_id-save :
      (f : F) (cs : CredentialStorage) (c : CredentialMetadata) (rp : Bytes)
      → IsIndexed cs
      → get_by_rp_id (save persist f cs c).1 rp ≡ (
          if bytes_eq c.rp_id rp then put_credential c (get_by_rp_id cs rp) else get_by_rp_id cs rp)
  unfolding save
  get_by_rp_id-save f cs c rp h = rw (h.by_site rp) (
      (rebuild_indexes-IsIndexed
          (record cs { credentials = put_credential c cs.credentials })).by_site
        rp
      ∙ (unfold rebuild_indexes in of_rp-put_credential rp c cs.credentials))

  -- After Delete the ID is not found any more, and every other ID is found as before.
  pub get_by_credential_id-delete :
      (f : F) (cs : CredentialStorage) (id j : Bytes)
      → IsIndexed cs
      → get_by_credential_id (delete persist f cs id).1 j
        ≡ (if bytes_eq id j then none else get_by_credential_id cs j)
  unfolding delete
  get_by_credential_id-delete f cs id j h =
      elim (Option-cases (Dict.lookup id cs.by_credential_id)) [
        | inl e ↦
            rw (e, delete, delete_found)
              (unfold get_by_credential_id in ground (arith, bytes_eq_iff id j))
        | inr (c, e) ↦ rw (e, delete, delete_found, h.by_id j) (by_id-without_id cs id j)
      ]

  -- Save keeps the credentials at one for each site and user, where they are so before it.
  pub save-UniqueUsers :
      (f : F) (cs : CredentialStorage) (c : CredentialMetadata)
      → UniqueUsers cs.credentials
      → UniqueUsers (save persist f cs c).1.credentials
  unfolding save rebuild_indexes
  save-UniqueUsers f cs c h = put_credential-UniqueUsers c cs.credentials h

  -- The indexes stay those of the list, whatever becomes of the file.
  pub save-IsIndexed :
      (f : F) (cs : CredentialStorage) (c : CredentialMetadata) → IsIndexed (save persist f cs c).1
  unfolding save
  save-IsIndexed f cs c =
      rebuild_indexes-IsIndexed (record cs { credentials = put_credential c cs.credentials })

  pub delete-IsIndexed :
      (f : F) (cs : CredentialStorage) (id : Bytes)
      → IsIndexed cs
      → IsIndexed (delete persist f cs id).1
  unfolding delete
  delete-IsIndexed f cs id h = elim (Option-cases (Dict.lookup id cs.by_credential_id)) [
    | inl e ↦ rw (e, delete, delete_found) h
    | inr (c, e) ↦
        rw (e, delete, delete_found)
          (rebuild_indexes-IsIndexed (record cs { credentials = without_id id cs.credentials }))
  ]
