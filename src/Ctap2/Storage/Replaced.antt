-- ===== src/Ctap2/Storage/Replaced.antt =====
-- What Save makes of a site's credentials, said without the code's own search.
use blueripple_passkey.Prelude.{
  ◌≡◌, ◌≢◌, ◌⊎◌, inl, inr, refl, ap, ◌∙◌, Bool, true, List, [], ◌∷◌, ◌++◌, Bytes, bytes_eq,
  bytes_eq_iff, bytes_eq_refl, arith, All, Bool-cases,
}
use blueripple_passkey.Ctap2.Storage.{
  CredentialMetadata, CredentialStorage, same_user, get_by_rp_id, save, put_credential,
}
use blueripple_passkey.Ctap2.Storage.Indexes.{of_rp, IsIndexed}
use blueripple_passkey.Ctap2.Storage.Updates.{get_by_rp_id-save}

-- Where no credential in the list is of the user, the new one comes last. Otherwise it takes the
-- place of the first one that is, and the others stay where they are.
abbrev pub Saved : CredentialMetadata → List CredentialMetadata → List CredentialMetadata → Type 0
Saved c old new =
    (All (λ (e : CredentialMetadata). e.user_id ≢ c.user_id) old × (new ≡ old ++ c ∷ []))
    ⊎ ((before : List CredentialMetadata) × (e : CredentialMetadata) × (after : List
          CredentialMetadata)
        × (old ≡ before ++ e ∷ after)
        × (e.user_id ≡ c.user_id)
        × All (λ (x : CredentialMetadata). x.user_id ≢ c.user_id) before
        × (new ≡ before ++ c ∷ after))

All-of_rp :
    (rp : Bytes) (cs : List CredentialMetadata)
    → All (λ (e : CredentialMetadata). e.rp_id ≡ rp) (of_rp rp cs)
unfolding of_rp
All-of_rp rp [] = tt
All-of_rp rp (e ∷ cs) = ground (arith, All-of_rp rp cs, bytes_eq_iff e.rp_id rp)

Saved-after :
    (e c : CredentialMetadata) (old new : List CredentialMetadata)
    → e.user_id ≢ c.user_id
    → Saved c old new
    → Saved c (e ∷ old) (e ∷ new)
Saved-after e c old new h (inl (a, r)) = inl ((h, a), ap (λ cs. e ∷ cs) r)
Saved-after e c old new h (inr (before, x, after, r, u, a, s)) =
    inr (e ∷ before, x, after, ap (λ cs. e ∷ cs) r, u, (h, a), ap (λ cs. e ∷ cs) s)

put_credential-Saved :
    (c : CredentialMetadata) (cs : List CredentialMetadata)
    → All (λ (e : CredentialMetadata). e.rp_id ≡ c.rp_id) cs
    → Saved c cs (put_credential c cs)
unfolding put_credential same_user
put_credential-Saved c [] h = inl (tt, refl)
put_credential-Saved c (e ∷ cs) h =
    let site : bytes_eq e.rp_id c.rp_id ≡ true = (bytes_eq_iff e.rp_id c.rp_id).1 h.0 in
    elim (Bool-cases (bytes_eq e.user_id c.user_id)) [
      | inl u ↦
          rw (put_credential, same_user, site, u)
            (inr ([], e, cs, refl, (bytes_eq_iff e.user_id c.user_id).0 u, tt, refl))
      | inr u ↦
          rw (put_credential, same_user, site, u)
            (Saved-after e c cs (put_credential c cs)
              (ground (arith, bytes_eq_iff e.user_id c.user_id)) (put_credential-Saved c cs h.1))
    ]

-- Save on a storage whose indexes are up to date, whether or not the file can be written: where no
-- credential of its site is of its user, the credential comes last among those of the site;
-- otherwise it takes the place of the first one that is, and the site's others stay where they are.
-- The lookup of any other site returns what it did.
pub save-Saved :
    {F : Type 0} (persist : F → CredentialStorage → F × Bool) (f : F) (cs : CredentialStorage)
    (c : CredentialMetadata) (other : Bytes)
    → IsIndexed cs
    → other ≢ c.rp_id
    → let saved = (save persist f cs c).1 in
      Saved c (get_by_rp_id cs c.rp_id) (get_by_rp_id saved c.rp_id)
      × (get_by_rp_id saved other ≡ get_by_rp_id cs other)
save-Saved persist f cs c other h ne = (
  rw (get_by_rp_id-save persist f cs c c.rp_id h, bytes_eq_refl c.rp_id, h.by_site c.rp_id)
      (put_credential-Saved c (of_rp c.rp_id cs.credentials) (All-of_rp c.rp_id cs.credentials)),
  get_by_rp_id-save persist f cs c other h ∙ ground (arith, bytes_eq_iff c.rp_id other),
)
