-- ===== src/Ctap2/Policy.antt =====
-- What the handlers refuse before they touch the signer, the storage or the user.
use blueripple_passkey.Prelude.{
  ◌≡◌, ◌≢◌, ◌↔◌, ◌⊎◌, inl, inr, refl, true, false, none, some, List, [], ◌∷◌, ◌++◌, Bytes, length,
  bytes_eq_iff, codes, arith, Bool-cases,
}
use blueripple_passkey.Ctap2.Status
use blueripple_passkey.Ctap2.Types.{MakeCredentialRequest, GetAssertionRequest}
use blueripple_passkey.Ctap2.Handler.{
  Env, Handler, Reply, Presence, refused, answered, no_answer, fails, presence_status, contains,
  is_rp_id_allowed,
}
use blueripple_passkey.Ctap2.MakeCredential.{
  make_credential, check_excluded, confirm_and_register, es256_supported,
}
use blueripple_passkey.Ctap2.GetAssertion.{
  get_assertion, confirm_and_respond, select_credentials, nothing, from_allow_list, discovered,
  Selection,
}

-- Being in the list of allowed IDs, byte for byte.
abbrev pub Allowed : List Bytes → Bytes → Type 0
Allowed [] rp = ⊥
Allowed (x ∷ xs) rp = (x ≡ rp) ⊎ Allowed xs rp

pub contains_iff : (xs : List Bytes) (rp : Bytes) → (contains xs rp ≡ true) ↔ Allowed xs rp
unfolding contains
contains_iff [] rp = ground arith
contains_iff (x ∷ xs) rp = ground (arith, contains_iff xs rp, bytes_eq_iff x rp)

contains-false : (xs : List Bytes) (rp : Bytes) → ¬ Allowed xs rp → contains xs rp ≡ false
contains-false xs rp h = elim (Bool-cases (contains xs rp)) [
  | inl e ↦ absurd (h ((contains_iff xs rp).0 e))
  | inr e ↦ e
]

success_confirmed :
    {A : Type 0} (p : Presence) (stopped : A) (went_on : A × Reply)
    → (let r : A × Reply = elim (presence_status p) [
      | some status ↦ fails stopped status
      | none ↦ went_on
    ] in
        r.1.0)
      ≡ Status.success
    → p ≡ answered true false
unfolding presence_status
success_confirmed refused stopped went_on e = absurd (omega arith)
success_confirmed (answered true true) stopped went_on e = absurd (omega arith)
success_confirmed (answered true false) stopped went_on e = refl
success_confirmed (answered false true) stopped went_on e = absurd (omega arith)
success_confirmed (answered false false) stopped went_on e = absurd (omega arith)
success_confirmed no_answer stopped went_on e = absurd (omega arith)

module _ {W : Type 0} (env : Env W) where
  -- For a site that is not configured, byte for byte, both operations answer OPERATION_DENIED and
  -- change nothing: no key is tried or made, nobody is asked, and a running enumeration stays.
  pub unconfigured_denied :
      (h : Handler W) (make : MakeCredentialRequest) (get : GetAssertionRequest)
      → ¬ Allowed h.allowed_rp_ids make.rp.id
      → ¬ Allowed h.allowed_rp_ids get.rp_id
      → (make_credential env h make ≡ (h, (Status.operation_denied, none)))
        × (get_assertion env h get ≡ (h, (Status.operation_denied, none)))
  unfolding make_credential get_assertion is_rp_id_allowed
  unconfigured_denied h make get m g = (
    rw (contains-false h.allowed_rp_ids make.rp.id m),
    rw (contains-false h.allowed_rp_ids get.rp_id g),
  )

  -- The presence check that make_credential asks for, after the exclude list.
  abbrev pub presence_for_make : Handler W → MakeCredentialRequest → Presence
  presence_for_make h req =
      (env.confirm_presence (check_excluded env h.world (env.sha256 req.rp.id) req.exclude_list).0
        (codes "Register an authentik passkey for " ++ req.rp.id) req.client_data_hash
        (env.sha256 req.rp.id)).1

  abbrev pub presence_for_get : Handler W → GetAssertionRequest → Presence
  presence_for_get h req =
      (env.confirm_presence (select_credentials env (record h { assertion_state = none }) req).0
        (codes "Sign in to authentik at " ++ req.rp_id) req.client_data_hash
        (env.sha256 req.rp_id)).1

  pub confirmed_make :
      (h : Handler W) (w : W) (req : MakeCredentialRequest)
      → (confirm_and_register env h w req).1.0 ≡ Status.success
      → (env.confirm_presence w
          (codes "Register an authentik passkey for " ++ req.rp.id)
          req.client_data_hash
          (env.sha256 req.rp.id)).1
        ≡ answered true false
  unfolding confirm_and_register
  confirmed_make h w req e = success_confirmed _ _ _ e

  confirmed_get :
      (h : Handler W) (req : GetAssertionRequest) (w : W) (sel : Selection)
      → (confirm_and_respond env h req (w, sel)).1.0 ≡ Status.success
      → (sel ≢ nothing)
        × ((env.confirm_presence w
              (codes "Sign in to authentik at " ++ req.rp_id)
              req.client_data_hash
              (env.sha256 req.rp_id)).1
            ≡ answered true false)
  unfolding confirm_and_respond
  confirmed_get h req w nothing e = absurd (omega arith)
  confirmed_get h req w (from_allow_list c) e = ((λ q. cc), success_confirmed _ _ _ e)
  confirmed_get h req w (discovered c cs) e = ((λ q. cc), success_confirmed _ _ _ e)

  -- A registration succeeds only for a configured site, without the secret extension, with a hash
  -- of 32 bytes, where ES256 is among the algorithms, where no excluded credential signs, and after
  -- the user's fingerprint was confirmed in time.
  pub make_credential-success :
      (h : Handler W) (req : MakeCredentialRequest)
      → (make_credential env h req).1.0 ≡ Status.success
      → Allowed h.allowed_rp_ids req.rp.id
        × (contains req.extensions (codes "hmac-secret") ≡ false)
        × (length req.client_data_hash ≡ 32)
        × (es256_supported req.pub_key_cred_params ≡ true)
        × ((check_excluded env h.world (env.sha256 req.rp.id) req.exclude_list).1 ≡ false)
        × (presence_for_make h req ≡ answered true false)
  unfolding make_credential is_rp_id_allowed
  make_credential-success h req e = ground (
    arith,
    contains_iff h.allowed_rp_ids req.rp.id,
    confirmed_make h (check_excluded env h.world (env.sha256 req.rp.id) req.exclude_list).0 req,
  )

  -- An assertion succeeds only for a configured site, without the secret extension, with a hash of
  -- 32 bytes, where a credential that signs was found, and after the user's fingerprint was
  -- confirmed in time.
  pub get_assertion-success :
      (h : Handler W) (req : GetAssertionRequest)
      → (get_assertion env h req).1.0 ≡ Status.success
      → Allowed h.allowed_rp_ids req.rp_id
        × (contains req.extensions (codes "hmac-secret") ≡ false)
        × (length req.client_data_hash ≡ 32)
        × ((select_credentials env (record h { assertion_state = none }) req).1 ≢ nothing)
        × (presence_for_get h req ≡ answered true false)
  unfolding get_assertion is_rp_id_allowed
  get_assertion-success h req e =
      let found = select_credentials env (record h { assertion_state = none }) req in
      ground (
        arith,
        contains_iff h.allowed_rp_ids req.rp_id,
        confirmed_get (record h { assertion_state = none }) req found.0 found.1,
      )
