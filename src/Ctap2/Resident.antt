-- ===== src/Ctap2/Resident.antt =====
-- A resident credential from its registration to the assertion that finds it.
use blueripple_passkey.Prelude.{
  ◌≡◌, ◌⊎◌, inl, inr, refl, sym, ap, ◌∙◌, true, Option, none, some, List, [], ◌∷◌, ◌++◌, Bytes,
  codes, bytes_eq_refl, arith, if_intro,
}
use blueripple_passkey.Ctap2.Status
use blueripple_passkey.Ctap2.Storage.{
  CredentialMetadata, CredentialStorage, save, put_credential, get_by_rp_id, rebuild_indexes,
}
use blueripple_passkey.Ctap2.Storage.Indexes.{of_rp, rebuild_indexes-IsIndexed}
use blueripple_passkey.Ctap2.Storage.Updates.{of_rp-put_credential}
use blueripple_passkey.Ctap2.Types.{MakeCredentialRequest, GetAssertionRequest}
use blueripple_passkey.Ctap2.Handler.{Env, Handler, can_sign, presence_status}
use blueripple_passkey.Ctap2.MakeCredential.{
  make_credential, check_excluded, confirm_and_register, registered, metadata,
  resident_key_requested,
}
use blueripple_passkey.Ctap2.GetAssertion.{
  find_valid, select_credentials, Selection, selection_of, nothing, from_allow_list, discovered,
}
use blueripple_passkey.Ctap2.Policy.{confirmed_make}

abbrev pub IsOneOf : CredentialMetadata → List CredentialMetadata → Type 0
IsOneOf c [] = ⊥
IsOneOf c (e ∷ cs) = (e ≡ c) ⊎ IsOneOf c cs

put_credential-IsOneOf :
    (c : CredentialMetadata) (cs : List CredentialMetadata) → IsOneOf c (put_credential c cs)
unfolding put_credential
put_credential-IsOneOf c [] = inl refl
put_credential-IsOneOf c (e ∷ cs) = ground (arith, put_credential-IsOneOf c cs)

-- What Save leaves for the lookup of the credential's site.
saved_found :
    (c : CredentialMetadata) (cs : CredentialStorage)
    → IsOneOf c (
        get_by_rp_id
          (rebuild_indexes (record cs { credentials = put_credential c cs.credentials }))
          c.rp_id)
saved_found c cs =
    let put : CredentialStorage = record cs { credentials = put_credential c cs.credentials } in
    let found : get_by_rp_id (rebuild_indexes put) c.rp_id
        ≡ of_rp c.rp_id (put_credential c cs.credentials) =
      unfold rebuild_indexes in (rebuild_indexes-IsIndexed put).by_site c.rp_id in
    rw (found, of_rp-put_credential c.rp_id c cs.credentials, bytes_eq_refl c.rp_id)
      (put_credential-IsOneOf c (of_rp c.rp_id cs.credentials))

-- A credential of the user with an ID, among those that an assertion can be made with.
abbrev pub Offers : Bytes → Bytes → Selection → Type 0
Offers user id (discovered c cs) =
    (found : CredentialMetadata) × IsOneOf found (c ∷ cs)
    × (found.user_id ≡ user)
    × (found.credential_id ≡ id)
Offers user id nothing = ⊥
Offers user id (from_allow_list c) = ⊥

offered :
    (found : CredentialMetadata) (cs : List CredentialMetadata)
    → IsOneOf found cs
    → Offers found.user_id found.credential_id (selection_of cs)
unfolding selection_of
offered found [] i = absurd i
offered found (c ∷ cs) i = (found, i, refl, refl)

module _ {W : Type 0} (env : Env W) where
  -- The signer signs any digest with a key handle that it has made for the application.
  pub record SignsOwn : Type 0 where
    pub signs :
        (w later : W) (app id x y text : Bytes)
        → (env.register_key w app).1 ≡ some (id, x, y)
        → (can_sign env later id app text).1 ≡ true

  find_valid-IsOneOf :
      (w : W) (rp_hash : Bytes) (c : CredentialMetadata) (cs : List CredentialMetadata)
      → ((later : W)
          → (can_sign env later c.credential_id rp_hash (codes "credential-check")).1 ≡ true)
      → IsOneOf c cs
      → IsOneOf c (find_valid env w rp_hash cs).1
  unfolding find_valid
  find_valid-IsOneOf w rp_hash c [] h i = i
  find_valid-IsOneOf w rp_hash c (e ∷ cs) h (inl q) =
      let valid : (can_sign env w e.credential_id rp_hash (codes "credential-check")).1 ≡ true =
        rw q (h w) in
      rw valid (inl q)
  find_valid-IsOneOf w rp_hash c (e ∷ cs) h (inr i) =
      let tried = can_sign env w e.credential_id rp_hash (codes "credential-check") in
      let rest = find_valid-IsOneOf tried.0 rp_hash c cs h i in
      if_intro (IsOneOf c) tried.1 _ _ (λ _. inr rest) (λ _. rest)

  confirmed :
      (h : Handler W) (req : MakeCredentialRequest)
      → (make_credential env h req).1.0 ≡ Status.success
      → (w : W) × (make_credential env h req ≡ confirm_and_register env h w req)
  unfolding make_credential
  confirmed h req e =
      ((check_excluded env h.world (env.sha256 req.rp.id) req.exclude_list).0, ground arith)

  key_made :
      (h : Handler W) (w w' : W) (req : MakeCredentialRequest)
      (key : Option (Bytes × Bytes × Bytes))
      → (env.register_key w (env.sha256 req.rp.id)).1 ≡ key
      → (registered env h w' req key).1.0 ≡ Status.success
      → (id : Bytes) × (x : Bytes) × (y : Bytes) × (key ≡ some (id, x, y))
  unfolding registered
  key_made h w w' req none k e = absurd (omega arith)
  key_made h w w' req (some (id, x, y)) k e = (id, x, y, refl)

  registers :
      (h : Handler W) (w : W) (req : MakeCredentialRequest)
      → (confirm_and_register env h w req).1.0 ≡ Status.success
      → (w' : W) × (confirm_and_register env h w req
          ≡ registered env h
              (env.register_key w' (env.sha256 req.rp.id)).0
              req
              (env.register_key w' (env.sha256 req.rp.id)).1)
  unfolding confirm_and_register
  registers h w req e =
      let asked =
        env.confirm_presence w (codes "Register an authentik passkey for " ++ req.rp.id)
          req.client_data_hash (env.sha256 req.rp.id) in
      let yes : presence_status asked.1 ≡ none =
        unfold presence_status in rw (confirmed_make env h w req e) in
      (asked.0, rw (yes, confirm_and_register))

  -- A successful registration has stored the credential of a key that the signer has made.
  made_key :
      (h : Handler W) (req : MakeCredentialRequest)
      → (make_credential env h req).1.0 ≡ Status.success
      → (w : W) × (id : Bytes) × (x : Bytes) × (y : Bytes) × ((env.register_key w
            (env.sha256 req.rp.id)).1
          ≡ some (id, x, y))
        × (make_credential env h req
            ≡ registered env h (env.register_key w (env.sha256 req.rp.id)).0 req (some (id, x, y)))
  made_key h req e =
      let (w, guarded) = confirmed h req e in
      let (w', asked) = registers h w req (ap (λ r. r.1.0) (sym guarded) ∙ e) in
      let made = env.register_key w' (env.sha256 req.rp.id) in
      let (id, x, y, k) =
        key_made h w' made.0 req made.1 refl (ap (λ r. r.1.0) (sym (guarded ∙ asked)) ∙ e) in
      (w', id, x, y, k, guarded ∙ asked ∙ ap (λ key. registered env h made.0 req key) k)

  stored :
      (h : Handler W) (w : W) (req : MakeCredentialRequest) (cs : CredentialStorage)
      (id x y : Bytes)
      → h.storage ≡ some cs
      → resident_key_requested req ≡ true
      → (registered env h w req (some (id, x, y))).0.storage
        ≡ some (save env.persist w cs (metadata env w req id (x, y))).1
  unfolding registered
  stored h w req cs id x y e rk = rw (e, rk, registered)

  selected :
      (h : Handler W) (get : GetAssertionRequest) (cs : CredentialStorage)
      (found : CredentialMetadata)
      → h.storage ≡ some cs
      → get.allow_list ≡ []
      → IsOneOf found (get_by_rp_id cs get.rp_id)
      → ((later : W)
          → (can_sign env later found.credential_id
              (env.sha256 get.rp_id)
              (codes "credential-check")).1
            ≡ true)
      → Offers found.user_id found.credential_id (select_credentials env h get).1
  unfolding select_credentials
  selected h get cs found e a i signs =
      rw (a, e, select_credentials)
        (offered found (find_valid env h.world (env.sha256 get.rp_id) (get_by_rp_id cs get.rp_id)).1
          (find_valid-IsOneOf h.world (env.sha256 get.rp_id) found (get_by_rp_id cs get.rp_id) signs
            i))

  stored_found :
      (w : W) (req : MakeCredentialRequest) (cs : CredentialStorage) (id x y : Bytes)
      → IsOneOf
          (metadata env w req id (x, y))
          (get_by_rp_id (save env.persist w cs (metadata env w req id (x, y))).1 req.rp.id)
  unfolding save metadata
  stored_found w req cs id x y = saved_found (metadata env w req id (x, y)) cs

  -- Where a signer signs with every key handle that it has made for the application: after a
  -- registration that succeeded and that asked for a resident key, with a storage, an assertion for
  -- the site without an allow list finds the credential of the key that was made, under the user's
  -- ID, whether or not the file could be written.
  pub registered_discovered :
      (own : SignsOwn) (h : Handler W) (req : MakeCredentialRequest) (get : GetAssertionRequest)
      (cs : CredentialStorage)
      → h.storage ≡ some cs
      → resident_key_requested req ≡ true
      → get.rp_id ≡ req.rp.id
      → get.allow_list ≡ []
      → (make_credential env h req).1.0 ≡ Status.success
      → (w : W) × (id : Bytes) × (x : Bytes) × (y : Bytes) × ((env.register_key w
            (env.sha256 req.rp.id)).1
          ≡ some (id, x, y))
        × Offers req.user.id id (select_credentials env (make_credential env h req).0 get).1
  registered_discovered own h req get cs e rk same a ok =
      let (w, id, x, y, k, done) = made_key h req ok in
      let after = (env.register_key w (env.sha256 req.rp.id)).0 in
      let cred : CredentialMetadata = metadata env after req id (x, y) in
      let kept : (make_credential env h req).0.storage ≡ some (save env.persist after cs cred).1 =
        ap (λ r. r.0.storage) done ∙ stored h after req cs id x y e rk in
      let there : IsOneOf cred (get_by_rp_id (save env.persist after cs cred).1 get.rp_id) =
        rw same (stored_found after req cs id x y) in
      let signs = λ (later : W).
        own.signs w later (env.sha256 req.rp.id) id x y (codes "credential-check") k in
      (
        w,
        id,
        x,
        y,
        k,
        unfold metadata in
            selected (make_credential env h req).0 get (save env.persist after cs cred).1 cred kept
              a there (rw same signs),
      )
