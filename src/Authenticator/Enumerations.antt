-- ===== src/Authenticator/Enumerations.antt =====
-- The site of the enumeration that GetNextAssertion goes on with, over all commands.
use blueripple_passkey.Prelude.{
  ℕ, ◌+◌, ◌≡◌, refl, sym, subst, false, Option, none, some, List, [], ◌∷◌, Bytes, ◌==◌, arith,
  length, drop, ltb, not, if_intro, codes,
}
use blueripple_passkey.Ctap2.Status
use blueripple_passkey.Ctap2.Storage.{CredentialMetadata}
use blueripple_passkey.Ctap2.Types.{MakeCredentialRequest, GetAssertionRequest}
use blueripple_passkey.Ctap2.Handler.{
  Env, Handler, AssertionState, Reply, contains, is_rp_id_allowed,
}
use blueripple_passkey.Ctap2.MakeCredential.{make_credential, confirm_and_register, registered}
use blueripple_passkey.Ctap2.GetAssertion.{
  get_assertion, confirm_and_respond, respond_with, handle_get_next_assertion, next_from, next_of,
  build_assertion_response, Selection, nothing, from_allow_list, discovered, select_credentials,
}
use blueripple_passkey.Ctap2.Command
use blueripple_passkey.Ctap2.Commands.{handle_command, handle_get_info, decoded_make, decoded_get}
use blueripple_passkey.Ctap2.Policy.{Allowed, contains_iff}

module _ {W : Type 0} (env : Env W) where
  -- A reply is an assertion made with the hash of the site.
  abbrev pub NextFor : Handler W → Reply → Bytes → Type 0
  NextFor h reply site =
      (c : CredentialMetadata) × (client_data_hash : Bytes) × (total : ℕ) × (reply
        ≡ (build_assertion_response env h.world c (env.sha256 site) client_data_hash total false).1)

module _ {W : Type 0} (env : Env W) (ids : List Bytes) where
  -- An enumeration is of a site of the list.
  abbrev pub Enumerates : Option AssertionState → Type 0
  Enumerates none = Unit
  Enumerates (some state) = (site : Bytes) × Allowed ids site × (state.rp_id_hash ≡ env.sha256 site)

  registered-Enumerates :
      (h : Handler W) (w : W) (req : MakeCredentialRequest) (key : Option (Bytes × Bytes × Bytes))
      → (registered env h w req key).0.assertion_state ≡ h.assertion_state
  unfolding registered
  registered-Enumerates h w req none = refl
  registered-Enumerates h w req (some (id, x, y)) = refl

  state-make :
      (h : Handler W) (req : MakeCredentialRequest)
      → (make_credential env h req).0.assertion_state ≡ h.assertion_state
  unfolding make_credential confirm_and_register
  state-make h req = ground (arith, registered-Enumerates h)

  respond-Enumerates :
      (h : Handler W) (w : W) (req : GetAssertionRequest) (sel : Selection)
      → Allowed ids req.rp_id
      → Enumerates h.assertion_state
      → Enumerates (respond_with env h w req sel).0.assertion_state
  unfolding respond_with
  respond-Enumerates h w req nothing a k = k
  respond-Enumerates h w req (from_allow_list c) a k = k
  respond-Enumerates h w req (discovered c cs) a k =
      if_intro Enumerates (ltb 1 (length (c ∷ cs))) _ _ (λ _. (req.rp_id, a, refl)) (λ _. k)

  asked-Enumerates :
      (h : Handler W) (w : W) (req : GetAssertionRequest) (sel : Selection) (status : Option ℕ)
      → Allowed ids req.rp_id
      → Enumerates h.assertion_state
      → Enumerates (
          let r : Handler W × Reply = elim status [
            | some s ↦ (record h { world = w }, (s, none))
            | none ↦ respond_with env h w req sel
          ] in
          r.0.assertion_state)
  asked-Enumerates h w req sel none a k = respond-Enumerates h w req sel a k
  asked-Enumerates h w req sel (some s) a k = k

  confirm-Enumerates :
      (h : Handler W) (req : GetAssertionRequest) (w : W) (sel : Selection)
      → Allowed ids req.rp_id
      → Enumerates h.assertion_state
      → Enumerates (confirm_and_respond env h req (w, sel)).0.assertion_state
  unfolding confirm_and_respond
  confirm-Enumerates h req w nothing a k = k
  confirm-Enumerates h req w (from_allow_list c) a k =
      asked-Enumerates h _ req (from_allow_list c) _ a k
  confirm-Enumerates h req w (discovered c cs) a k =
      asked-Enumerates h _ req (discovered c cs) _ a k

  get-Enumerates :
      (h : Handler W) (req : GetAssertionRequest)
      → h.allowed_rp_ids ≡ ids
      → Enumerates h.assertion_state
      → Enumerates (get_assertion env h req).0.assertion_state
  unfolding get_assertion is_rp_id_allowed
  get-Enumerates h req e k =
      let h' : Handler W = record h { assertion_state = none } in
      let found = select_credentials env h' req in
      let P : Handler W × Reply → Type 0 = λ r. Enumerates r.0.assertion_state in
      if_intro P (not (contains h.allowed_rp_ids req.rp_id)) _ _ (λ _. k)
        (λ b.
          if_intro P (contains req.extensions (codes "hmac-secret")) _ _ (λ _. k)
            (λ _.
              if_intro P (not (length req.client_data_hash == 32)) _ _ (λ _. tt)
                (λ _.
                  confirm-Enumerates h' req found.0 found.1
                    (subst (λ xs. Allowed xs req.rp_id) e
                      ((contains_iff h.allowed_rp_ids req.rp_id).0 (ground arith)))
                    tt)))

  next_of-Enumerates :
      (h : Handler W) (state : AssertionState) (cs : List CredentialMetadata)
      → Enumerates (some state)
      → Enumerates (next_of env h state cs).0.assertion_state
  unfolding next_of
  next_of-Enumerates h state [] k = tt
  next_of-Enumerates h state (c ∷ cs) k = k

  next_from-Enumerates :
      (h : Handler W) (o : Option AssertionState)
      → h.assertion_state ≡ o
      → Enumerates o
      → Enumerates (next_from env h o).0.assertion_state
  unfolding next_from
  next_from-Enumerates h none e k = rw e tt
  next_from-Enumerates h (some state) e k =
      next_of-Enumerates h (record state { current_index = state.current_index + 1 }) _ k

  decoded_get-Enumerates :
      (h : Handler W) (decoded : Option GetAssertionRequest)
      → h.allowed_rp_ids ≡ ids
      → Enumerates h.assertion_state
      → Enumerates (decoded_get env h decoded).0.assertion_state
  unfolding decoded_get
  decoded_get-Enumerates h none e k = k
  decoded_get-Enumerates h (some req) e k = get-Enumerates h req e k

  decoded_make-Enumerates :
      (h : Handler W) (decoded : Option MakeCredentialRequest)
      → Enumerates h.assertion_state
      → Enumerates (decoded_make env h decoded).0.assertion_state
  unfolding decoded_make
  decoded_make-Enumerates h none k = k
  decoded_make-Enumerates h (some req) k = subst Enumerates (sym (state-make h req)) k

  -- No command leaves an enumeration of a site outside the list of the handler.
  pub handle_command-Enumerates :
      (h : Handler W) (cmd : ℕ) (b : Bytes)
      → h.allowed_rp_ids ≡ ids
      → Enumerates h.assertion_state
      → Enumerates (handle_command env h cmd b).0.assertion_state
  unfolding handle_command handle_get_info handle_get_next_assertion
  handle_command-Enumerates h cmd b e k =
      let P : Handler W × Reply → Type 0 = λ r. Enumerates r.0.assertion_state in
      if_intro P (cmd == Command.get_info) _ _ (λ _. k)
        (λ _.
          if_intro P (cmd == Command.make_credential) _ _
            (λ _. decoded_make-Enumerates h (env.decode_make b) k)
            (λ _.
              if_intro P (cmd == Command.get_assertion) _ _
                (λ _. decoded_get-Enumerates h (env.decode_get b) e k)
                (λ _.
                  if_intro P (cmd == Command.get_next_assertion) _ _
                    (λ _. next_from-Enumerates h h.assertion_state refl k) (λ _. k))))

  next_of-success :
      (h : Handler W) (state : AssertionState) (cs : List CredentialMetadata)
      → (next_of env h state cs).1.0 ≡ Status.success
      → (c : CredentialMetadata) × ((next_of env h state cs).1
          ≡ (build_assertion_response env h.world c state.rp_id_hash state.client_data_hash
              (length state.credentials)
              false).1)
  unfolding next_of
  next_of-success h state [] e = absurd (omega arith)
  next_of-success h state (c ∷ cs) e = (c, refl)

  next_from-success :
      (h : Handler W) (o : Option AssertionState)
      → Enumerates o
      → (next_from env h o).1.0 ≡ Status.success
      → (site : Bytes) × Allowed ids site × NextFor env h (next_from env h o).1 site
  unfolding next_from
  next_from-success h none k s = absurd (omega arith)
  next_from-success h (some state) (site, a, e) s =
      let state' : AssertionState = record state { current_index = state.current_index + 1 } in
      let (c, built) = next_of-success h state' (drop state'.current_index state.credentials) s in
      (
        site,
        a,
        (
          c,
          state.client_data_hash,
          length state.credentials,
          subst
              (λ hash.
                (next_of env h state' (drop state'.current_index state.credentials)).1
                ≡ (build_assertion_response env h.world c hash state.client_data_hash
                    (length state.credentials) false).1)
              e built,
        ),
      )

  pub next-success :
      (h : Handler W)
      → Enumerates h.assertion_state
      → (handle_get_next_assertion env h).1.0 ≡ Status.success
      → (site : Bytes) × Allowed ids site × NextFor env h (handle_get_next_assertion env h).1 site
  unfolding handle_get_next_assertion
  next-success h k s = next_from-success h h.assertion_state k s
