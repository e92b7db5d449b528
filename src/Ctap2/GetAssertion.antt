-- ===== src/Ctap2/GetAssertion.antt =====
-- ctap2/getassertion.go, and handleGetNextAssertion of ctap2/ctap2.go.
use blueripple_passkey.Prelude.{
  ℕ, ◌+◌, Bool, true, false, not, ◌&&◌, Option, none, some, List, [], ◌∷◌, ◌++◌, Bytes, length,
  drop, ltb, ◌==◌, if◌then◌else◌, codes, bit_or,
}
use blueripple_passkey.Ctap2.Status
use blueripple_passkey.Ctap2.Storage.{CredentialMetadata, CredentialStorage, get_by_rp_id}
use blueripple_passkey.Ctap2.AuthData.{marshal, flag_user_present, flag_user_verified}
use blueripple_passkey.Ctap2.Types.{
  GetAssertionRequest, PublicKeyCredentialDescriptor, PublicKeyCredentialUserEntity, assertion,
}
use blueripple_passkey.Ctap2.Handler.{
  Env, Handler, AssertionState, Reply, fails, public_key_type, contains, is_rp_id_allowed, can_sign,
  encoded, presence_status,
}

abbrev pub assertion_flags : ℕ
assertion_flags = bit_or flag_user_present flag_user_verified

-- The credentials that an assertion can be made with: none, one of the allow list, or the stored
-- ones of the site, of which there is a first.
pub data Selection : Type 0 where
  nothing : Selection
  from_allow_list : PublicKeyCredentialDescriptor → Selection
  discovered : CredentialMetadata → List CredentialMetadata → Selection

unfoldable pub selection_of : List CredentialMetadata → Selection
selection_of [] = nothing
selection_of (c ∷ cs) = discovered c cs

module _ {W : Type 0} (env : Env W) where
  -- The loop over the allow list: its first credential that signs.
  unfoldable pub find_allowed : W → Bytes → List PublicKeyCredentialDescriptor → W × Selection
  find_allowed w rp_hash [] = (w, nothing)
  find_allowed w rp_hash (cred ∷ cs) =
      let (w', valid) = can_sign env w cred.id rp_hash (codes "credential-check") in
      let rest = find_allowed w' rp_hash cs in if valid then (w', from_allow_list cred) else rest

  -- The stored credentials that still sign.
  unfoldable pub find_valid : W → Bytes → List CredentialMetadata → W × List CredentialMetadata
  find_valid w rp_hash [] = (w, [])
  find_valid w rp_hash (cred ∷ cs) =
      let (w', valid) = can_sign env w cred.credential_id rp_hash (codes "credential-check") in
      let (w'', rest) = find_valid w' rp_hash cs in (w'', if valid then cred ∷ rest else rest)

  discover : Handler W → GetAssertionRequest → Option CredentialStorage → W × Selection
  unfolding selection_of
  discover h req none = (h.world, nothing)
  discover h req (some cs) =
      let (w, valid) = find_valid h.world (env.sha256 req.rp_id) (get_by_rp_id cs req.rp_id) in
      (w, selection_of valid)

  unfoldable pub select_credentials : Handler W → GetAssertionRequest → W × Selection
  unfolding discover
  select_credentials h req =
      if ltb 0 (length req.allow_list)
      then find_allowed h.world (env.sha256 req.rp_id) req.allow_list
      else discover h req h.storage

  -- What the two response builders share: the counter, the signed data and the encoding.
  unfoldable pub signed_assertion :
      W → Bytes → Bytes → Bytes → Option PublicKeyCredentialUserEntity → ℕ → W × Reply
  signed_assertion w id rp_hash client_data_hash user number =
      let (w', n) = env.counter w in
      let auth_data = marshal (record {
        rp_id_hash = rp_hash;
        flags = assertion_flags;
        sign_count = n;
        attested_credential_data = none;
        extensions = [];
      }) in
      let (w'', sig) = env.sign_asn1 w' id rp_hash (env.sha256 (auth_data ++ client_data_hash)) in
      elim sig [
        | none ↦ fails w'' Status.other
        | some s ↦ encoded env w'' (
            assertion (record {
              credential = record { type_name = public_key_type; id = id };
              auth_data = auth_data;
              signature = s;
              user = user;
              number_of_credentials = number;
            }))
      ]

  unfoldable pub build_non_resident_assertion_response :
      W → PublicKeyCredentialDescriptor → Bytes → Bytes → W × Reply
  build_non_resident_assertion_response w cred rp_hash client_data_hash =
      signed_assertion w cred.id rp_hash client_data_hash none 0

  unfoldable pub build_assertion_response :
      W → CredentialMetadata → Bytes → Bytes → ℕ → Bool → W × Reply
  build_assertion_response w cred rp_hash client_data_hash total first =
      signed_assertion w cred.credential_id rp_hash client_data_hash
        (some (record {
          id = cred.user_id;
          name = cred.user_name;
          display_name = cred.user_display_name;
        }))
        (if first && ltb 1 total then total else 0)

  -- The responses after the user has approved. With several credentials their list is kept.
  unfoldable pub respond_with : Handler W → W → GetAssertionRequest → Selection → Handler W × Reply
  respond_with h w req nothing = fails (record h { world = w }) Status.no_credentials
  respond_with h w req (from_allow_list cred) =
      let (w', reply) =
        build_non_resident_assertion_response w cred (env.sha256 req.rp_id) req.client_data_hash in
      (record h { world = w' }, reply)
  respond_with h w req (discovered cred cs) =
      let rp_hash = env.sha256 req.rp_id in
      let creds = cred ∷ cs in
      let (w', reply) =
        build_assertion_response w cred rp_hash req.client_data_hash (length creds) true in
      let kept : AssertionState = record {
        credentials = creds;
        current_index = 0;
        rp_id_hash = rp_hash;
        client_data_hash = req.client_data_hash;
      } in
      (
        record h {
          world = w';
          assertion_state = if ltb 1 (length creds) then some kept else h.assertion_state;
        },
        reply,
      )

  -- Between the search and the response: nobody is asked where nothing was found.
  unfoldable pub confirm_and_respond :
      Handler W → GetAssertionRequest → W × Selection → Handler W × Reply
  unfolding respond_with presence_status
  confirm_and_respond h req (w, nothing) = fails (record h { world = w }) Status.no_credentials
  confirm_and_respond h req (w, sel) =
      let (w', presence) =
        env.confirm_presence w (codes "Sign in to authentik at " ++ req.rp_id) req.client_data_hash
          (env.sha256 req.rp_id) in
      elim (presence_status presence) [
        | some status ↦ fails (record h { world = w' }) status
        | none ↦ respond_with h w' req sel
      ]

  unfoldable pub get_assertion : Handler W → GetAssertionRequest → Handler W × Reply
  unfolding confirm_and_respond
  get_assertion h req =
      if not (is_rp_id_allowed h req.rp_id)
      then fails h Status.operation_denied
      else if contains req.extensions (codes "hmac-secret")
      then fails h Status.unsupported_extension
      else (let h' = record h { assertion_state = none } in
          if not (length req.client_data_hash == 32)
          then fails h' Status.invalid_parameter
          else confirm_and_respond h' req (select_credentials h' req))

  -- The index is past the end exactly where no credential is left behind it.
  unfoldable pub next_of : Handler W → AssertionState → List CredentialMetadata → Handler W × Reply
  next_of h state [] = fails (record h { assertion_state = none }) Status.not_allowed
  next_of h state (cred ∷ rest) =
      let (w, reply) =
        build_assertion_response h.world cred state.rp_id_hash state.client_data_hash
          (length state.credentials) false in
      (record h { world = w; assertion_state = some state }, reply)

  unfoldable pub next_from : Handler W → Option AssertionState → Handler W × Reply
  unfolding next_of
  next_from h none = fails h Status.not_allowed
  next_from h (some state) =
      let i = state.current_index + 1 in
      next_of h (record state { current_index = i }) (drop i state.credentials)

  unfoldable pub handle_get_next_assertion : Handler W → Handler W × Reply
  unfolding next_from
  handle_get_next_assertion h = next_from h h.assertion_state
