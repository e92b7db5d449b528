-- ===== src/Tests/HandlerTests.antt =====
-- Runs of the CTAP2 handler's model. The signer signs with any handle but the empty one, the user
-- confirms, and the state of all of them counts the signatures.
use blueripple_passkey.Prelude.{
  ℕ, suc, ◌+◌, ◌≡◌, ◌≢◌, refl, subst, true, false, Option, none, some, [], ◌∷◌, Bytes, length,
  replicate, arith, codes, bytes_eq,
}
use blueripple_passkey.Prelude.Dict
use blueripple_passkey.Ctap2.Status
use blueripple_passkey.Ctap2.Storage.{
  CredentialMetadata, CredentialStorage, new_storage, rebuild_indexes, get_by_rp_id, index_rp,
  index_id, load,
}
use blueripple_passkey.Ctap2.Types.{MakeCredentialRequest, GetAssertionRequest}
use blueripple_passkey.Ctap2.Handler.{
  Env, Handler, answered, contains, is_rp_id_allowed, can_sign, encoded, es256, public_key_type,
  presence_status,
}
use blueripple_passkey.Ctap2.MakeCredential.{
  make_credential, check_excluded, confirm_and_register, registered, attest, es256_supported,
  resident_key_requested,
}
use blueripple_passkey.Ctap2.GetAssertion.{
  get_assertion, find_valid, select_credentials, signed_assertion, build_assertion_response,
  respond_with, confirm_and_respond, nothing, discovered,
}
use blueripple_passkey.Ctap2.Policy.{
  Allowed, unconfigured_denied, make_credential-success, get_assertion-success, presence_for_make,
  presence_for_get,
}
use blueripple_passkey.Ctap2.Resident.{SignsOwn, Offers, registered_discovered}
use blueripple_passkey.Ctap2.Paging.{get_assertion-pages, next_times, all_pages, kept}

abbrev signature : Bytes → Option Bytes
signature [] = none
signature (x ∷ b) = some (x ∷ [])

abbrev pub env : Env ℕ
env = record {
  register_key = λ w rp. (w, some (7 ∷ [], 1 ∷ [], 2 ∷ []));
  sign_asn1 = λ w id rp digest. (w + 1, signature id);
  counter = λ w. (w, w);
  confirm_presence = λ w prompt challenge app. (w, answered true false);
  sha256 = λ b. replicate 32 (length b);
  encode = λ e. some (3 ∷ []);
  decode_make = λ b. none;
  decode_get = λ b. none;
  persist = λ w cs. (w, false);
  now = λ w. 0;
}

abbrev site : Bytes
site = 1 ∷ []

abbrev kept_cred : ℕ → CredentialMetadata
kept_cred n = record {
  rp_id = site;
  rp_name = [];
  user_id = n ∷ [];
  user_name = [];
  user_display_name = [];
  credential_id = n ∷ [];
  public_key_x = [];
  public_key_y = [];
  created_at = 0;
}

abbrev pub handler : Handler ℕ
handler = record {
  world = 0;
  storage = some (new_storage [] (some (kept_cred 5 ∷ kept_cred 6 ∷ [])));
  allowed_rp_ids = site ∷ [];
  aaguid = replicate 16 0;
  is_platform = false;
  assertion_state = none;
}

abbrev pub make : MakeCredentialRequest
make = record {
  client_data_hash = replicate 32 9;
  rp = record { id = site; name = [] };
  user = record { id = 4 ∷ []; name = []; display_name = [] };
  pub_key_cred_params = record { type_name = public_key_type; alg = es256 } ∷ [];
  exclude_list = record { type_name = []; id = [] } ∷ [];
  extensions = [];
  options = (codes "rk", true) ∷ [];
}

abbrev get : GetAssertionRequest
get = record { rp_id = site; client_data_hash = replicate 32 9; allow_list = []; extensions = [] }

abbrev make_elsewhere : MakeCredentialRequest
make_elsewhere = record make { rp = record { id = 2 ∷ []; name = [] } }

abbrev get_elsewhere : GetAssertionRequest
get_elsewhere = record get { rp_id = 2 ∷ [] }

unconfigured_denied_example :
    (make_credential env handler make_elsewhere ≡ (handler, (Status.operation_denied, none)))
    × (get_assertion env handler get_elsewhere ≡ (handler, (Status.operation_denied, none)))
unconfigured_denied_example =
    unconfigured_denied env handler make_elsewhere get_elsewhere (ground arith) (ground arith)

made_well : (make_credential env handler make).1.0 ≡ Status.success
unfolding make_credential is_rp_id_allowed contains es256_supported check_excluded can_sign
    confirm_and_register registered attest encoded presence_status bytes_eq
made_well = refl

make_credential-success_example :
    Allowed handler.allowed_rp_ids site
    × (contains make.extensions (codes "hmac-secret") ≡ false)
    × (length make.client_data_hash ≡ 32)
    × (es256_supported make.pub_key_cred_params ≡ true)
    × ((check_excluded env handler.world (env.sha256 site) make.exclude_list).1 ≡ false)
    × (presence_for_make env handler make ≡ answered true false)
make_credential-success_example = make_credential-success env handler make made_well

got_well : (get_assertion env handler get).1.0 ≡ Status.success
unfolding get_assertion is_rp_id_allowed contains select_credentials find_valid can_sign
    get_by_rp_id new_storage load rebuild_indexes index_rp index_id confirm_and_respond respond_with
    build_assertion_response signed_assertion encoded presence_status bytes_eq Dict.lookup
    Dict.insert
got_well = refl

get_assertion-success_example :
    Allowed handler.allowed_rp_ids site
    × (contains get.extensions (codes "hmac-secret") ≡ false)
    × (length get.client_data_hash ≡ 32)
    × ((select_credentials env (record handler { assertion_state = none }) get).1 ≢ nothing)
    × (presence_for_get env handler get ≡ answered true false)
get_assertion-success_example = get_assertion-success env handler get got_well

found_two :
    select_credentials env (record handler { assertion_state = none }) get
    ≡ (2, discovered (kept_cred 5) (kept_cred 6 ∷ []))
unfolding select_credentials find_valid can_sign get_by_rp_id new_storage load rebuild_indexes
    index_rp index_id bytes_eq Dict.lookup Dict.insert
found_two = refl

get_assertion-pages_example :
    next_times env (suc (length (kept_cred 6 ∷ []))) (get_assertion env handler get).0
    ≡ all_pages env
        (get_assertion env handler get).0
        (kept env get (kept_cred 5 ∷ kept_cred 6 ∷ []))
        (kept_cred 6 ∷ [])
get_assertion-pages_example =
    get_assertion-pages env handler get 2 (kept_cred 5) (kept_cred 6) [] got_well found_two

own : SignsOwn env
unfolding can_sign
own = record {
  signs = λ w later app id x y text h.
      let made : Bytes = 7 ∷ [] in
      let same : made ≡ id = cc in
      subst (λ (i : Bytes). (can_sign env later i app text).1 ≡ true) same refl;
}

abbrev first_file : CredentialStorage
first_file = new_storage [] (some (kept_cred 5 ∷ kept_cred 6 ∷ []))

rk_asked : resident_key_requested make ≡ true
unfolding resident_key_requested Dict.lookup bytes_eq
rk_asked = refl

registered_discovered_example :
    (w : ℕ) × (id : Bytes) × (x : Bytes) × (y : Bytes) × ((env.register_key w (env.sha256 site)).1
      ≡ some (id, x, y))
    × Offers (4 ∷ []) id (select_credentials env (make_credential env handler make).0 get).1
registered_discovered_example =
    registered_discovered env own handler make get first_file refl rk_asked refl refl made_well
