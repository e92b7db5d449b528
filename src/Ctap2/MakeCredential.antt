-- ===== src/Ctap2/MakeCredential.antt =====
-- ctap2/makecredential.go.
use blueripple_passkey.Prelude.{
  ℕ, Bool, true, false, not, ◌&&◌, ◌||◌, Option, none, some, List, [], ◌∷◌, ◌++◌, Bytes, length,
  bytes_eq, ◌==◌, if◌then◌else◌, codes, bit_or,
}
use blueripple_passkey.Prelude.Dict
use blueripple_passkey.Prelude.Int.{eq_ℤ}
use blueripple_passkey.Ctap2.Status
use blueripple_passkey.Ctap2.Storage.{CredentialMetadata, CredentialStorage, save}
use blueripple_passkey.Ctap2.AuthData.{
  marshal, pad_to_32, big_int_to_bytes, flag_user_present, flag_user_verified,
  flag_attested_cred_data,
}
use blueripple_passkey.Ctap2.Types.{
  MakeCredentialRequest, PublicKeyCredentialParameters, PublicKeyCredentialDescriptor, made,
  cose_key, CoseKey,
}
use blueripple_passkey.Ctap2.Handler.{
  Env, Handler, Reply, fails, es256, public_key_type, contains, is_rp_id_allowed, can_sign, encoded,
  presence_status,
}

unfoldable pub es256_supported : List PublicKeyCredentialParameters → Bool
es256_supported [] = false
es256_supported (p ∷ ps) =
    (bytes_eq p.type_name public_key_type && eq_ℤ p.alg es256) || es256_supported ps

-- req.Options["rk"]
unfoldable pub resident_key_requested : MakeCredentialRequest → Bool
resident_key_requested req = elim (Dict.lookup (codes "rk") req.options) [
  | none ↦ false
  | some rk ↦ rk
]

abbrev pub cose_key_of : Bytes → Bytes → CoseKey
cose_key_of x y = record { kty = 2; alg = es256; crv = 1; x = pad_to_32 x; y = pad_to_32 y }

abbrev pub credential_flags : ℕ
credential_flags = bit_or (bit_or flag_user_present flag_user_verified) flag_attested_cred_data

module _ {W : Type 0} (env : Env W) where
  -- The loop over the exclude list: whether one of its credentials signs.
  unfoldable pub check_excluded : W → Bytes → List PublicKeyCredentialDescriptor → W × Bool
  check_excluded w rp_hash [] = (w, false)
  check_excluded w rp_hash (excluded ∷ es) =
      let (w', hit) = can_sign env w excluded.id rp_hash (codes "exclude-check") in
      let rest = check_excluded w' rp_hash es in if hit then (w', true) else rest

  -- The part from the COSE key on: authenticator data, self-attestation, response.
  unfoldable pub attest : W → Bytes → Bytes → Bytes → Bytes → Bytes × Bytes → W × Reply
  attest w aaguid rp_hash client_data_hash id (x, y) =
      elim (env.encode (cose_key (cose_key_of x y))) [
        | none ↦ fails w Status.other
        | some key ↦
            let (w', n) = env.counter w in
            let auth_data = marshal (record {
              rp_id_hash = rp_hash;
              flags = credential_flags;
              sign_count = n;
              attested_credential_data =
                  some
                    (record { aaguid = aaguid; credential_id = id; credential_public_key = key });
              extensions = [];
            }) in
            let (w'', sig) =
              env.sign_asn1 w' id rp_hash (env.sha256 (auth_data ++ client_data_hash)) in
            elim sig [
              | none ↦ fails w'' Status.other
              | some s ↦ encoded env w'' (
                  made (record {
                    fmt = codes "packed";
                    auth_data = auth_data;
                    att_stmt = record { alg = es256; sig = s };
                  }))
            ]
      ]

  -- The stored form of a new credential.
  unfoldable pub metadata : W → MakeCredentialRequest → Bytes → Bytes × Bytes → CredentialMetadata
  metadata w req id (x, y) = record {
    rp_id = req.rp.id;
    rp_name = req.rp.name;
    user_id = req.user.id;
    user_name = req.user.name;
    user_display_name = req.user.display_name;
    credential_id = id;
    public_key_x = big_int_to_bytes x;
    public_key_y = big_int_to_bytes y;
    created_at = env.now w;
  }

  save_resident :
      W → Option CredentialStorage → CredentialMetadata → Bool → W × Option CredentialStorage
  save_resident w none cred rk = (w, none)
  save_resident w (some cs) cred rk =
      let (w', cs', failed) = save env.persist w cs cred in
      if rk then (w', some cs') else (w, some cs)

  -- After RegisterKey. An error of Save is only logged.
  unfoldable pub registered :
      Handler W → W → MakeCredentialRequest → Option (Bytes × Bytes × Bytes) → Handler W × Reply
  unfolding save_resident
  registered h w req none = fails (record h { world = w }) Status.other
  registered h w req (some (id, x, y)) =
      let cred = metadata w req id (x, y) in
      let (w', storage') = save_resident w h.storage cred (resident_key_requested req) in
      let (w'', reply) = attest w' h.aaguid (env.sha256 req.rp.id) req.client_data_hash id (x, y) in
      (record h { world = w''; storage = storage' }, reply)

  -- After the exclude list: the user is asked, then the key is made.
  unfoldable pub confirm_and_register : Handler W → W → MakeCredentialRequest → Handler W × Reply
  unfolding registered presence_status
  confirm_and_register h w req =
      let rp_hash = env.sha256 req.rp.id in
      let (w', presence) =
        env.confirm_presence w (codes "Register an authentik passkey for " ++ req.rp.id)
          req.client_data_hash rp_hash in
      elim (presence_status presence) [
        | some status ↦ fails (record h { world = w' }) status
        | none ↦ let (w'', key) = env.register_key w' rp_hash in registered h w'' req key
      ]

  unfoldable pub make_credential : Handler W → MakeCredentialRequest → Handler W × Reply
  unfolding confirm_and_register
  make_credential h req =
      if not (is_rp_id_allowed h req.rp.id)
      then fails h Status.operation_denied
      else if contains req.extensions (codes "hmac-secret")
      then fails h Status.unsupported_extension
      else if not (length req.client_data_hash == 32)
      then fails h Status.invalid_parameter
      else if not (es256_supported req.pub_key_cred_params)
      then fails h Status.unsupported_algorithm
      else (let (w, hit) = check_excluded h.world (env.sha256 req.rp.id) req.exclude_list in
          if hit
          then fails (record h { world = w }) Status.credential_excluded
          else confirm_and_register h w req)
