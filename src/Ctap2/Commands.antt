-- ===== src/Ctap2/Commands.antt =====
-- HandleCommand of ctap2/ctap2.go, GetInfo of ctap2/getinfo.go, and NewHandler.
use blueripple_passkey.Prelude.{
  ℕ, true, false, Option, none, some, List, [], ◌∷◌, Bytes, take, ◌==◌, if◌then◌else◌, codes,
}
use blueripple_passkey.Ctap2.Command
use blueripple_passkey.Ctap2.Status
use blueripple_passkey.Ctap2.Storage.{CredentialStorage}
use blueripple_passkey.Ctap2.Types.{
  GetInfoResponse, MakeCredentialRequest, GetAssertionRequest, info,
}
use blueripple_passkey.Ctap2.Handler.{Env, Handler, Reply, fails, es256, public_key_type, encoded}
use blueripple_passkey.Ctap2.MakeCredential.{make_credential}
use blueripple_passkey.Ctap2.GetAssertion.{get_assertion, handle_get_next_assertion}

unfoldable pub get_info : {W : Type 0} → Handler W → GetInfoResponse
get_info h = record {
  versions = codes "FIDO_2_0" ∷ [];
  extensions = [];
  aaguid = h.aaguid;
  options =
      (codes "rk", true)
      ∷ (codes "up", true)
      ∷ (codes "uv", true)
      ∷ (codes "plat", h.is_platform)
      ∷ [];
  max_msg_size = 1200;
  max_credential_count_in_list = 8;
  max_credential_id_length = 256;
  transports = (if h.is_platform then codes "internal" else codes "usb") ∷ [];
  algorithms = record { type_name = public_key_type; alg = es256 } ∷ [];
}

module _ {W : Type 0} (env : Env W) where
  -- The AAGUID is the start of a fixed hash; IsPlatform starts as false.
  unfoldable pub new_handler : W → Option CredentialStorage → List Bytes → Handler W
  new_handler w storage allowed = record {
    world = w;
    storage = storage;
    allowed_rp_ids = allowed;
    aaguid = take 16 (env.sha256 (codes "authentik-biometric-v1"));
    is_platform = false;
    assertion_state = none;
  }

  unfoldable pub handle_get_info : Handler W → Handler W × Reply
  handle_get_info h =
      let (w, reply) = encoded env h.world (info (get_info h)) in (record h { world = w }, reply)

  unfoldable pub decoded_make : Handler W → Option MakeCredentialRequest → Handler W × Reply
  decoded_make h none = fails h Status.invalid_cbor
  decoded_make h (some req) = make_credential env h req

  unfoldable pub decoded_get : Handler W → Option GetAssertionRequest → Handler W × Reply
  decoded_get h none = fails h Status.invalid_cbor
  decoded_get h (some req) = get_assertion env h req

  unfoldable pub handle_command : Handler W → ℕ → Bytes → Handler W × Reply
  unfolding handle_get_info decoded_make decoded_get
  handle_command h cmd b =
      if cmd == Command.get_info
      then handle_get_info h
      else if cmd == Command.make_credential
      then decoded_make h (env.decode_make b)
      else if cmd == Command.get_assertion
      then decoded_get h (env.decode_get b)
      else if cmd == Command.get_next_assertion
      then handle_get_next_assertion env h
      else fails h Status.invalid_command
