-- ===== src/Ctap2/Handler.antt =====
-- ctap2/ctap2.go: the handler's state, what it calls, and the command switch. The signer, the
-- presence check, SHA-256, CBOR and the credential file are parameters; W is the state of all of
-- them, and each call returns the state that it leaves.
use blueripple_passkey.Prelude.{
  ℕ, Bool, true, false, ◌||◌, Option, none, some, List, [], ◌∷◌, Bytes, bytes_eq, if◌then◌else◌,
  codes,
}
use blueripple_passkey.Prelude.Int.{ℤ, negsuc}
use blueripple_passkey.Ctap2.Status
use blueripple_passkey.Ctap2.Storage.{CredentialMetadata, CredentialStorage}
use blueripple_passkey.Ctap2.Types.{Encodable, MakeCredentialRequest, GetAssertionRequest}

-- How the wait for the user ends: ConfirmPresence refused, a result that arrives in time or after
-- the context is done, or no result within 30 seconds.
pub data Presence : Type 0 where
  refused : Presence
  answered : Bool → Bool → Presence
  no_answer : Presence

pub record Env (W : Type 0) : Type 0 where
  -- Signer: key handle and coordinates, or an error
  pub register_key : W → Bytes → W × Option (Bytes × Bytes × Bytes)
  pub sign_asn1 : W → Bytes → Bytes → Bytes → W × Option Bytes
  pub counter : W → W × ℕ
  -- ConfirmPresence with prompt, challenge and application parameter, and the select after it
  pub confirm_presence : W → Bytes → Bytes → Bytes → W × Presence
  pub sha256 : Bytes → Bytes
  pub encode : Encodable → Option Bytes
  pub decode_make : Bytes → Option MakeCredentialRequest
  pub decode_get : Bytes → Option GetAssertionRequest
  -- CredentialStorage.save, and whether it failed
  pub persist : W → CredentialStorage → W × Bool
  pub now : W → ℕ

pub record AssertionState : Type 0 where
  pub credentials : List CredentialMetadata
  pub current_index : ℕ
  pub rp_id_hash : Bytes
  pub client_data_hash : Bytes

-- The handler with the state of what it calls.
pub record Handler (W : Type 0) : Type 0 where
  pub world : W
  pub storage : Option CredentialStorage
  pub allowed_rp_ids : List Bytes
  pub aaguid : Bytes
  pub is_platform : Bool
  pub assertion_state : Option AssertionState

-- A status and the response bytes, where there are any.
abbrev pub Reply : Type 0
Reply = ℕ × Option Bytes

abbrev pub fails : {A : Type 0} → A → ℕ → A × Reply
fails w status = (w, (status, none))

abbrev pub es256 : ℤ
es256 = negsuc 6

abbrev pub public_key_type : Bytes
public_key_type = codes "public-key"

unfoldable pub contains : List Bytes → Bytes → Bool
contains [] k = false
contains (x ∷ xs) k = bytes_eq x k || contains xs k

-- IsRPIDAllowed
unfoldable pub is_rp_id_allowed : {W : Type 0} → Handler W → Bytes → Bool
is_rp_id_allowed h rp = contains h.allowed_rp_ids rp

module _ {W : Type 0} (env : Env W) where
  -- Whether a key handle signs for an application: err == nil.
  unfoldable pub can_sign : W → Bytes → Bytes → Bytes → W × Bool
  can_sign w id rp_hash text =
      let (w', sig) = env.sign_asn1 w id rp_hash (env.sha256 text) in
      (w', elim sig [ none ↦ false | some s ↦ true ])

  -- ctapEncMode.Marshal and the returns after it.
  unfoldable pub encoded : W → Encodable → W × Reply
  encoded w e = elim (env.encode e) [
    | none ↦ (w, (Status.other, none))
    | some bytes ↦ (w, (Status.success, some bytes))
  ]

-- What the handlers do with the end of the wait: go on, or return a status.
unfoldable pub presence_status : Presence → Option ℕ
presence_status refused = some Status.operation_denied
presence_status (answered ok late) =
    if late
    then some Status.user_action_timeout
    else if ok
    then none
    else some Status.operation_denied
presence_status no_answer = some Status.user_action_timeout
