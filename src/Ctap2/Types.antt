-- ===== src/Ctap2/Types.antt =====
-- ctap2/types.go: requests and responses, as records of the fields that the handlers read or set.
-- Of the extensions of a request the handlers look only at the keys.
use blueripple_passkey.Prelude.{ℕ, Bool, Option, List, Bytes}
use blueripple_passkey.Prelude.Dict.{Dict}
use blueripple_passkey.Prelude.Int.{ℤ}

pub record PublicKeyCredentialParameters : Type 0 where
  pub type_name : Bytes
  pub alg : ℤ

pub record PublicKeyCredentialRpEntity : Type 0 where
  pub id : Bytes
  pub name : Bytes

pub record PublicKeyCredentialUserEntity : Type 0 where
  pub id : Bytes
  pub name : Bytes
  pub display_name : Bytes

pub record PublicKeyCredentialDescriptor : Type 0 where
  pub type_name : Bytes
  pub id : Bytes

pub record MakeCredentialRequest : Type 0 where
  pub client_data_hash : Bytes
  pub rp : PublicKeyCredentialRpEntity
  pub user : PublicKeyCredentialUserEntity
  pub pub_key_cred_params : List PublicKeyCredentialParameters
  pub exclude_list : List PublicKeyCredentialDescriptor
  pub extensions : List Bytes
  pub options : Dict Bool

pub record AttestationStatement : Type 0 where
  pub alg : ℤ
  pub sig : Bytes

pub record MakeCredentialResponse : Type 0 where
  pub fmt : Bytes
  pub auth_data : Bytes
  pub att_stmt : AttestationStatement

pub record GetAssertionRequest : Type 0 where
  pub rp_id : Bytes
  pub client_data_hash : Bytes
  pub allow_list : List PublicKeyCredentialDescriptor
  pub extensions : List Bytes

-- The number of credentials is left out of the encoding where it is zero.
pub record GetAssertionResponse : Type 0 where
  pub credential : PublicKeyCredentialDescriptor
  pub auth_data : Bytes
  pub signature : Bytes
  pub user : Option PublicKeyCredentialUserEntity
  pub number_of_credentials : ℕ

-- The fields that GetInfo sets; the others keep their zero values and are left out.
pub record GetInfoResponse : Type 0 where
  pub versions : List Bytes
  pub extensions : List Bytes
  pub aaguid : Bytes
  pub options : Dict Bool
  pub max_msg_size : ℕ
  pub max_credential_count_in_list : ℕ
  pub max_credential_id_length : ℕ
  pub transports : List Bytes
  pub algorithms : List PublicKeyCredentialParameters

-- The map that BuildCOSEPublicKeyES256 encodes: labels 1, 3, -1, -2 and -3.
pub record CoseKey : Type 0 where
  pub kty : ℕ
  pub alg : ℤ
  pub crv : ℕ
  pub x : Bytes
  pub y : Bytes

-- Whatever is handed to the CBOR encoder.
pub data Encodable : Type 0 where
  info : GetInfoResponse → Encodable
  made : MakeCredentialResponse → Encodable
  assertion : GetAssertionResponse → Encodable
  cose_key : CoseKey → Encodable
