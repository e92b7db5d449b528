-- ===== src/Ctap2/AuthData.antt =====
-- ctap2/authenticatordata.go: authenticator data and the coordinates of public keys.
pub mod Layout
use blueripple_passkey.Prelude.{
  ℕ, ◌-◌, ◌%◌, Bool, not, ◌&&◌, Option, none, some, List, [], ◌∷◌, ◌++◌, Bytes, length, take,
  replicate, put_uint16, put_uint32, bit_and, bit_or, ltb, leb, ◌==◌, if◌then◌else◌,
}

abbrev pub flag_user_present : ℕ
flag_user_present = 0x01

abbrev pub flag_user_verified : ℕ
flag_user_verified = 0x04

abbrev pub flag_attested_cred_data : ℕ
flag_attested_cred_data = 0x40

abbrev pub flag_extension_data : ℕ
flag_extension_data = 0x80

pub record AttestedCredentialData : Type 0 where
  pub aaguid : Bytes
  pub credential_id : Bytes
  pub credential_public_key : Bytes

pub record AuthenticatorData : Type 0 where
  pub rp_id_hash : Bytes
  pub flags : ℕ
  pub sign_count : ℕ
  pub attested_credential_data : Option AttestedCredentialData
  pub extensions : Bytes

attested : Bool → Option AttestedCredentialData → Bytes
attested flag none = []
attested flag (some acd) =
    if flag
    then acd.aaguid
      ++ (put_uint16 (length acd.credential_id) ++ (acd.credential_id ++ acd.credential_public_key))
    else []

-- AuthenticatorData.Marshal
unfoldable pub marshal : AuthenticatorData → Bytes
unfolding attested
marshal ad =
    ad.rp_id_hash
    ++ (ad.flags
        ∷ (put_uint32 ad.sign_count
            ++ (attested (not (bit_and ad.flags flag_attested_cred_data == 0))
                  ad.attested_credential_data
                ++ (if not (bit_and ad.flags flag_extension_data == 0)
                      && ltb 0 (length ad.extensions)
                    then ad.extensions
                    else []))))

-- padTo32
unfoldable pub pad_to_32 : Bytes → Bytes
pad_to_32 b = if leb 32 (length b) then take 32 b else replicate (32 - length b) 0 ++ b

-- bigIntToBytes of makecredential.go, from the integer's bytes
unfoldable pub big_int_to_bytes : Bytes → Bytes
big_int_to_bytes b = if ltb (length b) 32 then replicate (32 - length b) 0 ++ b else b
