-- ===== src/Ctap2/AuthData/Layout.antt =====
-- The layout of authenticator data: a relying party reads back what was put in.
use blueripple_passkey.Prelude.{
  ℕ, ◌+◌, ◌-◌, ◌*◌, ◌/◌, ◌%◌, ◌≤◌, ◌<◌, ◌≡◌, refl, ap, none, some, [], ◌∷◌, ◌++◌, Bytes, length,
  take, drop, replicate, put_uint16, put_uint32, uint16_at, uint32_at, get_or, arith, length-append,
  length-replicate, take-append_length, drop-append_length, append-nil, take_all, le→leb, le→ltb,
  lt→leb, lt→ltb, sym, ◌∙◌,
}
use native.Mathlib.Decide.{dec_le}
use blueripple_passkey.Ctap2.AuthData.{marshal, pad_to_32, big_int_to_bytes}

-- What a relying party takes from authenticator data: 32 bytes, a byte, four bytes, the rest.
pub record Parsed : Type 0 where
  pub rp_id_hash : Bytes
  pub flags : ℕ
  pub sign_count : ℕ
  pub rest : Bytes

abbrev pub parse : Bytes → Parsed
parse b =
    let t = drop 32 b in
    record {
      rp_id_hash = take 32 b;
      flags = get_or t 0 0;
      sign_count = uint32_at t 1;
      rest = drop 5 t;
    }

-- Of that rest where there is attested data: AAGUID, credential ID, public key.
pub record ParsedCredential : Type 0 where
  pub aaguid : Bytes
  pub credential_id : Bytes
  pub public_key : Bytes

abbrev pub parse_credential : Bytes → ParsedCredential
parse_credential b =
    let t = drop 16 b in
    let n = uint16_at t 0 in
    record { aaguid = take 16 b; credential_id = take n (drop 2 t); public_key = drop n (drop 2 t) }

uint32_put :
    (n : ℕ)
    → n < 4294967296
    → n / 16777216 % 256 * 16777216 + n / 65536 % 256 * 65536 + n / 256 % 256 * 256 + n % 256 ≡ n
uint32_put n h = omega arith

uint16_put : (n : ℕ) → n < 65536 → n / 256 % 256 * 256 + n % 256 ≡ n
uint16_put n h = omega arith

parse_head :
    (hash rest : Bytes) (flags n : ℕ)
    → length hash ≡ 32
    → n < 4294967296
    → parse (hash ++ (flags ∷ (put_uint32 n ++ rest)))
      ≡ record { rp_id_hash = hash; flags = flags; sign_count = n; rest = rest }
parse_head hash rest flags n h k = rw (
  take-append_length 32 hash (flags ∷ (put_uint32 n ++ rest)) (omega arith),
  drop-append_length 32 hash (flags ∷ (put_uint32 n ++ rest)) (omega arith),
  uint32_put n k,
)

-- An assertion's data, with the flags for presence and verification alone: the hash, the flags and
-- the counter, and nothing behind them.
pub parse-marshal_assertion :
    (hash : Bytes) (n : ℕ)
    → length hash ≡ 32
    → n < 4294967296
    → parse (
        marshal (record {
          rp_id_hash = hash;
          flags = 5;
          sign_count = n;
          attested_credential_data = none;
          extensions = [];
        }))
      ≡ record { rp_id_hash = hash; flags = 5; sign_count = n; rest = [] }
unfolding marshal
parse-marshal_assertion hash n h k = parse_head hash [] 5 n h k

parse_credential_body :
    (aaguid id key : Bytes)
    → length aaguid ≡ 16
    → length id < 65536
    → parse_credential (aaguid ++ (put_uint16 (length id) ++ (id ++ key)))
      ≡ record { aaguid = aaguid; credential_id = id; public_key = key }
parse_credential_body aaguid id key l m = rw (
  take-append_length 16 aaguid (put_uint16 (length id) ++ (id ++ key)) (omega arith),
  drop-append_length 16 aaguid (put_uint16 (length id) ++ (id ++ key)) (omega arith),
  uint16_put (length id) m,
  take-append_length (length id) id key refl,
  drop-append_length (length id) id key refl,
)

-- A new credential's data, with a credential ID of less than 65536 bytes: the hash, the flags and
-- the counter are read back, and behind them the AAGUID, the credential ID and the public key.
pub parse-marshal_attested :
    (hash aaguid id key : Bytes) (n : ℕ)
    → length hash ≡ 32
    → n < 4294967296
    → length aaguid ≡ 16
    → length id < 65536
    → let p = parse (
        marshal (record {
          rp_id_hash = hash;
          flags = 0x45;
          sign_count = n;
          attested_credential_data =
              some (record { aaguid = aaguid; credential_id = id; credential_public_key = key });
          extensions = [];
        })) in
      (p ≡ record { rp_id_hash = hash; flags = 0x45; sign_count = n; rest = p.rest })
      × (parse_credential p.rest ≡ record { aaguid = aaguid; credential_id = id; public_key = key })
unfolding marshal
parse-marshal_attested hash aaguid id key n h k l m =
    let body : Bytes = aaguid ++ (put_uint16 (length id) ++ (id ++ key)) in
    let e = parse_head hash (body ++ []) 0x45 n h k in
    (
      e
          ∙ ap (λ r. record { rp_id_hash = hash; flags = 0x45; sign_count = n; rest = r })
              (ap (λ (p : Parsed). p.rest) (sym e)),
      ap (λ (p : Parsed). parse_credential p.rest) e
          ∙ ap parse_credential (append-nil body)
          ∙ parse_credential_body aaguid id key l m,
    )

-- Both ways to pad a coordinate of at most 32 bytes give 32 bytes, with zeros in front of it.
pub pad_to_32_big_int :
    (b : Bytes)
    → length b ≤ 32
    → (pad_to_32 b ≡ big_int_to_bytes b)
      × (pad_to_32 b ≡ replicate (32 - length b) 0 ++ b)
      × (length (pad_to_32 b) ≡ 32)
unfolding pad_to_32 big_int_to_bytes
pad_to_32_big_int b h = elim (dec_le 32 (length b)) [
  | yes k ↦
      rw (le→leb 32 (length b) k, le→ltb (length b) 32 k, take_all 32 b h)
        (
          refl,
          ap (λ (n : ℕ). replicate n 0 ++ b) (let z : 0 ≡ 32 - length b = omega arith in z),
          omega arith,
        )
  | no k ↦
      rw (lt→leb 32 (length b) (omega arith), lt→ltb (length b) 32 (omega arith))
        (
          refl,
          refl,
          omega (
            arith,
            length-append (replicate (32 - length b) 0) b,
            length-replicate {A = ℕ} (32 - length b) 0,
          ),
        )
]
