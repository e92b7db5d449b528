-- ===== src/Memory/Wrapping.antt =====
-- What the key handles of the memory backend hold.
use blueripple_passkey.Prelude.{
  ℕ, ◌≤◌, ◌≡◌, ◌↔◌, ap, sym, subst, ◌∙◌, false, some, ◌++◌, Bytes, length, take, drop, arith,
  Option-cases, inl, inr, length-append, length-take, take-append-drop, take-append_length,
  drop-append_length, le→ltb, eq→==,
}
use blueripple_passkey.Prelude.Outcome.{returned}
use blueripple_passkey.Memory.{
  Library, Mem, set_bytes, wrapping_sum, wrapped, register_key, register_child, with_random,
  sign_result, sign_opened, unwrap, sign_asn1,
}

-- AES-GCM: it takes keys of 32 bytes, opens what it has sealed, and opens nothing else.
pub record IsGcm {S : Type 0} (lib : Library S) : Type 0 where
  pub accepts : (k : Bytes) → length k ≡ 32 → lib.gcm_fails k ≡ false
  pub opens :
      (k nonce text extra : Bytes)
      → length nonce ≡ lib.nonce_size
      → lib.open_sealed k nonce (lib.seal k nonce text extra) extra ≡ some text
  pub authentic :
      (k nonce sealed extra text : Bytes)
      → lib.open_sealed k nonce sealed extra ≡ some text
      → sealed ≡ lib.seal k nonce text extra

-- rand.Read gives as many bytes as are asked for; GenerateKey gives a key with its own point.
pub record IsSource {S : Type 0} (lib : Library S) : Type 0 where
  pub gives : (s : S) (n : ℕ) (b : Bytes) → (lib.random s n).1 ≡ some b → length b ≡ n
  pub pairs :
      (s : S) (private x y : Bytes)
      → (lib.generate_key s).1 ≡ some (private, x, y)
      → lib.scalar_base_mult (set_bytes 0 private) ≡ (x, y)

module _ {S : Type 0} (lib : Library S) (gcm : IsGcm lib) (m : Mem) where
  unwrap-wrapped :
      (app nonce private : Bytes)
      → length m.master_private_key ≡ 32
      → length nonce ≡ lib.nonce_size
      → unwrap lib m (wrapped lib m app nonce private) app ≡ some private
  unfolding unwrap wrapped
  unwrap-wrapped app nonce private hk hn =
      let sealed : Bytes = lib.seal m.master_private_key nonce private (wrapping_sum lib app) in
      rw
        (
          gcm.accepts m.master_private_key hk,
          le→ltb (length (nonce ++ sealed)) lib.nonce_size
              (omega (arith, length-append nonce sealed)),
          take-append_length lib.nonce_size nonce sealed (sym hn),
          drop-append_length lib.nonce_size nonce sealed (sym hn),
        )
        (gcm.opens m.master_private_key nonce private (wrapping_sum lib app) hn)

  unwrap-some :
      (handle app private : Bytes)
      → unwrap lib m handle app ≡ some private
      → (lib.nonce_size ≤ length handle)
        × (lib.open_sealed m.master_private_key
              (take lib.nonce_size handle)
              (drop lib.nonce_size handle)
              (wrapping_sum lib app)
            ≡ some private)
  unfolding unwrap
  unwrap-some handle app private h = ground arith

  -- A handle yields a private key for an application exactly where it is some nonce in front of that
  -- key, sealed under the nonce for the application, as RegisterKey writes it.
  pub unwrap_iff :
      (handle app private : Bytes)
      → length m.master_private_key ≡ 32
      → (unwrap lib m handle app ≡ some private) ↔ (
          (nonce : Bytes) × (length nonce ≡ lib.nonce_size)
          × (handle ≡ wrapped lib m app nonce private))
  unfolding unwrap wrapped
  unwrap_iff handle app private hk = (
    (λ h.
        let n = lib.nonce_size in
        let (long, opened) = unwrap-some handle app private h in
        (
          take n handle,
          omega (arith, length-take n handle),
          sym (take-append-drop n handle)
              ∙ ap (◌++◌ (take n handle)) (
                  gcm.authentic m.master_private_key (take n handle) (drop n handle)
                    (wrapping_sum lib app) private opened),
        )),
    (λ (nonce, hn, e). rw (e) (unwrap-wrapped app nonce private hk hn)),
  )

  -- What a handle returned from a generated key holds.
  abbrev Holds : Bytes → Bytes → Bytes → Bytes → Type 0
  Holds app handle x y =
      (nonce : Bytes) × (private : Bytes) × (length nonce ≡ lib.nonce_size)
      × (handle ≡ wrapped lib m app nonce private)
      × (lib.scalar_base_mult (set_bytes 0 private) ≡ (x, y))

  child_handle :
      (source : IsSource lib) (s s' : S) (private px py app handle x y : Bytes)
      → lib.scalar_base_mult (set_bytes 0 private) ≡ (px, py)
      → register_child lib m app (s, some (private, px, py)) ≡ (s', returned (handle, x, y))
      → Holds app handle x y
  unfolding register_child with_random
  child_handle source s s' private px py app handle x y point e =
      elim (Option-cases (lib.random s lib.nonce_size).1) [
        | inl none_left ↦ absurd (ground arith)
        | inr (nonce, given) ↦ (
          nonce,
          private,
          source.gives s lib.nonce_size nonce given,
          ground arith,
          point ∙ ground arith,
        )
      ]

  registered_handle :
      (source : IsSource lib) (s s' : S) (app handle x y : Bytes)
      → register_key lib m s app ≡ (s', returned (handle, x, y))
      → Holds app handle x y
  unfolding register_key
  registered_handle source s s' app handle x y e = elim (Option-cases (lib.generate_key s).1) [
    | inl none_made ↦ absurd (unfold register_child in ground arith)
    | inr ((private, px, py), made) ↦
        child_handle source (lib.generate_key s).0 s' private px py app handle x y
          (source.pairs s private px py made)
          (subst
            (λ o.
              register_child lib m app ((lib.generate_key s).0, o) ≡ (s', returned (handle, x, y)))
            made e)
  ]

  -- With the handle that RegisterKey returns for an application, SignASN1 signs any digest of 32
  -- bytes for that application, in every later state of the random source: it calls ECDSA with the
  -- number whose public point RegisterKey returned, and returns what ECDSA gives.
  pub register-sign :
      (source : IsSource lib) (s s' later : S) (app handle x y digest : Bytes)
      → length m.master_private_key ≡ 32
      → register_key lib m s app ≡ (s', returned (handle, x, y))
      → length digest ≡ 32
      → (d : ℕ) × (lib.scalar_base_mult d ≡ (x, y))
        × (sign_asn1 lib m later handle app digest
            ≡ sign_result lib (lib.sign later d (x, y) digest))
  unfolding sign_asn1 sign_opened
  register-sign source s s' later app handle x y digest hk e hd =
      let (nonce, private, hn, made, point) = registered_handle source s s' app handle x y e in
      (
        set_bytes 0 private,
        point,
        rw (eq→== (length digest) 32 hd, made, unwrap-wrapped app nonce private hk hn, point),
      )
