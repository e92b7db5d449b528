-- ===== src/Ctap2/Paging.antt =====
-- GetNextAssertion of ctap2/ctap2.go after GetAssertion: the enumeration of a site's credentials.
use blueripple_passkey.Prelude.{
  ℕ, zero, suc, ◌+◌, ◌≡◌, refl, ap, ◌∙◌, false, none, some, List, [], ◌∷◌, ◌++◌, Bytes, length,
  drop, arith,
}
use blueripple_passkey.Ctap2.Status
use blueripple_passkey.Ctap2.Storage.{CredentialMetadata}
use blueripple_passkey.Ctap2.Handler.{Env, Handler, AssertionState, Reply, fails}
use blueripple_passkey.Ctap2.Types.{GetAssertionRequest}
use blueripple_passkey.Ctap2.GetAssertion.{
  discovered, select_credentials, get_assertion, confirm_and_respond, respond_with,
  build_assertion_response, next_of, next_from, handle_get_next_assertion,
}

drop_next :
    {A : Type 0} (i : ℕ) (xs : List A) {x : A} {ys : List A}
    → drop i xs ≡ x ∷ ys
    → drop (suc i) xs ≡ ys
drop_next zero [] e = absurd (grind arith)
drop_next zero (z ∷ zs) e = grind arith
drop_next (suc i) [] e = absurd (grind arith)
drop_next (suc i) (z ∷ zs) e = drop_next i zs e

drop_after :
    {A : Type 0} (i : ℕ) (xs : List A) {x : A} {ys : List A}
    → drop i xs ≡ x ∷ ys
    → drop (i + 1) xs ≡ ys
drop_after i xs e =
    let next : i + 1 ≡ suc i = omega arith in ap (λ n. drop n xs) next ∙ drop_next i xs e

module _ {W : Type 0} (env : Env W) where
  -- n calls of GetNextAssertion in a row, with the replies in order.
  unfoldable pub next_times : ℕ → Handler W → Handler W × List Reply
  next_times zero h = (h, [])
  next_times (suc n) h =
      let (h', r) = handle_get_next_assertion env h in
      let (h'', rs) = next_times n h' in (h'', r ∷ rs)

  -- One signed response for each credential in turn.
  unfoldable pub respond_each : W → Bytes → Bytes → ℕ → List CredentialMetadata → W × List Reply
  respond_each w rp_hash hash total [] = (w, [])
  respond_each w rp_hash hash total (c ∷ cs) =
      let (w', r) = build_assertion_response env w c rp_hash hash total false in
      let (w'', rs) = respond_each w' rp_hash hash total cs in (w'', r ∷ rs)

  -- The enumeration that st allows, where rest is left of it.
  abbrev pub all_pages :
      Handler W → AssertionState → List CredentialMetadata → Handler W × List Reply
  all_pages h st rest =
      let (w, replies) =
        respond_each h.world st.rp_id_hash st.client_data_hash (length st.credentials) rest in
      (record h { world = w; assertion_state = none }, replies ++ (Status.not_allowed, none) ∷ [])

  next_last :
      (h : Handler W) (st : AssertionState)
      → h.assertion_state ≡ some st
      → drop (st.current_index + 1) st.credentials ≡ []
      → handle_get_next_assertion env h
        ≡ fails (record h { assertion_state = none }) Status.not_allowed
  unfolding handle_get_next_assertion next_from next_of
  next_last h st s e =
      ap (next_from env h) s
      ∙ ap (next_of env h (record st { current_index = st.current_index + 1 })) e

  next_more :
      (h : Handler W) (st : AssertionState) (c : CredentialMetadata) (cs : List CredentialMetadata)
      → h.assertion_state ≡ some st
      → drop (st.current_index + 1) st.credentials ≡ c ∷ cs
      → handle_get_next_assertion env h ≡ (
          let r =
            build_assertion_response env h.world c st.rp_id_hash st.client_data_hash
              (length st.credentials)
              false in
          (
            record h {
              world = r.0;
              assertion_state = some (record st { current_index = st.current_index + 1 });
            },
            r.1,
          ))
  unfolding handle_get_next_assertion next_from next_of
  next_more h st c cs s e =
      ap (next_from env h) s
      ∙ ap (next_of env h (record st { current_index = st.current_index + 1 })) e

  -- With the credentials rest left behind the index, one call for each of them answers them in
  -- order, each once; the call after the last answers NOT_ALLOWED and ends the enumeration.
  pub next_times-rest :
      (rest : List CredentialMetadata) (h : Handler W) (st : AssertionState)
      → h.assertion_state ≡ some st
      → drop (st.current_index + 1) st.credentials ≡ rest
      → next_times (suc (length rest)) h ≡ all_pages h st rest
  unfolding next_times respond_each
  next_times-rest [] h st s e = rw (next_last h st s e) refl
  next_times-rest (c ∷ cs) h st s e =
      let r =
        build_assertion_response env h.world c st.rp_id_hash st.client_data_hash
          (length st.credentials) false in
      let moved : AssertionState = record st { current_index = st.current_index + 1 } in
      let h' : Handler W = record h { world = r.0; assertion_state = some moved } in
      let later =
        next_times-rest cs h' moved refl (drop_after (st.current_index + 1) st.credentials e) in
      rw (next_more h st c cs s e) (ap (λ p. (p.0, r.1 ∷ p.1)) later)

  -- What a successful GetAssertion leaves where it discovered several credentials.
  kept_state :
      (h : Handler W) (w : W) (req : GetAssertionRequest) (c d : CredentialMetadata)
      (ds : List CredentialMetadata)
      → (confirm_and_respond env h req (w, discovered c (d ∷ ds))).1.0 ≡ Status.success
      → (confirm_and_respond env h req (w, discovered c (d ∷ ds))).0.assertion_state
        ≡ some (record {
          credentials = c ∷ d ∷ ds;
          current_index = 0;
          rp_id_hash = env.sha256 req.rp_id;
          client_data_hash = req.client_data_hash;
        })
  unfolding confirm_and_respond respond_with
  kept_state h w req c d ds e = ground arith

  abbrev pub kept : GetAssertionRequest → List CredentialMetadata → AssertionState
  kept req creds = record {
    credentials = creds;
    current_index = 0;
    rp_id_hash = env.sha256 req.rp_id;
    client_data_hash = req.client_data_hash;
  }

  get_assertion-kept :
      (h : Handler W) (req : GetAssertionRequest) (w : W) (c d : CredentialMetadata)
      (ds : List CredentialMetadata)
      → (get_assertion env h req).1.0 ≡ Status.success
      → select_credentials env (record h { assertion_state = none }) req
        ≡ (w, discovered c (d ∷ ds))
      → (get_assertion env h req).0.assertion_state ≡ some (kept req (c ∷ d ∷ ds))
  unfolding get_assertion
  get_assertion-kept h req w c d ds e s =
      ground (arith, s, kept_state (record h { assertion_state = none }) w req c d ds)

  -- After a successful GetAssertion without an allow list match, where the search discovered the
  -- credentials c, d and ds, GetNextAssertion answers d and ds in order, each once and under the
  -- hash that the request gave; the call after the last answers NOT_ALLOWED and ends it.
  pub get_assertion-pages :
      (h : Handler W) (req : GetAssertionRequest) (w : W) (c d : CredentialMetadata)
      (ds : List CredentialMetadata)
      → (get_assertion env h req).1.0 ≡ Status.success
      → select_credentials env (record h { assertion_state = none }) req
        ≡ (w, discovered c (d ∷ ds))
      → next_times (suc (length (d ∷ ds))) (get_assertion env h req).0
        ≡ all_pages (get_assertion env h req).0 (kept req (c ∷ d ∷ ds)) (d ∷ ds)
  get_assertion-pages h req w c d ds e s =
      next_times-rest (d ∷ ds) (get_assertion env h req).0 (kept req (c ∷ d ∷ ds))
        (get_assertion-kept h req w c d ds e s) refl
