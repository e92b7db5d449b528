-- ===== src/Authenticator/Sites.antt =====
-- From the configuration to the answers: the sites that the daemon ever serves.
use blueripple_passkey.Prelude.{
  ℕ, ◌≡◌, ◌⊎◌, inl, inr, refl, ◌∙◌, true, Option, none, some, List, [], ◌∷◌, Bytes, ◌==◌, arith,
  sym, subst, WhereSome, if_intro,
}
use blueripple_passkey.Config.{values_of, valid_rp_id, configured_rp_ids}
use blueripple_passkey.Config.Order.{IsIn}
use blueripple_passkey.Config.Configured.{Named, IsSetOf, configured_rp_ids_cases}
use blueripple_passkey.Ctap2.Status
use blueripple_passkey.Ctap2.Storage.{CredentialStorage}
use blueripple_passkey.Ctap2.Types.{MakeCredentialRequest, GetAssertionRequest}
use blueripple_passkey.Ctap2.Handler.{Env, Handler, Reply}
use blueripple_passkey.Ctap2.MakeCredential.{make_credential, confirm_and_register, registered}
use blueripple_passkey.Ctap2.GetAssertion.{
  get_assertion, confirm_and_respond, respond_with, handle_get_next_assertion, next_from, next_of,
  Selection, nothing, from_allow_list, discovered, select_credentials,
}
use blueripple_passkey.Ctap2.Command
use blueripple_passkey.Ctap2.Commands.{
  handle_command, new_handler, handle_get_info, decoded_make, decoded_get,
}
use blueripple_passkey.Ctap2.Policy.{Allowed, make_credential-success, get_assertion-success}
use blueripple_passkey.Startup.{Machine, Settings, Running, serves, start_up, rp_id_environment}
use blueripple_passkey.Startup.Preflight.{start_up-configured}
use blueripple_passkey.Authenticator.{run_commands}
use blueripple_passkey.Authenticator.Enumerations.{
  Enumerates, NextFor, handle_command-Enumerates, next-success,
}

module _ {W : Type 0} (env : Env W) where
  allowed-registered :
      (h : Handler W) (w : W) (req : MakeCredentialRequest) (key : Option (Bytes × Bytes × Bytes))
      → (registered env h w req key).0.allowed_rp_ids ≡ h.allowed_rp_ids
  unfolding registered
  allowed-registered h w req none = refl
  allowed-registered h w req (some (id, x, y)) = refl

  allowed-make :
      (h : Handler W) (req : MakeCredentialRequest)
      → (make_credential env h req).0.allowed_rp_ids ≡ h.allowed_rp_ids
  unfolding make_credential confirm_and_register
  allowed-make h req = ground (arith, allowed-registered h)

  allowed-respond :
      (h : Handler W) (w : W) (req : GetAssertionRequest) (sel : Selection)
      → (respond_with env h w req sel).0.allowed_rp_ids ≡ h.allowed_rp_ids
  unfolding respond_with
  allowed-respond h w req nothing = refl
  allowed-respond h w req (from_allow_list c) = refl
  allowed-respond h w req (discovered c cs) = refl

  allowed-confirm :
      (h : Handler W) (w : W) (req : GetAssertionRequest) (sel : Selection)
      → (confirm_and_respond env h req (w, sel)).0.allowed_rp_ids ≡ h.allowed_rp_ids
  unfolding confirm_and_respond
  allowed-confirm h w req nothing = refl
  allowed-confirm h w req (from_allow_list c) =
      ground (arith, allowed-respond h _ req (from_allow_list c))
  allowed-confirm h w req (discovered c cs) =
      ground (arith, allowed-respond h _ req (discovered c cs))

  allowed-get :
      (h : Handler W) (req : GetAssertionRequest)
      → (get_assertion env h req).0.allowed_rp_ids ≡ h.allowed_rp_ids
  unfolding get_assertion
  allowed-get h req =
      let h' : Handler W = record h { assertion_state = none } in
      let found = select_credentials env h' req in
      ground (arith, allowed-confirm h' found.0 req found.1)

  allowed-next :
      (h : Handler W) → (handle_get_next_assertion env h).0.allowed_rp_ids ≡ h.allowed_rp_ids
  unfolding handle_get_next_assertion next_from next_of
  allowed-next h = ground arith

  allowed-info : (h : Handler W) → (handle_get_info env h).0.allowed_rp_ids ≡ h.allowed_rp_ids
  unfolding handle_get_info
  allowed-info h = refl

  allowed-decoded_make :
      (h : Handler W) (decoded : Option MakeCredentialRequest)
      → (decoded_make env h decoded).0.allowed_rp_ids ≡ h.allowed_rp_ids
  unfolding decoded_make
  allowed-decoded_make h none = refl
  allowed-decoded_make h (some req) = allowed-make h req

  allowed-decoded_get :
      (h : Handler W) (decoded : Option GetAssertionRequest)
      → (decoded_get env h decoded).0.allowed_rp_ids ≡ h.allowed_rp_ids
  unfolding decoded_get
  allowed-decoded_get h none = refl
  allowed-decoded_get h (some req) = allowed-get h req

  allowed-handle_command :
      (h : Handler W) (cmd : ℕ) (b : Bytes)
      → (handle_command env h cmd b).0.allowed_rp_ids ≡ h.allowed_rp_ids
  unfolding handle_command
  allowed-handle_command h cmd b =
      let Kept : Handler W × Reply → Type 0 = λ r. r.0.allowed_rp_ids ≡ h.allowed_rp_ids in
      if_intro Kept (cmd == Command.get_info) _ _ (λ _. allowed-info h)
        (λ _.
          if_intro Kept (cmd == Command.make_credential) _ _
            (λ _. allowed-decoded_make h (env.decode_make b))
            (λ _.
              if_intro Kept (cmd == Command.get_assertion) _ _
                (λ _. allowed-decoded_get h (env.decode_get b))
                (λ _.
                  if_intro Kept (cmd == Command.get_next_assertion) _ _ (λ _. allowed-next h)
                    (λ _. refl))))

  allowed-run_commands :
      (h : Handler W) (history : List (ℕ × Bytes))
      → (run_commands env h history).allowed_rp_ids ≡ h.allowed_rp_ids
  unfolding run_commands
  allowed-run_commands h [] = refl
  allowed-run_commands h ((cmd, b) ∷ history) =
      allowed-run_commands (handle_command env h cmd b).0 history ∙ allowed-handle_command h cmd b

  run_commands-Enumerates :
      (h : Handler W) (history : List (ℕ × Bytes))
      → Enumerates env h.allowed_rp_ids h.assertion_state
      → Enumerates env h.allowed_rp_ids (run_commands env h history).assertion_state
  unfolding run_commands
  run_commands-Enumerates h [] k = k
  run_commands-Enumerates h ((cmd, b) ∷ history) k =
      let after = (handle_command env h cmd b).0 in
      let same = allowed-handle_command h cmd b in
      subst (λ ids. Enumerates env ids (run_commands env after history).assertion_state) same
        (run_commands-Enumerates after history (
          subst (λ ids. Enumerates env ids after.assertion_state) (sym same)
            (handle_command-Enumerates env h.allowed_rp_ids h cmd b refl k)))

  -- The handler registers a credential, or answers GetAssertion or GetNextAssertion with success.
  abbrev pub Serves : Handler W → Type 0
  Serves h =
      ((req : MakeCredentialRequest) × ((make_credential env h req).1.0 ≡ Status.success))
      ⊎ (((req : GetAssertionRequest) × ((get_assertion env h req).1.0 ≡ Status.success))
          ⊎ ((handle_get_next_assertion env h).1.0 ≡ Status.success))

-- A value names the site, blanks and capitals aside, and it is a valid name.
abbrev pub IsConfigured : List Bytes → Bytes → Type 0
IsConfigured values site = Named site values × (valid_rp_id site ≡ true)

-- The site of a registration or an assertion is configured. That of GetNextAssertion is one under
-- whose hash the reply's assertion is signed.
abbrev pub ServesConfigured :
    {W : Type 0} (env : Env W) (values : List Bytes) (h : Handler W) → Serves env h → Type 0
ServesConfigured env values h (inl (req, s)) = IsConfigured values req.rp.id
ServesConfigured env values h (inr (inl (req, s))) = IsConfigured values req.rp_id
ServesConfigured env values h (inr (inr s)) =
    (site : Bytes) × IsConfigured values site
    × NextFor env h (handle_get_next_assertion env h).1 site

Allowed-IsIn : (ids : List Bytes) (rp : Bytes) → Allowed ids rp → IsIn rp ids
Allowed-IsIn [] rp h = h
Allowed-IsIn (x ∷ ids) rp (inl e) = inl e
Allowed-IsIn (x ∷ ids) rp (inr h) = inr (Allowed-IsIn ids rp h)

configured_site :
    (flags : List Bytes) (environment rp : Bytes) (ids : List Bytes)
    → configured_rp_ids flags environment ≡ some ids
    → IsIn rp ids
    → Named rp (values_of flags environment) × (valid_rp_id rp ≡ true)
configured_site flags environment rp ids e h =
    let known =
      subst (WhereSome (IsSetOf (values_of flags environment) rp)) e
        (configured_rp_ids_cases flags environment rp).1 in
    known.1.0 h

Serves-ServesConfigured :
    {W : Type 0} (env : Env W) (values ids : List Bytes) (h : Handler W)
    → h.allowed_rp_ids ≡ ids
    → Enumerates env ids h.assertion_state
    → ((site : Bytes) → Allowed ids site → IsConfigured values site)
    → (served : Serves env h) → ServesConfigured env values h served
Serves-ServesConfigured env values ids h e k known (inl (req, s)) =
    known req.rp.id (subst (λ xs. Allowed xs req.rp.id) e (make_credential-success env h req s).0)
Serves-ServesConfigured env values ids h e k known (inr (inl (req, s))) =
    known req.rp_id (subst (λ xs. Allowed xs req.rp_id) e (get_assertion-success env h req s).0)
Serves-ServesConfigured env values ids h e k known (inr (inr s)) =
    let (site, a, signed) = next-success env ids h k s in (site, known site a, signed)

-- Whatever commands the handler of a started daemon has answered: where it registers a credential,
-- or answers GetAssertion or GetNextAssertion with an assertion, the site is a valid name, and,
-- blanks and capitals aside, a value of --allowed-rp-id or a part of the environment variable, which
-- is the legacy one only where the current one is empty. The site of GetNextAssertion, which names
-- none, is one whose hash the reply's assertion is made with.
pub served_site :
    {W : Type 0} (env : Env W) (m : Machine) (s : Settings) (r : Running)
    → start_up m s ≡ serves r
    → (w : W) (storage : Option CredentialStorage) (history : List (ℕ × Bytes))
    → (served : Serves env (run_commands env (new_handler env w storage r.rp_ids) history))
    → ServesConfigured env
        (values_of s.allowed_rp_ids (rp_id_environment m))
        (run_commands env (new_handler env w storage r.rp_ids) history)
        served
served_site env m s r e w storage history served =
    let h = new_handler env w storage r.rp_ids in
    let values = values_of s.allowed_rp_ids (rp_id_environment m) in
    let kept : (run_commands env h history).allowed_rp_ids ≡ r.rp_ids =
      unfold new_handler in allowed-run_commands env h history in
    let enumerates : Enumerates env r.rp_ids (run_commands env h history).assertion_state =
      unfold new_handler in run_commands-Enumerates env h history tt in
    Serves-ServesConfigured env values r.rp_ids (run_commands env h history) kept enumerates
      (λ site a.
        configured_site s.allowed_rp_ids (rp_id_environment m) site r.rp_ids
          (start_up-configured m s r e) (Allowed-IsIn r.rp_ids site a))
      served
