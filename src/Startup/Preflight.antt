-- ===== src/Startup/Preflight.antt =====
-- What a start comes to, and the preflight of --check against it.
use blueripple_passkey.Prelude.{
  ◌≡◌, ◌⊎◌, inr, refl, sym, ap, ◌∙◌, subst, if_intro, bytes_eq, true, false, Option, none, some,
  List, [], ◌∷◌, Bytes, arith, codes,
}
use blueripple_passkey.Config.{configured_rp_ids}
use blueripple_passkey.Startup.{
  Backend, tpm, memory, Reason, bad_backend, no_backend, no_verifier, no_home, no_storage,
  UserPresence, Running, Exit, printed, fatal, checked, serves, Settings, Machine,
  rp_id_environment, credential_storage_path, check_fingerprint_verifier, run_checks, new_presence,
  new_signer, with_home, with_presence, with_signer, with_rp_ids, start_up,
}

-- A start serves the sites, or fails for a reason that may be.
abbrev pub Starts : (Reason → Type 0) → List Bytes → Exit → Type 0
Starts May ids printed = ⊥
Starts May ids (checked ok) = ⊥
Starts May ids (fatal reason) = May reason
Starts May ids (serves r) = r.rp_ids ≡ ids

-- The reasons that the preflight does not look for.
abbrev pub IsUnchecked : Reason → Type 0
IsUnchecked bad_backend = Unit
IsUnchecked no_backend = Unit
IsUnchecked no_home = Unit
IsUnchecked no_storage = Unit
IsUnchecked _ = ⊥

module _ (m : Machine) (ids : List Bytes) (May : Reason → Type 0)
    (unchecked : (r : Reason) → IsUnchecked r → May r) where
  with_home-Starts :
      (backend : Backend) (p : UserPresence) (home : Option Bytes)
      → Starts May ids (with_home m backend ids p home)
  unfolding with_home
  with_home-Starts backend p none = unchecked no_home tt
  with_home-Starts backend p (some home) =
      if_intro (Starts May ids) (m.storage_fails (credential_storage_path m home).0) _ _
        (λ _. unchecked no_storage tt) (λ _. refl)

  with_presence-Starts :
      (backend : Backend) (presence : Option UserPresence)
      → (presence ≡ none → May no_verifier)
      → Starts May ids (with_presence m backend ids presence)
  unfolding with_presence
  with_presence-Starts backend none h = h refl
  with_presence-Starts backend (some p) h = with_home-Starts backend p m.home

  with_signer-Starts :
      (s : Settings)
      → (new_presence m ≡ none → May no_verifier)
      → Starts May ids (with_signer m ids (new_signer m s))
  unfolding new_signer with_signer
  with_signer-Starts s h =
      let Fine : Reason ⊎ Backend → Type 0 = λ x. Starts May ids (with_signer m ids x) in
      let made : (b : Backend) → Fine (inr b) = λ b. with_presence-Starts b (new_presence m) h in
      if_intro Fine (bytes_eq s.backend (codes "tpm")) _ _
        (λ _.
          if_intro Fine (m.tpm_fails s.device) _ _ (λ _. unchecked no_backend tt) (λ _. made tpm))
        (λ _.
          if_intro Fine (bytes_eq s.backend (codes "memory")) _ _ (λ _. made memory)
            (λ _. unchecked bad_backend tt))

run_checks-presence :
    (m : Machine) (device : Bytes) → run_checks m device ≡ true → ¬ (new_presence m ≡ none)
unfolding run_checks check_fingerprint_verifier new_presence
run_checks-presence m device h e = ground arith

start_up-shown :
    (m : Machine) (s : Settings)
    → s.show_version ≡ false
    → start_up m s ≡ with_rp_ids m s (configured_rp_ids s.allowed_rp_ids (rp_id_environment m))
unfolding start_up
start_up-shown m s e = rw (e, start_up)

shown : (m : Machine) (s : Settings) → ¬ (start_up m s ≡ printed) → s.show_version ≡ false
unfolding start_up
shown m s h = ground arith

-- The start with a configuration, of which the preflight was made.
start-after_check :
    (m : Machine) (s : Settings) (configured : Option (List Bytes))
    → with_rp_ids m (record s { check_only = true }) configured ≡ checked true
    → (ids : List Bytes) × (configured ≡ some ids)
      × Starts IsUnchecked ids (with_rp_ids m (record s { check_only = false }) configured)
unfolding with_rp_ids
start-after_check m s none h = absurd (ground arith)
start-after_check m s (some []) h = absurd (ground arith)
start-after_check m s (some (rp ∷ rps)) h =
    let there : run_checks m s.device ≡ true = ground arith in
    (
      rp ∷ rps,
      refl,
      with_signer-Starts m (rp ∷ rps) IsUnchecked (λ r u. u) (record s { check_only = false })
          (λ e. absurd (run_checks-presence m s.device there e)),
    )

-- Where --check reports that nothing is missing, the same start without --check, on a machine as it
-- was, serves the sites of the configuration, or fails only for the backend, the home directory or
-- the credential storage.
pub check_then_start :
    (m : Machine) (s : Settings)
    → start_up m (record s { check_only = true }) ≡ checked true
    → (ids : List Bytes) × (configured_rp_ids s.allowed_rp_ids (rp_id_environment m) ≡ some ids)
      × Starts IsUnchecked ids (start_up m (record s { check_only = false }))
check_then_start m s h =
    let e = shown m (record s { check_only = true }) (λ k. cc) in
    let (ids, c, ok) =
      start-after_check m s _ (sym (start_up-shown m (record s { check_only = true }) e) ∙ h) in
    (
      ids,
      c,
      subst (Starts IsUnchecked ids) (sym (start_up-shown m (record s { check_only = false }) e))
          ok,
    )

rp_ids-configured :
    (m : Machine) (s : Settings) (configured : Option (List Bytes)) (r : Running)
    → with_rp_ids m s configured ≡ serves r
    → configured ≡ some r.rp_ids
unfolding with_rp_ids
rp_ids-configured m s none r h = absurd (ground arith)
rp_ids-configured m s (some []) r h = absurd (ground arith)
rp_ids-configured m s (some (rp ∷ rps)) r h =
    let served : with_signer m (rp ∷ rps) (new_signer m s) ≡ serves r = ground arith in
    let kept = with_signer-Starts m (rp ∷ rps) (λ reason. Unit) (λ reason u. tt) s (λ e. tt) in
    ap some (sym (subst (Starts (λ reason. Unit) (rp ∷ rps)) served kept))

pub start_up-configured :
    (m : Machine) (s : Settings) (r : Running)
    → start_up m s ≡ serves r
    → configured_rp_ids s.allowed_rp_ids (rp_id_environment m) ≡ some r.rp_ids
start_up-configured m s r h =
    let e = shown m s (λ k. cc) in rp_ids-configured m s _ r (sym (start_up-shown m s e) ∙ h)
