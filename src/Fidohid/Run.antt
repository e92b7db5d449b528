-- ===== src/Fidohid/Run.antt =====
-- The event loop of Run. The uhid library's channel of events and the end of the context are a list,
-- in the order in which the select takes them; a report comes with the random draws and the time
-- that its handling may ask for. Creating the device and logging the hidraw nodes is the library's.
use blueripple_passkey.Prelude.{
  ℕ, ◌≡◌, refl, Bool, Option, none, some, List, [], ◌∷◌, Bytes, arith, Option-cases, inl, inr,
  subst, WhereSome,
}
use blueripple_passkey.Fidohid.Device.{Device, Draw, new_device}
use blueripple_passkey.Fidohid.Handlers.{handle_output}
use blueripple_passkey.Fidohid.Lifecycle.{report, Reach, here, next, new_device-IsSound}
use blueripple_passkey.Fidohid.Invariant.{IsSound}

-- ev, with its Err or by its Type; the closed channel; ctx.Done()
pub data RunEvent : Type 0 where
  failed : RunEvent
  output : List Draw → ℕ → Bytes → RunEvent
  open_event close_event other : RunEvent
  no_more : RunEvent
  cancelled : RunEvent

-- nil, or the context's error
pub data End : Type 0 where
  ends_nil ends_context : End

module _ {Dev : Type 0} (inject : Dev → Bytes → Dev × Bool) where
  -- The device after the events, and how Run returns where it does; none is the loop of allocateCID
  -- that has not found a channel ID with its draws.
  unfoldable pub run : Device Dev → List RunEvent → Option (Device Dev × Option End)
  run d [] = some (d, none)
  run d (output draws now b ∷ es) = elim (handle_output inject d draws now b) [
    | none ↦ none
    | some d' ↦ run d' es
  ]
  run d (no_more ∷ es) = some (d, some ends_nil)
  run d (cancelled ∷ es) = some (d, some ends_context)
  run d (failed ∷ es) = run d es
  run d (open_event ∷ es) = run d es
  run d (close_event ∷ es) = run d es
  run d (other ∷ es) = run d es

-- The reports that a run handles, with their draws and times: those before the first end, whatever
-- stands between them.
abbrev pub outputs : List RunEvent → List (List Draw × ℕ × Bytes)
outputs [] = []
outputs (output draws now b ∷ es) = (draws, now, b) ∷ outputs es
outputs (no_more ∷ es) = []
outputs (cancelled ∷ es) = []
outputs (e ∷ es) = outputs es

abbrev pub end_of : List RunEvent → Option End
end_of [] = none
end_of (no_more ∷ es) = some ends_nil
end_of (cancelled ∷ es) = some ends_context
end_of (e ∷ es) = end_of es

abbrev pub ended : {D : Type 0} → Option End → Option D → Option (D × Option End)
ended end none = none
ended end (some d) = some (d, end)

module _ {Dev : Type 0} (inject : Dev → Bytes → Dev × Bool) (close_dev : Dev → Dev) where
  run-Reach :
      (c d e : Device Dev) (es : List RunEvent) (end : Option End)
      → Reach inject close_dev c d
      → run inject d es ≡ some (e, end)
      → Reach inject close_dev c e
  unfolding run
  run-Reach c d e [] end r h = subst (λ o. WhereSome (λ x. Reach inject close_dev c x.0) o) h r
  run-Reach c d e (output draws now b ∷ es) end r h =
      elim (Option-cases (handle_output inject d draws now b)) [
        | inl q ↦ absurd (ground arith)
        | inr (d', q) ↦ run-Reach c d' e es end (next r (report d d' draws now b q)) (ground arith)
      ]
  run-Reach c d e (no_more ∷ es) end r h =
      subst (λ o. WhereSome (λ x. Reach inject close_dev c x.0) o) h r
  run-Reach c d e (cancelled ∷ es) end r h =
      subst (λ o. WhereSome (λ x. Reach inject close_dev c x.0) o) h r
  run-Reach c d e (failed ∷ es) end r h = run-Reach c d e es end r h
  run-Reach c d e (open_event ∷ es) end r h = run-Reach c d e es end r h
  run-Reach c d e (close_event ∷ es) end r h = run-Reach c d e es end r h
  run-Reach c d e (other ∷ es) end r h = run-Reach c d e es end r h

module _ {Dev : Type 0} (inject : Dev → Bytes → Dev × Bool) where
  unfoldable pub handle_all : Device Dev → List (List Draw × ℕ × Bytes) → Option (Device Dev)
  handle_all d [] = some d
  handle_all d ((draws, now, b) ∷ rs) = elim (handle_output inject d draws now b) [
    | none ↦ none
    | some d' ↦ handle_all d' rs
  ]

  run-outputs :
      (d : Device Dev) (es : List RunEvent)
      → run inject d es ≡ ended (end_of es) (handle_all d (outputs es))
  unfolding run handle_all
  run-outputs d [] = refl
  run-outputs d (output draws now b ∷ es) =
      elim (Option-cases (handle_output inject d draws now b)) [
        | inl e ↦ rw (e, run, handle_all)
        | inr (d', e) ↦ rw (e, run, handle_all) (run-outputs d' es)
      ]
  run-outputs d (no_more ∷ es) = refl
  run-outputs d (cancelled ∷ es) = refl
  run-outputs d (failed ∷ es) = run-outputs d es
  run-outputs d (open_event ∷ es) = run-outputs d es
  run-outputs d (close_event ∷ es) = run-outputs d es
  run-outputs d (other ∷ es) = run-outputs d es

  -- Run hands the reports that come before the first end to handleOutput, in order and none other,
  -- and returns with that end; every state that it leaves of a new device is well formed.
  pub run_lem :
      (dev : Dev) (es : List RunEvent)
      → let d = new_device dev in
        (run inject d es ≡ ended (end_of es) (handle_all d (outputs es)))
        × WhereSome (λ x. IsSound x.0) (run inject d es)
  run_lem dev es = (
    run-outputs (new_device dev) es,
    elim (Option-cases (run inject (new_device dev) es)) [
      | inl e ↦ rw (e) tt
      | inr ((d, end), e) ↦ rw (e) (
          new_device-IsSound inject (λ x. x) dev d
            (run-Reach inject (λ x. x) (new_device dev) (new_device dev) d es end here e))
    ],
  )
