-- ===== src/Userpresence/Requests.antt =====
-- ConfirmPresence and promptFingerprint of userpresence/userpresence.go: the requests and their
-- goroutines. A request is known by its number, and a goroutine by its request and how far it is.
pub mod Single
pub mod Release
use blueripple_passkey.Prelude.{
  ℕ, ◌+◌, Bool, true, false, Option, none, some, List, [], ◌∷◌, ◌++◌, ◌==◌, if◌then◌else◌,
}

-- fprintd-verify runs; the result waits for its receiver, for two seconds at most; activeRequest is
-- to be cleared.
pub data Stage : Type 0 where
  verifying : Stage
  sending : Bool → Stage
  clearing : Stage

-- `received` holds the results that were taken from the channels of their requests, newest first.
pub record Requests : Type 0 where
  pub active_request : Option ℕ
  pub made : ℕ
  pub prompts : List (ℕ × Stage)
  pub received : List (ℕ × Bool)

unfoldable pub no_requests : Requests
no_requests = record { active_request = none; made = 0; prompts = []; received = [] }

-- ConfirmPresence; none is its error.
unfoldable pub confirm_presence : Requests → Requests × Option ℕ
confirm_presence s = elim s.active_request [
  | some i ↦ (s, none)
  | none ↦ (
    record s {
      active_request = some s.made;
      made = s.made + 1;
      prompts = (s.made, verifying) ∷ s.prompts;
    },
    some s.made,
  )
]

-- What lets a goroutine go on: fprintd-verify ends, the result is received, the two seconds pass,
-- the lock is taken.
pub data Event : Type 0 where
  verified : Bool → Event
  taken expired locked : Event

-- The stage after an event, where the goroutine does not end with it; and the result that is
-- received. An event that a stage does not wait for changes nothing.
unfoldable pub next_stage : Stage → Event → Option Stage
next_stage verifying (verified ok) = some (sending ok)
next_stage (sending ok) taken = some clearing
next_stage (sending ok) expired = some clearing
next_stage clearing locked = none
next_stage stage e = some stage

unfoldable pub handed_over : Stage → Event → Option Bool
handed_over (sending ok) taken = some ok
handed_over stage e = none

abbrev pub results : ℕ → Option Bool → List (ℕ × Bool)
results i none = []
results i (some ok) = (i, ok) ∷ []

-- up.activeRequest = nil comes with the end of the goroutine.
resumed : Requests → List (ℕ × Stage) → ℕ → List (ℕ × Stage) → Option Stage → Requests
resumed s before i after none = record s { active_request = none; prompts = before ++ after }
resumed s before i after (some stage) = record s { prompts = before ++ (i, stage) ∷ after }

-- A goroutine that stands between the others goes on.
unfoldable pub go_on : Requests → List (ℕ × Stage) → ℕ → Stage → List (ℕ × Stage) → Event → Requests
unfolding resumed
go_on s before i stage after e =
    resumed (record s { received = results i (handed_over stage e) ++ s.received }) before i after
      (next_stage stage e)
