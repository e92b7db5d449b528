-- ===== src/Userpresence/Requests/Release.antt =====
-- No request blocks the next ones for ever, even where nobody takes its result.
use blueripple_passkey.Prelude.{
  ℕ, ◌+◌, ◌≤◌, ◌≡◌, ◌≢◌, refl, Bool, false, Option, none, some, List, [], ◌∷◌, arith,
}
use blueripple_passkey.Userpresence.Requests.{
  Stage, verifying, sending, clearing, Requests, no_requests, confirm_presence, Event, verified,
  taken, expired, locked, next_stage, handed_over, go_on, resumed,
}
use blueripple_passkey.Userpresence.Requests.Single.{Reach, Agree, no_requests-IsSingle}

-- The only goroutine goes on, so many times, without a receiver for its result.
pub data Alone : ℕ → Requests → Requests → Type 0 where
  stays : (s : Requests) → Alone 0 s s
  goes :
      {n : ℕ} {s t : Requests} (i : ℕ) (stage : Stage) (e : Event)
      → s.prompts ≡ (i, stage) ∷ []
      → e ≢ taken
      → Alone n (go_on s [] i stage [] e) t
      → Alone (1 + n) s t

-- The goroutine comes to its end and the next request is accepted.
abbrev pub Released : Requests → Type 0
Released s =
    (n : ℕ) × (t : Requests) × (n ≤ 3)
    × Alone n s t
    × (t.active_request ≡ none)
    × ((confirm_presence t).1 ≡ some t.made)

from_clearing :
    (s : Requests) (i : ℕ)
    → s.prompts ≡ (i, clearing) ∷ []
    → (t : Requests) × Alone 1 s t × (t.active_request ≡ none)
unfolding go_on resumed next_stage handed_over
from_clearing s i e =
    let t = go_on s [] i clearing [] locked in
    (t, goes i clearing locked e (λ k. cc) (stays t), refl)

from_sending :
    (s : Requests) (i : ℕ) (ok : Bool)
    → s.prompts ≡ (i, sending ok) ∷ []
    → (t : Requests) × Alone 2 s t × (t.active_request ≡ none)
unfolding go_on resumed next_stage handed_over
from_sending s i ok e =
    let (t, a, k) = from_clearing (go_on s [] i (sending ok) [] expired) i refl in
    (t, goes i (sending ok) expired e (λ k. cc) a, k)

from_verifying :
    (s : Requests) (i : ℕ) (ok : Bool)
    → s.prompts ≡ (i, verifying) ∷ []
    → (t : Requests) × Alone 3 s t × (t.active_request ≡ none)
unfolding go_on resumed next_stage handed_over
from_verifying s i ok e =
    let (t, a, k) = from_sending (go_on s [] i verifying [] (verified ok)) i ok refl in
    (t, goes i verifying (verified ok) e (λ k. cc) a, k)

accepted : (t : Requests) → t.active_request ≡ none → (confirm_presence t).1 ≡ some t.made
unfolding confirm_presence
accepted t e = rw (e, confirm_presence)

stage-Released : (s : Requests) (i : ℕ) (stage : Stage) → s.prompts ≡ (i, stage) ∷ [] → Released s
stage-Released s i verifying e =
    let (t, a, k) = from_verifying s i false e in (3, t, omega arith, a, k, accepted t k)
stage-Released s i (sending ok) e =
    let (t, a, k) = from_sending s i ok e in (2, t, omega arith, a, k, accepted t k)
stage-Released s i clearing e =
    let (t, a, k) = from_clearing s i e in (1, t, omega arith, a, k, accepted t k)

Agree-Released :
    (s : Requests) (made : ℕ) (rs : List (ℕ × Bool)) (active : Option ℕ)
    (prompts : List (ℕ × Stage))
    → s.active_request ≡ active
    → s.prompts ≡ prompts
    → Agree made rs active prompts
    → Released s
Agree-Released s made rs none prompts a p g = (0, s, omega arith, stays s, a, accepted s a)
Agree-Released s made rs (some j) [] a p g = absurd g
Agree-Released s made rs (some j) ((i, stage) ∷ []) a p g = stage-Released s i stage p
Agree-Released s made rs (some j) ((i, stage) ∷ q ∷ ps) a p g = absurd g

-- In every state that calls of ConfirmPresence and their goroutines come to, at most three events
-- lead to a state without an active request, in which the next call is accepted: fprintd-verify
-- ends, the two seconds pass, the lock is taken. No receiver of the result is among them.
pub no_requests-Released : (s : Requests) → Reach no_requests s → Released s
no_requests-Released s r =
    Agree-Released s s.made s.received s.active_request s.prompts refl refl
      (no_requests-IsSingle s r).agree
