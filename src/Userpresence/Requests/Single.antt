-- ===== src/Userpresence/Requests/Single.antt =====
-- One request at a time, and one result for each.
use blueripple_passkey.Prelude.{
  ℕ, ◌+◌, ◌≡◌, ◌≢◌, ◌<◌, refl, subst, Bool, Option, none, some, List, [], ◌∷◌, ◌++◌, All, arith,
}
use blueripple_passkey.Userpresence.Requests.{
  Stage, verifying, sending, clearing, Requests, no_requests, confirm_presence, Event, verified,
  taken, expired, locked, next_stage, handed_over, go_on,
}

pub data Step : Requests → Requests → Type 0 where
  confirms : (s : Requests) → Step s (confirm_presence s).0
  goes_on :
      (s : Requests) (before after : List (ℕ × Stage)) (i : ℕ) (stage : Stage) (e : Event)
      → s.prompts ≡ before ++ (i, stage) ∷ after
      → Step s (go_on s before i stage after e)

pub data Reach : Requests → Requests → Type 0 where
  here : (s : Requests) → Reach s s
  followed_by : {s t u : Requests} → Step s t → Reach t u → Reach s u

abbrev pub NotIn : ℕ → List (ℕ × Bool) → Type 0
NotIn i rs = All (λ r. r.0 ≢ i) rs

-- No request stands twice.
abbrev pub Once : List (ℕ × Bool) → Type 0
Once [] = Unit
Once (r ∷ rs) = NotIn r.0 rs × Once rs

-- Before its result is taken or given up, a request has no result.
abbrev pub Waiting : ℕ → Stage → List (ℕ × Bool) → Type 0
Waiting i clearing rs = Unit
Waiting i stage rs = NotIn i rs

abbrev pub Agree : ℕ → List (ℕ × Bool) → Option ℕ → List (ℕ × Stage) → Type 0
Agree made rs none [] = Unit
Agree made rs (some j) ((i, stage) ∷ []) = (i ≡ j) × (i < made) × Waiting i stage rs
Agree made rs _ _ = ⊥

-- There is a goroutine exactly while a request is active, one, and that request's; and each request
-- has at most one result.
pub record IsSingle (s : Requests) : Type 0 where
  pub agree : Agree s.made s.received s.active_request s.prompts
  pub below : All (λ r. r.0 < s.made) s.received
  pub once : Once s.received

below-NotIn : (n : ℕ) (rs : List (ℕ × Bool)) → All (λ r. r.0 < n) rs → NotIn n rs
below-NotIn n [] h = tt
below-NotIn n (r ∷ rs) h = (ground arith, below-NotIn n rs h.1)

below_next : (n : ℕ) (rs : List (ℕ × Bool)) → All (λ r. r.0 < n) rs → All (λ r. r.0 < n + 1) rs
below_next n [] h = tt
below_next n (r ∷ rs) h = (omega arith, below_next n rs h.1)

confirm_presence-IsSingle :
    (active : Option ℕ) (made : ℕ) (prompts : List (ℕ × Stage)) (rs : List (ℕ × Bool))
    → let s : Requests = record {
      active_request = active;
      made = made;
      prompts = prompts;
      received = rs;
    } in
      IsSingle s → IsSingle (confirm_presence s).0
unfolding confirm_presence
confirm_presence-IsSingle (some j) made ps rs h = h
confirm_presence-IsSingle none made [] rs h = record {
  agree = (refl, omega arith, below-NotIn made rs h.below);
  below = below_next made rs h.below;
  once = h.once;
}
confirm_presence-IsSingle none made (p ∷ ps) rs h = absurd h.agree

abbrev alone : ℕ → ℕ → ℕ × Stage → List (ℕ × Bool) → Requests
alone made j p rs = record { active_request = some j; made = made; prompts = p ∷ []; received = rs }

alone-IsSingle :
    (made j i : ℕ) (stage : Stage) (rs : List (ℕ × Bool)) (e : Event)
    → IsSingle (alone made j (i, stage) rs)
    → IsSingle (go_on (alone made j (i, stage) rs) [] i stage [] e)
unfolding go_on next_stage handed_over
alone-IsSingle made j i verifying rs (verified ok) h = record {
  agree = h.agree;
  below = h.below;
  once = h.once;
}
alone-IsSingle made j i verifying rs taken h = record {
  agree = h.agree;
  below = h.below;
  once = h.once;
}
alone-IsSingle made j i verifying rs expired h = record {
  agree = h.agree;
  below = h.below;
  once = h.once;
}
alone-IsSingle made j i verifying rs locked h = record {
  agree = h.agree;
  below = h.below;
  once = h.once;
}
alone-IsSingle made j i (sending b) rs (verified ok) h = record {
  agree = h.agree;
  below = h.below;
  once = h.once;
}
alone-IsSingle made j i (sending b) rs taken h = record {
  agree = (h.agree.0, h.agree.1, tt);
  below = (h.agree.1, h.below);
  once = (h.agree.2, h.once);
}
alone-IsSingle made j i (sending b) rs expired h = record {
  agree = (h.agree.0, h.agree.1, tt);
  below = h.below;
  once = h.once;
}
alone-IsSingle made j i (sending b) rs locked h = record {
  agree = h.agree;
  below = h.below;
  once = h.once;
}
alone-IsSingle made j i clearing rs (verified ok) h = record {
  agree = h.agree;
  below = h.below;
  once = h.once;
}
alone-IsSingle made j i clearing rs taken h = record {
  agree = h.agree;
  below = h.below;
  once = h.once;
}
alone-IsSingle made j i clearing rs expired h = record {
  agree = h.agree;
  below = h.below;
  once = h.once;
}
alone-IsSingle made j i clearing rs locked h = record { agree = tt; below = h.below; once = h.once }

only_place :
    (made j : ℕ) (p q : ℕ × Stage) (rs : List (ℕ × Bool)) (before after : List (ℕ × Stage))
    (e : Event)
    → p ∷ [] ≡ before ++ q ∷ after
    → IsSingle (alone made j p rs)
    → IsSingle (go_on (alone made j p rs) before q.0 q.1 after e)
only_place made j p q rs [] [] e c h =
    let same : p ≡ q = cc in
    subst (λ (r : ℕ × Stage). IsSingle (go_on (alone made j p rs) [] r.0 r.1 [] e)) same
      (alone-IsSingle made j p.0 p.1 rs e h)
only_place made j p q rs [] (x ∷ after) e c h = absurd (cc)
only_place made j p q rs (x ∷ []) after e c h = absurd (cc)
only_place made j p q rs (x ∷ y ∷ before) after e c h = absurd (cc)

go_on-IsSingle :
    (active : Option ℕ) (made : ℕ) (prompts before after : List (ℕ × Stage)) (rs : List (ℕ × Bool))
    (q : ℕ × Stage) (e : Event)
    → prompts ≡ before ++ q ∷ after
    → let s : Requests = record {
      active_request = active;
      made = made;
      prompts = prompts;
      received = rs;
    } in
      IsSingle s → IsSingle (go_on s before q.0 q.1 after e)
go_on-IsSingle none made [] [] after rs q e c h = absurd (cc)
go_on-IsSingle none made [] (x ∷ before) after rs q e c h = absurd (cc)
go_on-IsSingle none made (p ∷ ps) before after rs q e c h = absurd h.agree
go_on-IsSingle (some j) made [] before after rs q e c h = absurd h.agree
go_on-IsSingle (some j) made (p ∷ []) before after rs q e c h =
    only_place made j p q rs before after e c h
go_on-IsSingle (some j) made (p ∷ x ∷ ps) before after rs q e c h = absurd h.agree

Step-IsSingle : {s t : Requests} → Step s t → IsSingle s → IsSingle t
Step-IsSingle (confirms s) h =
    confirm_presence-IsSingle s.active_request s.made s.prompts s.received h
Step-IsSingle (goes_on s before after i stage e c) h =
    go_on-IsSingle s.active_request s.made s.prompts before after s.received (i, stage) e c h

Reach-IsSingle : {s t : Requests} → Reach s t → IsSingle s → IsSingle t
Reach-IsSingle (here s) h = h
Reach-IsSingle (followed_by st r) h = Reach-IsSingle r (Step-IsSingle st h)

-- However calls of ConfirmPresence and the goroutines interleave: a goroutine runs exactly while a
-- request is active, there is one, and it is that request's, so that it clears no other; and no
-- request has two results.
pub no_requests-IsSingle : (s : Requests) → Reach no_requests s → IsSingle s
unfolding no_requests
no_requests-IsSingle s r = Reach-IsSingle r (record { agree = tt; below = tt; once = tt })
