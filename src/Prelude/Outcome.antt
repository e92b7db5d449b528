-- ===== src/Prelude/Outcome.antt =====
-- How a call of a backend ends.
-- A result, an error, or a panic.
pub data Outcome (A : Type 0) : Type 0 where
  returned : A → Outcome A
  refused : Outcome A
  panics : Outcome A
