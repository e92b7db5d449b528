-- ===== src/Fidohid/Channels.antt =====
-- The map of channels by channel ID, as an association list.
use blueripple_passkey.Prelude.{
  ℕ, ◌≡◌, refl, Option, none, some, List, [], ◌∷◌, Bytes, ◌==◌, if◌then◌else◌, arith,
}

-- A cancelFunc is known by the number of the context that it cancels.
pub record Channel : Type 0 where
  pub cmd : ℕ
  pub total_len : ℕ
  pub message : Bytes
  pub seq_num : ℕ
  pub last_seen : ℕ
  pub cancel_func : Option ℕ

abbrev pub Channels : Type 0
Channels = List (ℕ × Channel)

-- d.channels[cid]
unfoldable pub lookup : ℕ → Channels → Option Channel
lookup cid [] = none
lookup cid ((k, ch) ∷ m) = if k == cid then some ch else lookup cid m

-- d.channels[cid] = ch
unfoldable pub insert : ℕ → Channel → Channels → Channels
insert cid ch [] = (cid, ch) ∷ []
insert cid ch ((k, old) ∷ m) = if k == cid then (cid, ch) ∷ m else (k, old) ∷ insert cid ch m

pub lookup-insert :
    (j k : ℕ) (ch : Channel) (m : Channels)
    → lookup j (insert k ch m) ≡ (if k == j then some ch else lookup j m)
unfolding lookup insert
lookup-insert j k ch [] = refl
lookup-insert j k ch ((i, old) ∷ m) = ground (arith, lookup-insert j k ch m)

pub lookup-insert_self : (k : ℕ) (ch : Channel) (m : Channels) → lookup k (insert k ch m) ≡ some ch
lookup-insert_self k ch m = ground (arith, lookup-insert k k ch m)

pub insert-insert :
    (k : ℕ) (c e : Channel) (m : Channels) → insert k e (insert k c m) ≡ insert k e m
unfolding insert
insert-insert k c e [] = ground arith
insert-insert k c e ((i, old) ∷ m) = ground (arith, insert-insert k c e m)

-- No channel ID stands twice.
abbrev pub Distinct : Channels → Type 0
Distinct [] = Unit
Distinct ((k, ch) ∷ m) = (lookup k m ≡ none) × Distinct m

pub insert-Distinct : (k : ℕ) (ch : Channel) (m : Channels) → Distinct m → Distinct (insert k ch m)
unfolding insert
insert-Distinct k ch [] h = (unfold lookup in refl, tt)
insert-Distinct k ch ((i, old) ∷ m) h =
    ground (arith, insert-Distinct k ch m h.1, lookup-insert i k ch m)
