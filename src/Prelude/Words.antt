-- ===== src/Prelude/Words.antt =====
-- Big-endian words of encoding/binary, and the byte masks that the packet formats use.
use Prim.Native.Nat.{ℕ, zero, suc, ◌+◌, ◌*◌, ◌/◌, ◌%◌, ◌<◌, bit_and, bit_or}
use mathlib.Core.Path.{◌≡◌, refl}
use mathlib.Core.Bool.{Bool, true, ◌&&◌}
use mathlib.Core.List.{[], ◌∷◌}
use native.Mathlib.Omega.{arith}
use blueripple_passkey.Prelude.Tests.{◌==◌, ==_iff}
use blueripple_passkey.Prelude.Lists.{Bytes, get_or}

-- binary.BigEndian.PutUint16 and Uint16.
abbrev pub put_uint16 : ℕ → Bytes
put_uint16 n = (n / 256 % 256) ∷ (n % 256) ∷ []

abbrev pub uint16_at : Bytes → ℕ → ℕ
uint16_at b i = get_or b i 0 * 256 + get_or b (i + 1) 0

-- binary.BigEndian.PutUint32 and Uint32.
abbrev pub put_uint32 : ℕ → Bytes
put_uint32 n = (n / 16777216 % 256) ∷ (n / 65536 % 256) ∷ (n / 256 % 256) ∷ (n % 256) ∷ []

abbrev pub uint32_at : Bytes → ℕ → ℕ
uint32_at b i =
    get_or b i 0 * 16777216
    + get_or b (i + 1) 0 * 65536
    + get_or b (i + 2) 0 * 256
    + get_or b (i + 3) 0

-- Two functions are compared at every argument below a bound, by evaluation.
module _ (f g : ℕ → ℕ) where
  coincide : ℕ → Bool
  coincide zero = true
  coincide (suc top) = coincide top && (f top == g top)

  at_each : (bound b : ℕ) → coincide bound ≡ true → b < bound → f b ≡ g b
  unfolding coincide
  at_each zero b e small = absurd (omega arith)
  at_each (suc top) b e small = ground (arith, at_each top b, ==_iff (f top) (g top))

pub top_bit : (b : ℕ) → b < 256 → bit_and b 0x80 ≡ b / 128 * 128
unfolding coincide
top_bit b = at_each (λ x. bit_and x 0x80) (λ x. x / 128 * 128) 256 b refl

pub low_bits : (b : ℕ) → b < 256 → bit_and b 0x7f ≡ b % 128
unfolding coincide
low_bits b = at_each (λ x. bit_and x 0x7f) (λ x. x % 128) 256 b refl

pub set_top_bit : (b : ℕ) → b < 128 → bit_or b 0x80 ≡ b + 128
unfolding coincide
set_top_bit b = at_each (λ x. bit_or x 0x80) (λ x. x + 128) 128 b refl
