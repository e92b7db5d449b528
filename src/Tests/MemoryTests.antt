-- ===== src/Tests/MemoryTests.antt =====
-- Runs of the model of memory.go, with a cipher that puts key, nonce and additional data in front
-- of the text, and a source of ones.
use blueripple_passkey.Prelude.{
  ℕ, ◌+◌, ◌≡◌, ◌↔◌, refl, ap, sym, ◌∙◌, ◌++◌, if◌then◌else◌, not, Option, none, some, [], ◌∷◌,
  Bytes, arith, length, replicate, length-replicate, ◌==◌,
}
use blueripple_passkey.Prelude.Outcome.{returned}
use blueripple_passkey.Memory.{
  Library, Mem, counter, wrapping_sum, wrapped, register_key, sign_result, unwrap, sign_asn1,
}
use blueripple_passkey.Memory.Wrapping.{IsGcm, IsSource, unwrap_iff, register-sign}

-- The text behind a prefix, where it is there.
abbrev pub behind : Bytes → Bytes → Option Bytes
behind [] b = some b
behind (x ∷ p) [] = none
behind (x ∷ p) (y ∷ b) = if y == x then behind p b else none

behind-append : (p b : Bytes) → behind p (p ++ b) ≡ some b
behind-append [] b = refl
behind-append (x ∷ p) b = ground (arith, behind-append p b)

behind-some : (p b text : Bytes) → behind p b ≡ some text → b ≡ p ++ text
behind-some [] b text h = ground arith
behind-some (x ∷ p) [] text h = absurd (ground arith)
behind-some (x ∷ p) (y ∷ b) text h = ground (arith, behind-some p b text)

abbrev pub library : Library ℕ
library = record {
  random = λ s n. (s + 1, some (replicate n 1));
  generate_key = λ s. (s + 1, some (1 ∷ 2 ∷ [], 3 ∷ [], 4 ∷ []));
  sha256 = λ b. length b ∷ [];
  gcm_fails = λ k. not (length k == 32);
  nonce_size = 12;
  seal = λ k nonce text extra. (k ++ nonce ++ extra) ++ text;
  open_sealed = λ k nonce sealed extra. behind (k ++ nonce ++ extra) sealed;
  scalar_base_mult = λ d. (3 ∷ [], 4 ∷ []);
  sign = λ s d point digest. (s + 1, some (9 ∷ []));
}

pub gcm : IsGcm library
gcm = record {
  accepts = λ k h. ground arith;
  opens = λ k nonce text extra h. behind-append (k ++ nonce ++ extra) text;
  authentic = λ k nonce sealed extra text h. behind-some (k ++ nonce ++ extra) sealed text h;
}

ones_long : (s n : ℕ) (b : Bytes) → some (replicate n 1) ≡ some b → length b ≡ n
ones_long s n b h =
    let one : ℕ = 1 in
    let same : replicate n one ≡ b = cc in ap length (sym same) ∙ length-replicate n one

pair_of : (p q : Bytes × Bytes × Bytes) → some p ≡ some q → p ≡ q
pair_of p q h = cc

pub source : IsSource library
source = record {
  gives = λ s n b h. ones_long s n b h;
  pairs = λ s private x y h.
      ap (λ p. (p.1, p.2)) (pair_of (1 ∷ 2 ∷ [], 3 ∷ [], 4 ∷ []) (private, x, y) h);
}

abbrev mem : Mem
mem = record { master_private_key = replicate 32 5; sign_counter = 4294967295 }

abbrev app : Bytes
app = 8 ∷ []

abbrev handle : Bytes
handle = replicate 12 1 ++ (replicate 32 5 ++ replicate 12 1 ++ 18 ∷ []) ++ 1 ∷ 2 ∷ []

registers : register_key library mem 0 app ≡ (2, returned (handle, 3 ∷ [], 4 ∷ []))
unfolding register_key wrapped wrapping_sum
registers = refl

wraps_around : (counter mem).1 ≡ 0
unfolding counter
wraps_around = refl

unwrap_iff_example : (unwrap library mem handle app ≡ some (1 ∷ 2 ∷ [])) ↔ (
    (nonce : Bytes) × (length nonce ≡ 12) × (handle ≡ wrapped library mem app nonce (1 ∷ 2 ∷ [])))
unwrap_iff_example = unwrap_iff library gcm mem handle app (1 ∷ 2 ∷ []) refl

register-sign_example :
    (d : ℕ) × (library.scalar_base_mult d ≡ (3 ∷ [], 4 ∷ []))
    × (sign_asn1 library mem 7 handle app (replicate 32 0)
        ≡ sign_result library (library.sign 7 d (3 ∷ [], 4 ∷ []) (replicate 32 0)))
register-sign_example =
    register-sign library gcm mem source 0 2 7 app handle (3 ∷ []) (4 ∷ []) (replicate 32 0) refl
      registers refl
