-- ===== src/Tests/BackendTests.antt =====
-- Runs of the model of tpm.go, with a library whose calls all succeed.
use blueripple_passkey.Prelude.{
  ℕ, ◌≡◌, ◌↔◌, ◌≤◌, inr, refl, false, none, some, [], ◌∷◌, Bytes, replicate, arith,
}
use blueripple_passkey.Tpm.KeyHandle.{key_handle, parse_key_handle}
use blueripple_passkey.Tpm.KeyHandle.Oversized.{parse-key_handle_long}
use blueripple_passkey.Tpm.Backend.{
  Library, World, opened, closed, created, loaded, flushed, register_key, register_child, with_open,
  with_primary, with_loaded, flush_after, close_after, primary_key_tmpl, sign_asn1, counter,
}
use blueripple_passkey.Tpm.Backend.Oversized.{Makes, register_key_oversized}
use blueripple_passkey.Prelude.Outcome.{returned, refused}
use blueripple_passkey.Tpm.Backend.Resources.{held, all_given_back, counter-le}

abbrev one_byte : Bytes
one_byte = 1 ∷ []

abbrev library : Library ℕ
library = record {
  open_tpm = λ s. (s, false);
  random = λ s n. (s, some (replicate n 1));
  hkdf = λ seed info n. some (replicate n 2);
  create_primary = λ s template. (s, some 100);
  create_key = λ s p template. (s, some (one_byte, one_byte));
  load = λ s p public private. (s, some 101);
  read_public = λ s k. (s, some (one_byte, one_byte));
  sign_digest = λ s k digest. (s, some (one_byte, one_byte));
  flush_context = λ s k. (s, false);
  close = λ s. (s, false);
  marshal = λ rs. some one_byte;
}

abbrev idle : World ℕ
idle = record { tpm = 0; calls = [] }

register_calls :
    (register_key library idle one_byte).0.calls
    ≡ closed ∷ flushed 100 ∷ flushed 101 ∷ loaded 101 ∷ created 100 ∷ opened ∷ []
unfolding register_key with_open register_child with_primary with_loaded flush_after close_after
    primary_key_tmpl
register_calls = refl

all_given_back_example :
    (held (register_key library idle one_byte).0.calls ≡ some [])
    × (held
          (sign_asn1 library idle
            (key_handle one_byte one_byte one_byte)
            one_byte
            (replicate 32 0)).0.calls
        ≡ some [])
unfolding held
all_given_back_example =
    all_given_back library [] idle (key_handle one_byte one_byte one_byte) one_byte (replicate 32 0)
      refl

one_second_on :
    (counter 1700000000 ≤ counter 1700000001)
    × ((counter 1700000000 ≡ counter 1700000001) ↔ ◌≡◌ {A = ℕ} 1700000000 1700000001)
one_second_on = counter-le 1700000000 1700000001 (omega arith) (omega arith) (omega arith)

long_handle : parse_key_handle (key_handle one_byte (replicate 300 7) one_byte) ≡ none
long_handle = parse-key_handle_long one_byte (replicate 300 7) one_byte (inr (omega arith))

abbrev long_part : Bytes
long_part = replicate 300 7

abbrev oversized : Library ℕ
oversized = record library { create_key = λ s p template. (s, some (one_byte, long_part)) }

oversized-Makes : Makes oversized one_byte long_part
oversized-Makes = record {
  opens = λ s. refl;
  draws = λ s n. (replicate n 1, refl);
  derives = λ seed info n. (replicate n 2, refl);
  creates_primary = λ s t. (100, refl);
  creates = λ s p t. refl;
  loads = λ s p public private. (101, refl);
  reads = λ s k. ((one_byte, one_byte), refl);
}

register_key_oversized_example :
    (handle x y : Bytes) × ((register_key oversized idle one_byte).1 ≡ returned (handle, x, y))
    × ((w' : World ℕ) (app' digest : Bytes)
        → (sign_asn1 oversized w' handle app' digest).1 ≡ refused)
register_key_oversized_example =
    register_key_oversized oversized one_byte long_part oversized-Makes (inr (omega arith)) idle
      one_byte
