-- ===== src/Tests/Courier.antt =====
-- Runs of src/courier.rs.
use bitmancer.Prelude.{ℕ, ◌≡◌, refl, some, List, [], ◌∷◌, replicate, arith}
use bitmancer.Courier.{Envelope, encode_envelope, decode_envelope, seal, open_sealed}
use bitmancer.Courier.Wire.{IsEnvelope, decode-encode_envelope}
use bitmancer.Courier.Sealing.{mail_opens}
use bitmancer.Tests.Handshake.{toy, toy-IsPrimitives, toy-Seals}

-- A letter that may be handed on three times.
abbrev pub letter : Envelope
letter = record {
  recipient_tag = replicate 16 7;
  expiry_ms = 5000;
  ciphertext = 1 ∷ 2 ∷ 3 ∷ [];
  copies = 3;
  prekey_id = some 9;
}

letter-IsEnvelope : IsEnvelope letter
letter-IsEnvelope = record {
  tag = refl;
  expiry = omega arith;
  text = omega arith;
  sized = omega arith;
  some_copies = omega arith;
  few_copies = omega arith;
  prekey = omega arith;
}

decode-encode_envelope_example :
    (bytes : List ℕ) × (encode_envelope letter ≡ some bytes) × (decode_envelope bytes ≡ some letter)
decode-encode_envelope_example = decode-encode_envelope letter letter-IsEnvelope

-- The word "hi" sealed from the secret 1 to the secret 2.
mail_opens_example :
    (ciphertext : List ℕ) × (seal toy (3 ∷ []) (104 ∷ 105 ∷ []) (toy.public_key (2 ∷ [])) (1 ∷ [])
      ≡ some ciphertext)
    × (open_sealed toy ciphertext (2 ∷ []) ≡ some (104 ∷ 105 ∷ [], toy.public_key (1 ∷ [])))
mail_opens_example =
    mail_opens toy toy-IsPrimitives (3 ∷ []) (104 ∷ 105 ∷ []) (1 ∷ []) (2 ∷ []) toy-Seals
      (omega arith)
