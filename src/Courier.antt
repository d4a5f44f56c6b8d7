-- ===== src/Courier.antt =====
-- Sealed mail of src/courier.rs: the envelope and its wire form, sealing and opening, and the tags
-- by which a recipient's mail is recognised. Instants count milliseconds unless a name says seconds.
pub mod Wire
pub mod Sealing
use bitmancer.Prelude.{
  ℕ, zero, suc, ◌+◌, ◌-◌, ◌*◌, ◌/◌, ◌%◌, ◌^◌, min, max, Bool, true, false, not, ◌||◌, Option, none,
  some, List, [], ◌∷◌, ◌++◌, String, ltb, leb, ◌==◌, if◌then◌else◌, length, take, guard, ◌>>◌,
  ◌>>=◌,
}
use bitmancer.Prelude.Bytes.{to_be_bytes, from_be_bytes}
use bitmancer.Prelude.Tlv.{push_tlv, read_all}
use bitmancer.Prelude.Results.{Result, ok, err}
use bitmancer.Noise.{NoiseError}
use bitmancer.Noise.PublicKey.{validate_public_key}
use bitmancer.Noise.Symmetric.{Primitives, x}
use bitmancer.Noise.Handshake.{
  NoiseHandshakeState, initiator, responder, with_prologue, write_message, read_message, Step,
}

abbrev pub tag_bytes : ℕ
tag_bytes = 16

abbrev pub max_ciphertext_bytes : ℕ
max_ciphertext_bytes = 16 * 1024

abbrev pub max_lifetime_seconds : ℕ
max_lifetime_seconds = 24 * 60 * 60

abbrev pub max_copies : ℕ
max_copies = 8

-- `bitchat-courier-tag-v1`
abbrev pub tag_context : List ℕ
tag_context =
    b'b' ∷ b'i' ∷ b't' ∷ b'c' ∷ b'h' ∷ b'a' ∷ b't' ∷ b'-' ∷ b'c' ∷ b'o' ∷ b'u' ∷ b'r' ∷ b'i' ∷ b'e'
    ∷ b'r' ∷ b'-' ∷ b't' ∷ b'a' ∷ b'g' ∷ b'-' ∷ b'v' ∷ b'1' ∷ []

-- `bitchat-courier-v1`
abbrev pub seal_prologue : List ℕ
seal_prologue =
    b'b' ∷ b'i' ∷ b't' ∷ b'c' ∷ b'h' ∷ b'a' ∷ b't' ∷ b'-' ∷ b'c' ∷ b'o' ∷ b'u' ∷ b'r' ∷ b'i' ∷ b'e'
    ∷ b'r' ∷ b'-' ∷ b'v' ∷ b'1' ∷ []

pub record Envelope : Type 0 where
  pub recipient_tag : List ℕ
  pub expiry_ms : ℕ
  pub ciphertext : List ℕ
  pub copies : ℕ
  pub prekey_id : Option ℕ

-- A ciphertext that may travel.
abbrev pub is_sized : List ℕ → Bool
is_sized ciphertext = not (length ciphertext == 0 || ltb max_ciphertext_bytes (length ciphertext))

unfoldable pub new_envelope : List ℕ → ℕ → List ℕ → ℕ → Option ℕ → Option Envelope
new_envelope recipient_tag expiry_ms ciphertext copies prekey_id =
    if is_sized ciphertext
    then some (record {
      recipient_tag = recipient_tag;
      expiry_ms = expiry_ms;
      ciphertext = ciphertext;
      copies = min (max copies 1) max_copies;
      prekey_id = prekey_id;
    })
    else none

unfoldable pub is_expired : Envelope → ℕ → Bool
is_expired envelope now_ms = leb envelope.expiry_ms now_ms

unfoldable pub remaining_seconds : Envelope → ℕ → ℕ
remaining_seconds envelope now_ms = (envelope.expiry_ms - now_ms) / 1000

abbrev pub copies_field : ℕ → List ℕ
copies_field copies = if ltb 1 copies then push_tlv 4 (copies ∷ []) else []

abbrev pub prekey_field : Option ℕ → List ℕ
prekey_field none = []
prekey_field (some prekey_id) = push_tlv 5 (to_be_bytes 4 prekey_id)

unfoldable pub encode_envelope : Envelope → Option (List ℕ)
encode_envelope envelope =
    if is_sized envelope.ciphertext
    then some (
        push_tlv 1 envelope.recipient_tag
        ++ (push_tlv 2 (to_be_bytes 8 envelope.expiry_ms)
            ++ (push_tlv 3 envelope.ciphertext
                ++ (copies_field envelope.copies ++ prekey_field envelope.prekey_id))))
    else none

-- What the reader has found so far.
pub record Found : Type 0 where
  pub found_tag : Option (List ℕ)
  pub found_expiry : Option ℕ
  pub found_ciphertext : Option (List ℕ)
  pub found_copies : ℕ
  pub found_prekey : Option ℕ

abbrev pub nothing_found : Found
nothing_found = record {
  found_tag = none;
  found_expiry = none;
  found_ciphertext = none;
  found_copies = 1;
  found_prekey = none;
}

abbrev pub byte_of : List ℕ → Option ℕ
byte_of [] = none
byte_of (b ∷ []) = some b
byte_of (b ∷ c ∷ bs) = none

-- The arms of the match on the tag.
unfoldable pub read_envelope_field : ℕ → List ℕ → Found → Option Found
read_envelope_field tag value f =
    if tag == 1
    then guard (length value == tag_bytes) >> some (record f { found_tag = some value })
    else if tag == 2
    then guard (length value == 8) >> some (record f { found_expiry = some (from_be_bytes value) })
    else if tag == 3
    then guard (is_sized value) >> some (record f { found_ciphertext = some value })
    else if tag == 4
    then (byte_of value >>= λ b. some (record f { found_copies = b }))
    else if tag == 5
    then guard (length value == 4) >> some (record f { found_prekey = some (from_be_bytes value) })
    else some f

unfoldable pub complete_envelope : Found → Option Envelope
unfolding new_envelope
complete_envelope f = do
  recipient_tag ← f.found_tag
  expiry_ms ← f.found_expiry
  ciphertext ← f.found_ciphertext
  new_envelope recipient_tag expiry_ms ciphertext f.found_copies f.found_prekey

unfoldable pub decode_envelope : List ℕ → Option Envelope
unfolding complete_envelope read_envelope_field
decode_envelope bytes = read_all read_envelope_field bytes nothing_found >>= complete_envelope

-- `hex::encode` is a parameter.
unfoldable pub fingerprint : (List ℕ → List ℕ) → (List ℕ → String) → Envelope → String
fingerprint sha256 hex envelope = hex (
    take 16 (
      sha256 (envelope.recipient_tag ++ (to_be_bytes 8 envelope.expiry_ms ++ envelope.ciphertext))))

abbrev pub reply_of : Result NoiseError (List ℕ) → Option (List ℕ)
reply_of (ok bytes) = some bytes
reply_of (err bad) = none

abbrev pub opened_by : Step (List ℕ) → Option (List ℕ × List ℕ)
opened_by (h, ok payload) = h.remote_static_public >>= λ sender. some (payload, sender)
opened_by (h, err bad) = none

module _ (crypto : Primitives) where
  -- The random secret of the ephemeral key is an argument.
  unfoldable pub seal : List ℕ → List ℕ → List ℕ → List ℕ → Option (List ℕ)
  seal random payload recipient_static_key our_static = do
    recipient ← reply_of (validate_public_key recipient_static_key)
    reply_of
        (write_message crypto random payload
          (with_prologue crypto initiator x (some our_static) (some recipient) seal_prologue)).1

  unfoldable pub open_sealed : List ℕ → List ℕ → Option (List ℕ × List ℕ)
  open_sealed ciphertext our_static = opened_by (
      read_message crypto ciphertext
        (with_prologue crypto responder x (some our_static) none seal_prologue))

  unfoldable pub epoch_day : ℕ → ℕ
  epoch_day now_seconds = now_seconds / 86400 % 2 ^ 32

  unfoldable pub recipient_tag_of : List ℕ → ℕ → List ℕ
  recipient_tag_of noise_static_key day =
      take tag_bytes (crypto.hmac noise_static_key (tag_context ++ to_be_bytes 4 day))

  -- `saturating_add` on `u32`.
  unfoldable pub candidate_tags : List ℕ → ℕ → List (List ℕ)
  unfolding epoch_day recipient_tag_of
  candidate_tags noise_static_key now_seconds =
      let today = epoch_day now_seconds in
      recipient_tag_of noise_static_key (today - 1)
      ∷ recipient_tag_of noise_static_key today
      ∷ recipient_tag_of noise_static_key (min (today + 1) (2 ^ 32 - 1))
      ∷ []
