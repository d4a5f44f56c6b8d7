-- ===== src/Courier/Wire.antt =====
-- The wire form of an envelope (src/courier.rs) is read back.
use bitmancer.Prelude.{
  ℕ, ◌^◌, ◌≤◌, ◌<◌, min, max, ◌≡◌, refl, ◌∙◌, ap, true, Option, none, some, List, [], ◌∷◌, ◌++◌,
  inl, inr, ltb, length, ◌>>=◌, arith, Bool-cases, append-nil,
}
use bitmancer.Prelude.Bytes.{to_be_bytes, length-to_be_bytes, from_be_bytes-to_be_bytes}
use bitmancer.Prelude.Tlv.{push_tlv, read_all, read_all-push_tlv}
use bitmancer.Courier.{
  Envelope, is_sized, new_envelope, encode_envelope, decode_envelope, copies_field, prekey_field,
  Found, nothing_found, read_envelope_field, complete_envelope, max_copies,
}

abbrev pub IsPrekey : Option ℕ → Type 0
IsPrekey none = Unit
IsPrekey (some prekey_id) = prekey_id < 2 ^ 32

-- An envelope that can be sent.
pub record IsEnvelope (envelope : Envelope) : Type 0 where
  pub tag : length envelope.recipient_tag ≡ 16
  pub expiry : envelope.expiry_ms < 2 ^ 64
  pub text : 0 < length envelope.ciphertext
  pub sized : length envelope.ciphertext ≤ 16384
  pub some_copies : 0 < envelope.copies
  pub few_copies : envelope.copies ≤ 8
  pub prekey : IsPrekey envelope.prekey_id

abbrev read_found : List ℕ → Found → Option Found
read_found = read_all read_envelope_field

past_tag :
    (value rest : List ℕ) (f : Found)
    → length value ≡ 16
    → read_found (push_tlv 1 value ++ rest) f
      ≡ read_found rest (record f { found_tag = some value })
past_tag value rest f h =
    read_all-push_tlv read_envelope_field 1 value rest f _ (omega (arith, h))
      (unfold read_envelope_field in ground (arith, h))

past_expiry :
    (n : ℕ) (rest : List ℕ) (f : Found)
    → n < 2 ^ 64
    → read_found (push_tlv 2 (to_be_bytes 8 n) ++ rest) f
      ≡ read_found rest (record f { found_expiry = some n })
past_expiry n rest f h =
    read_all-push_tlv read_envelope_field 2 (to_be_bytes 8 n) rest f _
      (omega (arith, length-to_be_bytes 8 n))
      (unfold read_envelope_field in
        ground (arith, length-to_be_bytes 8 n, from_be_bytes-to_be_bytes 8 n h))

past_text :
    (value rest : List ℕ) (f : Found)
    → 0 < length value
    → length value ≤ 16384
    → read_found (push_tlv 3 value ++ rest) f
      ≡ read_found rest (record f { found_ciphertext = some value })
past_text value rest f h k =
    read_all-push_tlv read_envelope_field 3 value rest f _ (omega (arith, k))
      (unfold read_envelope_field in ground (arith, h, k))

past_copies :
    (copies : ℕ) (rest : List ℕ) (f : Found)
    → 0 < copies
    → f.found_copies ≡ 1
    → read_found (copies_field copies ++ rest) f
      ≡ read_found rest (record f { found_copies = copies })
past_copies copies rest f h k = elim (Bool-cases (ltb 1 copies)) [
  | inl several ↦ rw several (
      read_all-push_tlv read_envelope_field 4 (copies ∷ []) rest f _ (omega arith)
        (unfold read_envelope_field in refl))
  | inr single ↦
      let one : f.found_copies ≡ copies = ground (arith, h, k, single) in
      rw single (rw (← one) refl)
]

past_prekey :
    (prekey : Option ℕ) (f : Found)
    → IsPrekey prekey
    → f.found_prekey ≡ none
    → read_found (prekey_field prekey) f ≡ some (record f { found_prekey = prekey })
past_prekey none f h k = unfold read_all in rw (← k) refl
past_prekey (some n) f h k = rw (← append-nil (push_tlv 5 (to_be_bytes 4 n))) (
    read_all-push_tlv read_envelope_field 5 (to_be_bytes 4 n) [] f
      (record f { found_prekey = some n }) (omega (arith, length-to_be_bytes 4 n))
      (unfold read_envelope_field in
        ground (arith, length-to_be_bytes 4 n, from_be_bytes-to_be_bytes 4 n h))
    ∙ unfold read_all in refl)

abbrev wire : Envelope → List ℕ
wire envelope =
    push_tlv 1 envelope.recipient_tag
    ++ (push_tlv 2 (to_be_bytes 8 envelope.expiry_ms)
        ++ (push_tlv 3 envelope.ciphertext
            ++ (copies_field envelope.copies ++ prekey_field envelope.prekey_id)))

found_in : Envelope → Found
found_in envelope = record {
  found_tag = some envelope.recipient_tag;
  found_expiry = some envelope.expiry_ms;
  found_ciphertext = some envelope.ciphertext;
  found_copies = envelope.copies;
  found_prekey = envelope.prekey_id;
}

fields_read :
    (envelope : Envelope)
    → IsEnvelope envelope
    → read_found (wire envelope) nothing_found ≡ some (found_in envelope)
unfolding found_in
fields_read envelope h =
    past_tag envelope.recipient_tag _ nothing_found h.tag
    ∙ past_expiry envelope.expiry_ms _
        (record nothing_found { found_tag = some envelope.recipient_tag }) h.expiry
    ∙ past_text envelope.ciphertext _
        (record nothing_found {
          found_tag = some envelope.recipient_tag;
          found_expiry = some envelope.expiry_ms;
        })
        h.text h.sized
    ∙ past_copies envelope.copies (prekey_field envelope.prekey_id)
        (record nothing_found {
          found_tag = some envelope.recipient_tag;
          found_expiry = some envelope.expiry_ms;
          found_ciphertext = some envelope.ciphertext;
        })
        h.some_copies refl
    ∙ past_prekey envelope.prekey_id
        (record nothing_found {
          found_tag = some envelope.recipient_tag;
          found_expiry = some envelope.expiry_ms;
          found_ciphertext = some envelope.ciphertext;
          found_copies = envelope.copies;
        })
        h.prekey refl

complete-found_in :
    (envelope : Envelope)
    → IsEnvelope envelope
    → complete_envelope (found_in envelope) ≡ some envelope
unfolding complete_envelope new_envelope found_in
complete-found_in envelope h =
    let clamped : min (max envelope.copies 1) max_copies ≡ envelope.copies =
      omega (arith, h.some_copies, h.few_copies) in
    let sized : is_sized envelope.ciphertext ≡ true = ground (arith, h.text, h.sized) in
    rw (sized, clamped) refl

-- An envelope that can be sent is encoded, and decoding the bytes yields the envelope again, its copy
-- budget included, also when that is left out because it is 1.
pub decode-encode_envelope :
    (envelope : Envelope)
    → IsEnvelope envelope
    → (bytes : List ℕ) × (encode_envelope envelope ≡ some bytes)
      × (decode_envelope bytes ≡ some envelope)
unfolding encode_envelope decode_envelope
decode-encode_envelope envelope h =
    let sized : is_sized envelope.ciphertext ≡ true = ground (arith, h.text, h.sized) in
    (
      wire envelope,
      rw sized refl,
      ap (λ o. o >>= complete_envelope) (fields_read envelope h) ∙ complete-found_in envelope h,
    )
