-- ===== src/Protocol/RoundTrip.antt =====
-- `Packet::decode` of src/protocol.rs reads back what `Packet::encode_with_padding` wrote.
use bitmancer.Prelude.{
  ℕ, ◌+◌, ◌-◌, ◌%◌, ◌≤◌, ◌≡◌, refl, ap, sym, ◌∙◌, ◌⊎◌, inl, inr, Bool, true, false, not, ◌&&◌, ◌||◌,
  Option, none, some, List, [], ◌∷◌, ◌++◌, arith, ltb, leb, ◌==◌, if◌then◌else◌, length,
  append_assoc, is_some, length-append, append-nil, replicate,
}
use bitmancer.Prelude.Bytes.{to_be_bytes, length-to_be_bytes, from_be_bytes-to_be_bytes}
use bitmancer.Protocol.Message.{Packet, sender_id_size}
use bitmancer.Protocol.Encode.{
  flag_byte, effective_route, recipient_bytes, route_bytes, signature_bytes, length_bytes,
  is_nonempty, frame, encode_with_padding,
}
use bitmancer.Protocol.Padding.{pad, optimal_block_size}
use bitmancer.Protocol.Reader.{pure, read_u8, read_slice, bind_step, check_step, read_slice-append}
use bitmancer.Protocol.Decode.{
  Header, header_size, read_length, decode_header, decode_payload, decode_body, decode_frame,
  decode_core, decode,
}
use bitmancer.Protocol.Framed.{IsOptional, IsRoute, IsFramed}
use bitmancer.Protocol.Fields.{
  read_length-length_bytes, flags_read, decode_recipient-bytes, decode_signature-bytes,
  effective_route-none, effective_route-some, decode_route-bytes,
}

abbrev header_of : Packet → Header
header_of p = record {
  version = p.version;
  msg_type = p.msg_type;
  ttl = p.ttl;
  timestamp = p.timestamp;
  flags =
      flag_byte (is_some p.recipient_id) (is_some p.signature)
        (is_nonempty (effective_route p) && leb 2 p.version) p.is_rsr;
  payload_length = length p.payload;
}

-- The bytes from the sender on.
abbrev body_onto : Packet → List ℕ → List ℕ
body_onto p rest =
    p.sender_id
    ++ (recipient_bytes p.recipient_id
        ++ (route_bytes (effective_route p)
            ++ (p.payload ++ (signature_bytes p.signature ++ rest))))

abbrev header_onto : Packet → List ℕ → List ℕ
header_onto p rest =
    p.version
    ∷ p.msg_type
    ∷ p.ttl
    ∷ (to_be_bytes 8 p.timestamp
        ++ ((header_of p).flags ∷ (length_bytes p.version (length p.payload) ++ rest)))

frame-append :
    (p : Packet) (rest : List ℕ)
    → frame p (effective_route p) ++ rest ≡ header_onto p (body_onto p rest)
unfolding frame
frame-append p rest = simp append_assoc

decode_header-onto :
    (p : Packet) (size : ℕ) (rest : List ℕ)
    → IsFramed p
    → header_size p.version + sender_id_size ≤ size
    → decode_header size (header_onto p rest) ≡ some (header_of p, rest)
unfolding decode_header read_u8 pure
decode_header-onto p size rest h fits =
    bind_step read_u8 _ _ _ p.version refl
    ∙ check_step _ _ _ (ground (arith, h.version))
    ∙ check_step _ _ _ (ground (arith, fits))
    ∙ bind_step read_u8 _ _ _ p.msg_type refl
    ∙ bind_step read_u8 _ _ _ p.ttl refl
    ∙ bind_step (read_slice 8) _ _ _ (to_be_bytes 8 p.timestamp)
        (read_slice-append 8 _ _ (length-to_be_bytes 8 _))
    ∙ bind_step read_u8 _ _ _ (header_of p).flags refl
    ∙ bind_step (read_length p.version) _ _ _ (length p.payload)
        (read_length-length_bytes p.version _ rest h.version h.payload.bounded h.payload.fits)
    ∙ check_step _ _ _ (ground (arith, h.payload.bounded))
    ∙ rw (from_be_bytes-to_be_bytes 8 p.timestamp (omega (arith, h.timestamp)))

both_tests : (a b : Bool) → (a && (b && a)) ≡ (b && a)
both_tests a b = ground arith

module _ (decompress : List ℕ → ℕ → Option (List ℕ)) where
  decode_body-onto :
      (p : Packet) (rest : List ℕ)
      → IsFramed p
      → decode_body decompress (header_of p) (body_onto p rest) ≡ some (p, rest)
  unfolding decode_body decode_payload pure
  decode_body-onto p rest h =
      let flags =
        flags_read (is_some p.recipient_id) (is_some p.signature)
          (is_nonempty (effective_route p) && leb 2 p.version) p.is_rsr in
      rw (flags.0, flags.1, flags.2, flags.3, flags.4, both_tests)
        (bind_step (read_slice 8) _ _ _ p.sender_id (read_slice-append 8 _ _ h.sender.1)
          ∙ bind_step _ _ _ _ p.recipient_id (decode_recipient-bytes p.recipient_id _ h.recipient)
          ∙ bind_step _ _ _ _ p.route (decode_route-bytes p _ p.route refl h.route)
          ∙ bind_step _ _ _ _ p.payload (read_slice-append (length p.payload) p.payload _ refl)
          ∙ bind_step _ _ _ _ p.signature (decode_signature-bytes p.signature rest h.signature))

-- The header and the sender are there, so the decoder's length tests pass.
length-header_onto :
    (p : Packet) (rest : List ℕ)
    → IsFramed p
    → header_size p.version + sender_id_size ≤ length (header_onto p (body_onto p rest))
unfolding length_bytes
length-header_onto p rest h = elim h.version [
  | inl e ↦ rw e (simp (length-append, length-to_be_bytes) (omega (arith, h.sender.1)))
  | inr e ↦ rw e (simp (length-append, length-to_be_bytes) (omega (arith, h.sender.1)))
]

length-effective_route : (p : Packet) → IsFramed p → length (effective_route p) ≤ 255
length-effective_route p h = go p.route refl h.route
  where
    go :
        (o : Option (List (List ℕ)))
        → p.route ≡ o
        → IsOptional (IsRoute p.version) o
        → length (effective_route p) ≤ 255
    go none e r = rw (effective_route-none p e) (omega arith)
    go (some hops) e r = rw (effective_route-some p hops r.routed e) r.fits

pad-cases :
    (bytes : List ℕ) (target : ℕ)
    → (pad bytes target ≡ bytes)
      ⊎ (pad bytes target
          ≡ bytes ++ replicate (target - length bytes) ((target - length bytes) % 256))
unfolding pad
pad-cases bytes target = ground arith

-- Padding only appends.
pad-append : (bytes : List ℕ) (target : ℕ) → (tail : List ℕ) × (pad bytes target ≡ bytes ++ tail)
pad-append bytes target = elim (pad-cases bytes target) [
  | inl e ↦ ([], e ∙ sym (append-nil bytes))
  | inr e ↦ (_, e)
]

guards_pass :
    (v n : ℕ)
    → (v ≡ 1) ⊎ (v ≡ 2)
    → (v ≡ 1 → n ≤ 65535)
    → ((v == 1 || v == 2) ≡ true) × (not (v == 1 && ltb 65535 n) ≡ true)
guards_pass v n h k = ground arith

-- A packet that the format can carry is encoded, as its frame with or without padding.
encode-frame :
    (p : Packet) (padding : Bool)
    → IsFramed p
    → (tail : List ℕ) × (encode_with_padding p padding ≡ some (frame p (effective_route p) ++ tail))
unfolding encode_with_padding
encode-frame p padding h =
    let guards = guards_pass p.version (length p.payload) h.version h.payload.fits in
    let routed : leb (length (effective_route p)) 255 ≡ true =
      ground (arith, length-effective_route p h) in
    rw (guards.0, routed, guards.1) (go padding)
  where
    bytes : List ℕ
    bytes = frame p (effective_route p)

    go :
        (padding : Bool)
        → (tail : List ℕ) × (some
              (if padding then pad bytes (optimal_block_size (length bytes)) else bytes)
            ≡ some (bytes ++ tail))
    go true =
        let (tail, e) = pad-append bytes (optimal_block_size (length bytes)) in (tail, ap some e)
    go false = ([], ap some (sym (append-nil bytes)))

module _ (decompress : List ℕ → ℕ → Option (List ℕ)) where
  decode_frame-onto :
      (p : Packet) (size : ℕ) (rest : List ℕ)
      → IsFramed p
      → header_size p.version + sender_id_size ≤ size
      → decode_frame decompress size (header_onto p (body_onto p rest)) ≡ some (p, rest)
  unfolding decode_frame
  decode_frame-onto p size rest h fits =
      bind_step (decode_header size) _ _ (body_onto p rest) (header_of p)
        (decode_header-onto p size (body_onto p rest) h fits)
      ∙ decode_body-onto decompress p rest h

  core_step :
      (raw rest : List ℕ) (p : Packet)
      → 22 ≤ length raw
      → decode_frame decompress (length raw) raw ≡ some (p, rest)
      → decode_core decompress raw ≡ some p
  unfolding decode_core
  core_step raw rest p h e = ground arith

  -- A frame is read back whatever follows it.
  pub decode_core-frame :
      (p : Packet) (rest : List ℕ)
      → IsFramed p
      → decode_core decompress (frame p (effective_route p) ++ rest) ≡ some p
  decode_core-frame p rest h =
      let fits = length-header_onto p rest h in
      rw frame-append
        (core_step _ rest p (ground (arith, fits)) (decode_frame-onto p _ rest h fits))

  decode_core→decode :
      (bytes : List ℕ) (p : Packet)
      → decode_core decompress bytes ≡ some p
      → decode decompress bytes ≡ some p
  unfolding decode
  decode_core→decode bytes p h = rw h

  -- Every packet that the wire format can carry is encoded, padded or not, and decoding the
  -- encoded bytes, with any bytes appended, yields the packet again.
  pub decode-encode :
      (p : Packet) (padding : Bool) (more : List ℕ)
      → IsFramed p
      → (bytes : List ℕ) × (encode_with_padding p padding ≡ some bytes)
        × (decode decompress (bytes ++ more) ≡ some p)
  decode-encode p padding more h =
      let (tail, e) = encode-frame p padding h in
      (
        frame p (effective_route p) ++ tail,
        e,
        decode_core→decode _ p (rw append_assoc (decode_core-frame p (tail ++ more) h)),
      )
