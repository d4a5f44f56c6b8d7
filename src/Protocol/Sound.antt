-- ===== src/Protocol/Sound.antt =====
-- Whatever `decode` of src/protocol.rs accepts is a packet that the wire format can carry.
use bitmancer.Prelude.{
  ℕ, ◌+◌, ◌-◌, ◌*◌, ◌^◌, ◌≤◌, ◌<◌, ◌≡◌, refl, ◌⊎◌, inl, inr, Bool, true, false, not, ◌&&◌, ◌||◌,
  Option, none, some, List, arith, ltb, leb, ◌==◌, zero, suc, if◌then◌else◌, length, All, leb→le,
  All-take, take,
}
use bitmancer.Prelude.Bytes.{IsByte, IsBytes, IsArray, from_be_bytes, from_be_bytes_bound}
use bitmancer.Protocol.Message.{Packet, max_framed_payload, sender_id_size}
use bitmancer.Protocol.Padding.{unpad, last?, strip}
use bitmancer.Protocol.Reader.{
  Ensures, Ensures-pure, Ensures-lift, Ensures-if, Ensures-read_u8, Ensures-read_slice,
  Ensures-bind, Ensures-check, Ensures-weaken, Post, read_slice,
}
use bitmancer.Protocol.Decode.{
  Header, length_field_bytes, header_size, read_length, decode_header, decode_recipient,
  decode_hops, decode_route, decode_signature, decode_compressed, decode_payload, decode_body,
  decode_frame, decode_core, decode, packet_of, or_else,
}
use bitmancer.Protocol.Framed.{IsOptional, IsRoute, IsPayload, IsFramed}

abbrev FitsLength : ℕ → ℕ → Type 0
FitsLength version n = version ≡ 1 → n ≤ 65535

length_fits :
    (version : ℕ) (bs : List ℕ)
    → IsArray (length_field_bytes version) bs
    → FitsLength version (from_be_bytes bs)
length_fits version bs h e = omega (arith, from_be_bytes_bound 2 bs (h.0, ground (arith, h.1)))

read_length-Ensures : (version : ℕ) → Ensures (FitsLength version) (read_length version)
unfolding read_length
read_length-Ensures version =
    Ensures-bind _ _ (Ensures-read_slice _) (λ bs h. Ensures-pure _ (length_fits version bs h))

record IsHeader (h : Header) : Type 0 where
  version : (h.version ≡ 1) ⊎ (h.version ≡ 2)
  msg_type : IsByte h.msg_type
  ttl : IsByte h.ttl
  timestamp : h.timestamp < 2 ^ 64
  fits : FitsLength h.version h.payload_length
  bounded : h.payload_length ≤ max_framed_payload

version_cases : (v : ℕ) → (v == 1 || v == 2) ≡ true → (v ≡ 1) ⊎ (v ≡ 2)
version_cases v h = ground arith

decode_header-Ensures : (size : ℕ) → Ensures IsHeader (decode_header size)
unfolding decode_header
decode_header-Ensures size = Ensures-bind _ _ Ensures-read_u8 λ version v.
    Ensures-check (version == 1 || version == 2) _ λ is_version.
      Ensures-check (leb (header_size version + sender_id_size) size) _ λ _.
        Ensures-bind _ _ Ensures-read_u8 λ msg_type m. Ensures-bind _ _ Ensures-read_u8 λ ttl t.
          Ensures-bind _ _ (Ensures-read_slice 8) λ stamp s.
            Ensures-bind _ _ Ensures-read_u8 λ flags f.
              Ensures-bind _ _ (read_length-Ensures version) λ payload_length fits.
                Ensures-check (leb payload_length max_framed_payload) _ λ bounded.
                  Ensures-pure _ (record {
                    version = version_cases version is_version;
                    msg_type = m;
                    ttl = t;
                    timestamp = omega (arith, from_be_bytes_bound 8 stamp s);
                    fits = fits;
                    bounded = leb→le _ _ bounded;
                  })

decode_recipient-Ensures : (has : Bool) → Ensures (IsOptional (IsArray 8)) (decode_recipient has)
unfolding decode_recipient
decode_recipient-Ensures true = Ensures-bind _ _ (Ensures-read_slice 8) λ id h. Ensures-pure _ h
decode_recipient-Ensures false = Ensures-pure _ tt

decode_signature-Ensures : (has : Bool) → Ensures (IsOptional (IsArray 64)) (decode_signature has)
unfolding decode_signature
decode_signature-Ensures true = Ensures-bind _ _ (Ensures-read_slice 64) λ s h. Ensures-pure _ h
decode_signature-Ensures false = Ensures-pure _ tt

abbrev AreHops : ℕ → List (List ℕ) → Type 0
AreHops n hops = All (IsArray 8) hops × (length hops ≡ n)

decode_hops-Ensures : (n : ℕ) → Ensures (AreHops n) (decode_hops n)
unfolding decode_hops
decode_hops-Ensures zero = Ensures-pure _ (tt, refl)
decode_hops-Ensures (suc n) = Ensures-bind _ _ (Ensures-read_slice 8) λ hop h.
    Ensures-bind _ _ (decode_hops-Ensures n)
      λ hops hs. Ensures-pure _ ((h, hs.0), omega (arith, hs.1))

decode_route-Ensures :
    (version : ℕ) (has : Bool)
    → (has ≡ true → version ≡ 2)
    → Ensures (IsOptional (IsRoute version)) (decode_route has)
unfolding decode_route
decode_route-Ensures version false h = Ensures-pure _ tt
decode_route-Ensures version true h = Ensures-bind _ _ Ensures-read_u8 λ count small.
    Ensures-if (count == 0) _ _ (λ _. Ensures-pure _ tt)
      λ some_hops. Ensures-bind _ _ (decode_hops-Ensures count) λ hops hs. Ensures-pure _ (record {
        routed = h refl;
        nonempty = ground (arith, hs.1);
        fits = omega (arith, hs.1);
        arrays = hs.0;
      })

-- Inflated data are bytes.
abbrev pub YieldsBytes : (List ℕ → ℕ → Option (List ℕ)) → Type 0
YieldsBytes decompress =
    (bytes : List ℕ) (size : ℕ) (out : List ℕ) → decompress bytes size ≡ some out → IsBytes out

routed_version : (v : ℕ) (flag : Bool) → (v ≡ 1) ⊎ (v ≡ 2) → (leb 2 v && flag) ≡ true → v ≡ 2
routed_version v flag h e = ground arith

if-IsOptional :
    (b : Bool) (o : Option Packet)
    → IsOptional IsFramed o
    → IsOptional IsFramed (if b then none else o)
if-IsOptional true o h = tt
if-IsOptional false o h = h

or_else-IsOptional :
    (o q : Option Packet)
    → IsOptional IsFramed o
    → IsOptional IsFramed q
    → IsOptional IsFramed (or_else o q)
or_else-IsOptional none q h k = k
or_else-IsOptional (some p) q h k = h

packet_of-IsOptional :
    (o : Option (Packet × List ℕ)) → Post IsFramed o → IsOptional IsFramed (packet_of o)
packet_of-IsOptional none h = tt
packet_of-IsOptional (some (p, rest)) h = h.0

strip-cases :
    (bytes : List ℕ) (n : ℕ)
    → (strip bytes n ≡ bytes) ⊎ (strip bytes n ≡ take (length bytes - n) bytes)
unfolding strip
strip-cases bytes n = ground arith

strip-IsBytes : (bytes : List ℕ) (n : ℕ) → IsBytes bytes → IsBytes (strip bytes n)
strip-IsBytes bytes n h = elim (strip-cases bytes n) [
  | inl e ↦ rw e h
  | inr e ↦ rw e (All-take IsByte (length bytes - n) bytes h)
]

unpad-IsBytes : (bytes : List ℕ) → IsBytes bytes → IsBytes (unpad bytes)
unfolding unpad
unpad-IsBytes bytes h =
    elim (last? bytes) as (λ o. IsBytes (elim o [ none ↦ bytes | some last ↦ strip bytes last ])) [
      | none ↦ h
      | some last ↦ strip-IsBytes bytes last h
    ]

module _ (decompress : List ℕ → ℕ → Option (List ℕ)) (yields : YieldsBytes decompress) where
  decode_compressed-Ensures :
      (version payload_length : ℕ)
      → Ensures (IsPayload version) (decode_compressed decompress version payload_length)
  unfolding decode_compressed
  decode_compressed-Ensures version payload_length =
      Ensures-check (leb (length_field_bytes version) payload_length) _ λ _.
        Ensures-bind _ _ (read_length-Ensures version) λ size fits.
          Ensures-check (leb size max_framed_payload) _ λ bounded.
            Ensures-check (not (payload_length - length_field_bytes version == 0)) _ λ _.
              Ensures-bind _ _ (Ensures-read_slice _) λ compressed _.
                Ensures-check (leb size (50000 * (payload_length - length_field_bytes version))) _
                  λ _.
                    Ensures-bind _ _
                      (Ensures-lift (decompress compressed size) (yields compressed size))
                      λ out bytes. Ensures-check (length out == size) _ λ exact.
                        Ensures-pure _ (record {
                          bytes = bytes;
                          bounded = ground (arith, bounded, exact);
                          fits = λ v1. ground (arith, fits v1, exact);
                        })

  decode_payload-Ensures :
      (compressed : Bool) (version n : ℕ)
      → FitsLength version n
      → n ≤ max_framed_payload
      → Ensures (IsPayload version) (decode_payload decompress compressed version n)
  unfolding decode_payload
  decode_payload-Ensures true version n fits bounded = decode_compressed-Ensures version n
  decode_payload-Ensures false version n fits bounded =
      Ensures-weaken (read_slice n)
        (λ payload h. record {
          bytes = h.0;
          bounded = omega (arith, h.1);
          fits = λ v1. omega (arith, h.1, fits v1);
        })
        (Ensures-read_slice n)

  decode_body-Ensures : (h : Header) → IsHeader h → Ensures IsFramed (decode_body decompress h)
  unfolding decode_body
  decode_body-Ensures h v = Ensures-bind _ _ (Ensures-read_slice 8) λ sender s.
      Ensures-bind _ _ (decode_recipient-Ensures _) λ recipient r.
        Ensures-bind _ _ (decode_route-Ensures h.version _ (routed_version h.version _ v.version))
          λ route rt.
            Ensures-bind _ _ (decode_payload-Ensures _ h.version h.payload_length v.fits v.bounded)
              λ payload p. Ensures-bind _ _ (decode_signature-Ensures _) λ signature g.
                Ensures-pure _ (record {
                  version = v.version;
                  msg_type = v.msg_type;
                  ttl = v.ttl;
                  timestamp = v.timestamp;
                  sender = s;
                  recipient = r;
                  payload = p;
                  signature = g;
                  route = rt;
                })

  decode_frame-Ensures : (size : ℕ) → Ensures IsFramed (decode_frame decompress size)
  unfolding decode_frame
  decode_frame-Ensures size =
      Ensures-bind _ _ (decode_header-Ensures size) λ h v. decode_body-Ensures h v

  decode_core-IsFramed :
      (raw : List ℕ) → IsBytes raw → IsOptional IsFramed (decode_core decompress raw)
  unfolding decode_core
  decode_core-IsFramed raw h =
      if-IsOptional (ltb (length raw) 22) _
        (packet_of-IsOptional _ ((decode_frame-Ensures (length raw)).at raw h))

  -- From bytes, `decode` yields a packet whose every field is in range: version 1 or 2, one-byte
  -- type and hop count, 64-bit timestamp, 8-byte sender and recipient, a payload of bytes within
  -- 8 MiB (65,535 bytes in version 1), a 64-byte signature, and in version 2 alone a route of 1
  -- to 255 hops of 8 bytes. The inflater is assumed to yield bytes.
  pub decode-IsFramed :
      (bytes : List ℕ) (p : Packet) → IsBytes bytes → decode decompress bytes ≡ some p → IsFramed p
  unfolding decode
  decode-IsFramed bytes p h e = rw e at (
      or_else-IsOptional (decode_core decompress bytes) _ (decode_core-IsFramed bytes h) (
        if-IsOptional (length (unpad bytes) == length bytes) _
          (decode_core-IsFramed (unpad bytes) (unpad-IsBytes bytes h))))
