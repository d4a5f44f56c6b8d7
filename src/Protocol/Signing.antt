-- ===== src/Protocol/Signing.antt =====
-- `Packet::signing_bytes` of src/protocol.rs: what the signature of a packet covers.
use bitmancer.Prelude.{
  ℕ, ◌-◌, ◌≡◌, refl, ap, true, false, Option, none, some, List, [], arith, append-nil,
}
use bitmancer.Protocol.Message.{Packet}
use bitmancer.Protocol.Encode.{encode, signing_bytes}
use bitmancer.Protocol.Decode.{decode}
use bitmancer.Protocol.Framed.{IsFramed}
use bitmancer.Protocol.RoundTrip.{decode-encode}

abbrev unsigned : Packet → Packet
unsigned p = record p { signature = none; ttl = 0; is_rsr = false }

unsigned-IsFramed : (p : Packet) → IsFramed p → IsFramed (unsigned p)
unsigned-IsFramed p h = record {
  version = h.version;
  msg_type = h.msg_type;
  ttl = omega arith;
  timestamp = h.timestamp;
  sender = h.sender;
  recipient = h.recipient;
  payload = h.payload;
  signature = tt;
  route = h.route;
}

-- Equality of packets up to the hop count, the signature and the response flag.
pub record SameSigned (p q : Packet) : Type 0 where
  pub version : p.version ≡ q.version
  pub msg_type : p.msg_type ≡ q.msg_type
  pub timestamp : p.timestamp ≡ q.timestamp
  pub sender_id : p.sender_id ≡ q.sender_id
  pub recipient_id : p.recipient_id ≡ q.recipient_id
  pub payload : p.payload ≡ q.payload
  pub route : p.route ≡ q.route

SameSigned-unsigned : (p q : Packet) → unsigned p ≡ unsigned q → SameSigned p q
SameSigned-unsigned p q e = record {
  version = ap (λ (r : Packet). r.version) e;
  msg_type = ap (λ (r : Packet). r.msg_type) e;
  timestamp = ap (λ (r : Packet). r.timestamp) e;
  sender_id = ap (λ (r : Packet). r.sender_id) e;
  recipient_id = ap (λ (r : Packet). r.recipient_id) e;
  payload = ap (λ (r : Packet). r.payload) e;
  route = ap (λ (r : Packet). r.route) e;
}

decode_signed :
    (p : Packet)
    → IsFramed p
    → (bytes : List ℕ) × (signing_bytes p ≡ some bytes)
      × (decode (λ _ _. none) bytes ≡ some (unsigned p))
unfolding signing_bytes
decode_signed p h =
    let (bytes, e, d) = decode-encode (λ _ _. none) (unsigned p) true [] (unsigned-IsFramed p h) in
    (bytes, e, rw append-nil at d)

-- Two packets that the wire format can carry are signed over the same bytes only if they agree in
-- version, type, timestamp, sender, recipient, payload and route.
pub signing_bytes-injective :
    (p q : Packet) → IsFramed p → IsFramed q → signing_bytes p ≡ signing_bytes q → SameSigned p q
signing_bytes-injective p q h k e =
    let (b, e1, d1) = decode_signed p h in
    let (c, e2, d2) = decode_signed q k in SameSigned-unsigned p q (cc (e, e1, e2, d1, d2))

pub one_hop_less : (p : Packet) → IsFramed p → IsFramed (record p { ttl = p.ttl - 1 })
one_hop_less p h = record {
  version = h.version;
  msg_type = h.msg_type;
  ttl = omega (arith, h.ttl);
  timestamp = h.timestamp;
  sender = h.sender;
  recipient = h.recipient;
  payload = h.payload;
  signature = h.signature;
  route = h.route;
}

-- The frame of a relayed packet: it is encoded with one hop less, decodes to that, and has the
-- signed bytes that it had.
pub relayed_frame :
    (decompress : List ℕ → ℕ → Option (List ℕ)) (p : Packet)
    → IsFramed p
    → let onward : Packet = record p { ttl = p.ttl - 1 } in
      (bytes : List ℕ) × (encode onward ≡ some bytes)
      × (decode decompress bytes ≡ some onward)
      × (signing_bytes onward ≡ signing_bytes p)
unfolding signing_bytes encode
relayed_frame decompress p f =
    let onward : Packet = record p { ttl = p.ttl - 1 } in
    let (bytes, e1, d1) = decode-encode decompress onward true [] (one_hop_less p f) in
    (bytes, e1, rw append-nil at d1, refl)
