-- ===== src/Protocol/Decode.antt =====
-- src/protocol.rs: `decode_core` and `Packet::decode`. `decompress` is raw DEFLATE, of another
-- library, behind `compression::decompress`; it is a parameter.
use bitmancer.Prelude.{
  ℕ, ◌+◌, ◌-◌, ◌*◌, Bool, not, ◌&&◌, ◌||◌, Option, none, some, List, [], ◌∷◌, ltb, leb, ◌==◌, zero,
  suc, if◌then◌else◌, length, bit_and,
}
use bitmancer.Prelude.Bytes.{from_be_bytes}
use bitmancer.Protocol.Message.{
  Packet, v1_header_size, v2_header_size, sender_id_size, recipient_id_size, signature_size,
  max_framed_payload,
}
use bitmancer.Protocol.Encode.{has_recipient, has_signature, is_compressed, has_route, is_rsr_flag}
use bitmancer.Protocol.Padding.{unpad}
use bitmancer.Protocol.Reader.{Reader, pure, lift, check, ◌>>=◌, ◌>>◌, read_u8, read_slice}

-- The fields that stand before the sender.
pub record Header : Type 0 where
  pub version : ℕ
  pub msg_type : ℕ
  pub ttl : ℕ
  pub timestamp : ℕ
  pub flags : ℕ
  pub payload_length : ℕ

abbrev pub length_field_bytes : ℕ → ℕ
length_field_bytes version = if version == 2 then 4 else 2

abbrev pub header_size : ℕ → ℕ
header_size version = if version == 2 then v2_header_size else v1_header_size

-- `flag_byte & flag != 0`
abbrev pub has_flag : ℕ → ℕ → Bool
has_flag byte flag = not (bit_and byte flag == 0)

-- A length field, or the original size before compressed bytes.
unfoldable pub read_length : ℕ → Reader ℕ
read_length version = do bytes ← read_slice (length_field_bytes version); pure (from_be_bytes bytes)

-- `size` is `raw.len()`.
unfoldable pub decode_header : ℕ → Reader Header
unfolding read_length
decode_header size = do
  version ← read_u8
  check (version == 1 || version == 2)
  check (leb (header_size version + sender_id_size) size)
  msg_type ← read_u8
  ttl ← read_u8
  timestamp_bytes ← read_slice 8
  flags ← read_u8
  payload_length ← read_length version
  check (leb payload_length max_framed_payload)
  pure (record {
    version = version;
    msg_type = msg_type;
    ttl = ttl;
    timestamp = from_be_bytes timestamp_bytes;
    flags = flags;
    payload_length = payload_length;
  })

unfoldable pub decode_recipient : Bool → Reader (Option (List ℕ))
decode_recipient has =
    if has then (do id ← read_slice recipient_id_size; pure (some id)) else pure none

unfoldable pub decode_hops : ℕ → Reader (List (List ℕ))
decode_hops zero = pure []
decode_hops (suc n) = do hop ← read_slice sender_id_size; hops ← decode_hops n; pure (hop ∷ hops)

unfoldable pub decode_route : Bool → Reader (Option (List (List ℕ)))
unfolding decode_hops
decode_route has =
    if has
    then (do
      hop_count ← read_u8
      if hop_count == 0 then pure none else do hops ← decode_hops hop_count; pure (some hops))
    else pure none

unfoldable pub decode_signature : Bool → Reader (Option (List ℕ))
decode_signature has =
    if has then (do signature ← read_slice signature_size; pure (some signature)) else pure none

-- What follows the frame is not looked at.
abbrev pub packet_of : Option (Packet × List ℕ) → Option Packet
packet_of none = none
packet_of (some (p, rest)) = some p

abbrev pub or_else : Option Packet → Option Packet → Option Packet
or_else none q = q
or_else (some p) q = some p

module _ (decompress : List ℕ → ℕ → Option (List ℕ)) where
  -- The quotient of `f64`s is above 50,000 exactly when the product test fails: both operands are
  -- below 2 ^ 24, so they are exact, and rounding cannot cross the whole number.
  unfoldable pub decode_compressed : ℕ → ℕ → Reader (List ℕ)
  unfolding read_length
  decode_compressed version payload_length = do
    check (leb (length_field_bytes version) payload_length)
    original_size ← read_length version
    check (leb original_size max_framed_payload)
    let compressed_size = payload_length - length_field_bytes version
    check (not (compressed_size == 0))
    compressed ← read_slice compressed_size
    check (leb original_size (50000 * compressed_size))
    decompressed ← lift (decompress compressed original_size)
    check (length decompressed == original_size)
    pure decompressed

  unfoldable pub decode_payload : Bool → ℕ → ℕ → Reader (List ℕ)
  unfolding decode_compressed
  decode_payload compressed version payload_length =
      if compressed then decode_compressed version payload_length else read_slice payload_length

  unfoldable pub decode_body : Header → Reader Packet
  unfolding decode_recipient decode_route decode_signature decode_payload
  decode_body h = do
    sender_id ← read_slice sender_id_size
    recipient_id ← decode_recipient (has_flag h.flags has_recipient)
    route ← decode_route (leb 2 h.version && has_flag h.flags has_route)
    payload ← decode_payload (has_flag h.flags is_compressed) h.version h.payload_length
    signature ← decode_signature (has_flag h.flags has_signature)
    pure (record {
      version = h.version;
      msg_type = h.msg_type;
      ttl = h.ttl;
      timestamp = h.timestamp;
      sender_id = sender_id;
      recipient_id = recipient_id;
      payload = payload;
      signature = signature;
      route = route;
      is_rsr = has_flag h.flags is_rsr_flag;
    })

  unfoldable pub decode_frame : ℕ → Reader Packet
  unfolding decode_header decode_body
  decode_frame size = do h ← decode_header size; decode_body h

  unfoldable pub decode_core : List ℕ → Option Packet
  decode_core raw =
      if ltb (length raw) (v1_header_size + sender_id_size)
      then none
      else packet_of (decode_frame (length raw) raw)

  -- The bytes as they are first, then without their padding.
  unfoldable pub decode : List ℕ → Option Packet
  unfolding decode_core
  decode bytes =
      let unpadded = unpad bytes in
      or_else (decode_core bytes)
        (if length unpadded == length bytes then none else decode_core unpadded)
