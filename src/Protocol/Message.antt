-- ===== src/Protocol/Message.antt =====
-- src/protocol.rs: the outer packet type byte, the packet, and its small methods.
use bitmancer.Prelude.{
  ℕ, ◌*◌, ◌≡◌, refl, Bool, true, false, Option, none, some, List, arith, ◌==◌, if◌then◌else◌,
  replicate,
}
use bitmancer.Prelude.Keys.{bytes_beq}

abbrev pub v1_header_size : ℕ
v1_header_size = 14

abbrev pub v2_header_size : ℕ
v2_header_size = 16

abbrev pub sender_id_size : ℕ
sender_id_size = 8

abbrev pub recipient_id_size : ℕ
recipient_id_size = 8

abbrev pub signature_size : ℕ
signature_size = 64

abbrev pub max_framed_payload : ℕ
max_framed_payload = 8 * 1024 * 1024

abbrev pub broadcast_recipient : List ℕ
broadcast_recipient = replicate 8 0xff

pub data MessageType : Type 0 where
  announce message leave courier_envelope noise_handshake noise_encrypted fragment : MessageType
  request_sync file_transfer board_post prekey_bundle group_message ping pong : MessageType
  nostr_carrier voice_frame : MessageType

-- The discriminants, `message_type as u8`.
unfoldable pub to_u8 : MessageType → ℕ
to_u8 announce = 0x01
to_u8 message = 0x02
to_u8 leave = 0x03
to_u8 courier_envelope = 0x04
to_u8 noise_handshake = 0x10
to_u8 noise_encrypted = 0x11
to_u8 fragment = 0x20
to_u8 request_sync = 0x21
to_u8 file_transfer = 0x22
to_u8 board_post = 0x23
to_u8 prekey_bundle = 0x24
to_u8 group_message = 0x25
to_u8 ping = 0x26
to_u8 pong = 0x27
to_u8 nostr_carrier = 0x28
to_u8 voice_frame = 0x29

unfoldable pub from_u8 : ℕ → Option MessageType
from_u8 value =
    if value == 0x01
    then some announce
    else if value == 0x02
    then some message
    else if value == 0x03
    then some leave
    else if value == 0x04
    then some courier_envelope
    else if value == 0x10
    then some noise_handshake
    else if value == 0x11
    then some noise_encrypted
    else if value == 0x20
    then some fragment
    else if value == 0x21
    then some request_sync
    else if value == 0x22
    then some file_transfer
    else if value == 0x23
    then some board_post
    else if value == 0x24
    then some prekey_bundle
    else if value == 0x25
    then some group_message
    else if value == 0x26
    then some ping
    else if value == 0x27
    then some pong
    else if value == 0x28
    then some nostr_carrier
    else if value == 0x29
    then some voice_frame
    else none

-- An array `[u8; 8]` is a list of eight bytes.
pub record Packet : Type 0 where
  pub version : ℕ
  pub msg_type : ℕ
  pub ttl : ℕ
  pub timestamp : ℕ
  pub sender_id : List ℕ
  pub recipient_id : Option (List ℕ)
  pub payload : List ℕ
  pub signature : Option (List ℕ)
  pub route : Option (List (List ℕ))
  pub is_rsr : Bool

-- `now` is what `now_millis` returns.
unfoldable pub new : ℕ → MessageType → List ℕ → List ℕ → ℕ → Packet
unfolding to_u8
new now msg_type sender_id payload ttl = record {
  version = 1;
  msg_type = to_u8 msg_type;
  ttl = ttl;
  timestamp = now;
  sender_id = sender_id;
  recipient_id = none;
  payload = payload;
  signature = none;
  route = none;
  is_rsr = false;
}

unfoldable pub with_recipient : Packet → List ℕ → Packet
with_recipient p recipient = record p { recipient_id = some recipient }

unfoldable pub parsed_type : Packet → Option MessageType
unfolding from_u8
parsed_type p = from_u8 p.msg_type

unfoldable pub is_broadcast : Packet → Bool
is_broadcast p = elim p.recipient_id [ none ↦ true | some id ↦ bytes_beq id broadcast_recipient ]

-- Every type is read back from its byte.
pub from_u8-to_u8 : (t : MessageType) → from_u8 (to_u8 t) ≡ some t
unfolding from_u8 to_u8
from_u8-to_u8 announce = refl
from_u8-to_u8 _ = refl

-- A byte that parses is the byte of the type it parses to.
pub to_u8-from_u8 : (b : ℕ) (t : MessageType) → from_u8 b ≡ some t → to_u8 t ≡ b
unfolding from_u8 to_u8
to_u8-from_u8 b t h = ground arith
