-- ===== src/Protocol/Framed.antt =====
-- The packets that the wire format can carry, and that `decode` yields nothing else.
use bitmancer.Prelude.{ℕ, ◌^◌, ◌≤◌, ◌<◌, ◌≡◌, ◌⊎◌, Option, none, some, List, length, All}
use bitmancer.Prelude.Bytes.{IsByte, IsBytes, IsArray}
use bitmancer.Protocol.Message.{Packet, max_framed_payload}

abbrev pub IsOptional {ℓ κ} : {A : Type ℓ} → (A → Type κ) → Option A → Type κ
IsOptional P none = Unit
IsOptional P (some a) = P a

-- A route of 1 to 255 hops, in version 2 only.
pub record IsRoute (version : ℕ) (hops : List (List ℕ)) : Type 0 where
  pub routed : version ≡ 2
  pub nonempty : 1 ≤ length hops
  pub fits : length hops ≤ 255
  pub arrays : All (IsArray 8) hops

-- The payload fits the length field and the decoder's bound.
pub record IsPayload (version : ℕ) (payload : List ℕ) : Type 0 where
  pub bytes : IsBytes payload
  pub bounded : length payload ≤ max_framed_payload
  pub fits : version ≡ 1 → length payload ≤ 65535

pub record IsFramed (p : Packet) : Type 0 where
  pub version : (p.version ≡ 1) ⊎ (p.version ≡ 2)
  pub msg_type : IsByte p.msg_type
  pub ttl : IsByte p.ttl
  pub timestamp : p.timestamp < 2 ^ 64
  pub sender : IsArray 8 p.sender_id
  pub recipient : IsOptional (IsArray 8) p.recipient_id
  pub payload : IsPayload p.version p.payload
  pub signature : IsOptional (IsArray 64) p.signature
  pub route : IsOptional (IsRoute p.version) p.route
