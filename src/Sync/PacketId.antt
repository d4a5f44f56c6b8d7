-- ===== src/Sync/PacketId.antt =====
-- The identity of a packet in gossip sync (src/sync/packet_id.rs). `sha256` is the digest of the
-- `sha2` library, a parameter.
use bitmancer.Prelude.{ℕ, List, [], ◌∷◌, ◌++◌, take}
use bitmancer.Prelude.Bytes.{to_be_bytes}
use bitmancer.Protocol.Message.{Packet}

abbrev pub packet_id_len : ℕ
packet_id_len = 16

module _ (sha256 : List ℕ → List ℕ) where
  unfoldable pub packet_id : Packet → List ℕ
  packet_id p =
      take packet_id_len
        (sha256 ((p.msg_type ∷ []) ++ p.sender_id ++ to_be_bytes 8 p.timestamp ++ p.payload))
