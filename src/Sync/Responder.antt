-- ===== src/Sync/Responder.antt =====
-- Answering a sync request (src/sync/responder.rs).
use bitmancer.Prelude.{
  ℕ, ◌/◌, Bool, true, false, not, ◌&&◌, Option, none, some, List, [], ◌++◌, ltb, leb, if◌then◌else◌,
  length, take, filter, map,
}
use bitmancer.Prelude.Keys.{bytes_eq}
use bitmancer.Prelude.Sets.{contains}
use bitmancer.Protocol.Message.{MessageType, Packet}
use bitmancer.Sync.PacketId.{packet_id}
use bitmancer.Sync.Gcs.{decode_to_sorted_set, contains_value, bucket}
use bitmancer.Sync.TypeFlags.{has_type}
use bitmancer.Sync.Request.{RequestSync, requested_types, decode_fragment_id_filter}
use bitmancer.Sync.Archive.{Archive, of_message, of_fragment, of_file, fresh, fresh_announces}

-- `LINK_INBOX_DEPTH / 2`
abbrev pub max_replies_per_round : ℕ
max_replies_per_round = 64 / 2

unfoldable pub before_cursor : Packet → Option ℕ → Bool
before_cursor packet none = false
before_cursor packet (some since) = ltb packet.timestamp since

unfoldable pub as_reply : Packet → Packet
as_reply packet = record packet { ttl = 0; is_rsr = true }

-- `payload.get(..8)`
abbrev pub stream_of : List ℕ → Option (List ℕ)
stream_of payload = if leb 8 (length payload) then some (take 8 payload) else none

abbrev pub is_among : List (List ℕ) → Option (List ℕ) → Bool
is_among streams none = false
is_among streams (some stream) = contains streams stream

-- Whether a fragment is asked for.
unfoldable pub is_wanted : Option (List (List ℕ)) → Packet → Option ℕ → Bool
unfolding before_cursor
is_wanted (some streams) packet since = is_among streams (stream_of packet.payload)
is_wanted none packet since = not (before_cursor packet since)

abbrev pub replies_if : Bool → List Packet → List Packet
replies_if false packets = []
replies_if true packets = map as_reply packets

module _ (sha256 : List ℕ → List ℕ) where
  unfoldable pub missing : RequestSync → Packet → Bool
  unfolding decode_to_sorted_set bucket packet_id
  missing request packet = not (
      contains_value (decode_to_sorted_set request.p request.m request.bitstream)
        (bucket sha256 (packet_id sha256 packet) request.m))

module _ (sha256 : List ℕ → List ℕ) (hex_decode : List ℕ → Option (List ℕ)) where
  unfoldable pub all_replies : Archive → RequestSync → ℕ → List Packet
  unfolding missing is_wanted before_cursor
  all_replies archive request now =
      let types = requested_types request in
      let wanted = decode_fragment_id_filter hex_decode request.fragment_id_filter in
      replies_if (has_type types MessageType.announce)
        (filter (missing sha256 request) (fresh_announces now archive))
      ++ replies_if (has_type types MessageType.message) (
          filter (λ p. not (before_cursor p request.since_timestamp) && missing sha256 request p)
            (fresh of_message now archive))
      ++ replies_if (has_type types MessageType.fragment) (
          filter (λ p. is_wanted wanted p request.since_timestamp && missing sha256 request p)
            (fresh of_fragment now archive))
      ++ replies_if (has_type types MessageType.file_transfer) (
          filter (λ p. not (before_cursor p request.since_timestamp) && missing sha256 request p)
            (fresh of_file now archive))

  unfoldable pub respond : Archive → RequestSync → ℕ → List Packet
  unfolding all_replies
  respond archive request now = take max_replies_per_round (all_replies archive request now)
