-- ===== src/Sync/Archive.antt =====
-- The public history held for the room (src/sync/archive.rs). The maps are tables.
use bitmancer.Prelude.{
  ℕ, ◌-◌, ◌*◌, Bool, true, false, not, Option, none, some, List, [], ◌∷◌, ◌++◌, ltb, leb, ◌==◌,
  if◌then◌else◌, length, filter, map,
}
use bitmancer.Prelude.Keys.{bytes_eq}
use bitmancer.Prelude.Table.{Table, find, put, remove, retain}
use bitmancer.Protocol.Message.{MessageType, to_u8, Packet, is_broadcast, parsed_type}
use bitmancer.Sync.PacketId.{packet_id}

abbrev pub message_capacity : ℕ
message_capacity = 1000

abbrev pub fragment_capacity : ℕ
fragment_capacity = 600

abbrev pub file_capacity : ℕ
file_capacity = 200

abbrev pub max_age_ms : ℕ
max_age_ms = 900 * 1000

abbrev pub announce_record_max_age_ms : ℕ
announce_record_max_age_ms = 60 * 1000

pub data Kind : Type 0 where
  of_message of_fragment of_file : Kind

unfoldable pub kind_of : MessageType → Option Kind
kind_of MessageType.message = some of_message
kind_of MessageType.fragment = some of_fragment
kind_of MessageType.file_transfer = some of_file
kind_of t = none

unfoldable pub capacity : Kind → ℕ
capacity of_message = message_capacity
capacity of_fragment = fragment_capacity
capacity of_file = file_capacity

pub record PacketStore : Type 0 where
  pub packets : Table (List ℕ) Packet
  pub order : List (List ℕ)

abbrev pub empty_store : PacketStore
empty_store = record { packets = []; order = [] }

-- The loop that drops the oldest while there are too many.
unfoldable pub evict : ℕ → List (List ℕ) → Table (List ℕ) Packet → PacketStore
evict limit [] packets = record { packets = packets; order = [] }
evict limit (victim ∷ order) packets =
    let rest = evict limit order (remove victim packets) in
    if ltb limit (length (victim ∷ order))
    then rest
    else record { packets = packets; order = victim ∷ order }

unfoldable pub store_new : Option Packet → List ℕ → Packet → ℕ → PacketStore → PacketStore
unfolding evict
store_new (some old) id packet limit s = record s { packets = put id packet s.packets }
store_new none id packet limit s = evict limit (s.order ++ (id ∷ [])) (put id packet s.packets)

unfoldable pub store_insert : List ℕ → Packet → ℕ → PacketStore → PacketStore
unfolding store_new
store_insert id packet limit s =
    if limit == 0 then s else store_new (find id s.packets) id packet limit s

unfoldable pub is_fresh : Packet → ℕ → Bool
is_fresh packet now = leb (now - packet.timestamp) max_age_ms

abbrev pub keep_some : Option Packet → List Packet → List Packet
keep_some none rest = rest
keep_some (some packet) rest = packet ∷ rest

unfoldable pub held_packets : List (List ℕ) → Table (List ℕ) Packet → List Packet
held_packets [] packets = []
held_packets (id ∷ order) packets = keep_some (find id packets) (held_packets order packets)

unfoldable pub store_fresh : ℕ → PacketStore → List Packet
unfolding held_packets
store_fresh now s = filter (λ packet. is_fresh packet now) (held_packets s.order s.packets)

abbrev pub is_fresh_entry : ℕ → Option Packet → Bool
is_fresh_entry now none = false
is_fresh_entry now (some packet) = is_fresh packet now

-- `retain` over the order, which removes from the map what it drops.
unfoldable pub drop_stale_ids : ℕ → List (List ℕ) → Table (List ℕ) Packet → PacketStore
drop_stale_ids now [] packets = record { packets = packets; order = [] }
drop_stale_ids now (id ∷ order) packets =
    let keep = is_fresh_entry now (find id packets) in
    let rest = drop_stale_ids now order (if keep then packets else remove id packets) in
    if keep then record rest { order = id ∷ rest.order } else rest

unfoldable pub store_drop_stale : ℕ → PacketStore → PacketStore
unfolding drop_stale_ids
store_drop_stale now s = drop_stale_ids now s.order s.packets

pub record Archive : Type 0 where
  pub messages : PacketStore
  pub fragments : PacketStore
  pub files : PacketStore
  pub announces : Table (List ℕ) Packet

unfoldable pub new_archive : Archive
new_archive = record {
  messages = empty_store;
  fragments = empty_store;
  files = empty_store;
  announces = [];
}

unfoldable pub store : Kind → Archive → PacketStore
store of_message a = a.messages
store of_fragment a = a.fragments
store of_file a = a.files

-- `store_mut`, as a write.
unfoldable pub with_store : Kind → PacketStore → Archive → Archive
with_store of_message s a = record a { messages = s }
with_store of_fragment s a = record a { fragments = s }
with_store of_file s a = record a { files = s }

unfoldable pub record_announce : Packet → ℕ → Archive → Archive × Bool
record_announce packet now a =
    if ltb announce_record_max_age_ms (now - packet.timestamp)
    then (record a { announces = remove packet.sender_id a.announces }, false)
    else (record a { announces = put packet.sender_id packet a.announces }, true)

-- The derived equality of the types.
abbrev pub same_type : MessageType → MessageType → Bool
same_type s t = to_u8 s == to_u8 t

module _ (sha256 : List ℕ → List ℕ) where
  unfoldable pub record_kind : Option Kind → Packet → Archive → Archive × Bool
  record_kind none packet a = (a, false)
  record_kind (some kind) packet a = (
    with_store kind (store_insert (packet_id sha256 packet) packet (capacity kind) (store kind a))
        a,
    true,
  )

  unfoldable pub record_typed : Option MessageType → Packet → ℕ → Archive → Archive × Bool
  unfolding record_kind
  record_typed none packet now a = (a, false)
  record_typed (some message_type) packet now a =
      if not (is_fresh packet now)
      then (a, false)
      else if same_type message_type MessageType.announce
      then record_announce packet now a
      else record_kind (kind_of message_type) packet a

  -- `record`
  unfoldable pub record_packet : Packet → ℕ → Archive → Archive × Bool
  unfolding record_typed
  record_packet packet now a =
      if not (is_broadcast packet)
      then (a, false)
      else record_typed (parsed_type packet) packet now a

unfoldable pub fresh : Kind → ℕ → Archive → List Packet
fresh kind now a = store_fresh now (store kind a)

-- The order of two senders, byte by byte.
unfoldable pub bytes_le : List ℕ → List ℕ → Bool
bytes_le [] bs = true
bytes_le (a ∷ as') [] = false
bytes_le (a ∷ as') (b ∷ bs) = if a == b then bytes_le as' bs else ltb a b

-- `sort_by_key`, a stable sort.
unfoldable pub insert_by_sender : Packet → List Packet → List Packet
insert_by_sender p [] = p ∷ []
insert_by_sender p (q ∷ qs) =
    let rest = insert_by_sender p qs in
    if bytes_le p.sender_id q.sender_id then p ∷ q ∷ qs else q ∷ rest

unfoldable pub sort_by_sender : List Packet → List Packet
unfolding insert_by_sender
sort_by_sender [] = []
sort_by_sender (p ∷ ps) = insert_by_sender p (sort_by_sender ps)

unfoldable pub fresh_announces : ℕ → Archive → List Packet
fresh_announces now a =
    sort_by_sender (filter (λ packet. is_fresh packet now) (map (λ entry. entry.1) a.announces))

unfoldable pub drop_stale : ℕ → Archive → Archive
drop_stale now a = record {
  messages = store_drop_stale now a.messages;
  fragments = store_drop_stale now a.fragments;
  files = store_drop_stale now a.files;
  announces = retain (λ packet. is_fresh packet now) a.announces;
}

unfoldable pub forget_peer : List ℕ → Archive → Archive
forget_peer sender_id a = record a { announces = remove sender_id a.announces }

unfoldable pub clear_archive : Archive → Archive
clear_archive a = record {
  messages = empty_store;
  fragments = empty_store;
  files = empty_store;
  announces = [];
}
