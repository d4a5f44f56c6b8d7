-- ===== src/Tests/Sync.antt =====
-- Runs of src/sync.
use bitmancer.Prelude.{
  Bool, true, some, refl, ℕ, ◌+◌, ◌-◌, ◌≤◌, ◌≡◌, true, Option, none, String, List, [], ◌∷◌, ◌++◌,
  arith, length, ltb, ◌==◌, take, drop, max, All, if◌then◌else◌,
}
use bitmancer.Prelude.Table.{find}
use bitmancer.Prelude.Keys.{bytes_eq}
use bitmancer.Prelude.Sets.{contains}
use bitmancer.Protocol.Message.{Packet}
use bitmancer.Relay.{suppress, plan}
use bitmancer.Sync.RateLimit.{new_limiter, recent, should_respond}
use bitmancer.Sync.Budget.{Event, ask, tick, run_events, window_budget}
use bitmancer.Sync.Archive.{
  PacketStore, max_age_ms, new_archive, record_packet, empty_store, store_insert, store_drop_stale,
  is_fresh,
}
use bitmancer.Sync.Stores.{
  IsStore, empty_store-IsStore, store_insert_order, store_drop_stale_outcome,
}
use bitmancer.Sync.History.{IsArchive, Reached, started, recorded, Reached-IsArchive}
use bitmancer.Sync.Decoded.{decode_to_sorted_set-IsIncreasing}
use bitmancer.Sync.Gcs.{build_filter, decode_to_sorted_set, encode_sorted, contains_value, bucket}
use bitmancer.Sync.Filter.{decode-encode_sorted, IsIncreasing}
use bitmancer.Sync.Members.{build_filter_covers}
use bitmancer.Sync.TypeFlags.{from_raw, known_mask, mask_of, bit_index}
use bitmancer.Sync.Request.{RequestSync, encode_request, decode_request}
use bitmancer.Sync.TypeSets.{IsTypes}
use bitmancer.Sync.Codec.{IsRequest, decode-encode_request}
use bitmancer.Sync.Responder.{respond}
use bitmancer.Sync.Replies.{IsReply, respond_outcome}
use bitmancer.Tests.Samples.{greeting}

abbrev peer : List ℕ
peer = 1 ∷ 2 ∷ []

abbrev events : List Event
events = ask peer 1 ∷ tick 2 ∷ ask peer 3 ∷ []

window_budget_example :
    let (limiter, log) = run_events peer events (new_limiter 8 30000, []) in
    (length (recent (5 - 30000) log) ≤ max 8 1)
    × ((should_respond peer 5 limiter).1 ≡ ltb (length (recent (5 - 30000) log)) (max 8 1))
window_budget_example =
    window_budget 8 30000 5 peer events (omega arith, (omega arith, (omega arith, omega arith)))

-- A digest for the runs.
abbrev same_bytes : List ℕ → List ℕ
same_bytes bytes = bytes

abbrev no_hex : List ℕ → Option (List ℕ)
no_hex text = none

filed-Reached : Reached same_bytes (record_packet same_bytes greeting 1 new_archive).0
filed-Reached = recorded new_archive greeting 1 started

Reached-IsArchive_example : IsArchive same_bytes (record_packet same_bytes greeting 1 new_archive).0
Reached-IsArchive_example =
    Reached-IsArchive same_bytes (record_packet same_bytes greeting 1 new_archive).0 filed-Reached

abbrev Anything : List ℕ → Packet → Type 0
Anything id p = Unit

store_insert_order_example : (store_insert peer greeting 2 empty_store).order ≡ (
    if contains empty_store.order peer
    then empty_store.order
    else (if length empty_store.order == 2
        then drop 1 (empty_store.order ++ (peer ∷ []))
        else empty_store.order ++ (peer ∷ [])))
store_insert_order_example =
    store_insert_order Anything 2 peer greeting empty_store (omega arith)
      (empty_store-IsStore Anything 2)

-- An old packet under 1 and a younger one under 2, each with its key as its payload.
abbrev old : Packet
old = record greeting { timestamp = 0; payload = 1 ∷ [] }

abbrev young : Packet
young = record greeting { timestamp = max_age_ms; payload = 2 ∷ [] }

abbrev ages : PacketStore
ages = record { packets = (1 ∷ [], old) ∷ (2 ∷ [], young) ∷ []; order = (1 ∷ []) ∷ (2 ∷ []) ∷ [] }

abbrev UnderPayload : List ℕ → Packet → Type 0
UnderPayload id p = p.payload ≡ id

ages-IsStore : IsStore UnderPayload 2 ages
unfolding contains find
ages-IsStore = record {
  indexed = ((refl, (refl, tt)), λ id. ground arith);
  bounded = omega arith;
  filed = (refl, (refl, tt));
}

-- The old packet goes, the younger one stays.
store_drop_stale_outcome_example :
    (find (1 ∷ []) (store_drop_stale (max_age_ms + 1) ages).packets ≡ none)
    × (find (2 ∷ []) (store_drop_stale (max_age_ms + 1) ages).packets ≡ some young)
unfolding find is_fresh
store_drop_stale_outcome_example = (
  store_drop_stale_outcome UnderPayload 2 (max_age_ms + 1) ages ages-IsStore (1 ∷ []),
  store_drop_stale_outcome UnderPayload 2 (max_age_ms + 1) ages ages-IsStore (2 ∷ []),
)

decode-encode_sorted_example :
    (rest : List ℕ) × (decode_to_sorted_set 2 100 (encode_sorted (3 ∷ 10 ∷ []) 2)
      ≡ (3 ∷ 10 ∷ []) ++ rest)
decode-encode_sorted_example =
    decode-encode_sorted 2 100 (3 ∷ 10 ∷ []) (omega arith) (omega arith) (omega arith) (omega arith)
      (omega arith, omega arith, (omega arith, omega arith, tt))

build_filter_covers_example :
    let params = build_filter same_bytes 4 (peer ∷ []) 64 in
    (length params.bitstream ≤ 64)
    × All
        (λ id.
          contains_value
            (decode_to_sorted_set params.p params.m params.bitstream)
            (bucket same_bytes id params.m)
          ≡ true)
        (take params.included_count (peer ∷ []))
build_filter_covers_example =
    build_filter_covers same_bytes 4 (peer ∷ []) 64 (omega arith) (omega arith)

abbrev question : RequestSync
question = record {
  p = 4;
  m = 1;
  bitstream = [];
  types = none;
  since_timestamp = none;
  fragment_id_filter = none;
}

respond_outcome_example :
    let a = (record_packet same_bytes greeting 1 new_archive).0 in
    (length (respond same_bytes no_hex a question 1) ≤ 32)
    × All (IsReply same_bytes no_hex question 1) (respond same_bytes no_hex a question 1)
    × All
        (λ reply.
          (hex : List ℕ → String) (links : List String) (ingress local_peer_id : String)
          → (why : String) × (plan hex reply links ingress local_peer_id ≡ suppress why))
        (respond same_bytes no_hex a question 1)
respond_outcome_example =
    respond_outcome same_bytes no_hex (record_packet same_bytes greeting 1 new_archive).0 question 1
      filed-Reached

-- Every byte string is taken for a text.
abbrev any_text : List ℕ → Bool
any_text bytes = true

abbrev full_request : RequestSync
full_request = record {
  p = 4;
  m = 100;
  bitstream = 1 ∷ 2 ∷ [];
  types = some 0x103;
  since_timestamp = some 9;
  fragment_id_filter = some (0x61 ∷ []);
}

small_set-IsTypes : (t : ℕ) → some 0x103 ≡ some t → IsTypes t
unfolding from_raw known_mask mask_of bit_index
small_set-IsTypes t e =
    let same : 0x103 ≡ t = cc e in
    rw (← same) (record { positive = omega arith; fits = omega arith; known = refl })

full_request-IsRequest : IsRequest any_text 1024 full_request
full_request-IsRequest = record {
  p_positive = omega arith;
  p_small = omega arith;
  m_positive = omega arith;
  m_small = omega arith;
  filter_short = omega arith;
  types = small_set-IsTypes;
  since = λ t e. (let same : 9 ≡ t = cc e in rw (← same) (omega arith));
  ids = λ text e. (let same : 0x61 ∷ [] ≡ text = cc e in rw (← same) (omega arith, refl));
}

decode-encode_request_example :
    decode_request any_text (encode_request full_request) ≡ some full_request
decode-encode_request_example = decode-encode_request any_text full_request full_request-IsRequest

-- Four bytes that no filter was made of.
decode_to_sorted_set-IsIncreasing_example :
    IsIncreasing 0 1000 (decode_to_sorted_set 3 1000 (181 ∷ 90 ∷ 255 ∷ 16 ∷ []))
decode_to_sorted_set-IsIncreasing_example =
    decode_to_sorted_set-IsIncreasing 3 1000 (181 ∷ 90 ∷ 255 ∷ 16 ∷ []) (omega arith) (omega arith)
