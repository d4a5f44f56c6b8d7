-- ===== src/Sync/Replies.antt =====
-- What the replies of src/sync/responder.rs are, and that no relay carries them further.
use bitmancer.Prelude.{
  ℕ, ◌≤◌, ◌≡◌, refl, Bool, true, false, not, ◌&&◌, Option, none, some, String, List, [], ◌∷◌,
  length, filter, map, All, All-append, All-take, length-take, arith, inl, inr, Bool-cases,
}
use bitmancer.Prelude.Keys.{◌=?◌, bytes_eq, string_eq}
use bitmancer.Prelude.Table.{Table, find, AllEntries, AllEntries-find}
use bitmancer.Protocol.Message.{MessageType, Packet, is_broadcast}
use bitmancer.Relay.{suppress, plan}
use bitmancer.Sync.TypeFlags.{has_type}
use bitmancer.Sync.Request.{RequestSync, requested_types, decode_fragment_id_filter}
use bitmancer.Sync.Archive.{
  Archive, Kind, of_message, of_fragment, of_file, store_fresh, held_packets, keep_some, is_fresh,
  fresh, fresh_announces, bytes_le, insert_by_sender, sort_by_sender,
}
use bitmancer.Sync.History.{IsArchive, IsFiled, IsAnnounce, Reached, Reached-IsArchive, kind_store}
use bitmancer.Sync.Responder.{
  before_cursor, as_reply, is_wanted, missing, replies_if, all_replies, respond,
}

All-filter :
    (P : Packet → Type 0) (t : Packet → Bool) (ps : List Packet)
    → All P ps
    → All (λ p. P p × (t p ≡ true)) (filter t ps)
All-filter P t [] h = tt
All-filter P t (p ∷ ps) h = elim (Bool-cases (t p)) [
  | inl kept ↦ rw kept ((h.0, kept), All-filter P t ps h.1)
  | inr gone ↦ rw gone (All-filter P t ps h.1)
]

All-map :
    (P Q : Packet → Type 0) (f : Packet → Packet) (ps : List Packet)
    → ((p : Packet) → P p → Q (f p))
    → All P ps
    → All Q (map f ps)
All-map P Q f [] g h = tt
All-map P Q f (p ∷ ps) g h = (g p h.0, All-map P Q f ps g h.1)

All-imp :
    (P Q : Packet → Type 0) (ps : List Packet) → ((p : Packet) → P p → Q p) → All P ps → All Q ps
All-imp P Q [] g h = tt
All-imp P Q (p ∷ ps) g h = (g p h.0, All-imp P Q ps g h.1)

All-keep_some :
    (P : Packet → Type 0) (o : Option Packet) (ps : List Packet)
    → ((p : Packet) → o ≡ some p → P p)
    → All P ps
    → All P (keep_some o ps)
All-keep_some P none ps g h = h
All-keep_some P (some p) ps g h = (g p refl, h)

held_packets-broadcast :
    (Filed : List ℕ → Packet → Type 0) (P : Packet → Type 0) (order : List (List ℕ))
    (packets : Table (List ℕ) Packet)
    → ((id : List ℕ) (p : Packet) → Filed id p → P p)
    → AllEntries Filed packets
    → All P (held_packets order packets)
unfolding held_packets
held_packets-broadcast Filed P [] packets g h = tt
held_packets-broadcast Filed P (id ∷ order) packets g h =
    All-keep_some P (find id packets) _ (λ p e. g id p (AllEntries-find Filed id packets p h e))
      (held_packets-broadcast Filed P order packets g h)

All-insert_by_sender :
    (P : Packet → Type 0) (p : Packet) (ps : List Packet)
    → P p
    → All P ps
    → All P (insert_by_sender p ps)
unfolding insert_by_sender
All-insert_by_sender P p [] h k = (h, tt)
All-insert_by_sender P p (q ∷ qs) h k = elim (Bool-cases (bytes_le p.sender_id q.sender_id)) [
  | inl e ↦ rw e (h, k)
  | inr e ↦ rw e (k.0, All-insert_by_sender P p qs h k.1)
]

All-sort_by_sender : (P : Packet → Type 0) (ps : List Packet) → All P ps → All P (sort_by_sender ps)
unfolding sort_by_sender
All-sort_by_sender P [] h = tt
All-sort_by_sender P (p ∷ ps) h = All-insert_by_sender P p _ h.0 (All-sort_by_sender P ps h.1)

All-values :
    (Filed : List ℕ → Packet → Type 0) (P : Packet → Type 0) (packets : Table (List ℕ) Packet)
    → ((id : List ℕ) (p : Packet) → Filed id p → P p)
    → AllEntries Filed packets
    → All P (map (λ entry. entry.1) packets)
All-values Filed P [] g h = tt
All-values Filed P ((id, p) ∷ packets) g h = (g id p h.0, All-values Filed P packets g h.1)

module _ (sha256 : List ℕ → List ℕ) (hex_decode : List ℕ → Option (List ℕ)) where
  -- A packet that may be offered: sent to everyone, and within the sync window.
  abbrev pub IsPublic : ℕ → Packet → Type 0
  IsPublic now p = (is_broadcast p ≡ true) × (is_fresh p now ≡ true)

  -- A reply: a copy of such a packet that the filter does not claim, for one link only.
  abbrev pub IsReply : RequestSync → ℕ → Packet → Type 0
  IsReply request now reply =
      (p : Packet) × (reply ≡ as_reply p) × IsPublic now p × (missing sha256 request p ≡ true)

  fresh-IsPublic :
      (a : Archive) (kind : Kind) (now : ℕ)
      → IsArchive sha256 a
      → All (IsPublic now) (fresh kind now a)
  unfolding fresh store_fresh
  fresh-IsPublic a kind now h =
      All-filter (λ p. is_broadcast p ≡ true) (λ p. is_fresh p now) _
        (held_packets-broadcast (IsFiled sha256 kind) (λ p. is_broadcast p ≡ true) _ _
          (λ id p f. f.0) (kind_store sha256 kind a h).filed)

  fresh_announces-IsPublic :
      (a : Archive) (now : ℕ) → IsArchive sha256 a → All (IsPublic now) (fresh_announces now a)
  unfolding fresh_announces
  fresh_announces-IsPublic a now h = All-sort_by_sender (IsPublic now) _ (
      All-filter (λ p. is_broadcast p ≡ true) (λ p. is_fresh p now) _
        (All-values (IsAnnounce sha256) (λ p. is_broadcast p ≡ true) a.announces (λ id p f. f.0)
          h.announced))

  group-IsReply :
      (request : RequestSync) (now : ℕ) (asked : Bool) (t : Packet → Bool) (ps : List Packet)
      → ((p : Packet) → t p ≡ true → missing sha256 request p ≡ true)
      → All (IsPublic now) ps
      → All (IsReply request now) (replies_if asked (filter t ps))
  group-IsReply request now false t ps g h = tt
  group-IsReply request now true t ps g h =
      All-map _ (IsReply request now) as_reply _ (λ p k. (p, refl, k.0, g p k.1))
        (All-filter (IsPublic now) t ps h)

  all_replies-IsReply :
      (a : Archive) (request : RequestSync) (now : ℕ)
      → IsArchive sha256 a
      → All (IsReply request now) (all_replies sha256 hex_decode a request now)
  unfolding all_replies
  all_replies-IsReply a request now h =
      let types = requested_types request in
      let P = IsReply request now in
      let wanted = decode_fragment_id_filter hex_decode request.fragment_id_filter in
      All-append P _ _
        (All-append P _ _
          (All-append P _ _
            (group-IsReply request now (has_type types MessageType.announce)
              (missing sha256 request) _ (λ p e. ground (arith, e))
              (fresh_announces-IsPublic a now h))
            (group-IsReply request now (has_type types MessageType.message)
              (λ p. not (before_cursor p request.since_timestamp) && missing sha256 request p) _
              (λ p e. ground (arith, e)) (fresh-IsPublic a of_message now h)))
          (group-IsReply request now (has_type types MessageType.fragment)
            (λ p. is_wanted wanted p request.since_timestamp && missing sha256 request p) _
            (λ p e. ground (arith, e)) (fresh-IsPublic a of_fragment now h)))
        (group-IsReply request now (has_type types MessageType.file_transfer)
          (λ p. not (before_cursor p request.since_timestamp) && missing sha256 request p) _
          (λ p e. ground (arith, e)) (fresh-IsPublic a of_file now h))

  reply_stays :
      (request : RequestSync) (now : ℕ) (reply : Packet)
      → IsReply request now reply
      → (hex : List ℕ → String) (links : List String) (ingress local_peer_id : String)
      → (why : String) × (plan hex reply links ingress local_peer_id ≡ suppress why)
  unfolding plan as_reply
  reply_stays request now reply (p, e, k, m) hex links ingress me =
      rw e (elim (Bool-cases (hex p.sender_id =? me)) [
        | inl ours ↦ rw ours ("our own packet", refl)
        | inr theirs ↦ rw theirs ("time to live exhausted", refl)
      ])

  -- Whatever the archive went through and whatever is asked, a round answers with at most 32
  -- packets, each a copy of a packet that was sent to everyone, is within the sync window and is not
  -- claimed by the filter of the request, with no hops left; and no node that receives it passes it
  -- on, whatever its links and its name.
  pub respond_outcome :
      (a : Archive) (request : RequestSync) (now : ℕ)
      → Reached sha256 a
      → (length (respond sha256 hex_decode a request now) ≤ 32)
        × All (IsReply request now) (respond sha256 hex_decode a request now)
        × All
            (λ reply.
              (hex : List ℕ → String) (links : List String) (ingress local_peer_id : String)
              → (why : String) × (plan hex reply links ingress local_peer_id ≡ suppress why))
            (respond sha256 hex_decode a request now)
  unfolding respond
  respond_outcome a request now r =
      let h = Reached-IsArchive sha256 a r in
      let replies = all_replies-IsReply a request now h in
      let answer =
        All-take (IsReply request now) 32 (all_replies sha256 hex_decode a request now) replies in
      (
        omega (arith, length-take 32 (all_replies sha256 hex_decode a request now)),
        answer,
        All-imp (IsReply request now) _ _
            (λ reply k hex links ingress me. reply_stays request now reply k hex links ingress me)
            answer,
      )
