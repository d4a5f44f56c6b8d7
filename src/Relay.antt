-- ===== src/Relay.antt =====
-- Passing packets along (src/relay.rs), and the forwarding step of the main loop (src/main.rs).
-- `hex` is the encoding of the `hex` library; `hash` is the standard library's unspecified
-- `DefaultHasher`. Both are parameters.
pub mod Policy
pub mod Ring
pub mod Onward
use bitmancer.Prelude.{
  ℕ, ◌+◌, ◌-◌, Bool, true, false, not, ◌&&◌, Option, none, some, List, [], ◌∷◌, ◌++◌, String, ltb,
  leb, ◌==◌, if◌then◌else◌, length, filter, ◌>>=◌, ◌>>◌, guard,
}
use bitmancer.Prelude.Keys.{◌=?◌, string_eq, nat_eq}
use bitmancer.Prelude.Sets.{contains, insert, erase}
use bitmancer.Protocol.Message.{
  MessageType, announce, leave, request_sync, Packet, is_broadcast, parsed_type,
}
use bitmancer.Protocol.Encode.{encode}
use bitmancer.Protocol.Decode.{decode}

abbrev pub max_ttl : ℕ
max_ttl = 7

pub data Relay : Type 0 where
  forward : ℕ → String → Relay
  suppress : String → Relay

-- The last part of `plan`: is there a link to send on?
unfoldable pub plan_links : Packet → List String → String → Relay
plan_links p links ingress = elim (filter (λ link. not (link =? ingress)) links) [
  | [] ↦ suppress "no link other than the one it came from"
  | link ∷ rest ↦ forward (p.ttl - 1) ingress
]

unfoldable pub plan_type : Option MessageType → Packet → List String → String → Relay
unfolding plan_links
plan_type none p links ingress = suppress "unknown packet type"
plan_type (some announce) p links ingress = suppress "presence is not relayed"
plan_type (some leave) p links ingress = suppress "presence is not relayed"
plan_type (some request_sync) p links ingress = suppress "a sync request does not leave its link"
plan_type (some t) p links ingress = plan_links p links ingress

module _ (hex : List ℕ → String) where
  unfoldable pub is_addressed_to : Packet → String → Bool
  is_addressed_to p local_peer_id = elim p.recipient_id [
    | none ↦ false
    | some id ↦ hex id =? local_peer_id
  ]

  unfoldable pub plan : Packet → List String → String → String → Relay
  plan p links ingress local_peer_id =
      if hex p.sender_id =? local_peer_id
      then suppress "our own packet"
      else if leb p.ttl 1
      then suppress "time to live exhausted"
      else if ltb max_ttl p.ttl
      then suppress "time to live above the protocol maximum"
      else if not (is_broadcast p) && is_addressed_to p local_peer_id
      then suppress "addressed to us"
      else plan_type (parsed_type p) p links ingress

abbrev pub forwarded_limit : ℕ
forwarded_limit = 1024

pub record Forwarded : Type 0 where
  pub seen : List ℕ
  pub order : List ℕ

abbrev pub nothing_forwarded : Forwarded
nothing_forwarded = record { seen = []; order = [] }

unfoldable pub push : ℕ → Forwarded → Forwarded
push digest f = record { seen = insert digest f.seen; order = f.order ++ (digest ∷ []) }

unfoldable pub drop_oldest : List ℕ → Forwarded → Forwarded
drop_oldest [] f = f
drop_oldest (oldest ∷ rest) f = record { seen = erase oldest f.seen; order = rest }

-- `accept` on a digest.
unfoldable pub accept_digest : ℕ → Forwarded → Forwarded × Bool
accept_digest digest f =
    if contains f.seen digest
    then (f, false)
    else let pushed = push digest f in
      (
        if ltb forwarded_limit (length pushed.order)
            then drop_oldest pushed.order pushed
            else pushed,
        true,
      )

-- Sender, recipient, timestamp, type and payload.
abbrev pub Hasher : Type 0
Hasher = List ℕ → Option (List ℕ) → ℕ → ℕ → List ℕ → ℕ

module _ (hash : Hasher) where
  unfoldable pub digest : Packet → ℕ
  digest p = hash p.sender_id p.recipient_id p.timestamp p.msg_type p.payload

  unfoldable pub accept : Packet → Forwarded → Forwarded × Bool
  accept p f = accept_digest (digest p) f

-- `relay_plan` of the main loop: the set of forwarded packets, and what is put on the air.
module _ (hex : List ℕ → String) (hash : Hasher) (decompress : List ℕ → ℕ → Option (List ℕ)) where
  unfoldable pub forward_packet : Packet → Relay → Forwarded → Forwarded × Option (List ℕ)
  forward_packet p (suppress reason) f = (f, none)
  forward_packet p (forward ttl except_link) f =
      let (f', first) = accept hash p f in
      (f', if first then encode (record p { ttl = ttl }) else none)

  unfoldable pub forward_decoded :
      Option Packet → String → List String → String → Forwarded → Forwarded × Option (List ℕ)
  unfolding forward_packet
  forward_decoded none ingress links my_peer_id f = (f, none)
  forward_decoded (some p) ingress links my_peer_id f =
      forward_packet p (plan hex p links ingress my_peer_id) f

  unfoldable pub relay_plan :
      List ℕ → String → List String → String → Forwarded → Forwarded × Option (List ℕ)
  unfolding forward_decoded
  relay_plan bytes ingress links my_peer_id f =
      forward_decoded (decode decompress bytes) ingress links my_peer_id f
