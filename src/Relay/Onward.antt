-- ===== src/Relay/Onward.antt =====
-- The forwarding step of the main loop, `relay_plan` of src/main.rs: what goes on the air, and that
-- a flood ends.
use bitmancer.Prelude.{
  ℕ, zero, suc, ◌+◌, ◌-◌, ◌≤◌, ◌≡◌, refl, true, Option, none, some, inl, inr, ◌⊎◌, List, String,
  arith, Option-cases,
}
use bitmancer.Prelude.Bytes.{IsBytes}
use bitmancer.Protocol.Message.{Packet}
use bitmancer.Protocol.Encode.{encode, signing_bytes}
use bitmancer.Protocol.Decode.{decode}
use bitmancer.Protocol.Framed.{IsFramed}
use bitmancer.Protocol.Sound.{YieldsBytes, decode-IsFramed}
use bitmancer.Protocol.Signing.{relayed_frame, one_hop_less}
use bitmancer.Relay.{
  Relay, forward, suppress, Forwarded, Hasher, accept, forward_packet, relay_plan,
}
use bitmancer.Relay.Policy.{IsForwardable, plan-forward_iff}

module _ (hex : List ℕ → String) (hash : Hasher) (decompress : List ℕ → ℕ → Option (List ℕ))
    (ingress : String) (links : List String) (me : String) where
  -- A packet that may be passed on and was not passed on before goes on the air with one hop less
  -- and the same signed bytes, and is recorded.
  pub relay_plan_sends :
      (wire : List ℕ) (p : Packet) (f : Forwarded)
      → YieldsBytes decompress
      → IsBytes wire
      → decode decompress wire ≡ some p
      → IsForwardable hex p links ingress me
      → (accept hash p f).1 ≡ true
      → let onward : Packet = record p { ttl = p.ttl - 1 } in
        (bytes : List ℕ) × (relay_plan hex hash decompress wire ingress links me f
          ≡ ((accept hash p f).0, some bytes))
        × (decode decompress bytes ≡ some onward)
        × (signing_bytes onward ≡ signing_bytes p)
  unfolding relay_plan
  relay_plan_sends wire p f yields bytes d ok fresh =
      let planned =
        (plan-forward_iff hex p links ingress me (p.ttl - 1) ingress).1 (ok, refl, refl) in
      let (out, e, back, signed) =
        relayed_frame decompress p (decode-IsFramed decompress yields wire p bytes d) in
      (out, rw (d, planned, fresh, e), back, signed)

  forwarded_packet-inv :
      (p : Packet) (r : Relay) (f : Forwarded) (out : List ℕ)
      → (forward_packet hex hash decompress p r f).1 ≡ some out
      → (ttl : ℕ) × (except : String) × (r ≡ forward ttl except)
        × (encode (record p { ttl = ttl }) ≡ some out)
  unfolding forward_packet
  forwarded_packet-inv p (suppress reason) f out h = cc
  forwarded_packet-inv p (forward ttl except) f out h = (ttl, except, refl, ground arith)

  -- What a frame on the air says of the packet that caused it.
  sent-inv :
      (p : Packet) (f : Forwarded) (wire out : List ℕ)
      → decode decompress wire ≡ some p
      → (relay_plan hex hash decompress wire ingress links me f).1 ≡ some out
      → IsForwardable hex p links ingress me × (encode (record p { ttl = p.ttl - 1 }) ≡ some out)
  unfolding relay_plan
  sent-inv p f wire out d h =
      let (ttl, except, planned, sent) = forwarded_packet-inv p _ f out (rw d at h) in
      let (ok, hop, dest) = (plan-forward_iff hex p links ingress me ttl except).0 planned in
      (ok, rw (← hop) sent)

-- A frame that nodes pass on, one after the other: `n` hops, whatever each node's name, links and
-- record of forwarded packets.
pub data Flood (hex : List ℕ → String) (hash : Hasher) (decompress : List ℕ → ℕ → Option (List ℕ))
    : ℕ → List ℕ → Type 0 where
  heard : {wire : List ℕ} → Flood hex hash decompress zero wire
  hop :
      {n : ℕ} {wire out : List ℕ} (ingress me : String) (links : List String) (f : Forwarded)
      → (relay_plan hex hash decompress wire ingress links me f).1 ≡ some out
      → Flood hex hash decompress n out
      → Flood hex hash decompress (suc n) wire

module _ (hex : List ℕ → String) (hash : Hasher) (decompress : List ℕ → ℕ → Option (List ℕ)) where
  Flood-hops :
      {n : ℕ} {wire : List ℕ} (p : Packet)
      → IsFramed p
      → decode decompress wire ≡ some p
      → Flood hex hash decompress n wire
      → (n ≡ 0) ⊎ ((n + 1 ≤ p.ttl) × (p.ttl ≤ 7))
  Flood-hops p v d heard = inl refl
  Flood-hops p v d (hop {n} {wire} {out} ingress me links f sent rest) =
      let (ok, e) = sent-inv hex hash decompress ingress links me p f wire out d sent in
      let (bytes, e', back, signed) = relayed_frame decompress p v in
      let next : decode decompress out ≡ some (record p { ttl = p.ttl - 1 }) = cc (e, e', back) in
      inr (
        elim (Flood-hops (record p { ttl = p.ttl - 1 }) (one_hop_less p v) next rest) [
          | inl last ↦ omega (arith, ok.hops_left)
          | inr (more, _) ↦ omega (arith, ok.hops_left, more)
        ],
        ok.capped,
      )

  undecoded :
      (ingress me : String) (links : List String) (f : Forwarded) (wire : List ℕ)
      → decode decompress wire ≡ none
      → (relay_plan hex hash decompress wire ingress links me f).1 ≡ none
  unfolding relay_plan
  undecoded ingress me links f wire d = rw d

  -- A flood ends: a frame of bytes is passed on at most six times in a row, whichever nodes pass
  -- it on. The inflater is assumed to yield bytes.
  pub Flood-ends :
      (n : ℕ) (wire : List ℕ)
      → YieldsBytes decompress
      → IsBytes wire
      → Flood hex hash decompress n wire
      → n ≤ 6
  Flood-ends n wire yields bytes heard = omega arith
  Flood-ends n wire yields bytes (hop ingress me links f sent rest) =
      elim (Option-cases (decode decompress wire)) [
        | inl e ↦ absurd (cc (undecoded ingress me links f wire e, sent))
        | inr (p, d) ↦
            elim (Flood-hops p (decode-IsFramed decompress yields wire p bytes d) d
              (hop ingress me links f sent rest)) [
                | inl none_yet ↦ omega arith
                | inr (hops, cap) ↦ omega arith
              ]
      ]
