-- ===== src/Relay/Policy.antt =====
-- When `plan` of src/relay.rs forwards a packet.
use bitmancer.Prelude.{
  ℕ, ◌-◌, ◌≤◌, ◌≡◌, refl, ◌≢◌, ◌↔◌, inl, inr, true, false, not, ◌&&◌, Option, none, some, List, [],
  ◌∷◌, String, arith, Bool-cases, Option-cases,
}
use bitmancer.Prelude.Keys.{◌=?◌, string_eq, nat_eq, bytes_beq_iff, beq_false}
use bitmancer.Prelude.Sets.{contains}
use bitmancer.Protocol.Message.{
  MessageType, announce, leave, request_sync, Packet, is_broadcast, parsed_type,
  broadcast_recipient,
}
use bitmancer.Relay.{forward, plan, plan_type, plan_links, is_addressed_to}
use text.Mathlib.TextEquality.{eq_iff}

-- Neither presence nor a sync request.
abbrev pub IsCarried : MessageType → Type 0
IsCarried announce = ⊥
IsCarried leave = ⊥
IsCarried request_sync = ⊥
IsCarried _ = Unit

-- There is a link besides the one that the packet came from.
abbrev pub HasOther : List String → String → Type 0
HasOther links ingress = (link : String) × (contains links link ≡ true) × (link ≢ ingress)

plan_links-forward :
    (p : Packet) (links : List String) (ingress : String) (ttl : ℕ) (except : String)
    → plan_links p links ingress ≡ forward ttl except
    → HasOther links ingress × (ttl ≡ p.ttl - 1) × (except ≡ ingress)
unfolding plan_links contains
plan_links-forward p [] ingress ttl except h = cc
plan_links-forward p (l ∷ links) ingress ttl except h = elim (Bool-cases (l =? ingress)) [
  | inl same ↦
      let rest : plan_links p links ingress ≡ forward ttl except =
        unfold plan_links in ground arith in
      let (found, at, dest) = plan_links-forward p links ingress ttl except rest in
      ((found.0, ground arith, found.2), at, dest)
  | inr other ↦ (
    (l, ground (arith, eq_iff l l), λ e. cc (other, (eq_iff l ingress).1 e)),
    ground arith,
    ground arith,
  )
]

links-plan_links :
    (p : Packet) (links : List String) (ingress link : String)
    → contains links link ≡ true
    → link ≢ ingress
    → plan_links p links ingress ≡ forward (p.ttl - 1) ingress
unfolding plan_links contains
links-plan_links p [] ingress link c n = cc
links-plan_links p (l ∷ links) ingress link c n =
    ground (arith, eq_iff l ingress, eq_iff l link, links-plan_links p links ingress link)

plan_type-forward :
    (o : Option MessageType) (p : Packet) (links : List String) (ingress : String) (ttl : ℕ)
    (except : String)
    → plan_type o p links ingress ≡ forward ttl except
    → ((t : MessageType) × (o ≡ some t) × IsCarried t)
      × (plan_links p links ingress ≡ forward ttl except)
unfolding plan_type
plan_type-forward none p links ingress ttl except h = cc
plan_type-forward (some announce) p links ingress ttl except h = cc
plan_type-forward (some leave) p links ingress ttl except h = cc
plan_type-forward (some request_sync) p links ingress ttl except h = cc
plan_type-forward (some t) p links ingress ttl except h = ((t, refl, tt), h)

carried-plan_type :
    (t : MessageType) (p : Packet) (links : List String) (ingress : String)
    → IsCarried t
    → plan_type (some t) p links ingress ≡ plan_links p links ingress
unfolding plan_type
carried-plan_type announce p links ingress h = absurd h
carried-plan_type leave p links ingress h = absurd h
carried-plan_type request_sync p links ingress h = absurd h
carried-plan_type _ p links ingress h = refl

-- What has to hold for a packet to be passed on.
pub record IsForwardable (hex : List ℕ → String) (p : Packet) (links : List String)
    (ingress me : String) : Type 0 where
  pub foreign : hex p.sender_id ≢ me
  pub hops_left : 2 ≤ p.ttl
  pub capped : p.ttl ≤ 7
  pub not_for_us : (id : List ℕ) → p.recipient_id ≡ some id → hex id ≡ me → id ≡ broadcast_recipient
  pub carried : (t : MessageType) × (parsed_type p ≡ some t) × IsCarried t
  pub onward : HasOther links ingress

module _ (hex : List ℕ → String) (p : Packet) (links : List String) (ingress me : String) where
  for_us_test :
      (not (is_broadcast p) && is_addressed_to hex p me) ≡ false
      ↔ ((id : List ℕ) → p.recipient_id ≡ some id → hex id ≡ me → id ≡ broadcast_recipient)
  unfolding is_broadcast is_addressed_to
  for_us_test = (
    λ h id e o. ground (arith, bytes_beq_iff id broadcast_recipient, eq_iff (hex id) me),
    λ h. elim (Option-cases p.recipient_id) [
      | inl e ↦ ground arith
      | inr (id, e) ↦
          ground (arith, h id e, bytes_beq_iff id broadcast_recipient, eq_iff (hex id) me)
    ],
  )

  Passes : Type 0
  Passes =
      ((hex p.sender_id =? me) ≡ false)
      × (2 ≤ p.ttl)
      × (p.ttl ≤ 7)
      × ((not (is_broadcast p) && is_addressed_to hex p me) ≡ false)

  plan_passes :
      (ttl : ℕ) (except : String)
      → (plan hex p links ingress me ≡ forward ttl except)
        ↔ (Passes × (plan_type (parsed_type p) p links ingress ≡ forward ttl except))
  unfolding plan Passes
  plan_passes ttl except = (λ h. ground arith, λ h. ground arith)

  -- `plan` forwards a packet exactly when another peer sent it, it has 2 to 7 hops left, it is not
  -- addressed to us alone, its type is known and is neither presence nor a sync request, and
  -- there is a link besides the ingress; it is then sent with one hop less, except to the ingress.
  pub plan-forward_iff :
      (ttl : ℕ) (except : String)
      → (plan hex p links ingress me ≡ forward ttl except)
        ↔ (IsForwardable hex p links ingress me × (ttl ≡ p.ttl - 1) × (except ≡ ingress))
  unfolding Passes
  plan-forward_iff ttl except = (
    λ h.
        let (passes, typed) = (plan_passes ttl except).0 h in
        let (kind, linked) = plan_type-forward (parsed_type p) p links ingress ttl except typed in
        let (other, hop, dest) = plan_links-forward p links ingress ttl except linked in
        (
          record {
            foreign = λ e. cc (passes.0, (eq_iff (hex p.sender_id) me).1 e);
            hops_left = passes.1;
            capped = passes.2;
            not_for_us = for_us_test.0 passes.3;
            carried = kind;
            onward = other;
          },
          hop,
          dest,
        ),
    λ (f, hop, dest). (plan_passes ttl except).1 (
      (beq_false (hex p.sender_id) me f.foreign, f.hops_left, f.capped, for_us_test.1 f.not_for_us),
      rw (f.carried.1, carried-plan_type f.carried.0 p links ingress f.carried.2, hop, dest)
          (links-plan_links p links ingress f.onward.0 f.onward.1 f.onward.2),
    ),
  )
