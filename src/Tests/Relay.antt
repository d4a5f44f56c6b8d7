-- ===== src/Tests/Relay.antt =====
-- Runs of src/relay.rs and of the forwarding step of src/main.rs.
use bitmancer.Prelude.{
  ℕ, ◌-◌, ◌≤◌, ◌≡◌, refl, ap, ◌↔◌, false, none, some, List, [], ◌∷◌, String, arith,
}
use bitmancer.Prelude.Sets.{contains}
use bitmancer.Protocol.Message.{message, parsed_type}
use bitmancer.Protocol.Encode.{signing_bytes}
use bitmancer.Protocol.Decode.{decode}
use bitmancer.Relay.{plan, forward, Hasher, nothing_forwarded, accept, accept_digest, relay_plan}
use bitmancer.Relay.Policy.{IsForwardable, plan-forward_iff}
use bitmancer.Relay.Ring.{IsRing, copy_refused, accept_all}
use bitmancer.Relay.Onward.{heard, hop, relay_plan_sends, Flood-ends}
use bitmancer.Tests.Samples.{
  no_inflate, no_inflate-YieldsBytes, greeting, greeting_wire, greeting_wire-IsBytes,
  decode-greeting,
}
use text.Mathlib.TextEquality.{eq_iff}

-- An encoder and a hasher for the runs.
abbrev name_of : List ℕ → String
name_of [] = "nobody"
name_of (b ∷ bs) = "somebody"

abbrev time_hash : Hasher
time_hash sender recipient timestamp msg_type payload = timestamp

abbrev links : List String
links = "a" ∷ "b" ∷ []

greeting-IsForwardable : IsForwardable name_of greeting links "a" "me"
greeting-IsForwardable = record {
  foreign = λ e. cc ((eq_iff "somebody" "me").1 e);
  hops_left = omega arith;
  capped = omega arith;
  not_for_us = λ id e o. cc;
  carried = (message, unfold parsed_type in refl, tt);
  onward = ("b", unfold contains in refl, λ e. cc ((eq_iff "b" "a").1 e));
}

plan-forward_iff_example : (plan name_of greeting links "a" "me" ≡ forward 6 "a") ↔ (
    IsForwardable name_of greeting links "a" "me"
    × (6 ≡ greeting.ttl - 1)
    × ◌≡◌ {A = String} "a" "a")
plan-forward_iff_example = plan-forward_iff name_of greeting links "a" "me" 6 "a"

nothing-IsRing : IsRing nothing_forwarded
nothing-IsRing = record { same = λ d. refl; distinct = tt; bounded = omega arith }

copy_refused_example :
    accept time_hash
      (record greeting { ttl = 2; signature = none; route = none })
      (accept_all time_hash
        (record greeting { timestamp = 9 } ∷ [])
        (accept time_hash greeting nothing_forwarded).0)
    ≡ (
      accept_all time_hash
          (record greeting { timestamp = 9 } ∷ [])
          (accept time_hash greeting nothing_forwarded).0,
      false,
    )
copy_refused_example =
    copy_refused time_hash nothing_forwarded greeting (record greeting { timestamp = 9 } ∷ []) 2
      none none nothing-IsRing (unfold accept accept_digest contains in refl) (omega arith)

relay_plan_sends_example :
    (bytes : List ℕ) × (relay_plan name_of time_hash no_inflate greeting_wire "a" links "me"
        nothing_forwarded
      ≡ ((accept time_hash greeting nothing_forwarded).0, some bytes))
    × (decode no_inflate bytes ≡ some (record greeting { ttl = 6 }))
    × (signing_bytes (record greeting { ttl = 6 }) ≡ signing_bytes greeting)
relay_plan_sends_example =
    relay_plan_sends name_of time_hash no_inflate "a" links "me" greeting_wire greeting
      nothing_forwarded no_inflate-YieldsBytes greeting_wire-IsBytes decode-greeting
      greeting-IsForwardable (unfold accept accept_digest contains in refl)

first_hop :
    (out : List ℕ) × (relay_plan name_of time_hash no_inflate greeting_wire "a" links "me"
        nothing_forwarded
      ≡ ((accept time_hash greeting nothing_forwarded).0, some out))
first_hop =
    let (out, e, back, signed) =
      relay_plan_sends name_of time_hash no_inflate "a" links "me" greeting_wire greeting
        nothing_forwarded no_inflate-YieldsBytes greeting_wire-IsBytes decode-greeting
        greeting-IsForwardable (unfold accept accept_digest contains in refl) in
    (out, e)

Flood-ends_example : 1 ≤ 6
Flood-ends_example =
    Flood-ends name_of time_hash no_inflate 1 greeting_wire no_inflate-YieldsBytes
      greeting_wire-IsBytes (hop "a" "me" links nothing_forwarded (ap (λ r. r.1) first_hop.1) heard)
