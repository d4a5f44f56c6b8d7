-- ===== src/Gateway/Calls.antt =====
-- The calls of the gateway of src/gateway.rs, in any order.
use bitmancer.Prelude.{ℕ, Bool, inl, inr, List, [], ◌∷◌, String, leb, length, Bool-cases}
use bitmancer.Prelude.Sublist.{Sublist, skip, done, Sublist_refl}
use bitmancer.Gateway.{
  Gateway, HeldUplink, with_room, note_carried_on_mesh, accept_uplink, accept_downlink, take_held,
  switch_gateway, max_queued_uplinks,
}

-- The calls of a gateway.
pub data Call : Type 0 where
  offering : HeldUplink → ℕ → ℕ → Bool → Call
  hearing : String → ℕ → Call
  carried : String → Call
  switching : Bool → Call
  taking : Call

unfoldable pub serve : Call → Gateway → Gateway
serve (offering item created_at now relays_up) g = (accept_uplink item created_at now relays_up g).0
serve (hearing event_id now) g = (accept_downlink event_id now g).0
serve (carried event_id) g = note_carried_on_mesh event_id g
serve (switching on) g = (switch_gateway on g).0
serve taking g = (take_held g).0

unfoldable pub run : List Call → Gateway → Gateway
run [] g = g
run (c ∷ cs) g = run cs (serve c g)

pub with_room-Sublist : (items : List HeldUplink) → Sublist (with_room items) items
with_room-Sublist [] = done
with_room-Sublist (item ∷ items) =
    elim (Bool-cases (leb max_queued_uplinks (length (item ∷ items)))) [
      | inl full ↦ rw full (skip (Sublist_refl items))
      | inr room ↦ rw room (Sublist_refl (item ∷ items))
    ]
