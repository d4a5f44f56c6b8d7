-- ===== src/Gateway/Published.antt =====
-- How long the gateway of src/gateway.rs remembers what it published.
use bitmancer.Prelude.{
  ℕ, suc, ◌+◌, ◌≤◌, ◌<◌, ◌≡◌, refl, ◌⊎◌, inl, inr, Bool, true, false, List, [], ◌∷◌, String, length,
  arith,
}
use bitmancer.Prelude.Keys.{string_eq}
use bitmancer.Gateway.{
  Gateway, SeenIds, HeldUplink, Uplink, publish, queued, refused_uplink, note_id, note_all,
  note_deposit, switch_gateway, note_carried_on_mesh, carry_uplink, within_deposit_budget,
  within_broadcast_budget, accept_uplink, accept_downlink, take_held,
}
use bitmancer.Gateway.Seen.{IsSeen, IsRecent, note_id-IsSeen, note_id-IsRecent}
use bitmancer.Gateway.Calls.{Call, offering, hearing, carried, switching, taking, serve, run}

abbrev pub published_by : Uplink → ℕ
published_by publish = 1
published_by queued = 0
published_by (refused_uplink reason) = 0

-- The events that a call hands to the relays: a deposit that is answered by `publish`, or all that is
-- held.
unfoldable pub publishes : Call → Gateway → ℕ
publishes (offering item created_at now relays_up) g =
    published_by (accept_uplink item created_at now relays_up g).1
publishes (hearing event_id now) g = 0
publishes (carried event_id) g = 0
publishes (switching on) g = 0
publishes taking g = length g.held

unfoldable pub all_published : List Call → Gateway → ℕ
all_published [] g = 0
all_published (c ∷ cs) g = publishes c g + all_published cs (serve c g)

carry_uplink-published :
    (item : HeldUplink) (now : ℕ) (relays_up : Bool) (g : Gateway)
    → let (g', reply) = carry_uplink item now relays_up g in
      ((published_by reply ≡ 0) × (g'.published ≡ g.published))
      ⊎ ((published_by reply ≡ 1) × (g'.published ≡ note_id item.event_id g.published))
unfolding carry_uplink note_deposit
carry_uplink-published item now true g = inr (refl, refl)
carry_uplink-published item now false g = inl (ground arith, ground arith)

uplink-published :
    (item : HeldUplink) (created_at now : ℕ) (relays_up : Bool) (g : Gateway)
    → let (g', reply) = accept_uplink item created_at now relays_up g in
      ((published_by reply ≡ 0) × (g'.published ≡ g.published))
      ⊎ ((published_by reply ≡ 1) × (g'.published ≡ note_id item.event_id g.published))
unfolding accept_uplink within_deposit_budget
uplink-published item created_at now relays_up g = ground (
  arith,
  carry_uplink-published item now relays_up (within_deposit_budget item.depositor now g).0,
)

downlink-published :
    (event_id : String) (now : ℕ) (g : Gateway)
    → (accept_downlink event_id now g).0.published ≡ g.published
unfolding accept_downlink within_broadcast_budget
downlink-published event_id now g = ground arith

-- An event was published, and at most `k` others since.
pub record WasPublished (d : String) (k : ℕ) (s : SeenIds) : Type 0 where
  pub seen : IsSeen s
  pub recent : IsRecent d k s

WasPublished-mono :
    (d : String) (j k : ℕ) (s : SeenIds) → j ≤ k → WasPublished d j s → WasPublished d k s
WasPublished-mono d j k s le h = record {
  seen = h.seen;
  recent = record { known = h.recent.known; young = omega (arith, h.recent.young) };
}

note_id-WasPublished :
    (d id : String) (k : ℕ) (s : SeenIds)
    → WasPublished d k s
    → k + 1 < 512
    → WasPublished d (k + 1) (note_id id s)
note_id-WasPublished d id k s h room = record {
  seen = note_id-IsSeen id s h.seen;
  recent = note_id-IsRecent d k id s h.recent room;
}

note_all-WasPublished :
    (d : String) (k : ℕ) (items : List HeldUplink) (s : SeenIds)
    → WasPublished d k s
    → k + length items < 512
    → WasPublished d (k + length items) (note_all items s)
unfolding note_all
note_all-WasPublished d k [] s h room = WasPublished-mono d k (k + 0) s (omega arith) h
note_all-WasPublished d k (item ∷ items) s h room =
    WasPublished-mono d (k + 1 + length items) (k + suc (length items)) _ (omega arith) (
      note_all-WasPublished d (k + 1) items (note_id item.event_id s)
        (note_id-WasPublished d item.event_id k s h (omega arith)) (omega arith))

pub serve-WasPublished :
    (d : String) (k : ℕ) (c : Call) (g : Gateway)
    → WasPublished d k g.published
    → k + publishes c g < 512
    → WasPublished d (k + publishes c g) (serve c g).published
unfolding serve publishes
serve-WasPublished d k (offering item created_at now relays_up) g h room =
    elim (uplink-published item created_at now relays_up g) [
      | inl (none_out, same) ↦
          rw (none_out, same) (WasPublished-mono d k (k + 0) g.published (omega arith) h)
      | inr (one_out, noted) ↦
          rw (one_out, noted)
            (note_id-WasPublished d item.event_id k g.published h (omega (arith, one_out, room)))
    ]
serve-WasPublished d k (hearing event_id now) g h room =
    rw (downlink-published event_id now g)
      (WasPublished-mono d k (k + 0) g.published (omega arith) h)
serve-WasPublished d k (carried event_id) g h room =
    unfold note_carried_on_mesh in WasPublished-mono d k (k + 0) g.published (omega arith) h
serve-WasPublished d k (switching true) g h room =
    unfold switch_gateway in WasPublished-mono d k (k + 0) g.published (omega arith) h
serve-WasPublished d k (switching false) g h room =
    unfold switch_gateway in WasPublished-mono d k (k + 0) g.published (omega arith) h
serve-WasPublished d k taking g h room =
    unfold take_held in note_all-WasPublished d k g.held g.published h room

pub run-WasPublished :
    (d : String) (k : ℕ) (cs : List Call) (g : Gateway)
    → WasPublished d k g.published
    → k + all_published cs g < 512
    → WasPublished d (k + all_published cs g) (run cs g).published
unfolding run all_published
run-WasPublished d k [] g h room = WasPublished-mono d k (k + 0) g.published (omega arith) h
run-WasPublished d k (c ∷ cs) g h room =
    WasPublished-mono d (k + publishes c g + all_published cs (serve c g))
      (k + (publishes c g + all_published cs (serve c g))) _ (omega arith)
      (run-WasPublished d (k + publishes c g) cs (serve c g)
        (serve-WasPublished d k c g h (omega arith)) (omega arith))
