-- ===== src/Gateway/Mailbag.antt =====
-- The bounds of src/gateway.rs: the mailbag, and the airtime it spends.
use bitmancer.Prelude.{
  ℕ, ◌+◌, ◌≤◌, ◌<◌, ◌≡◌, refl, inl, inr, Bool, true, false, not, List, [], ◌∷◌, ◌++◌, String, ltb,
  leb, length, filter, arith, Bool-cases, length-append,
}
use bitmancer.Prelude.Keys.{string_eq}
use bitmancer.Prelude.Sets.{contains}
use bitmancer.Prelude.Sublist.{Sublist-length-filter, length-filter-append}
use text.Mathlib.TextEquality.{eq_iff}
use bitmancer.Gateway.{
  Gateway, HeldUplink, deposited_by, with_room, note_deposit, switch_gateway, note_carried_on_mesh,
  carry_uplink, within_deposit_budget, within_broadcast_budget, accept_uplink, accept_downlink,
  take_held, max_queued_per_depositor, max_event_age_seconds, prune_stamps, note_all,
}
use bitmancer.Gateway.Calls.{
  Call, offering, hearing, carried, switching, taking, serve, run, with_room-Sublist,
}

-- At most 20 deposits, 5 of one depositor, and 30 broadcasts on the books.
pub record IsMailbag (g : Gateway) : Type 0 where
  pub few : length g.held ≤ 20
  pub shares : (depositor : String) → length (filter (deposited_by depositor) g.held) ≤ 5
  pub airtime : length g.broadcasts ≤ 30

length-with_room : (items : List HeldUplink) → length items ≤ 20 → length (with_room items) < 20
length-with_room [] h = ground arith
length-with_room (item ∷ items) h = ground arith

queue_bounds :
    (item : HeldUplink) (items : List HeldUplink)
    → length items ≤ 20
    → ((depositor : String) → length (filter (deposited_by depositor) items) ≤ 5)
    → length (filter (deposited_by item.depositor) items) < 5
    → (length (with_room items ++ (item ∷ [])) ≤ 20)
      × ((depositor : String)
          → length (filter (deposited_by depositor) (with_room items ++ (item ∷ []))) ≤ 5)
queue_bounds item items few shares share = (
  omega (arith, length-append (with_room items) (item ∷ []), length-with_room items few),
  λ d. share_of d,
)
  where
    share_of : (d : String) → length (filter (deposited_by d) (with_room items ++ (item ∷ []))) ≤ 5
    share_of d = elim (Bool-cases (deposited_by d item)) [
      | inl theirs ↦
          let who : item.depositor ≡ d = (eq_iff item.depositor d).0 theirs in
          rw (length-filter-append (deposited_by d) (with_room items) (item ∷ [])) (
            rw theirs (
              rw (← who) (
                omega (
                  arith,
                  share,
                  Sublist-length-filter (deposited_by item.depositor) (with_room items) items
                      (with_room-Sublist items),
                ))))
      | inr other ↦ rw (length-filter-append (deposited_by d) (with_room items) (item ∷ [])) (
          rw other (
            omega (
              arith,
              shares d,
              Sublist-length-filter (deposited_by d) (with_room items) items
                  (with_room-Sublist items),
            )))
    ]

carry_uplink-IsMailbag :
    (item : HeldUplink) (now : ℕ) (relays_up : Bool) (g : Gateway)
    → IsMailbag g
    → IsMailbag (carry_uplink item now relays_up g).0
unfolding carry_uplink note_deposit
carry_uplink-IsMailbag item now true g h = record {
  few = h.few;
  shares = h.shares;
  airtime = h.airtime;
}
carry_uplink-IsMailbag item now false g h =
    elim (Bool-cases
      (leb max_queued_per_depositor (length (filter (deposited_by item.depositor) g.held)))) [
        | inl full ↦ rw full h
        | inr share ↦
            let (few, shares) = queue_bounds item g.held h.few h.shares (ground (arith, share)) in
            rw share (record { few = few; shares = shares; airtime = h.airtime })
      ]

uplink-IsMailbag :
    (item : HeldUplink) (created_at now : ℕ) (relays_up : Bool) (g : Gateway)
    → IsMailbag g
    → IsMailbag (accept_uplink item created_at now relays_up g).0
unfolding accept_uplink within_deposit_budget
uplink-IsMailbag item created_at now relays_up g h = elim (Bool-cases (not g.enabled)) [
  | inl off ↦ rw off h
  | inr on ↦ rw on (elim (Bool-cases (contains g.from_mesh.ids item.event_id)) [
    | inl looped ↦ rw looped h
    | inr new ↦ rw new (elim (Bool-cases (contains g.published.ids item.event_id)) [
      | inl known ↦ rw known h
      | inr fresh ↦ rw fresh (elim (Bool-cases (ltb (created_at + max_event_age_seconds) now)) [
        | inl old ↦ rw old h
        | inr recent ↦ rw recent (elim (Bool-cases (ltb (now + max_event_age_seconds) created_at)) [
          | inl early ↦ rw early h
          | inr due ↦ rw due (elim (Bool-cases (within_deposit_budget item.depositor now g).1) [
            | inl within ↦ rw within (
                carry_uplink-IsMailbag item now relays_up
                  (within_deposit_budget item.depositor now g).0
                  (record { few = h.few; shares = h.shares; airtime = h.airtime }))
            | inr over ↦ rw over (record { few = h.few; shares = h.shares; airtime = h.airtime })
          ])
        ])
      ])
    ])
  ])
]

prune_stamps-length : (now : ℕ) (stamps : List ℕ) → length (prune_stamps now stamps) ≤ length stamps
unfolding prune_stamps
prune_stamps-length now [] = omega arith
prune_stamps-length now (stamp ∷ stamps) = ground (arith, prune_stamps-length now stamps)

downlink-IsMailbag :
    (event_id : String) (now : ℕ) (g : Gateway)
    → IsMailbag g
    → IsMailbag (accept_downlink event_id now g).0
unfolding accept_downlink within_broadcast_budget
downlink-IsMailbag event_id now g h = record {
  few = ground (arith, h.few);
  shares = λ d. ground (arith, h.shares d);
  airtime = ground (
    arith,
    h.airtime,
    prune_stamps-length now g.broadcasts,
    length-append (prune_stamps now g.broadcasts) (now ∷ []),
  );
}

empty_bag : (g : Gateway) → length g.broadcasts ≤ 30 → g.held ≡ [] → IsMailbag g
empty_bag g h k = record { few = rw k (omega arith); shares = λ d. rw k (omega arith); airtime = h }

serve-IsMailbag : (c : Call) (g : Gateway) → IsMailbag g → IsMailbag (serve c g)
unfolding serve
serve-IsMailbag (offering item created_at now relays_up) g h =
    uplink-IsMailbag item created_at now relays_up g h
serve-IsMailbag (hearing event_id now) g h = downlink-IsMailbag event_id now g h
serve-IsMailbag (carried event_id) g h =
    unfold note_carried_on_mesh in record { few = h.few; shares = h.shares; airtime = h.airtime }
serve-IsMailbag (switching true) g h =
    unfold switch_gateway in record { few = h.few; shares = h.shares; airtime = h.airtime }
serve-IsMailbag (switching false) g h =
    unfold switch_gateway in empty_bag (record g { enabled = false; held = [] }) h.airtime refl
serve-IsMailbag taking g h =
    unfold take_held in
    empty_bag (record g { held = []; published = note_all g.held g.published }) h.airtime refl

-- Whatever is offered, heard, carried, switched and taken, in whatever order: from a state within the
-- limits on, the mailbag holds at most 20 deposits and 5 of one depositor, and at most 30 broadcasts
-- are on the books of the airtime budget.
pub run-IsMailbag : (cs : List Call) (g : Gateway) → IsMailbag g → IsMailbag (run cs g)
unfolding run
run-IsMailbag [] g h = h
run-IsMailbag (c ∷ cs) g h = run-IsMailbag cs (serve c g) (serve-IsMailbag c g h)
