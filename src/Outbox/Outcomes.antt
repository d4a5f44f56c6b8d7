-- ===== src/Outbox/Outcomes.antt =====
-- What the operations of the outbox of src/outbox.rs do to the messages held.
use bitmancer.Prelude.{
  ℕ, ◌+◌, ◌≤◌, ◌≡◌, refl, ◌∙◌, ◌≢◌, inl, inr, true, false, Option, none, some, List, [], ◌∷◌, ◌++◌,
  String, ltb, length, arith, Bool-cases, length-append,
}
use bitmancer.Prelude.Keys.{string_eq, beq_false}
use bitmancer.Prelude.Table.{find, put, find-put, find-put_self}
use bitmancer.Outbox.{
  Pending, Outbox, Departure, displaced, queue_of, has_id, make_room, push_held, hold, waiting_for,
  max_per_peer,
}
use text.Mathlib.TextEquality.{eq_iff}
use bitmancer.Outbox.Queues.{IsOutbox, queue_of-IsQueue, has_id-append}

-- The messages that went to make room.
abbrev pub gone_count {ℓ} : {A : Type ℓ} → Option A → ℕ
gone_count none = 0
gone_count (some x) = 1

make_room-append :
    (queue : List Pending) (p : Pending)
    → length queue ≤ 32
    → let (queue', gone) = make_room (queue ++ (p ∷ [])) in
      (has_id p.message_id queue' ≡ true)
      × (length queue' + gone_count gone ≡ length queue + 1)
      × ((x : String × Departure)
          → gone ≡ some x
          → (length queue ≡ 32) × (x.1 ≡ displaced) × (has_id x.0 queue ≡ true))
unfolding make_room
make_room-append [] p h = (ground (arith, eq_iff p.message_id p.message_id), refl, λ x e. cc)
make_room-append (oldest ∷ rest) p h =
    elim (Bool-cases (ltb max_per_peer (length (oldest ∷ (rest ++ (p ∷ [])))))) [
      | inl over ↦ rw over (
        ground (arith, has_id-append p.message_id rest (p ∷ []), eq_iff p.message_id p.message_id),
        omega (arith, length-append {0} rest (p ∷ [])),
        λ x e. (
          ground (arith, over, length-append rest (p ∷ [])),
          ground (arith, e),
          ground (arith, e, eq_iff oldest.message_id x.0),
        ),
      )
      | inr within ↦ rw within (
        ground (arith, has_id-append p.message_id rest (p ∷ []), eq_iff p.message_id p.message_id),
        omega (arith, length-append {0} rest (p ∷ [])),
        λ x e. cc,
      )
    ]

push_held-new :
    (queue : List Pending) (id content : String) (now : ℕ)
    → has_id id queue ≡ false
    → push_held queue id content now
      ≡ make_room (
          queue
          ++ (record {
            message_id = id;
            content = content;
            queued_at = now;
            attempts = 0;
            last_attempt = none;
          }
              ∷ []))
unfolding push_held
push_held-new queue id content now h = rw h

-- In a well-formed outbox, a message that is new to its peer's queue is held, whether or not the
-- queue is full; at most one message goes for it, only from a full queue and from that queue; the
-- queues of other peers stay.
pub hold_outcome :
    (peer id content : String) (now : ℕ) (outbox : Outbox)
    → IsOutbox outbox
    → has_id id (queue_of (find peer outbox)) ≡ false
    → let (outbox', gone) = hold peer id content now outbox in
      (has_id id (queue_of (find peer outbox')) ≡ true)
      × (waiting_for peer outbox' + gone_count gone ≡ waiting_for peer outbox + 1)
      × ((x : String × Departure)
          → gone ≡ some x
          → (waiting_for peer outbox ≡ 32)
            × (x.1 ≡ displaced)
            × (has_id x.0 (queue_of (find peer outbox)) ≡ true))
      × ((other : String) → peer ≢ other → find other outbox' ≡ find other outbox)
unfolding hold waiting_for
hold_outcome peer id content now outbox h new =
    let queue = queue_of (find peer outbox) in
    let (held, counted, displaced_one) =
      make_room-append queue
        (record {
          message_id = id;
          content = content;
          queued_at = now;
          attempts = 0;
          last_attempt = none;
        })
        (queue_of-IsQueue peer outbox h).short in
    rw (find-put_self peer _ outbox, push_held-new queue id content now new)
      (
        held,
        counted,
        displaced_one,
        λ other ne. find-put peer other _ outbox ∙ rw (beq_false peer other ne),
      )

put_same :
    (peer other : String) (outbox : Outbox) (o : Option (List Pending)) (id : String)
    → find peer outbox ≡ o
    → has_id id (queue_of o) ≡ true
    → find other (put peer (queue_of o) outbox) ≡ find other outbox
put_same peer other outbox none id e h = cc
put_same peer other outbox (some queue) id e h =
    ground (arith, find-put peer other queue outbox, eq_iff peer other)

-- A message that is already held for the peer changes nothing and displaces nothing.
pub hold_again :
    (peer id content : String) (now : ℕ) (outbox : Outbox)
    → has_id id (queue_of (find peer outbox)) ≡ true
    → let (outbox', gone) = hold peer id content now outbox in
      (gone ≡ none) × ((other : String) → find other outbox' ≡ find other outbox)
unfolding hold push_held
hold_again peer id content now outbox old =
    rw old (refl, λ other. put_same peer other outbox (find peer outbox) id refl old)
