-- ===== src/Tests/Outbox.antt =====
-- Runs of src/outbox.rs.
use bitmancer.Prelude.{
  ℕ, ◌+◌, ◌-◌, ◌*◌, ◌^◌, ◌≡◌, refl, ◌≢◌, ◌⊎◌, Bool, true, false, not, ◌&&◌, some, none, String, [],
  ◌∷◌, ◌++◌, arith, All, filter, map, min,
}
use bitmancer.Prelude.Table.{find}
use bitmancer.Prelude.Keys.{string_eq}
use bitmancer.Outbox.{
  Pending, Outbox, Departure, displaced, queue_of, has_id, hold, mark_attempted, acknowledge,
  expire, expired, abandoned_in, due, waiting_for, is_ready,
}
use bitmancer.Outbox.Queues.{IsOutbox, hold-IsOutbox}
use bitmancer.Outbox.Outcomes.{gone_count, hold_outcome}
use bitmancer.Outbox.Entries.{FirstOf, IsOther, entries}
use bitmancer.Outbox.Upkeep.{
  AllBusy, is_stale, reported, acknowledge_outcome, mark_attempted_outcome, expire_outcome,
}
use bitmancer.Outbox.Due.{IsOrdered, count_where, due_outcome}

abbrev note : Pending
note = record { message_id = "a"; content = "hi"; queued_at = 5; attempts = 0; last_attempt = none }

abbrev later_day : ℕ
later_day = 24 * 60 * 60 * 1000000000

abbrev waiting : Outbox
waiting = ("bob", note ∷ []) ∷ []

waiting-IsOutbox : IsOutbox waiting
waiting-IsOutbox = (record { distinct = (refl, tt); short = omega arith }, tt)

hold-IsOutbox_example : IsOutbox (hold "bob" "b" "more" 6 waiting).0
hold-IsOutbox_example = hold-IsOutbox "bob" "b" "more" 6 waiting waiting-IsOutbox

hold_outcome_example :
    let (outbox, gone) = hold "bob" "b" "more" 6 waiting in
    (has_id "b" (queue_of (find "bob" outbox)) ≡ true)
    × (waiting_for "bob" outbox + gone_count gone ≡ waiting_for "bob" waiting + 1)
    × ((x : String × Departure)
        → gone ≡ some x
        → (waiting_for "bob" waiting ≡ 32)
          × (x.1 ≡ displaced)
          × (has_id x.0 (queue_of (find "bob" waiting)) ≡ true))
    × ((other : String) → "bob" ≢ other → find other outbox ≡ find other waiting)
hold_outcome_example =
    hold_outcome "bob" "b" "more" 6 waiting waiting-IsOutbox (unfold find in refl)

-- Two messages for bob, and one for ann that is a day older.
abbrev crowded : Outbox
crowded =
    (
      "bob",
      record note { queued_at = later_day }
          ∷ record note { message_id = "b"; queued_at = later_day }
          ∷ [],
    )
    ∷ ("ann", record note { message_id = "c" } ∷ [])
    ∷ []

acknowledge_outcome_example :
    let (outbox, found) = acknowledge "b" crowded in
    ((found ≡ true) × (f : FirstOf "b" (entries crowded)) × (entries outbox ≡ f.before ++ f.after))
    ⊎ ((found ≡ false) × All (IsOther "b") (entries crowded) × (outbox ≡ crowded))
acknowledge_outcome_example = acknowledge_outcome "b" crowded

mark_attempted_outcome_example :
    ((f : FirstOf "b" (entries crowded)) × (entries (mark_attempted "b" 9 crowded)
        ≡ f.before
          ++ ((
            f.peer,
            record {
              message_id = "b";
              content = f.held.content;
              queued_at = f.held.queued_at;
              attempts = min (f.held.attempts + 1) (2 ^ 32 - 1);
              last_attempt = some 9;
            },
          )
              ∷ f.after)))
    ⊎ (All (IsOther "b") (entries crowded) × (mark_attempted "b" 9 crowded ≡ crowded))
mark_attempted_outcome_example = mark_attempted_outcome "b" 9 crowded

-- The message for ann is dropped, and those for bob are kept.
expire_outcome_example :
    let (outbox, gone) = expire (later_day + 5) crowded in
    (entries outbox ≡ filter (λ entry. not (is_stale (later_day + 5) entry)) (entries crowded))
    × (gone ≡ map reported (filter (is_stale (later_day + 5)) (entries crowded)))
    × AllBusy outbox
expire_outcome_example = expire_outcome (later_day + 5) crowded

dropped : (expire (later_day + 5) crowded).1 ≡ ("ann", "c") ∷ []
unfolding expire abandoned_in expired
dropped = refl

due_outcome_example :
    IsOrdered (due 6 waiting)
    × All (λ (e : String × Pending). is_ready 6 e.1 ≡ true) (due 6 waiting)
    × ((t : String × Pending → Bool)
        → count_where t (due 6 waiting)
          ≡ count_where (λ e. is_ready 6 e.1 && t e) (entries waiting))
due_outcome_example = due_outcome 6 waiting
