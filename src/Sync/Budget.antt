-- ===== src/Sync/Budget.antt =====
-- No peer draws more than its share (src/sync/rate_limit.rs), over any run of questions and ticks.
use bitmancer.Prelude.{
  ℕ, ◌-◌, ◌≤◌, ◌≡◌, refl, ◌∙◌, ap, false, Option, none, some, List, [], ◌∷◌, ◌++◌, leb, ltb, max,
  if◌then◌else◌, length, arith, inl, inr, Bool-cases, length-append, length-filter, ◌>>=◌, sym,
  append-nil,
}
use bitmancer.Prelude.Keys.{◌=?◌, bytes_eq}
use bitmancer.Prelude.Table.{
  find, put, find-put, find-put_self, IsUnique, put-IsUnique, retain_mut-IsUnique, find-retain_mut,
}
use bitmancer.Sync.RateLimit.{
  ResponseRateLimiter, new_limiter, recent, times_of, spend, should_respond, unless_empty, prune,
}

-- A peer asks, or the clock ticks.
pub data Event : Type 0 where
  ask : List ℕ → ℕ → Event
  tick : ℕ → Event

abbrev pub event_time : Event → ℕ
event_time (ask peer now) = now
event_time (tick now) = now

unfoldable pub after_event : Event → ResponseRateLimiter → ResponseRateLimiter
after_event (ask peer now) limiter = (should_respond peer now limiter).0
after_event (tick now) limiter = prune now limiter

unfoldable pub granted_by : List ℕ → Event → ResponseRateLimiter → List ℕ
granted_by peer (ask asker now) limiter =
    if asker =? peer then (if (should_respond asker now limiter).1 then now ∷ [] else []) else []
granted_by peer (tick now) limiter = []

-- The limiter after some events, and the times at which it granted the peer a reply.
unfoldable pub run_events :
    List ℕ → List Event → ResponseRateLimiter × List ℕ → ResponseRateLimiter × List ℕ
unfolding after_event granted_by
run_events peer [] state = state
run_events peer (event ∷ events) (limiter, log) =
    run_events peer events (after_event event limiter, log ++ granted_by peer event limiter)

-- The events come in the order of their times, from `start` to `end'`.
abbrev pub IsTimeline : ℕ → List Event → ℕ → Type 0
IsTimeline start [] end' = start ≤ end'
IsTimeline start (event ∷ events) end' =
    (start ≤ event_time event) × IsTimeline (event_time event) events end'

recent-append : (c : ℕ) (xs ys : List ℕ) → recent c (xs ++ ys) ≡ recent c xs ++ recent c ys
recent-append c [] ys = refl
recent-append c (x ∷ xs) ys = ground (arith, recent-append c xs ys)

recent-recent : (c d : ℕ) (xs : List ℕ) → d ≤ c → recent c (recent d xs) ≡ recent c xs
recent-recent c d [] h = refl
recent-recent c d (x ∷ xs) h = ground (arith, h, recent-recent c d xs h)

times_of-unless_empty : (xs : List ℕ) → times_of (unless_empty xs) ≡ xs
times_of-unless_empty [] = refl
times_of-unless_empty (x ∷ xs) = refl

-- What the limiter knows of a peer at a time: within the window it remembers exactly the grants.
record Remembers (peer : List ℕ) (now : ℕ) (limiter : ResponseRateLimiter) (log : List ℕ)
    : Type 0 where
  unique : IsUnique limiter.history
  within : length (times_of (find peer limiter.history)) ≤ limiter.max_responses
  exact :
      (c : ℕ)
      → now - limiter.window_ms ≤ c
      → recent c log ≡ recent c (times_of (find peer limiter.history))

times_of-prune :
    (w : ℕ) (o : Option (List ℕ))
    → times_of (o >>= (λ times. unless_empty (recent w times))) ≡ recent w (times_of o)
times_of-prune w none = refl
times_of-prune w (some times) = times_of-unless_empty (recent w times)

prune-Remembers :
    (peer : List ℕ) (last now : ℕ) (limiter : ResponseRateLimiter) (log : List ℕ)
    → last ≤ now
    → Remembers peer last limiter log
    → Remembers peer now (prune now limiter) log
unfolding prune
prune-Remembers peer last now limiter log le h =
    let kept : times_of (find peer (prune now limiter).history)
        ≡ recent (now - limiter.window_ms) (times_of (find peer limiter.history)) =
      ap times_of (find-retain_mut _ peer limiter.history h.unique)
      ∙ times_of-prune (now - limiter.window_ms) (find peer limiter.history) in
    record {
      unique = retain_mut-IsUnique _ limiter.history h.unique;
      within = rw kept (
          omega (
            arith,
            h.within,
            length-filter (leb (now - limiter.window_ms)) (times_of (find peer limiter.history)),
          ));
      exact = λ c from.
          h.exact c (omega (arith, le, from))
          ∙ rw kept (rw (recent-recent c (now - limiter.window_ms) _ from) refl);
    }

spend-within :
    (m : ℕ) (times : List ℕ) (now : ℕ) → length times ≤ m → length ((spend m times now).0) ≤ m
unfolding spend
spend-within m times now h = elim (Bool-cases (leb m (length times))) [
  | inl full ↦ rw full h
  | inr free ↦ rw free (rw (length-append times (now ∷ [])) (ground (arith, free)))
]

spend-recent :
    (m c : ℕ) (times : List ℕ) (now : ℕ)
    → recent c ((spend m times now).0)
      ≡ recent c times ++ recent c (if (spend m times now).1 then now ∷ [] else [])
unfolding spend
spend-recent m c times now = elim (Bool-cases (leb m (length times))) [
  | inl full ↦ rw full (sym (append-nil (recent c times)))
  | inr free ↦ rw free (recent-append c times (now ∷ []))
]

asked-Remembers :
    (peer : List ℕ) (last now : ℕ) (limiter : ResponseRateLimiter) (log : List ℕ)
    → last ≤ now
    → Remembers peer last limiter log
    → Remembers peer now
        ((should_respond peer now limiter).0)
        (log ++ (if (should_respond peer now limiter).1 then now ∷ [] else []))
unfolding should_respond
asked-Remembers peer last now limiter log le h =
    let w = now - limiter.window_ms in
    let times = times_of (find peer limiter.history) in
    record {
      unique = put-IsUnique peer _ limiter.history h.unique;
      within =
          rw
            (find-put_self peer ((spend limiter.max_responses (recent w times) now).0)
              limiter.history)
            (spend-within limiter.max_responses (recent w times) now
              (omega (arith, h.within, length-filter (leb w) times)));
      exact = λ c from.
          recent-append c log _
          ∙ rw
              (
                h.exact c (omega (arith, le, from)),
                find-put_self peer ((spend limiter.max_responses (recent w times) now).0)
                    limiter.history,
                spend-recent limiter.max_responses c (recent w times) now,
                recent-recent c w times from,
              )
              refl;
    }

other-Remembers :
    (peer other : List ℕ) (last now : ℕ) (limiter : ResponseRateLimiter) (log : List ℕ)
    → last ≤ now
    → (other =? peer) ≡ false
    → Remembers peer last limiter log
    → Remembers peer now ((should_respond other now limiter).0) log
unfolding should_respond
other-Remembers peer other last now limiter log le apart h =
    let kept : (v : List ℕ) → find peer (put other v limiter.history) ≡ find peer limiter.history =
      λ v. find-put other peer v limiter.history ∙ rw apart refl in
    record {
      unique = put-IsUnique other _ limiter.history h.unique;
      within = rw kept h.within;
      exact = λ c from. rw kept (h.exact c (omega (arith, le, from)));
    }

event-Remembers :
    (peer : List ℕ) (last : ℕ) (event : Event) (limiter : ResponseRateLimiter) (log : List ℕ)
    → last ≤ event_time event
    → Remembers peer last limiter log
    → Remembers peer
        (event_time event)
        (after_event event limiter)
        (log ++ granted_by peer event limiter)
unfolding after_event granted_by
event-Remembers peer last (tick now) limiter log le h =
    rw (append-nil log) (prune-Remembers peer last now limiter log le h)
event-Remembers peer last (ask asker now) limiter log le h = elim (Bool-cases (asker =? peer)) [
  | inl same ↦
      let it : asker ≡ peer = (bytes_eq.beq_iff asker peer).0 same in
      rw same (rw it (asked-Remembers peer last now limiter log le h))
  | inr apart ↦
      rw apart (rw (append-nil log) (other-Remembers peer asker last now limiter log le apart h))
]

run_events-Remembers :
    (peer : List ℕ) (start end' : ℕ) (events : List Event) (limiter : ResponseRateLimiter)
    (log : List ℕ)
    → IsTimeline start events end'
    → Remembers peer start limiter log
    → (last : ℕ) × (last ≤ end')
      × Remembers peer last
          ((run_events peer events (limiter, log)).0)
          ((run_events peer events (limiter, log)).1)
unfolding run_events
run_events-Remembers peer start end' [] limiter log t h = (start, t, h)
run_events-Remembers peer start end' (event ∷ events) limiter log t h =
    run_events-Remembers peer (event_time event) end' events _ _ t.1
      (event-Remembers peer start event limiter log t.0 h)

same_settings :
    (peer : List ℕ) (events : List Event) (limiter : ResponseRateLimiter) (log : List ℕ)
    → ((run_events peer events (limiter, log)).0.max_responses ≡ limiter.max_responses)
      × ((run_events peer events (limiter, log)).0.window_ms ≡ limiter.window_ms)
unfolding run_events after_event should_respond prune
same_settings peer [] limiter log = (refl, refl)
same_settings peer (ask asker now ∷ events) limiter log = same_settings peer events _ _
same_settings peer (tick now ∷ events) limiter log = same_settings peer events _ _

new_limiter-Remembers : (m w : ℕ) (peer : List ℕ) → Remembers peer 0 (new_limiter m w) []
unfolding new_limiter find
new_limiter-Remembers m w peer = record {
  unique = tt;
  within = omega arith;
  exact = λ c from. refl;
}

answer_by_log :
    (peer : List ℕ) (last now : ℕ) (limiter : ResponseRateLimiter) (log : List ℕ)
    → last ≤ now
    → Remembers peer last limiter log
    → (should_respond peer now limiter).1
      ≡ ltb (length (recent (now - limiter.window_ms) log)) limiter.max_responses
unfolding should_respond spend
answer_by_log peer last now limiter log le h =
    rw (h.exact (now - limiter.window_ms) (omega (arith, le))) (ground arith)

new_limiter_settings :
    (m w : ℕ) → ((new_limiter m w).max_responses ≡ max m 1) × ((new_limiter m w).window_ms ≡ w)
unfolding new_limiter
new_limiter_settings m w = (refl, refl)

within_budget :
    (peer : List ℕ) (last now : ℕ) (limiter : ResponseRateLimiter) (log : List ℕ)
    → last ≤ now
    → Remembers peer last limiter log
    → length (recent (now - limiter.window_ms) log) ≤ limiter.max_responses
within_budget peer last now limiter log le h =
    let times = times_of (find peer limiter.history) in
    rw (h.exact (now - limiter.window_ms) (omega (arith, le)))
      (omega (arith, h.within, length-filter (leb (now - limiter.window_ms)) times))

by_settings :
    (m w now : ℕ) (peer : List ℕ) (limiter : ResponseRateLimiter) (log : List ℕ)
    → limiter.max_responses ≡ m
    → limiter.window_ms ≡ w
    → (last : ℕ) × (last ≤ now) × Remembers peer last limiter log
    → (length (recent (now - w) log) ≤ m)
      × ((should_respond peer now limiter).1 ≡ ltb (length (recent (now - w) log)) m)
by_settings m w now peer limiter log budget width (last, le, h) = (
  rw (← width, ← budget) (within_budget peer last now limiter log le h),
  rw (← width, ← budget) (answer_by_log peer last now limiter log le h),
)

-- After any run of questions and ticks in the order of their times, a new limiter has granted a
-- peer at most its budget, which is one reply at least, within the window that ends now; and a
-- question now is answered exactly if the grants of that window are fewer than the budget.
pub window_budget :
    (m w now : ℕ) (peer : List ℕ) (events : List Event)
    → IsTimeline 0 events now
    → let (limiter, log) = run_events peer events (new_limiter m w, []) in
      (length (recent (now - w) log) ≤ max m 1)
      × ((should_respond peer now limiter).1 ≡ ltb (length (recent (now - w) log)) (max m 1))
window_budget m w now peer events t =
    let limiter = new_limiter m w in
    let (same_budget, same_width) = same_settings peer events limiter [] in
    by_settings (max m 1) w now peer _ _ (same_budget ∙ (new_limiter_settings m w).0)
      (same_width ∙ (new_limiter_settings m w).1)
      (run_events-Remembers peer 0 now events limiter [] t (new_limiter-Remembers m w peer))
