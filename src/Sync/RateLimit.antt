-- ===== src/Sync/RateLimit.antt =====
-- How often one peer may draw a reply (src/sync/rate_limit.rs). Times are in milliseconds.
use bitmancer.Prelude.{
  ℕ, ◌-◌, ◌*◌, Bool, true, false, Option, none, some, List, [], ◌∷◌, ◌++◌, leb, max, if◌then◌else◌,
  length, filter,
}
use bitmancer.Prelude.Keys.{bytes_eq}
use bitmancer.Prelude.Table.{Table, find, put, retain_mut}

abbrev pub max_reply_count : ℕ
max_reply_count = 8

abbrev pub default_window_ms : ℕ
default_window_ms = 30 * 1000

pub record ResponseRateLimiter : Type 0 where
  pub max_responses : ℕ
  pub window_ms : ℕ
  pub history : Table (List ℕ) (List ℕ)

unfoldable pub new_limiter : ℕ → ℕ → ResponseRateLimiter
new_limiter max_responses window_ms = record {
  max_responses = max max_responses 1;
  window_ms = window_ms;
  history = [];
}

unfoldable pub default_limiter : ResponseRateLimiter
unfolding new_limiter
default_limiter = new_limiter max_reply_count default_window_ms

-- `retain` on the times of one peer.
abbrev pub recent : ℕ → List ℕ → List ℕ
recent cutoff = filter (leb cutoff)

-- `entry(peer).or_default()`
abbrev pub times_of : Option (List ℕ) → List ℕ
times_of none = []
times_of (some times) = times

-- The times after a question, and its answer.
unfoldable pub spend : ℕ → List ℕ → ℕ → List ℕ × Bool
spend max_responses times now =
    if leb max_responses (length times) then (times, false) else (times ++ (now ∷ []), true)

unfoldable pub should_respond : List ℕ → ℕ → ResponseRateLimiter → ResponseRateLimiter × Bool
unfolding spend
should_respond peer now limiter =
    let (times, answer) =
      spend limiter.max_responses
        (recent (now - limiter.window_ms) (times_of (find peer limiter.history))) now in
    (record limiter { history = put peer times limiter.history }, answer)

abbrev pub unless_empty : List ℕ → Option (List ℕ)
unless_empty [] = none
unless_empty (t ∷ ts) = some (t ∷ ts)

unfoldable pub prune : ℕ → ResponseRateLimiter → ResponseRateLimiter
prune now limiter = record limiter {
  history =
      retain_mut (λ times. unless_empty (recent (now - limiter.window_ms) times)) limiter.history;
}
