-- ===== src/Outbox/Runs.antt =====
-- Calls of src/outbox.rs in any order.
use bitmancer.Prelude.{ℕ, List, [], ◌∷◌, String}
use bitmancer.Outbox.{Outbox, hold, mark_attempted, acknowledge, expire, clear}
use bitmancer.Outbox.Queues.{
  IsOutbox, hold-IsOutbox, mark_attempted-IsOutbox, acknowledge-IsOutbox, expire-IsOutbox,
}

-- The calls that change the outbox.
data Call : Type 0 where
  holding : String → String → String → ℕ → Call
  marking : String → ℕ → Call
  acknowledging : String → Call
  expiring : ℕ → Call
  clearing : Call

unfoldable serve : Call → Outbox → Outbox
serve (holding peer id content now) outbox = (hold peer id content now outbox).0
serve (marking id now) outbox = mark_attempted id now outbox
serve (acknowledging id) outbox = (acknowledge id outbox).0
serve (expiring now) outbox = (expire now outbox).0
serve clearing outbox = clear outbox

unfoldable run : List Call → Outbox → Outbox
run [] outbox = outbox
run (c ∷ cs) outbox = run cs (serve c outbox)

serve-IsOutbox : (c : Call) (outbox : Outbox) → IsOutbox outbox → IsOutbox (serve c outbox)
unfolding serve
serve-IsOutbox (holding peer id content now) outbox h = hold-IsOutbox peer id content now outbox h
serve-IsOutbox (marking id now) outbox h = mark_attempted-IsOutbox id now outbox h
serve-IsOutbox (acknowledging id) outbox h = acknowledge-IsOutbox id outbox h
serve-IsOutbox (expiring now) outbox h = expire-IsOutbox now outbox h
serve-IsOutbox clearing outbox h = unfold clear in tt

-- Whatever calls are made in whatever order, from a well-formed outbox on, each queue holds at most 32
-- messages with identifiers of their own.
run-IsOutbox : (cs : List Call) (outbox : Outbox) → IsOutbox outbox → IsOutbox (run cs outbox)
unfolding run
run-IsOutbox [] outbox h = h
run-IsOutbox (c ∷ cs) outbox h = run-IsOutbox cs (serve c outbox) (serve-IsOutbox c outbox h)
