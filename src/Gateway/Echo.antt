-- ===== src/Gateway/Echo.antt =====
-- Loop prevention of src/gateway.rs: a published event when the relays return it, when it is deposited
-- again, and when a copy of it waits in the mailbag, which `take_held` hands out whatever was published.
use bitmancer.Prelude.{ℕ, Bool, true, false, List, filter, String, length}
use bitmancer.Prelude.Keys.{string_eq, ◌=?◌}
use bitmancer.Gateway.{
  Gateway, HeldUplink, Uplink, publish, queued, refused_uplink, Downlink, broadcast,
  refused_downlink,
}

pub refuses_downlink : Downlink → Bool
refuses_downlink broadcast = false
refuses_downlink (refused_downlink reason) = true

pub refuses_uplink : Uplink → Bool
refuses_uplink publish = false
refuses_uplink queued = false
refuses_uplink (refused_uplink reason) = true

-- The copies of an event among the deposits held.
abbrev pub copies : String → List HeldUplink → ℕ
copies id items = length (filter (λ item. item.event_id =? id) items)
