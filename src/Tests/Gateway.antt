-- ===== src/Tests/Gateway.antt =====
-- Runs of src/gateway.rs.
use bitmancer.Prelude.{List, ◌≡◌, refl, true, false, [], ◌∷◌, arith}
use bitmancer.Prelude.Sets.{contains}
use bitmancer.Prelude.Table.{find}
use bitmancer.Gateway.{
  Gateway, HeldUplink, new_gateway, accept_uplink, carry_uplink, within_deposit_budget,
  prune_stamps, take_held, note_deposit,
}
use bitmancer.Gateway.Calls.{Call, offering, hearing, carried, switching, taking, run}
use bitmancer.Gateway.Mailbag.{IsMailbag, run-IsMailbag}

abbrev carrying : Gateway
carrying = record new_gateway { enabled = true }

abbrev event : HeldUplink
event = record { depositor = "ann"; geohash = "9q"; event_id = "e1"; event_json = "{}" }

-- A deposit that waits since the relays were down.
abbrev holding : Gateway
holding = record carrying { held = event ∷ [] }

-- The event is published, and the copy in the mailbag goes out as well.
published_twice : (take_held (accept_uplink event 100 100 true holding).0).1 ≡ event ∷ []
unfolding accept_uplink carry_uplink note_deposit within_deposit_budget contains prune_stamps find
    take_held
published_twice = refl

abbrev between : List Call
between = hearing "e2" 101 ∷ offering event 100 101 true ∷ switching true ∷ []

abbrev later : Gateway
later = run between (accept_uplink event 100 100 true holding).0

carrying-IsMailbag : IsMailbag carrying
carrying-IsMailbag = record { few = omega arith; shares = λ d. omega arith; airtime = omega arith }

run-IsMailbag_example :
    IsMailbag
      (run (offering event 100 100 false ∷ hearing "e2" 101 ∷ carried "e3" ∷ taking ∷ []) carrying)
run-IsMailbag_example =
    run-IsMailbag (offering event 100 100 false ∷ hearing "e2" 101 ∷ carried "e3" ∷ taking ∷ [])
      carrying carrying-IsMailbag
