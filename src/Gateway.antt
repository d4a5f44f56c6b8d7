-- ===== src/Gateway.antt =====
-- Sharing a connection with the mesh (src/gateway.rs): what is carried to the relays and back. Instants
-- count seconds from the epoch on, so the differences of the source are written as sums.
pub mod Seen
pub mod Calls
pub mod Published
pub mod Echo
pub mod Mailbag
use bitmancer.Prelude.{
  ℕ, zero, suc, ◌+◌, ◌*◌, Bool, true, false, not, Option, none, some, List, [], ◌∷◌, ◌++◌, String,
  ltb, leb, if◌then◌else◌, length, filter, drop,
}
use bitmancer.Prelude.Keys.{◌=?◌, string_eq}
use bitmancer.Prelude.Sets.{contains, insert, erase}
use bitmancer.Prelude.Table.{Table, find, put}

abbrev pub max_queued_uplinks : ℕ
max_queued_uplinks = 20

abbrev pub max_queued_per_depositor : ℕ
max_queued_per_depositor = 5

abbrev pub uplinks_per_minute_per_depositor : ℕ
uplinks_per_minute_per_depositor = 10

abbrev pub downlinks_per_minute : ℕ
downlinks_per_minute = 30

abbrev pub max_event_age_seconds : ℕ
max_event_age_seconds = 15 * 60

abbrev pub max_tracked_ids : ℕ
max_tracked_ids = 512

abbrev pub rate_window_seconds : ℕ
rate_window_seconds = 60

pub data Uplink : Type 0 where
  publish queued : Uplink
  refused_uplink : String → Uplink

pub data Downlink : Type 0 where
  broadcast : Downlink
  refused_downlink : String → Downlink

pub record HeldUplink : Type 0 where
  pub depositor : String
  pub geohash : String
  pub event_id : String
  pub event_json : String

-- The set and the queue of `Seen`.
pub record SeenIds : Type 0 where
  pub ids : List String
  pub order : List String

abbrev pub nothing_seen : SeenIds
nothing_seen = record { ids = []; order = [] }

unfoldable pub drop_oldest_id : List String → List String → SeenIds
drop_oldest_id ids [] = record { ids = ids; order = [] }
drop_oldest_id ids (oldest ∷ order) = record { ids = erase oldest ids; order = order }

-- The queue is one longer than the limit at most, so the loop of the source runs once at most.
unfoldable pub note_id : String → SeenIds → SeenIds
unfolding drop_oldest_id
note_id id s =
    if contains s.ids id
    then s
    else if ltb max_tracked_ids (length (s.order ++ (id ∷ [])))
    then drop_oldest_id (insert id s.ids) (s.order ++ (id ∷ []))
    else record { ids = insert id s.ids; order = s.order ++ (id ∷ []) }

pub record Gateway : Type 0 where
  pub enabled : Bool
  pub from_mesh : SeenIds
  pub published : SeenIds
  pub rebroadcast : SeenIds
  pub deposits : Table String (List ℕ)
  pub broadcasts : List ℕ
  pub held : List HeldUplink

abbrev pub new_gateway : Gateway
new_gateway = record {
  enabled = false;
  from_mesh = nothing_seen;
  published = nothing_seen;
  rebroadcast = nothing_seen;
  deposits = [];
  broadcasts = [];
  held = [];
}

unfoldable pub switch_gateway : Bool → Gateway → Gateway × ℕ
switch_gateway enabled g =
    if enabled
    then (record g { enabled = enabled }, 0)
    else (record g { enabled = enabled; held = [] }, length g.held)

unfoldable pub note_carried_on_mesh : String → Gateway → Gateway
note_carried_on_mesh event_id g = record g { from_mesh = note_id event_id g.from_mesh }

-- The stamps at the front that are out of the window go.
unfoldable pub prune_stamps : ℕ → List ℕ → List ℕ
prune_stamps now [] = []
prune_stamps now (stamp ∷ stamps) =
    let rest = prune_stamps now stamps in
    if leb (stamp + rate_window_seconds) now then rest else stamp ∷ stamps

abbrev pub stamps_of : Option (List ℕ) → List ℕ
stamps_of none = []
stamps_of (some stamps) = stamps

unfoldable pub within_deposit_budget : String → ℕ → Gateway → Gateway × Bool
unfolding prune_stamps find put
within_deposit_budget depositor now g =
    let recent = prune_stamps now (stamps_of (find depositor g.deposits)) in
    (
      record g { deposits = put depositor recent g.deposits },
      ltb (length recent) uplinks_per_minute_per_depositor,
    )

unfoldable pub note_deposit : String → ℕ → Gateway → Gateway
unfolding find put
note_deposit depositor now g = record g {
  deposits = put depositor (stamps_of (find depositor g.deposits) ++ (now ∷ [])) g.deposits;
}

unfoldable pub within_broadcast_budget : ℕ → Gateway → Gateway × Bool
unfolding prune_stamps
within_broadcast_budget now g =
    let recent = prune_stamps now g.broadcasts in
    (record g { broadcasts = recent }, ltb (length recent) downlinks_per_minute)

abbrev pub deposited_by : String → HeldUplink → Bool
deposited_by depositor item = item.depositor =? depositor

-- The oldest deposit goes when the mailbag is full.
abbrev pub with_room : List HeldUplink → List HeldUplink
with_room items = if leb max_queued_uplinks (length items) then drop 1 items else items

-- The part of `accept_uplink` after the checks.
unfoldable pub carry_uplink : HeldUplink → ℕ → Bool → Gateway → Gateway × Uplink
carry_uplink item now relays_up g =
    if relays_up
    then (
      note_deposit item.depositor now (record g { published = note_id item.event_id g.published }),
      publish,
    )
    else if leb max_queued_per_depositor (length (filter (deposited_by item.depositor) g.held))
    then (g, refused_uplink "already holding all we will for this peer")
    else let noted = note_deposit item.depositor now g in
      (record noted { held = with_room noted.held ++ (item ∷ []) }, queued)

unfoldable pub accept_uplink : HeldUplink → ℕ → ℕ → Bool → Gateway → Gateway × Uplink
accept_uplink item created_at now relays_up g =
    if not g.enabled
    then (g, refused_uplink "not acting as a gateway")
    else if contains g.from_mesh.ids item.event_id
    then (g, refused_uplink "already carried over the mesh")
    else if contains g.published.ids item.event_id
    then (g, refused_uplink "already published")
    else if ltb (created_at + max_event_age_seconds) now
    then (g, refused_uplink "too old to be worth carrying")
    else if ltb (now + max_event_age_seconds) created_at
    then (g, refused_uplink "dated in the future")
    else let (pruned, within) = within_deposit_budget item.depositor now g in
      if within
      then carry_uplink item now relays_up pruned
      else (pruned, refused_uplink "depositing too fast")

unfoldable pub note_all : List HeldUplink → SeenIds → SeenIds
note_all [] s = s
note_all (item ∷ items) s = note_all items (note_id item.event_id s)

unfoldable pub take_held : Gateway → Gateway × List HeldUplink
take_held g = (record g { held = []; published = note_all g.held g.published }, g.held)

unfoldable pub accept_downlink : String → ℕ → Gateway → Gateway × Downlink
accept_downlink event_id now g =
    if not g.enabled
    then (g, refused_downlink "not acting as a gateway")
    else if contains g.published.ids event_id
    then (g, refused_downlink "we published this ourselves")
    else if contains g.from_mesh.ids event_id
    then (g, refused_downlink "already carried over the mesh")
    else if contains g.rebroadcast.ids event_id
    then (g, refused_downlink "already broadcast")
    else let (pruned, within) = within_broadcast_budget now g in
      if within
      then (
        record pruned {
          rebroadcast = note_id event_id pruned.rebroadcast;
          broadcasts = pruned.broadcasts ++ (now ∷ []);
        },
        broadcast,
      )
      else (pruned, refused_downlink "out of airtime for this minute")
