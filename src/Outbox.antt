-- ===== src/Outbox.antt =====
-- Private messages that wait for a way to their peer (src/outbox.rs). Instants and durations count
-- nanoseconds. The map of queues is a table; its order stands for the unspecified order in which
-- the code walks the map.
pub mod Queues
pub mod Runs
pub mod Outcomes
pub mod Backoff
pub mod Entries
pub mod Located
pub mod Upkeep
pub mod Due
use Prim.Native.Nat.{compare, Ordering}
use Prim.Native.String.{compare as string_compare}
use bitmancer.Prelude.{
  ℕ, suc, zero, ◌+◌, ◌-◌, ◌*◌, ◌^◌, Bool, true, false, not, ◌&&◌, Option, none, some, List, [], ◌∷◌,
  ◌++◌, String, ltb, leb, if◌then◌else◌, length, filter, any, map, min,
}
use bitmancer.Prelude.Keys.{◌=?◌, string_eq}
use bitmancer.Prelude.Table.{Table, find, put}

abbrev pub second : ℕ
second = 1000000000

abbrev pub max_per_peer : ℕ
max_per_peer = 32

abbrev pub max_age : ℕ
max_age = 24 * 60 * 60 * second

abbrev pub base_backoff : ℕ
base_backoff = 30 * second

abbrev pub max_backoff : ℕ
max_backoff = 15 * 60 * second

pub data Route : Type 0 where
  mesh nostr hold_back : Route

unfoldable pub route : Bool → Option String → Route
route true address = mesh
route false none = hold_back
route false (some address) = if address =? "" then hold_back else nostr

pub record Pending : Type 0 where
  pub message_id : String
  pub content : String
  pub queued_at : ℕ
  pub attempts : ℕ
  pub last_attempt : Option ℕ

-- `checked_mul` cannot overflow: the exponent is 16 at most.
unfoldable pub backoff : Pending → ℕ
backoff p = min (base_backoff * 2 ^ min (p.attempts - 1) 16) max_backoff

unfoldable pub is_due : Pending → ℕ → Bool
is_due p now = elim p.last_attempt [ none ↦ true | some last ↦ leb (backoff p) (now - last) ]

unfoldable pub expired : Pending → ℕ → Bool
expired p now = leb max_age (now - p.queued_at)

pub data Departure : Type 0 where
  acknowledged abandoned displaced : Departure

abbrev pub Outbox : Type 0
Outbox = Table String (List Pending)

abbrev pub queue_of : Option (List Pending) → List Pending
queue_of none = []
queue_of (some queue) = queue

abbrev pub has_id : String → List Pending → Bool
has_id message_id = any (λ held. held.message_id =? message_id)

-- The queue after a push, and what went to make room.
unfoldable pub make_room : List Pending → List Pending × Option (String × Departure)
make_room [] = ([], none)
make_room (oldest ∷ rest) =
    if ltb max_per_peer (length (oldest ∷ rest))
    then (rest, some (oldest.message_id, displaced))
    else (oldest ∷ rest, none)

unfoldable pub push_held :
    List Pending → String → String → ℕ → List Pending × Option (String × Departure)
unfolding make_room
push_held queue message_id content now =
    if has_id message_id queue
    then (queue, none)
    else make_room (
        queue
        ++ (record {
          message_id = message_id;
          content = content;
          queued_at = now;
          attempts = 0;
          last_attempt = none;
        }
            ∷ []))

unfoldable pub hold : String → String → String → ℕ → Outbox → Outbox × Option (String × Departure)
hold fingerprint message_id content now outbox =
    let (queue, gone) = push_held (queue_of (find fingerprint outbox)) message_id content now in
    (put fingerprint queue outbox, gone)

-- `saturating_add` on a `u32`.
abbrev pub attempted : ℕ → Pending → Pending
attempted now p = record p { attempts = min (p.attempts + 1) (2 ^ 32 - 1); last_attempt = some now }

unfoldable pub attempt_first : String → ℕ → List Pending → List Pending
attempt_first message_id now [] = []
attempt_first message_id now (held ∷ queue) =
    let rest = attempt_first message_id now queue in
    if held.message_id =? message_id then attempted now held ∷ queue else held ∷ rest

unfoldable pub mark_attempted : String → ℕ → Outbox → Outbox
mark_attempted message_id now [] = []
mark_attempted message_id now ((peer, queue) ∷ outbox) =
    let rest = mark_attempted message_id now outbox in
    if has_id message_id queue
    then (peer, attempt_first message_id now queue) ∷ outbox
    else (peer, queue) ∷ rest

unfoldable pub remove_first : String → List Pending → List Pending
remove_first message_id [] = []
remove_first message_id (held ∷ queue) =
    let rest = remove_first message_id queue in
    if held.message_id =? message_id then queue else held ∷ rest

unfoldable pub acknowledge : String → Outbox → Outbox × Bool
acknowledge message_id [] = ([], false)
acknowledge message_id ((peer, queue) ∷ outbox) =
    let (rest, found) = acknowledge message_id outbox in
    if has_id message_id queue
    then ((peer, remove_first message_id queue) ∷ outbox, true)
    else ((peer, queue) ∷ rest, found)

-- `cmp` by the time of queueing, then by the peer.
unfoldable pub before : String × Pending → String × Pending → Bool
before (a, p) (b, q) = elim (compare p.queued_at q.queued_at) [
  | Ordering.lt ↦ true
  | Ordering.gt ↦ false
  | Ordering.eq ↦ elim (string_compare a b) [ Ordering.gt ↦ false | _ ↦ true ]
]

-- `sort_by`, a stable sort.
unfoldable pub insert_sorted : String × Pending → List (String × Pending) → List (String × Pending)
insert_sorted x [] = x ∷ []
insert_sorted x (y ∷ ys) =
    let rest = insert_sorted x ys in if before x y then x ∷ y ∷ ys else y ∷ rest

unfoldable pub sort_ready : List (String × Pending) → List (String × Pending)
unfolding insert_sorted
sort_ready [] = []
sort_ready (x ∷ xs) = insert_sorted x (sort_ready xs)

abbrev pub is_ready : ℕ → Pending → Bool
is_ready now held = is_due held now && not (expired held now)

unfoldable pub ready : ℕ → Outbox → List (String × Pending)
ready now [] = []
ready now ((peer, queue) ∷ outbox) =
    map (λ held. (peer, held)) (filter (is_ready now) queue) ++ ready now outbox

unfoldable pub due : ℕ → Outbox → List (String × Pending)
unfolding ready sort_ready
due now outbox = sort_ready (ready now outbox)

unfoldable pub abandoned_in : ℕ → String → List Pending → List (String × String)
abandoned_in now peer queue =
    map (λ held. (peer, held.message_id)) (filter (λ held. expired held now) queue)

-- Queues that are empty afterwards go too.
unfoldable pub keep_queue : String → List Pending → Outbox → Outbox
keep_queue peer [] rest = rest
keep_queue peer (held ∷ more) rest = (peer, held ∷ more) ∷ rest

unfoldable pub expire : ℕ → Outbox → Outbox × List (String × String)
unfolding abandoned_in keep_queue
expire now [] = ([], [])
expire now ((peer, queue) ∷ outbox) =
    let (rest, gone) = expire now outbox in
    (
      keep_queue peer (filter (λ held. not (expired held now)) queue) rest,
      abandoned_in now peer queue ++ gone,
    )

unfoldable pub waiting_for : String → Outbox → ℕ
waiting_for fingerprint outbox = length (queue_of (find fingerprint outbox))

unfoldable pub total : Outbox → ℕ
total [] = 0
total ((peer, queue) ∷ outbox) = length queue + total outbox

unfoldable pub clear : Outbox → Outbox
clear outbox = []
