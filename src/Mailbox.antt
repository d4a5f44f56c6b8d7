-- ===== src/Mailbox.antt =====
-- The shelf of mail held for others (src/mailbox.rs). The file is a list of rows; the text of a row
-- is not modelled, and a write of the file is taken to succeed.
pub mod Shelf
pub mod Deposits
pub mod Favourites
use bitmancer.Prelude.{
  ℕ, zero, suc, ◌+◌, ◌-◌, ◌*◌, ◌%◌, ◌^◌, max, Bool, true, false, not, Option, none, some, List, [],
  ◌∷◌, ◌++◌, String, ltb, leb, ◌==◌, if◌then◌else◌, length, filter, map, ◌>>=◌,
}
use bitmancer.Prelude.Keys.{◌=?◌, string_eq, bytes_eq}
use bitmancer.Prelude.Sets.{contains}
use bitmancer.Courier.{
  Envelope, is_expired, encode_envelope, decode_envelope, fingerprint, max_lifetime_seconds,
}

abbrev pub max_held : ℕ
max_held = 40

abbrev pub max_verified_held : ℕ
max_verified_held = 20

abbrev pub max_per_favourite : ℕ
max_per_favourite = 5

abbrev pub max_per_verified : ℕ
max_per_verified = 2

abbrev pub expiry_slack_seconds : ℕ
expiry_slack_seconds = 60 * 60

pub data Tier : Type 0 where
  favourite verified : Tier

abbrev pub quota : Tier → ℕ
quota favourite = max_per_favourite
quota verified = max_per_verified

abbrev pub label : Tier → String
label favourite = "favourite"
label verified = "verified"

pub data Deposit : Type 0 where
  accepted already_held : Deposit
  refused : String → Deposit

pub record Held : Type 0 where
  pub envelope : Envelope
  pub depositor : String
  pub tier : Tier
  pub stored_at_ms : ℕ

-- A line of the file.
pub record Row : Type 0 where
  pub wire : List ℕ
  pub row_depositor : String
  pub row_tier : String
  pub row_stored_at_ms : ℕ

pub record Mailbox : Type 0 where
  pub enabled : Bool
  pub held : List Held
  pub has_path : Bool
  pub delivered : ℕ
  pub file : Option (List Row)

abbrev pub is_verified : Held → Bool
is_verified item = elim item.tier [ favourite ↦ false | verified ↦ true ]

abbrev pub from : String → Held → Bool
from depositor item = item.depositor =? depositor

abbrev pub in_date : ℕ → Held → Bool
in_date now_ms item = not (is_expired item.envelope now_ms)

abbrev pub row_of : Held → List ℕ → Row
row_of item wire = record {
  wire = wire;
  row_depositor = item.depositor;
  row_tier = label item.tier;
  row_stored_at_ms = item.stored_at_ms;
}

abbrev pub add_row : Option (List ℕ) → Held → List Row → List Row
add_row none item rows = rows
add_row (some wire) item rows = row_of item wire ∷ rows

unfoldable pub rows_of : List Held → List Row
rows_of [] = []
rows_of (item ∷ items) = add_row (encode_envelope item.envelope) item (rows_of items)

unfoldable pub save : Mailbox → Mailbox
unfolding rows_of
save m =
    if m.has_path
    then record m {
      file = elim m.held as (λ items. Option (List Row)) [
        | [] ↦ none
        | item ∷ items ↦ some (rows_of (item ∷ items))
      ];
    }
    else m

abbrev pub tier_of : String → Option Tier
tier_of name =
    if name =? "favourite"
    then some favourite
    else if name =? "verified"
    then some verified
    else none

unfoldable pub held_of : Row → Option Held
held_of row = do
  envelope ← decode_envelope row.wire
  tier ← tier_of row.row_tier
  some (record {
    envelope = envelope;
    depositor = row.row_depositor;
    tier = tier;
    stored_at_ms = row.row_stored_at_ms;
  })

abbrev pub add_held : Option Held → List Held → List Held
add_held none items = items
add_held (some item) items = item ∷ items

unfoldable pub read_rows : List Row → List Held
unfolding held_of
read_rows [] = []
read_rows (row ∷ rows) = add_held (held_of row) (read_rows rows)

abbrev pub read_from_disk : Bool → Option (List Row) → List Held
read_from_disk has_path none = []
read_from_disk has_path (some rows) = if has_path then read_rows rows else []

unfoldable pub open_at : Bool → Option (List Row) → ℕ → Mailbox
unfolding read_rows
open_at has_path file now_ms = record {
  enabled = false;
  held = filter (in_date now_ms) (read_from_disk has_path file);
  has_path = has_path;
  delivered = 0;
  file = file;
}

unfoldable pub set_enabled : Bool → Mailbox → Mailbox × ℕ
unfolding save
set_enabled enabled m =
    if enabled
    then (record m { enabled = enabled }, 0)
    else (save (record m { enabled = enabled; held = [] }), length m.held)

unfoldable pub prune : ℕ → Mailbox → Mailbox × ℕ
unfolding save
prune now_ms m =
    let kept = filter (in_date now_ms) m.held in
    let dropped = length m.held - length kept in
    (if ltb 0 dropped then save (record m { held = kept }) else record m { held = kept }, dropped)

-- The first item that is a stranger's goes, if there is one.
unfoldable pub remove_verified : List Held → Option (List Held)
remove_verified [] = none
remove_verified (item ∷ items) =
    let rest = remove_verified items in
    if is_verified item then some items else (rest >>= λ kept. some (item ∷ kept))

abbrev pub shed_oldest : Tier → List Held → Option (List Held)
shed_oldest favourite (item ∷ items) = some items
shed_oldest favourite [] = none
shed_oldest verified items = none

-- What is left when one slot is freed, or `none`.
unfoldable pub make_room : Tier → List Held → Option (List Held)
unfolding remove_verified
make_room incoming items = elim (remove_verified items) [
  | none ↦ shed_oldest incoming items
  | some rest ↦ some rest
]

module _ (sha256 : List ℕ → List ℕ) (hex : List ℕ → String) where
  abbrev pub same_mail : Envelope → Held → Bool
  same_mail envelope item = fingerprint sha256 hex item.envelope =? fingerprint sha256 hex envelope

  -- The same mail on the shelf takes the larger copy budget; `none` if it is not there.
  unfoldable pub refresh : Envelope → List Held → Option (List Held)
  refresh envelope [] = none
  refresh envelope (item ∷ items) =
      let rest = refresh envelope items in
      if same_mail envelope item
      then some (
          record item {
            envelope = record item.envelope { copies = max item.envelope.copies envelope.copies };
          }
          ∷ items)
      else (rest >>= λ kept. some (item ∷ kept))

  abbrev pub shelve : Envelope → String → Tier → ℕ → Mailbox → List Held → Mailbox × Deposit
  shelve envelope depositor tier now_ms m items = (
    save (record m {
      held =
          items
          ++ (record {
            envelope = envelope;
            depositor = depositor;
            tier = tier;
            stored_at_ms = now_ms;
          }
              ∷ []);
    }),
    accepted,
  )

  -- The part of `accept` after the search for the same mail.
  unfoldable pub accept_new : Envelope → String → Tier → ℕ → Mailbox → Mailbox × Deposit
  unfolding make_room save
  accept_new envelope depositor tier now_ms m =
      if leb (quota tier) (length (filter (from depositor) m.held))
      then (m, refused "this peer's share of the shelf is full")
      else if (elim tier [
        | favourite ↦ false
        | verified ↦ leb max_verified_held (length (filter is_verified m.held))
      ])
      then (m, refused "no room left for mail from peers we do not know")
      else if leb max_held (length m.held)
      then elim (make_room tier m.held) [
        | none ↦ (m, refused "the shelf is full of favourites' mail")
        | some rest ↦ shelve envelope depositor tier now_ms m rest
      ]
      else shelve envelope depositor tier now_ms m m.held

  unfoldable pub accept_pruned : Envelope → String → Tier → ℕ → Mailbox → Mailbox × Deposit
  unfolding refresh save accept_new
  accept_pruned envelope depositor tier now_ms m = elim (refresh envelope m.held) [
    | none ↦ accept_new envelope depositor tier now_ms m
    | some items ↦ (save (record m { held = items }), already_held)
  ]

  unfoldable pub accept : Envelope → String → Tier → ℕ → Mailbox → Mailbox × Deposit
  unfolding prune accept_pruned
  accept envelope depositor tier now_ms m =
      if not m.enabled
      then (m, refused "not holding mail")
      else if is_expired envelope now_ms
      then (m, refused "already expired")
      else if ltb ((now_ms + (max_lifetime_seconds + expiry_slack_seconds) * 1000) % 2 ^ 64)
          envelope.expiry_ms
      then (m, refused "wants holding for longer than we hold anything")
      else accept_pruned envelope depositor tier now_ms (prune now_ms m).0

abbrev pub for_tags : List (List ℕ) → Held → Bool
for_tags tags item = contains tags item.envelope.recipient_tag

unfoldable pub collect : List (List ℕ) → Mailbox → Mailbox × List Envelope
unfolding save contains
collect tags m =
    let theirs = map (λ item. item.envelope) (filter (for_tags tags) m.held) in
    let rest = record m { held = filter (λ item. not (for_tags tags item)) m.held } in
    (
      elim theirs as (λ mail. Mailbox) [
        | [] ↦ rest
        | first ∷ others ↦ save (record rest { delivered = m.delivered + length theirs })
      ],
      theirs,
    )

unfoldable pub wipe : Mailbox → Mailbox
wipe m = record m { held = []; delivered = 0; file = if m.has_path then none else m.file }
