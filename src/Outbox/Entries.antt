-- ===== src/Outbox/Entries.antt =====
-- The messages that the outbox of src/outbox.rs holds, as one list.
use bitmancer.Prelude.{◌≡◌, refl, false, List, [], ◌∷◌, ◌++◌, String, All, map, ap}
use bitmancer.Prelude.Keys.{◌=?◌, string_eq}
use bitmancer.Outbox.{Pending, Outbox}

-- A message with the peer that it waits for.
abbrev pub Entry : Type 0
Entry = String × Pending

abbrev pub entries_of : String → List Pending → List Entry
entries_of peer queue = map (λ held. (peer, held)) queue

-- The entries of the outbox, peer by peer.
unfoldable pub entries : Outbox → List Entry
entries [] = []
entries ((peer, queue) ∷ outbox) = entries_of peer queue ++ entries outbox

abbrev pub IsOther : String → Entry → Type 0
IsOther id entry = (entry.1.message_id =? id) ≡ false

-- The first entry with an identifier.
pub record FirstOf (id : String) (es : List Entry) : Type 0 where
  pub before : List Entry
  pub peer : String
  pub held : Pending
  pub after : List Entry
  pub whole : es ≡ before ++ ((peer, held) ∷ after)
  pub named : held.message_id ≡ id
  pub earlier : All (IsOther id) before

pub entries_of-append :
    (peer : String) (xs ys : List Pending)
    → entries_of peer (xs ++ ys) ≡ entries_of peer xs ++ entries_of peer ys
entries_of-append peer [] ys = refl
entries_of-append peer (x ∷ xs) ys = ap (λ es. (peer, x) ∷ es) (entries_of-append peer xs ys)
