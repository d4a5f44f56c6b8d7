-- ===== src/Outbox/Upkeep.antt =====
-- Which messages acknowledging, marking and expiring touch in src/outbox.rs, and which they leave.
use bitmancer.Prelude.{
  ℕ, ◌+◌, ◌-◌, ◌*◌, ◌^◌, ◌≡◌, refl, ◌∙◌, ap, sym, ◌≢◌, ◌⊎◌, inl, inr, Bool, true, false, not, some,
  List, [], ◌∷◌, ◌++◌, String, All, map, filter, min, leb, Bool-cases,
}
use bitmancer.Prelude.Keys.{string_eq}
use bitmancer.Prelude.Table.{AllEntries}
use bitmancer.Outbox.{
  Pending, Outbox, mark_attempted, acknowledge, expired, abandoned_in, keep_queue, expire,
}
use bitmancer.Outbox.Entries.{Entry, entries_of, entries, IsOther, FirstOf}
use bitmancer.Outbox.Located.{is_held, is_held-Found, is_held-NotFound}

-- An acknowledgement of a message that is held is answered by `true`, and takes away the first entry
-- with its identifier and no other; one of a message that is held nowhere is answered by `false` and
-- changes nothing.
pub acknowledge_outcome :
    (id : String) (outbox : Outbox)
    → let (outbox', found) = acknowledge id outbox in
      ((found ≡ true) × (f : FirstOf id (entries outbox)) × (entries outbox' ≡ f.before ++ f.after))
      ⊎ ((found ≡ false) × All (IsOther id) (entries outbox) × (outbox' ≡ outbox))
acknowledge_outcome id outbox = elim (Bool-cases (is_held id outbox)) [
  | inl held ↦ let f = is_held-Found id 0 outbox held in inl (f.answered, f.first, f.gone)
  | inr free ↦ let n = is_held-NotFound id 0 outbox free in inr (n.answered, n.nowhere, n.kept)
]

-- Marking an attempt at a message that is held counts it, up to the largest 32-bit number, and stamps
-- its time on the first entry with the identifier; all else about that entry, and every other entry,
-- stays in its place. Marking one that is held nowhere changes nothing.
pub mark_attempted_outcome :
    (id : String) (now : ℕ) (outbox : Outbox)
    → ((f : FirstOf id (entries outbox)) × (entries (mark_attempted id now outbox)
          ≡ f.before
            ++ ((
              f.peer,
              record {
                message_id = id;
                content = f.held.content;
                queued_at = f.held.queued_at;
                attempts = min (f.held.attempts + 1) (2 ^ 32 - 1);
                last_attempt = some now;
              },
            )
                ∷ f.after)))
      ⊎ (All (IsOther id) (entries outbox) × (mark_attempted id now outbox ≡ outbox))
mark_attempted_outcome id now outbox = elim (Bool-cases (is_held id outbox)) [
  | inl held ↦
      let f = is_held-Found id now outbox held in
      inl (
        f.first,
        f.marked
            ∙ ap
                (λ name.
                  f.first.before
                  ++ ((
                    f.first.peer,
                    record {
                      message_id = name;
                      content = f.first.held.content;
                      queued_at = f.first.held.queued_at;
                      attempts = min (f.first.held.attempts + 1) (2 ^ 32 - 1);
                      last_attempt = some now;
                    },
                  )
                      ∷ f.first.after))
                f.first.named,
      )
  | inr free ↦ let n = is_held-NotFound id now outbox free in inr (n.nowhere, n.unmarked)
]

-- Held for a day of nanoseconds or more.
abbrev pub is_stale : ℕ → Entry → Bool
is_stale now entry = leb (24 * 60 * 60 * 1000000000) (now - entry.1.queued_at)

abbrev pub reported : Entry → String × String
reported entry = (entry.0, entry.1.message_id)

kept_entries :
    (now : ℕ) (peer : String) (queue : List Pending) (es : List Entry)
    → filter (λ entry. not (is_stale now entry)) (entries_of peer queue ++ es)
      ≡ entries_of peer (filter (λ held. not (expired held now)) queue)
        ++ filter (λ entry. not (is_stale now entry)) es
unfolding expired
kept_entries now peer [] es = refl
kept_entries now peer (held ∷ queue) es = elim (Bool-cases (is_stale now (peer, held))) [
  | inl old ↦ rw old (kept_entries now peer queue es)
  | inr young ↦ rw young (ap (λ q. (peer, held) ∷ q) (kept_entries now peer queue es))
]

gone_entries :
    (now : ℕ) (peer : String) (queue : List Pending) (es : List Entry)
    → map reported (filter (is_stale now) (entries_of peer queue ++ es))
      ≡ abandoned_in now peer queue ++ map reported (filter (is_stale now) es)
unfolding abandoned_in expired
gone_entries now peer [] es = refl
gone_entries now peer (held ∷ queue) es = elim (Bool-cases (is_stale now (peer, held))) [
  | inl old ↦ rw old (ap (λ q. (peer, held.message_id) ∷ q) (gone_entries now peer queue es))
  | inr young ↦ rw young (gone_entries now peer queue es)
]

entries-keep_queue :
    (peer : String) (kept : List Pending) (rest : Outbox)
    → entries (keep_queue peer kept rest) ≡ entries_of peer kept ++ entries rest
unfolding entries keep_queue
entries-keep_queue peer [] rest = refl
entries-keep_queue peer (held ∷ more) rest = refl

-- No queue is empty.
abbrev pub AllBusy : Outbox → Type 0
AllBusy = AllEntries (λ peer queue. queue ≢ [])

keep_queue-AllBusy :
    (peer : String) (kept : List Pending) (rest : Outbox)
    → AllBusy rest
    → AllBusy (keep_queue peer kept rest)
unfolding keep_queue
keep_queue-AllBusy peer [] rest h = h
keep_queue-AllBusy peer (held ∷ more) rest h = ((λ e. cc), h)

-- Expiry keeps the messages that were held for less than a day, for their peers and in their order,
-- reports the peer and the identifier of each of the others, once for each, and leaves no empty queue.
pub expire_outcome :
    (now : ℕ) (outbox : Outbox)
    → let (outbox', gone) = expire now outbox in
      (entries outbox' ≡ filter (λ entry. not (is_stale now entry)) (entries outbox))
      × (gone ≡ map reported (filter (is_stale now) (entries outbox)))
      × AllBusy outbox'
unfolding expire entries
expire_outcome now [] = (refl, refl, tt)
expire_outcome now ((peer, queue) ∷ outbox) =
    let (kept, gone, busy) = expire_outcome now outbox in
    (
      entries-keep_queue peer (filter (λ held. not (expired held now)) queue) (expire now outbox).0
          ∙ ap (λ es. entries_of peer (filter (λ held. not (expired held now)) queue) ++ es) kept
          ∙ sym (kept_entries now peer queue (entries outbox)),
      ap (λ es. abandoned_in now peer queue ++ es) gone
          ∙ sym (gone_entries now peer queue (entries outbox)),
      keep_queue-AllBusy peer _ _ busy,
    )
