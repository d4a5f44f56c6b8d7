-- ===== src/Outbox/Located.antt =====
-- Where the calls of src/outbox.rs that look for an identifier find it.
use bitmancer.Prelude.{
  ℕ, ◌≡◌, refl, ◌∙◌, sym, ap, inl, inr, Bool, true, false, ◌||◌, List, [], ◌∷◌, ◌++◌, String, All,
  All-append, arith, Bool-cases, append_assoc,
}
use bitmancer.Prelude.Keys.{◌=?◌, string_eq}
use text.Mathlib.TextEquality.{eq_iff}
use bitmancer.Outbox.{
  Pending, Outbox, has_id, attempted, attempt_first, mark_attempted, remove_first, acknowledge,
}
use bitmancer.Outbox.Entries.{Entry, entries_of, entries, IsOther, FirstOf, entries_of-append}

-- Some queue holds the message.
unfoldable pub is_held : String → Outbox → Bool
is_held id [] = false
is_held id ((peer, queue) ∷ outbox) = has_id id queue || is_held id outbox

-- The first message of a queue with an identifier, and the queue without it or with it attempted.
record Located (id : String) (now : ℕ) (queue : List Pending) : Type 0 where
  before : List Pending
  held : Pending
  after : List Pending
  whole : queue ≡ before ++ (held ∷ after)
  named : held.message_id ≡ id
  earlier : All (λ p. (p.message_id =? id) ≡ false) before
  removed : remove_first id queue ≡ before ++ after
  marked : attempt_first id now queue ≡ before ++ (attempted now held ∷ after)

locate :
    (id : String) (now : ℕ) (queue : List Pending) → has_id id queue ≡ true → Located id now queue
unfolding remove_first attempt_first
locate id now [] h = cc
locate id now (held ∷ queue) h = elim (Bool-cases (held.message_id =? id)) [
  | inl this ↦ record {
    before = [];
    held = held;
    after = queue;
    whole = refl;
    named = (eq_iff held.message_id id).0 this;
    earlier = tt;
    removed = rw this refl;
    marked = rw this refl;
  }
  | inr other ↦
      let l = locate id now queue (ground (arith, other, h)) in
      record {
        before = held ∷ l.before;
        held = l.held;
        after = l.after;
        whole = ap (λ q. held ∷ q) l.whole;
        named = l.named;
        earlier = (other, l.earlier);
        removed = rw other (ap (λ q. held ∷ q) l.removed);
        marked = rw other (ap (λ q. held ∷ q) l.marked);
      }
]

others_of :
    (id peer : String) (queue : List Pending)
    → All (λ p. (p.message_id =? id) ≡ false) queue
    → All (IsOther id) (entries_of peer queue)
others_of id peer [] h = tt
others_of id peer (held ∷ queue) h = (h.0, others_of id peer queue h.1)

absent :
    (id : String) (queue : List Pending)
    → has_id id queue ≡ false
    → All (λ p. (p.message_id =? id) ≡ false) queue
absent id [] h = tt
absent id (held ∷ queue) h = (ground (arith, h), absent id queue (ground (arith, h)))

-- The entries after a queue was split, with those of the queues that follow.
split_entries :
    (peer : String) (before after : List Pending) (rest : List Entry)
    → entries_of peer (before ++ after) ++ rest
      ≡ entries_of peer before ++ (entries_of peer after ++ rest)
split_entries peer before after rest =
    ap (λ es. es ++ rest) (entries_of-append peer before after)
    ∙ append_assoc (entries_of peer before) (entries_of peer after) rest

-- A message that is held is found at its first entry, and that alone goes or is marked.
pub record Found (id : String) (now : ℕ) (outbox : Outbox) : Type 0 where
  pub first : FirstOf id (entries outbox)
  pub answered : (acknowledge id outbox).1 ≡ true
  pub gone : entries (acknowledge id outbox).0 ≡ first.before ++ first.after
  pub marked :
      entries (mark_attempted id now outbox)
      ≡ first.before ++ ((first.peer, attempted now first.held) ∷ first.after)

pub is_held-Found :
    (id : String) (now : ℕ) (outbox : Outbox) → is_held id outbox ≡ true → Found id now outbox
unfolding is_held acknowledge mark_attempted entries
is_held-Found id now [] h = cc
is_held-Found id now ((peer, queue) ∷ outbox) h = elim (Bool-cases (has_id id queue)) [
  | inl here ↦
      let l = locate id now queue here in
      record {
        first = record {
          before = entries_of peer l.before;
          peer = peer;
          held = l.held;
          after = entries_of peer l.after ++ entries outbox;
          whole =
              ap (λ q. entries_of peer q ++ entries outbox) l.whole
              ∙ split_entries peer l.before (l.held ∷ l.after) (entries outbox);
          named = l.named;
          earlier = others_of id peer l.before l.earlier;
        };
        answered = rw here refl;
        gone = rw here (
            ap (λ q. entries_of peer q ++ entries outbox) l.removed
            ∙ split_entries peer l.before l.after (entries outbox));
        marked = rw here (
            ap (λ q. entries_of peer q ++ entries outbox) l.marked
            ∙ split_entries peer l.before (attempted now l.held ∷ l.after) (entries outbox));
      }
  | inr elsewhere ↦
      let f = is_held-Found id now outbox (ground (arith, elsewhere, h)) in
      let queued = entries_of peer queue in
      record {
        first = record {
          before = queued ++ f.first.before;
          peer = f.first.peer;
          held = f.first.held;
          after = f.first.after;
          whole =
              ap (λ es. queued ++ es) f.first.whole ∙ sym (append_assoc queued f.first.before _);
          named = f.first.named;
          earlier =
              All-append (IsOther id) queued f.first.before
                (others_of id peer queue (absent id queue elsewhere)) f.first.earlier;
        };
        answered = rw elsewhere f.answered;
        gone =
            rw elsewhere
              (ap (λ es. queued ++ es) f.gone ∙ sym (append_assoc queued f.first.before _));
        marked =
            rw elsewhere
              (ap (λ es. queued ++ es) f.marked ∙ sym (append_assoc queued f.first.before _));
      }
]

-- A message that is not held is nowhere, and nothing changes.
pub record NotFound (id : String) (now : ℕ) (outbox : Outbox) : Type 0 where
  pub nowhere : All (IsOther id) (entries outbox)
  pub answered : (acknowledge id outbox).1 ≡ false
  pub kept : (acknowledge id outbox).0 ≡ outbox
  pub unmarked : mark_attempted id now outbox ≡ outbox

pub is_held-NotFound :
    (id : String) (now : ℕ) (outbox : Outbox) → is_held id outbox ≡ false → NotFound id now outbox
unfolding is_held acknowledge mark_attempted entries
is_held-NotFound id now [] h = record {
  nowhere = tt;
  answered = refl;
  kept = refl;
  unmarked = refl;
}
is_held-NotFound id now ((peer, queue) ∷ outbox) h =
    let here : has_id id queue ≡ false = ground (arith, h) in
    let n = is_held-NotFound id now outbox (ground (arith, h)) in
    record {
      nowhere =
          All-append (IsOther id) (entries_of peer queue) (entries outbox)
            (others_of id peer queue (absent id queue here)) n.nowhere;
      answered = rw here n.answered;
      kept = rw here (ap (λ o. (peer, queue) ∷ o) n.kept);
      unmarked = rw here (ap (λ o. (peer, queue) ∷ o) n.unmarked);
    }
