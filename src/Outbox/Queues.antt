-- ===== src/Outbox/Queues.antt =====
-- What the operations of the outbox of src/outbox.rs keep.
use bitmancer.Prelude.{
  ℕ, suc, ◌+◌, ◌≤◌, ◌≡◌, refl, ◌∙◌, inl, inr, Bool, true, false, ◌||◌, Option, none, some, List, [],
  ◌∷◌, ◌++◌, String, ltb, length, filter, arith, Bool-cases, length-append, length-filter,
}
use bitmancer.Prelude.Keys.{◌=?◌, string_eq}
use bitmancer.Prelude.Table.{find, AllEntries, AllEntries-find, AllEntries-put}
use bitmancer.Outbox.{
  Pending, Outbox, queue_of, has_id, make_room, push_held, hold, attempt_first, mark_attempted,
  keep_queue, remove_first, acknowledge, expire, max_per_peer,
}
use text.Mathlib.TextEquality.{eq_iff}

-- No identifier stands twice.
abbrev pub AreDistinct : List Pending → Type 0
AreDistinct [] = Unit
AreDistinct (held ∷ queue) = (has_id held.message_id queue ≡ false) × AreDistinct queue

pub record IsQueue (queue : List Pending) : Type 0 where
  pub distinct : AreDistinct queue
  pub short : length queue ≤ 32

abbrev pub IsOutbox : Outbox → Type 0
IsOutbox = AllEntries (λ peer queue. IsQueue queue)

pub queue_of-IsQueue :
    (peer : String) (outbox : Outbox) → IsOutbox outbox → IsQueue (queue_of (find peer outbox))
queue_of-IsQueue peer outbox h = go (find peer outbox) refl
  where
    go : (o : Option (List Pending)) → find peer outbox ≡ o → IsQueue (queue_of o)
    go none e = record { distinct = tt; short = omega arith }
    go (some queue) e = AllEntries-find _ peer outbox queue h e

pub has_id-append :
    (id : String) (queue more : List Pending)
    → has_id id (queue ++ more) ≡ (has_id id queue || has_id id more)
has_id-append id [] more = refl
has_id-append id (held ∷ queue) more = ground (arith, has_id-append id queue more)

AreDistinct-append :
    (queue : List Pending) (p : Pending)
    → AreDistinct queue
    → has_id p.message_id queue ≡ false
    → AreDistinct (queue ++ (p ∷ []))
AreDistinct-append [] p h k = (refl, tt)
AreDistinct-append (held ∷ queue) p h k = (
  ground (
    arith,
    has_id-append held.message_id queue (p ∷ []),
    h.0,
    eq_iff held.message_id p.message_id,
    eq_iff p.message_id held.message_id,
  ),
  AreDistinct-append queue p h.1 (ground arith),
)

make_room-IsQueue :
    (queue : List Pending) → AreDistinct queue → length queue ≤ 33 → IsQueue (make_room queue).0
unfolding make_room
make_room-IsQueue [] h k = record { distinct = tt; short = omega arith }
make_room-IsQueue (oldest ∷ rest) h k = elim (Bool-cases (ltb max_per_peer (suc (length rest)))) [
  | inl over ↦ rw over (record { distinct = h.1; short = omega arith })
  | inr within ↦ rw within (record { distinct = h; short = ground (arith, within) })
]

push_held-IsQueue :
    (queue : List Pending) (id content : String) (now : ℕ)
    → IsQueue queue
    → IsQueue (push_held queue id content now).0
unfolding push_held
push_held-IsQueue queue id content now h = elim (Bool-cases (has_id id queue)) [
  | inl old ↦ rw old h
  | inr new ↦ rw new (
      make_room-IsQueue _ (AreDistinct-append queue _ h.distinct new)
        (omega (arith, h.short, length-append {0} queue)))
]

-- Holding a message keeps each queue within 32 messages with identifiers of their own.
pub hold-IsOutbox :
    (peer id content : String) (now : ℕ) (outbox : Outbox)
    → IsOutbox outbox
    → IsOutbox (hold peer id content now outbox).0
unfolding hold
hold-IsOutbox peer id content now outbox h =
    AllEntries-put _ peer _ outbox h
      (push_held-IsQueue _ id content now (queue_of-IsQueue peer outbox h))

has_id-attempt_first :
    (id m : String) (now : ℕ) (queue : List Pending)
    → has_id id (attempt_first m now queue) ≡ has_id id queue
unfolding attempt_first
has_id-attempt_first id m now [] = refl
has_id-attempt_first id m now (held ∷ queue) = ground (arith, has_id-attempt_first id m now queue)

length-attempt_first :
    (m : String) (now : ℕ) (queue : List Pending)
    → length (attempt_first m now queue) ≡ length queue
unfolding attempt_first
length-attempt_first m now [] = refl
length-attempt_first m now (held ∷ queue) = ground (arith, length-attempt_first m now queue)

attempt_first-AreDistinct :
    (m : String) (now : ℕ) (queue : List Pending)
    → AreDistinct queue
    → AreDistinct (attempt_first m now queue)
unfolding attempt_first
attempt_first-AreDistinct m now [] h = tt
attempt_first-AreDistinct m now (held ∷ queue) h = elim (Bool-cases (held.message_id =? m)) [
  | inl this ↦ rw this h
  | inr other ↦ rw other (
    has_id-attempt_first held.message_id m now queue ∙ h.0,
    attempt_first-AreDistinct m now queue h.1,
  )
]

pub mark_attempted-IsOutbox :
    (m : String) (now : ℕ) (outbox : Outbox)
    → IsOutbox outbox
    → IsOutbox (mark_attempted m now outbox)
unfolding mark_attempted
mark_attempted-IsOutbox m now [] h = tt
mark_attempted-IsOutbox m now ((peer, queue) ∷ outbox) h = elim (Bool-cases (has_id m queue)) [
  | inl here ↦ rw here (
    record {
      distinct = attempt_first-AreDistinct m now queue h.0.distinct;
      short = omega (arith, length-attempt_first m now queue, h.0.short);
    },
    h.1,
  )
  | inr elsewhere ↦ rw elsewhere (h.0, mark_attempted-IsOutbox m now outbox h.1)
]

has_id-remove_first :
    (id m : String) (queue : List Pending)
    → has_id id queue ≡ false
    → has_id id (remove_first m queue) ≡ false
unfolding remove_first
has_id-remove_first id m [] h = refl
has_id-remove_first id m (held ∷ queue) h = ground (arith, has_id-remove_first id m queue)

length-remove_first :
    (m : String) (queue : List Pending)
    → has_id m queue ≡ true
    → length queue ≡ length (remove_first m queue) + 1
unfolding remove_first
length-remove_first m [] h = cc
length-remove_first m (held ∷ queue) h = ground (arith, length-remove_first m queue)

remove_first-AreDistinct :
    (m : String) (queue : List Pending)
    → AreDistinct queue
    → AreDistinct (remove_first m queue) × (has_id m (remove_first m queue) ≡ false)
unfolding remove_first
remove_first-AreDistinct m [] h = (tt, refl)
remove_first-AreDistinct m (held ∷ queue) h = elim (Bool-cases (held.message_id =? m)) [
  | inl this ↦
      rw this
        (h.1, let e : held.message_id ≡ m = (eq_iff held.message_id m).0 this in rw e at (h.0))
  | inr other ↦
      let (d, n) = remove_first-AreDistinct m queue h.1 in
      rw other ((has_id-remove_first held.message_id m queue h.0, d), ground (arith, other, n))
]

pub acknowledge-IsOutbox :
    (m : String) (outbox : Outbox) → IsOutbox outbox → IsOutbox (acknowledge m outbox).0
unfolding acknowledge
acknowledge-IsOutbox m [] h = tt
acknowledge-IsOutbox m ((peer, queue) ∷ outbox) h = elim (Bool-cases (has_id m queue)) [
  | inl here ↦ rw here (
    record {
      distinct = (remove_first-AreDistinct m queue h.0.distinct).0;
      short = omega (arith, length-remove_first m queue here, h.0.short);
    },
    h.1,
  )
  | inr elsewhere ↦ rw elsewhere (h.0, acknowledge-IsOutbox m outbox h.1)
]

module _ (p : Pending → Bool) where
  has_id-filter :
      (id : String) (queue : List Pending)
      → has_id id queue ≡ false
      → has_id id (filter p queue) ≡ false
  has_id-filter id [] h = refl
  has_id-filter id (held ∷ queue) h = ground (arith, has_id-filter id queue)

  filter-AreDistinct : (queue : List Pending) → AreDistinct queue → AreDistinct (filter p queue)
  filter-AreDistinct [] h = tt
  filter-AreDistinct (held ∷ queue) h = elim (Bool-cases (p held)) [
    | inl keep ↦ rw keep (has_id-filter held.message_id queue h.0, filter-AreDistinct queue h.1)
    | inr drop ↦ rw drop (filter-AreDistinct queue h.1)
  ]

  filter-IsQueue : (queue : List Pending) → IsQueue queue → IsQueue (filter p queue)
  filter-IsQueue queue h = record {
    distinct = filter-AreDistinct queue h.distinct;
    short = omega (arith, length-filter p queue, h.short);
  }

kept_queue-IsOutbox :
    (peer : String) (kept : List Pending) (rest : Outbox)
    → IsQueue kept
    → IsOutbox rest
    → IsOutbox (keep_queue peer kept rest)
unfolding keep_queue
kept_queue-IsOutbox peer [] rest h k = k
kept_queue-IsOutbox peer (held ∷ more) rest h k = (h, k)

pub expire-IsOutbox : (now : ℕ) (outbox : Outbox) → IsOutbox outbox → IsOutbox (expire now outbox).0
unfolding expire
expire-IsOutbox now [] h = tt
expire-IsOutbox now ((peer, queue) ∷ outbox) h =
    kept_queue-IsOutbox peer _ _ (filter-IsQueue _ queue h.0) (expire-IsOutbox now outbox h.1)
