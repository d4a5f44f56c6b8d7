-- ===== src/Outbox/Due.antt =====
-- Which messages `due` of src/outbox.rs offers for another attempt, and in what order.
use bitmancer.Prelude.{
  ℕ, ◌+◌, ◌≤◌, ◌≡◌, refl, ◌∙◌, inl, inr, Bool, true, false, ◌&&◌, List, [], ◌∷◌, ◌++◌, String,
  arith, Bool-cases, if◌then◌else◌, All, All-append, map, filter,
}
use bitmancer.Outbox.{Pending, Outbox, is_ready, before, insert_sorted, sort_ready, ready, due}
use bitmancer.Outbox.Entries.{entries}

-- Ordered by the time of queueing.
abbrev pub IsOrdered : List (String × Pending) → Type 0
IsOrdered [] = Unit
IsOrdered (x ∷ xs) = All (λ y. x.1.queued_at ≤ y.1.queued_at) xs × IsOrdered xs

before→le : (x y : String × Pending) → before x y ≡ true → x.1.queued_at ≤ y.1.queued_at
unfolding before
before→le (a, p) (b, q) h = ground arith

not-before→le : (x y : String × Pending) → before x y ≡ false → y.1.queued_at ≤ x.1.queued_at
unfolding before
not-before→le (a, p) (b, q) h = ground arith

All-insert_sorted :
    (Q : String × Pending → Type 0) (x : String × Pending) (xs : List (String × Pending))
    → Q x
    → All Q xs
    → All Q (insert_sorted x xs)
unfolding insert_sorted
All-insert_sorted Q x [] q h = (q, tt)
All-insert_sorted Q x (y ∷ ys) q h = elim (Bool-cases (before x y)) [
  | inl e ↦ rw e (q, h)
  | inr e ↦ rw e (h.0, All-insert_sorted Q x ys q h.1)
]

All-sort_ready :
    (Q : String × Pending → Type 0) (xs : List (String × Pending))
    → All Q xs
    → All Q (sort_ready xs)
unfolding sort_ready
All-sort_ready Q [] h = tt
All-sort_ready Q (x ∷ xs) h = All-insert_sorted Q x _ h.0 (All-sort_ready Q xs h.1)

All-later :
    (x y : String × Pending) (ys : List (String × Pending))
    → x.1.queued_at ≤ y.1.queued_at
    → All (λ z. y.1.queued_at ≤ z.1.queued_at) ys
    → All (λ z. x.1.queued_at ≤ z.1.queued_at) ys
All-later x y [] le h = tt
All-later x y (z ∷ ys) le h = (omega (arith, le, h.0), All-later x y ys le h.1)

insert_sorted-IsOrdered :
    (x : String × Pending) (xs : List (String × Pending))
    → IsOrdered xs
    → IsOrdered (insert_sorted x xs)
unfolding insert_sorted
insert_sorted-IsOrdered x [] h = (tt, tt)
insert_sorted-IsOrdered x (y ∷ ys) h = elim (Bool-cases (before x y)) [
  | inl e ↦ rw e ((before→le x y e, All-later x y ys (before→le x y e) h.0), h)
  | inr e ↦
      rw e (All-insert_sorted _ x ys (not-before→le x y e) h.0, insert_sorted-IsOrdered x ys h.1)
]

sort_ready-IsOrdered : (xs : List (String × Pending)) → IsOrdered (sort_ready xs)
unfolding sort_ready
sort_ready-IsOrdered [] = tt
sort_ready-IsOrdered (x ∷ xs) = insert_sorted-IsOrdered x _ (sort_ready-IsOrdered xs)

-- How often an entry occurs, by any test of entries.
unfoldable pub count_where : (String × Pending → Bool) → List (String × Pending) → ℕ
count_where t [] = 0
count_where t (x ∷ xs) = (if t x then 1 else 0) + count_where t xs

count_where-insert_sorted :
    (t : String × Pending → Bool) (x : String × Pending) (xs : List (String × Pending))
    → count_where t (insert_sorted x xs) ≡ count_where t (x ∷ xs)
unfolding insert_sorted count_where
count_where-insert_sorted t x [] = refl
count_where-insert_sorted t x (y ∷ ys) = elim (Bool-cases (before x y)) [
  | inl e ↦ rw e refl
  | inr e ↦ rw e (omega (arith, count_where-insert_sorted t x ys))
]

count_where-sort_ready :
    (t : String × Pending → Bool) (xs : List (String × Pending))
    → count_where t (sort_ready xs) ≡ count_where t xs
unfolding sort_ready count_where
count_where-sort_ready t [] = refl
count_where-sort_ready t (x ∷ xs) =
    omega (arith, count_where-insert_sorted t x (sort_ready xs), count_where-sort_ready t xs)

All-ready_of :
    (now : ℕ) (peer : String) (queue : List Pending)
    → All
        (λ (e : String × Pending). is_ready now e.1 ≡ true)
        (map (λ held. (peer, held)) (filter (is_ready now) queue))
All-ready_of now peer [] = tt
All-ready_of now peer (held ∷ queue) = elim (Bool-cases (is_ready now held)) [
  | inl e ↦ rw e (e, All-ready_of now peer queue)
  | inr e ↦ rw e (All-ready_of now peer queue)
]

All-ready :
    (now : ℕ) (outbox : Outbox)
    → All (λ (e : String × Pending). is_ready now e.1 ≡ true) (ready now outbox)
unfolding ready
All-ready now [] = tt
All-ready now ((peer, queue) ∷ outbox) =
    All-append _ _ _ (All-ready_of now peer queue) (All-ready now outbox)

count_where-append :
    (t : String × Pending → Bool) (xs ys : List (String × Pending))
    → count_where t (xs ++ ys) ≡ count_where t xs + count_where t ys
unfolding count_where
count_where-append t [] ys = omega arith
count_where-append t (x ∷ xs) ys = omega (arith, count_where-append t xs ys)

count_where-ready_of :
    (t : String × Pending → Bool) (now : ℕ) (peer : String) (queue : List Pending)
    → count_where t (map (λ held. (peer, held)) (filter (is_ready now) queue))
      ≡ count_where (λ e. is_ready now e.1 && t e) (map (λ held. (peer, held)) queue)
unfolding count_where
count_where-ready_of t now peer [] = refl
count_where-ready_of t now peer (held ∷ queue) = elim (Bool-cases (is_ready now held)) [
  | inl e ↦ rw e (omega (arith, count_where-ready_of t now peer queue))
  | inr e ↦ rw e (omega (arith, count_where-ready_of t now peer queue))
]

count_where-ready :
    (t : String × Pending → Bool) (now : ℕ) (outbox : Outbox)
    → count_where t (ready now outbox) ≡ count_where (λ e. is_ready now e.1 && t e) (entries outbox)
unfolding ready entries count_where
count_where-ready t now [] = refl
count_where-ready t now ((peer, queue) ∷ outbox) = omega (
  arith,
  count_where-append t (map (λ held. (peer, held)) (filter (is_ready now) queue))
      (ready now outbox),
  count_where-append (λ e. is_ready now e.1 && t e) (map (λ held. (peer, held)) queue)
      (entries outbox),
  count_where-ready_of t now peer queue,
  count_where-ready t now outbox,
)

-- What is due is offered oldest first; each entry offered is past its backoff and not expired; and
-- every such entry of the outbox is offered, as often as it is held.
pub due_outcome :
    (now : ℕ) (outbox : Outbox)
    → IsOrdered (due now outbox)
      × All (λ (e : String × Pending). is_ready now e.1 ≡ true) (due now outbox)
      × ((t : String × Pending → Bool)
          → count_where t (due now outbox)
            ≡ count_where (λ e. is_ready now e.1 && t e) (entries outbox))
unfolding due
due_outcome now outbox = (
  sort_ready-IsOrdered (ready now outbox),
  All-sort_ready _ _ (All-ready now outbox),
  λ t. count_where-sort_ready t (ready now outbox) ∙ count_where-ready t now outbox,
)
