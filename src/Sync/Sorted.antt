-- ===== src/Sync/Sorted.antt =====
-- Sorting and thinning out the values of a filter loses none (src/sync/gcs.rs).
use bitmancer.Prelude.{
  ℕ, ◌-◌, ◌≤◌, ◌<◌, ◌≡◌, refl, min, true, List, [], ◌∷◌, ◌++◌, ltb, leb, ◌==◌, ==_iff, map, All,
  arith, inl, inr, Bool-cases,
}
use bitmancer.Sync.Gcs.{increasing_from, contains_value, insert_number, sort_numbers}
use bitmancer.Sync.Filter.{IsIncreasing}

pub All-imp :
    {P Q : List ℕ → Type 0} (f : (x : List ℕ) → P x → Q x) (xs : List (List ℕ))
    → All P xs
    → All Q xs
All-imp f [] h = tt
All-imp f (x ∷ xs) h = (f x h.0, All-imp f xs h.1)

pub contains_value-map :
    (f : List ℕ → ℕ) (ids : List (List ℕ))
    → All (λ id. contains_value (map f ids) (f id) ≡ true) ids
contains_value-map f [] = tt
contains_value-map f (id ∷ ids) = (
  ground (arith, ==_iff (f id) (f id)),
  All-imp (λ x h. ground (arith, h)) ids (contains_value-map f ids),
)

pub contains_value-append_left :
    (xs ys : List ℕ) (v : ℕ) → contains_value xs v ≡ true → contains_value (xs ++ ys) v ≡ true
contains_value-append_left [] ys v h = cc h
contains_value-append_left (x ∷ xs) ys v h = ground (arith, h, contains_value-append_left xs ys v)

pub contains_value-insert_number :
    (n v : ℕ) (ms : List ℕ) → contains_value (insert_number n ms) v ≡ contains_value (n ∷ ms) v
unfolding insert_number
contains_value-insert_number n v [] = refl
contains_value-insert_number n v (m ∷ ms) = ground (arith, contains_value-insert_number n v ms)

pub contains_value-sort_numbers :
    (v : ℕ) (ns : List ℕ) → contains_value (sort_numbers ns) v ≡ contains_value ns v
unfolding sort_numbers
contains_value-sort_numbers v [] = refl
contains_value-sort_numbers v (n ∷ ns) =
    ground
      (arith, contains_value-insert_number n v (sort_numbers ns), contains_value-sort_numbers v ns)

abbrev pub IsSorted : List ℕ → Type 0
IsSorted [] = Unit
IsSorted (n ∷ ns) = All (λ m. n ≤ m) ns × IsSorted ns

pub All-insert_number :
    (P : ℕ → Type 0) (n : ℕ) (ms : List ℕ) → P n → All P ms → All P (insert_number n ms)
unfolding insert_number
All-insert_number P n [] p h = (p, tt)
All-insert_number P n (m ∷ ms) p h = elim (Bool-cases (leb n m)) [
  | inl e ↦ rw e (p, h)
  | inr e ↦ rw e (h.0, All-insert_number P n ms p h.1)
]

pub All-sort_numbers : (P : ℕ → Type 0) (ns : List ℕ) → All P ns → All P (sort_numbers ns)
unfolding sort_numbers
All-sort_numbers P [] h = tt
All-sort_numbers P (n ∷ ns) h = All-insert_number P n _ h.0 (All-sort_numbers P ns h.1)

pub All-above : (n m : ℕ) (ms : List ℕ) → n ≤ m → All (λ x. m ≤ x) ms → All (λ x. n ≤ x) ms
All-above n m [] le h = tt
All-above n m (x ∷ ms) le h = (omega (arith, le, h.0), All-above n m ms le h.1)

pub insert_number-IsSorted : (n : ℕ) (ms : List ℕ) → IsSorted ms → IsSorted (insert_number n ms)
unfolding insert_number
insert_number-IsSorted n [] h = (tt, tt)
insert_number-IsSorted n (m ∷ ms) h = elim (Bool-cases (leb n m)) [
  | inl e ↦ let le : n ≤ m = ground (arith, e) in rw e ((le, All-above n m ms le h.0), h)
  | inr e ↦ rw e (All-insert_number _ n ms (ground (arith, e)) h.0, insert_number-IsSorted n ms h.1)
]

pub sort_numbers-IsSorted : (ns : List ℕ) → IsSorted (sort_numbers ns)
unfolding sort_numbers
sort_numbers-IsSorted [] = tt
sort_numbers-IsSorted (n ∷ ns) = insert_number-IsSorted n _ (sort_numbers-IsSorted ns)

pub increasing_from-IsIncreasing :
    (last modulo : ℕ) (values : List ℕ)
    → 1 ≤ modulo
    → IsIncreasing last modulo (increasing_from last modulo values)
unfolding increasing_from
increasing_from-IsIncreasing last modulo [] pos = tt
increasing_from-IsIncreasing last modulo (v ∷ vs) pos =
    elim (Bool-cases (ltb last (min v (modulo - 1)))) [
      | inl e ↦ rw e (
        ground (arith, e),
        omega (arith, pos),
        increasing_from-IsIncreasing (min v (modulo - 1)) modulo vs pos,
      )
      | inr e ↦ rw e (increasing_from-IsIncreasing last modulo vs pos)
    ]

pub member_above :
    (n v : ℕ) (xs : List ℕ) → All (λ x. n ≤ x) xs → contains_value xs v ≡ true → n ≤ v
member_above n v [] h k = cc k
member_above n v (x ∷ xs) h k = elim (Bool-cases (x == v)) [
  | inl it ↦ ground (arith, it, h.0)
  | inr other ↦ member_above n v xs h.1 (ground (arith, k, other))
]

-- Nothing of a sorted list in range is lost, but what repeats the last value.
pub increasing_from-keeps :
    (last modulo v : ℕ) (values : List ℕ)
    → last < v
    → IsSorted values
    → All (λ x. x < modulo) values
    → contains_value values v ≡ true
    → contains_value (increasing_from last modulo values) v ≡ true
unfolding increasing_from
increasing_from-keeps last modulo v [] lt s h k = k
increasing_from-keeps last modulo v (x ∷ xs) lt s h k =
    let same : min x (modulo - 1) ≡ x = omega (arith, h.0) in
    rw same (elim (Bool-cases (ltb last x)) [
      | inl e ↦ rw e (elim (Bool-cases (x == v)) [
        | inl it ↦ rw it refl
        | inr other ↦ rw other (
            increasing_from-keeps x modulo v xs
              (ground (arith, other, member_above x v xs s.0 (ground (arith, k, other)))) s.1 h.1
              (ground (arith, k, other)))
      ])
      | inr e ↦ rw e (increasing_from-keeps last modulo v xs lt s.1 h.1 (ground (arith, k, e, lt)))
    ])
