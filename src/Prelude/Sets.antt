-- ===== src/Prelude/Sets.antt =====
-- A hash set as a list of its elements.
use mathlib.Core.Path.{◌≡◌, refl}
use mathlib.Core.Bool.{Bool, true, false, ◌||◌, ◌&&◌}
use mathlib.Core.List.{List, [], ◌∷◌, ◌++◌}
use native.Mathlib.Omega.{arith}
use bitmancer.Prelude.Tests.{if◌then◌else◌, Bool-cases}
use bitmancer.Prelude.Lists.{filter}
use mathlib.Core.Logic.{inl, inr}
use bitmancer.Prelude.Keys.{Eq, ◌=?◌, beq_refl}

module _ {ℓ} {K : Type ℓ} ⦃e : Eq K⦄ where
  unfoldable pub contains : List K → K → Bool
  contains [] k = false
  contains (j ∷ js) k = if j =? k then true else contains js k

  -- `insert`, without its answer.
  unfoldable pub insert : K → List K → List K
  unfolding contains
  insert k s = if contains s k then s else k ∷ s

  -- `remove`
  unfoldable pub erase : K → List K → List K
  erase k [] = []
  erase k (j ∷ js) = let rest = erase k js in if j =? k then rest else j ∷ rest

  pub contains-nil : (k : K) → contains [] k ≡ false
  unfolding contains
  contains-nil k = refl

  pub contains-insert :
      (k j : K) (s : List K) → contains (insert k s) j ≡ (if k =? j then true else contains s j)
  unfolding insert contains
  contains-insert k j s = ground (arith, e.beq_iff k j)

  pub contains-erase :
      (k j : K) (s : List K) → contains (erase k s) j ≡ (if k =? j then false else contains s j)
  unfolding contains erase
  contains-erase k j [] = ground arith
  contains-erase k j (i ∷ s) =
      ground (arith, contains-erase k j s, e.beq_iff i k, e.beq_iff i j, e.beq_iff k j)

  pub contains-append :
      (k : K) (xs ys : List K) → contains (xs ++ ys) k ≡ (contains xs k || contains ys k)
  unfolding contains
  contains-append k [] ys = refl
  contains-append k (x ∷ xs) ys = ground (arith, contains-append k xs ys)

  pub contains-filter :
      (p : K → Bool) (xs : List K) (k : K) → contains (filter p xs) k ≡ (contains xs k && p k)
  unfolding contains
  contains-filter p [] k = refl
  contains-filter p (x ∷ xs) k = elim (Bool-cases (x =? k)) [
    | inl same ↦ rw (← (e.beq_iff x k).0 same) (ground (arith, contains-filter p xs x, beq_refl x))
    | inr apart ↦ ground (arith, contains-filter p xs k)
  ]

module _ {ℓ} {K : Type ℓ} ⦃e : Eq K⦄ where
  -- No element stands twice.
  abbrev pub IsDistinct : List K → Type 0
  IsDistinct [] = Unit
  IsDistinct (x ∷ xs) = (contains xs x ≡ false) × IsDistinct xs

  pub IsDistinct-snoc :
      (xs : List K) (d : K) → IsDistinct xs → contains xs d ≡ false → IsDistinct (xs ++ (d ∷ []))
  unfolding contains
  IsDistinct-snoc [] d h k = (refl, tt)
  IsDistinct-snoc (x ∷ xs) d h k = (
    ground (arith, contains-append x xs (d ∷ []), e.beq_iff x d, e.beq_iff d x, h.0),
    IsDistinct-snoc xs d h.1 (ground arith),
  )
