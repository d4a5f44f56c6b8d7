-- ===== src/Prelude/Sublist.antt =====
-- Lists with some elements left out, in their order.
use Prim.Native.Nat.{◌+◌, ◌≤◌}
use mathlib.Core.Path.{◌≡◌}
use mathlib.Core.Bool.{Bool, false}
use mathlib.Core.Logic.{inl, inr}
use mathlib.Core.List.{List, [], ◌∷◌, ◌++◌, map}
use native.Mathlib.Omega.{arith}
use bitmancer.Prelude.Tests.{Bool-cases}
use bitmancer.Prelude.Lists.{length, filter}
use bitmancer.Prelude.Keys.{Eq}
use bitmancer.Prelude.Sets.{contains, IsDistinct}

pub data Sublist {A : Type 0} : List A → List A → Type 0 where
  done : Sublist [] []
  keep : {x : A} {xs ys : List A} → Sublist xs ys → Sublist (x ∷ xs) (x ∷ ys)
  skip : {x : A} {xs ys : List A} → Sublist xs ys → Sublist xs (x ∷ ys)

module _ {A : Type 0} where
  pub Sublist_refl : (xs : List A) → Sublist xs xs
  Sublist_refl [] = done
  Sublist_refl (x ∷ xs) = keep (Sublist_refl xs)

  pub filter-Sublist : (p : A → Bool) (xs : List A) → Sublist (filter p xs) xs
  filter-Sublist p [] = done
  filter-Sublist p (x ∷ xs) = elim (Bool-cases (p x)) [
    | inl good ↦ rw good (keep (filter-Sublist p xs))
    | inr bad ↦ rw bad (skip (filter-Sublist p xs))
  ]

  pub Sublist-length-filter :
      (p : A → Bool) (xs ys : List A) → Sublist xs ys → length (filter p xs) ≤ length (filter p ys)
  Sublist-length-filter p xs ys done = omega arith
  Sublist-length-filter p xs ys (keep {x} {xs = xs1} {ys = ys1} h) =
      ground (arith, Sublist-length-filter p xs1 ys1 h)
  Sublist-length-filter p xs ys (skip {x} {xs = xs1} {ys = ys1} h) =
      ground (arith, Sublist-length-filter p xs1 ys1 h)

  pub Sublist-length : (xs ys : List A) → Sublist xs ys → length xs ≤ length ys
  Sublist-length xs ys done = omega arith
  Sublist-length xs ys (keep {x} {xs = xs1} {ys = ys1} h) = omega (arith, Sublist-length xs1 ys1 h)
  Sublist-length xs ys (skip {x} {xs = xs1} {ys = ys1} h) = omega (arith, Sublist-length xs1 ys1 h)

  pub length-filter-append :
      (p : A → Bool) (xs ys : List A)
      → length (filter p (xs ++ ys)) ≡ length (filter p xs) + length (filter p ys)
  length-filter-append p [] ys = omega arith
  length-filter-append p (x ∷ xs) ys = ground (arith, length-filter-append p xs ys)

module _ {A : Type 0} {K : Type 0} ⦃e : Eq K⦄ (key : A → K) where
  pub contains-Sublist :
      (k : K) (xs ys : List A)
      → Sublist xs ys
      → contains (map key ys) k ≡ false
      → contains (map key xs) k ≡ false
  unfolding contains
  contains-Sublist k xs ys done h = h
  contains-Sublist k xs ys (keep {x} {xs = xs1} {ys = ys1} p) h =
      ground (arith, contains-Sublist k xs1 ys1 p)
  contains-Sublist k xs ys (skip {x} {xs = xs1} {ys = ys1} p) h =
      contains-Sublist k xs1 ys1 p (ground arith)

  pub Sublist-IsDistinct :
      (xs ys : List A) → Sublist xs ys → IsDistinct (map key ys) → IsDistinct (map key xs)
  Sublist-IsDistinct xs ys done h = h
  Sublist-IsDistinct xs ys (keep {x} {xs = xs1} {ys = ys1} p) h =
      (contains-Sublist (key x) xs1 ys1 p h.0, Sublist-IsDistinct xs1 ys1 p h.1)
  Sublist-IsDistinct xs ys (skip {x} {xs = xs1} {ys = ys1} p) h = Sublist-IsDistinct xs1 ys1 p h.1
