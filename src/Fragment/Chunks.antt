-- ===== src/Fragment/Chunks.antt =====
-- `chunks` and `div_ceil`, as `split` of src/fragment.rs uses them.
use bitmancer.Prelude.{
  ℕ, zero, suc, ◌+◌, ◌-◌, ◌/◌, ◌≤◌, ◌<◌, ◌≡◌, refl, ap, List, [], ◌∷◌, length, drop, arith,
  length-drop, leb, Bool-cases, inl, inr, take-append-drop,
}
use mathlib.Core.List.{flatten}
use native.Mathlib.Nat.{add-div_right, div-eq_of_lt}
use bitmancer.Fragment.{chunks, chunks_from, div_ceil}

chunks_from-flatten :
    (fuel size : ℕ) (body : List ℕ)
    → length body ≤ fuel
    → 0 < size
    → flatten (chunks_from fuel size body) ≡ body
unfolding chunks_from flatten
chunks_from-flatten zero size [] h k = refl
chunks_from-flatten zero size (b ∷ bs) h k = absurd (omega arith)
chunks_from-flatten (suc fuel) size [] h k = refl
chunks_from-flatten (suc fuel) size (b ∷ bs) h k =
    rw
      (chunks_from-flatten fuel size (drop size (b ∷ bs)) (omega (arith, length-drop size (b ∷ bs)))
        k)
      (take-append-drop size (b ∷ bs))

-- The chunks, put together, are the body.
pub flatten-chunks : (size : ℕ) (body : List ℕ) → 0 < size → flatten (chunks size body) ≡ body
unfolding chunks
flatten-chunks size body h = chunks_from-flatten (length body) size body (omega arith) h

div_ceil-zero : (size : ℕ) → 0 < size → div_ceil 0 size ≡ 0
div_ceil-zero size h = div-eq_of_lt (omega arith)

-- One chunk less.
div_ceil-suc : (n size : ℕ) → 0 < size → div_ceil (suc n - size) size + 1 ≡ div_ceil (suc n) size
div_ceil-suc n size h = elim (Bool-cases (leb size (suc n))) [
  | inl full ↦
      let e : suc n - size + size - 1 ≡ n = ground (arith, full) in
      let f : suc n + size - 1 ≡ n + size = omega arith in rw (e, f, add-div_right n h)
  | inr last ↦
      let z : suc n - size ≡ 0 = ground (arith, last) in
      let f : suc n + size - 1 ≡ n + size = omega arith in
      rw (z, f, add-div_right n h, div_ceil-zero size h)
        (omega (arith, short (ground (arith, last))))
]
  where
    short : n < size → n / size ≡ 0
    short l = div-eq_of_lt l

length-chunks_from :
    (fuel size : ℕ) (body : List ℕ)
    → length body ≤ fuel
    → 0 < size
    → length (chunks_from fuel size body) ≡ div_ceil (length body) size
unfolding chunks_from
length-chunks_from zero size [] h k = rw (div_ceil-zero size k)
length-chunks_from zero size (b ∷ bs) h k = absurd (omega arith)
length-chunks_from (suc fuel) size [] h k = rw (div_ceil-zero size k)
length-chunks_from (suc fuel) size (b ∷ bs) h k = omega (
  arith,
  length-chunks_from fuel size (drop size (b ∷ bs)) (omega (arith, length-drop size (b ∷ bs))) k,
  div_ceil-suc (length bs) size k,
  ap (λ n. div_ceil n size) (length-drop size (b ∷ bs)),
)

-- There are as many chunks as `split` counts.
pub length-chunks :
    (size : ℕ) (body : List ℕ) → 0 < size → length (chunks size body) ≡ div_ceil (length body) size
unfolding chunks
length-chunks size body h = length-chunks_from (length body) size body (omega arith) h
