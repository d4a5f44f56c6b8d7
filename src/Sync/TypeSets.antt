-- ===== src/Sync/TypeSets.antt =====
-- A set of message types is read back from its bytes (src/sync/type_flags.rs).
use bitmancer.Prelude.{
  ℕ, zero, suc, ◌+◌, ◌*◌, ◌/◌, ◌^◌, ◌≤◌, ◌<◌, ◌≡◌, refl, ◌∙◌, ap, false, some, List, [], ◌∷◌, ltb,
  ◌==◌, length, arith,
}
use bitmancer.Sync.TypeFlags.{
  to_le_bytes, cons_unless_zero, trim_zeros, to_bytes, le_value, from_bytes, from_raw,
}
use native.Mathlib.Nat.{pow-suc}

pub le_value-cons_unless_zero :
    (b : ℕ) (bs : List ℕ) → le_value (cons_unless_zero b bs) ≡ b + 256 * le_value bs
unfolding le_value
le_value-cons_unless_zero b [] = ground arith
le_value-cons_unless_zero b (c ∷ bs) = refl

pub le_value-trim_zeros : (bs : List ℕ) → le_value (trim_zeros bs) ≡ le_value bs
unfolding le_value trim_zeros
le_value-trim_zeros [] = refl
le_value-trim_zeros (b ∷ bs) =
    le_value-cons_unless_zero b (trim_zeros bs) ∙ ap (λ n. b + 256 * n) (le_value-trim_zeros bs)

pub length-trim_zeros : (bs : List ℕ) → length (trim_zeros bs) ≤ length bs
unfolding trim_zeros
length-trim_zeros [] = omega arith
length-trim_zeros (b ∷ bs) = shorter (trim_zeros bs) (length-trim_zeros bs)
  where
    shorter :
        (cs : List ℕ) → length cs ≤ length bs → length (cons_unless_zero b cs) ≤ suc (length bs)
    shorter [] h = ground arith
    shorter (c ∷ cs) h = omega (arith, h)

pub le_value-to_le_bytes : (w n : ℕ) → n < 256 ^ w → le_value (to_le_bytes w n) ≡ n
unfolding le_value to_le_bytes
le_value-to_le_bytes zero n h = omega (arith, h)
le_value-to_le_bytes (suc w) n h =
    let rest = le_value-to_le_bytes w (n / 256) (omega (arith, h, pow-suc 256 w)) in
    omega (arith, rest)

pub length-to_le_bytes : (w n : ℕ) → length (to_le_bytes w n) ≡ w
unfolding to_le_bytes
length-to_le_bytes zero n = refl
length-to_le_bytes (suc w) n = ap suc (length-to_le_bytes w (n / 256))

-- A set of types that can be sent: not empty, and of mapped types only.
pub record IsTypes (types : ℕ) : Type 0 where
  pub positive : 0 < types
  pub fits : types < 256 ^ 8
  pub known : from_raw types ≡ types

pub nonempty : (bytes : List ℕ) → 0 < le_value bytes → (length bytes == 0) ≡ false
unfolding le_value
nonempty [] lt = absurd (omega (arith, lt))
nonempty (b ∷ bs) lt = ground arith

pub sent_types :
    (types : ℕ)
    → IsTypes types
    → (bytes : List ℕ) × (to_bytes types ≡ some bytes)
      × (length bytes ≤ 8)
      × (from_bytes bytes ≡ some types)
unfolding to_bytes from_bytes
sent_types types h =
    let bytes = trim_zeros (to_le_bytes 8 types) in
    let value : le_value bytes ≡ types =
      le_value-trim_zeros (to_le_bytes 8 types) ∙ le_value-to_le_bytes 8 types h.fits in
    let short : length bytes ≤ 8 =
      omega (arith, length-trim_zeros (to_le_bytes 8 types), length-to_le_bytes 8 types) in
    let given : (types == 0) ≡ false = ground (arith, h.positive) in
    let some_bytes : (length bytes == 0) ≡ false =
      nonempty bytes (omega (arith, value, h.positive)) in
    let few : ltb 8 (length bytes) ≡ false = ground (arith, short) in
    (bytes, rw given refl, short, rw (some_bytes) (rw few (ap some (ap from_raw value ∙ h.known))))
