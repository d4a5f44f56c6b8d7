-- ===== src/Prelude/BitOps.antt =====
-- The bitwise or of numbers whose digits do not meet, and little-endian integers.
use Prim.Native.Nat.{
  ℕ, zero, suc, ◌+◌, ◌*◌, ◌/◌, ◌%◌, ◌^◌, ◌≤◌, ◌<◌, max, bit_or, digits, bit_or-bitwise,
}
use mathlib.Core.Path.{◌≡◌, refl, ap}
use mathlib.Core.List.{List, [], ◌∷◌}
use native.Mathlib.Nat.{pow-suc}
use native.Mathlib.Omega.{arith}
use bitmancer.Prelude.Lists.{length, take}
use bitmancer.Prelude.Bytes.{IsBytes}

abbrev or_digits : ℕ → ℕ → ℕ → ℕ
or_digits n a b = digits (λ b. b) max n a b

or_digits_fuel : (n m a b : ℕ) → a ≤ n → a ≤ m → or_digits n a b ≡ or_digits m a b
or_digits_fuel zero zero a b p q = refl
or_digits_fuel zero (suc m) zero b p q = refl
or_digits_fuel zero (suc m) (suc a) b p q = absurd (omega arith)
or_digits_fuel (suc n) zero zero b p q = refl
or_digits_fuel (suc n) zero (suc a) b p q = absurd (omega arith)
or_digits_fuel (suc n) (suc m) zero b p q = refl
or_digits_fuel (suc n) (suc m) (suc a) b p q =
    omega (arith, or_digits_fuel n m (suc a / 2) (b / 2) (omega arith) (omega arith))

zero-bit_or : (b : ℕ) → bit_or 0 b ≡ b
zero-bit_or b = bit_or-bitwise 0 b

bit_or_step : (a b : ℕ) → bit_or a b ≡ bit_or (a / 2) (b / 2) * 2 + max (a % 2) (b % 2)
bit_or_step zero b = omega (arith, zero-bit_or b, zero-bit_or (b / 2))
bit_or_step (suc a) b = omega (
  arith,
  bit_or-bitwise (suc a) b,
  bit_or-bitwise (suc a / 2) (b / 2),
  or_digits_fuel a (suc a / 2) (suc a / 2) (b / 2) (omega arith) (omega arith),
)

-- A shift past the digits of a number adds to it.
pub bit_or_shift : (k a b : ℕ) → a < 2 ^ k → bit_or a (b * 2 ^ k) ≡ a + b * 2 ^ k
bit_or_shift zero a b h =
    let none_left : a ≡ 0 = omega arith in rw none_left (omega (arith, zero-bit_or (b * 2 ^ 0)))
bit_or_shift (suc k) a b h = omega (
  arith,
  bit_or_step a (b * 2 ^ suc k),
  pow-suc 2 k,
  ap (λ (t : ℕ). b * t) (pow-suc 2 k),
  bit_or_shift k (a / 2) b (omega (arith, pow-suc 2 k)),
  half,
)
  where
    half : bit_or (a / 2) (b * 2 ^ suc k / 2) ≡ bit_or (a / 2) (b * 2 ^ k)
    half = ap (bit_or (a / 2)) (omega (arith, ap (λ (t : ℕ). b * t) (pow-suc 2 k)))

-- The low `w` bytes of a number, least significant first: `to_le_bytes`.
unfoldable pub to_le_bytes : ℕ → ℕ → List ℕ
to_le_bytes zero n = []
to_le_bytes (suc w) n = n % 256 ∷ to_le_bytes w (n / 256)

pub length-to_le_bytes : (w n : ℕ) → length (to_le_bytes w n) ≡ w
unfolding to_le_bytes
length-to_le_bytes zero n = refl
length-to_le_bytes (suc w) n = ap suc (length-to_le_bytes w (n / 256))

pub to_le_bytes-IsBytes : (w n : ℕ) → IsBytes (to_le_bytes w n)
unfolding to_le_bytes
to_le_bytes-IsBytes zero n = tt
to_le_bytes-IsBytes (suc w) n = (omega arith, to_le_bytes-IsBytes w (n / 256))

-- `from_le_bytes`.
unfoldable pub from_le_bytes : List ℕ → ℕ
from_le_bytes [] = 0
from_le_bytes (b ∷ bs) = b + 256 * from_le_bytes bs

pub from_le_bytes-take-to_le_bytes : (n : ℕ) → from_le_bytes (take 4 (to_le_bytes 8 n)) ≡ n % 2 ^ 32
unfolding from_le_bytes to_le_bytes
from_le_bytes-take-to_le_bytes n = omega arith

pub from_le_bytes_bound : (bs : List ℕ) → IsBytes bs → from_le_bytes bs < 256 ^ length bs
unfolding from_le_bytes
from_le_bytes_bound [] h = omega arith
from_le_bytes_bound (b ∷ bs) h = omega (arith, from_le_bytes_bound bs h.1, pow-suc 256 (length bs))
