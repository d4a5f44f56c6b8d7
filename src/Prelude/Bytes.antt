-- ===== src/Prelude/Bytes.antt =====
-- Bytes as numbers below 256, and fixed-width big-endian integers.
use bitmancer.Prelude.Lists.{length, length-append, All, All-append}
use Prim.Native.Nat.{ℕ, zero, suc, ◌+◌, ◌*◌, ◌/◌, ◌%◌, ◌^◌, ◌<◌}
use mathlib.Core.Path.{◌≡◌, refl, ap, ◌∙◌}
use native.Mathlib.Nat.{pow-suc}
use mathlib.Core.List.{List, [], ◌∷◌, ◌++◌, foldl, foldl-append}
use native.Mathlib.Omega.{arith}

abbrev pub IsByte : ℕ → Type 0
IsByte b = b < 256

abbrev pub IsBytes : List ℕ → Type 0
IsBytes = All IsByte

-- An array `[u8; n]`.
abbrev pub IsArray : ℕ → List ℕ → Type 0
IsArray n bs = IsBytes bs × (length bs ≡ n)

-- The low `w` bytes of a number, most significant first: `to_be_bytes`.
unfoldable pub to_be_bytes : ℕ → ℕ → List ℕ
to_be_bytes zero n = []
to_be_bytes (suc w) n = to_be_bytes w (n / 256) ++ (n % 256 ∷ [])

-- `from_be_bytes`.
unfoldable pub from_be_bytes : List ℕ → ℕ
from_be_bytes = foldl (λ acc b. acc * 256 + b) 0

pub length-to_be_bytes : (w n : ℕ) → length (to_be_bytes w n) ≡ w
unfolding to_be_bytes
length-to_be_bytes zero n = refl
length-to_be_bytes (suc w) n =
    omega (
      arith,
      length-to_be_bytes w (n / 256),
      length-append (to_be_bytes w (n / 256)) (n % 256 ∷ []),
    )

pub to_be_bytes-IsBytes : (w n : ℕ) → IsBytes (to_be_bytes w n)
unfolding to_be_bytes
to_be_bytes-IsBytes zero n = tt
to_be_bytes-IsBytes (suc w) n =
    All-append IsByte (to_be_bytes w (n / 256)) _ (to_be_bytes-IsBytes w (n / 256)) (omega arith)

pub to_be_bytes-IsArray : (w n : ℕ) → IsArray w (to_be_bytes w n)
to_be_bytes-IsArray w n = (to_be_bytes-IsBytes w n, length-to_be_bytes w n)

from_be_bytes-append :
    (bs : List ℕ) (b : ℕ) → from_be_bytes (bs ++ (b ∷ [])) ≡ from_be_bytes bs * 256 + b
unfolding from_be_bytes
from_be_bytes-append bs b = foldl-append (λ acc b. acc * 256 + b) 0 bs (b ∷ [])

-- A number that fits its width is read back.
pub from_be_bytes-to_be_bytes : (w n : ℕ) → n < 256 ^ w → from_be_bytes (to_be_bytes w n) ≡ n
unfolding to_be_bytes
from_be_bytes-to_be_bytes zero n h = unfold from_be_bytes in omega arith
from_be_bytes-to_be_bytes (suc w) n h =
    from_be_bytes-append (to_be_bytes w (n / 256)) (n % 256)
    ∙ omega (arith, from_be_bytes-to_be_bytes w (n / 256) (omega (arith, pow-suc 256 w)))

fold_bound :
    (bs : List ℕ) (acc m : ℕ)
    → IsBytes bs
    → acc < m
    → foldl (λ acc b. acc * 256 + b) acc bs < m * 256 ^ length bs
fold_bound [] acc m h k = omega arith
fold_bound (b ∷ bs) acc m h k = omega (
  arith,
  fold_bound bs (acc * 256 + b) (m * 256) h.1 (omega arith),
  pow-suc 256 (length bs),
  ap (λ (t : ℕ). m * t) (pow-suc 256 (length bs)),
)

-- What is read from bytes fits their width.
pub from_be_bytes_bound : (w : ℕ) (bs : List ℕ) → IsArray w bs → from_be_bytes bs < 256 ^ w
unfolding from_be_bytes
from_be_bytes_bound w bs h = let e : length bs ≡ w = h.1 in rw e at (bound bs h.0)
  where
    bound : (bs : List ℕ) → IsBytes bs → foldl (λ acc b. acc * 256 + b) 0 bs < 256 ^ length bs
    bound bs h = omega (arith, fold_bound bs 0 1 h (omega arith))
