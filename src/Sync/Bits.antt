-- ===== src/Sync/Bits.antt =====
-- The bit streams of src/sync/gcs.rs as lists of bits: what the writer has written, what the reader
-- has left.
use bitmancer.Prelude.{
  ℕ, zero, suc, ◌+◌, ◌-◌, ◌*◌, ◌/◌, ◌%◌, ◌^◌, ◌≤◌, ◌<◌, ◌≡◌, refl, subst, ◌∙◌, sym, ap, Bool, true,
  false, List, [], ◌∷◌, ◌++◌, ltb, ◌==◌, replicate, append_assoc, append-nil, arith, inl, inr,
  Bool-cases,
}
use bitmancer.Sync.Gcs.{
  BitWriter, bit_value, write_bit, write_ones, write_bits, finish, write_delta,
}
use native.Mathlib.Nat.{pow-suc, div-div-eq-div-mul, mul_assoc, mod-eq_of_lt, pow-le-pow_right}

-- The low `n` bits of a number, the highest first.
unfoldable pub bits_of : ℕ → ℕ → List Bool
bits_of zero v = []
bits_of (suc n) v = ((v / 2 ^ n) % 2 == 1) ∷ bits_of n v

unfoldable pub flat_bits : List ℕ → List Bool
unfolding bits_of
flat_bits [] = []
flat_bits (b ∷ bs) = bits_of 8 b ++ flat_bits bs

double_div : (v b n : ℕ) → b < 2 → (v * 2 + b) / 2 ^ suc n ≡ v / 2 ^ n
double_div v b n h =
    let power : 2 ^ suc n ≡ 2 * 2 ^ n = omega (arith, pow-suc 2 n) in
    let half : (v * 2 + b) / 2 ≡ v = omega (arith, h) in
    rw power (sym (div-div-eq-div-mul (v * 2 + b) 2 (2 ^ n)) ∙ ap (λ x. x / 2 ^ n) half)

bit_value_lt : (b : Bool) → bit_value b < 2
bit_value_lt false = omega arith
bit_value_lt true = omega arith

bits_of-snoc :
    (n v : ℕ) (b : Bool) → bits_of (suc n) (v * 2 + bit_value b) ≡ bits_of n v ++ (b ∷ [])
unfolding bits_of
bits_of-snoc zero v false = ap (λ b. b ∷ []) (ground arith)
bits_of-snoc zero v true = ap (λ b. b ∷ []) (ground arith)
bits_of-snoc (suc n) v b =
    rw (double_div v (bit_value b) n (bit_value_lt b))
      (ap (λ bits. ((v / 2 ^ n) % 2 == 1) ∷ bits) (bits_of-snoc n v b))

flat_bits-append : (xs ys : List ℕ) → flat_bits (xs ++ ys) ≡ flat_bits xs ++ flat_bits ys
unfolding flat_bits
flat_bits-append [] ys = refl
flat_bits-append (x ∷ xs) ys =
    rw (flat_bits-append xs ys) (sym (append_assoc (bits_of 8 x) (flat_bits xs) (flat_bits ys)))

pub record IsWriter (w : BitWriter) : Type 0 where
  pub open_byte : w.nbits < 8
  pub fits : w.cur < 2 ^ w.nbits

-- The bits written.
unfoldable pub written : BitWriter → List Bool
unfolding flat_bits
written w = flat_bits w.buf ++ bits_of w.nbits w.cur

shift_exact : (w : BitWriter) → IsWriter w → w.cur * 2 % 256 ≡ w.cur * 2
shift_exact w h =
    let two : 0 < 2 = omega arith in
    let below : 2 ^ w.nbits ≤ 2 ^ 7 = pow-le-pow_right two {j = 7} (omega (arith, h.open_byte)) in
    omega (arith, h.fits, below)

room : (b : Bool) (w : BitWriter) → IsWriter w → w.cur * 2 % 256 + bit_value b < 2 ^ (w.nbits + 1)
room b w h =
    let next : w.nbits + 1 ≡ suc w.nbits = omega arith in
    rw (next, shift_exact w h) (omega (arith, h.fits, pow-suc 2 w.nbits, bit_value_lt b))

write_bit-IsWriter : (b : Bool) (w : BitWriter) → IsWriter w → IsWriter (write_bit b w)
unfolding write_bit
write_bit-IsWriter b w h = elim (Bool-cases (w.nbits + 1 == 8)) [
  | inl full ↦ rw full (record { open_byte = omega arith; fits = omega arith })
  | inr free ↦ rw free (record { open_byte = ground (arith, h.open_byte, free); fits = room b w h })
]

one_byte_more :
    (buf : List ℕ) (n v : ℕ) (b : Bool)
    → n ≡ 7
    → flat_bits (buf ++ ((v * 2 + bit_value b) ∷ [])) ++ []
      ≡ (flat_bits buf ++ bits_of n v) ++ (b ∷ [])
unfolding flat_bits
one_byte_more buf n v b e =
    rw (append-nil, flat_bits-append, append-nil, bits_of-snoc 7 v b, e)
      (sym (append_assoc (flat_bits buf) (bits_of 7 v) (b ∷ [])))

written-write_bit :
    (b : Bool) (w : BitWriter) → IsWriter w → written (write_bit b w) ≡ written w ++ (b ∷ [])
unfolding write_bit written
written-write_bit b w h = elim (Bool-cases (w.nbits + 1 == 8)) [
  | inl full ↦
      rw (full, shift_exact w h) (one_byte_more w.buf w.nbits w.cur b (ground (arith, full)))
  | inr free ↦
      let next : w.nbits + 1 ≡ suc w.nbits = omega arith in
      rw (free, shift_exact w h)
        (rw (next, bits_of-snoc w.nbits w.cur b)
          (sym (append_assoc (flat_bits w.buf) (bits_of w.nbits w.cur) (b ∷ []))))
]

-- A step of the writer: it appends some bits.
pub record Writes (w : BitWriter) (bits : List Bool) (after : BitWriter) : Type 0 where
  pub well : IsWriter after
  pub exact : written after ≡ written w ++ bits

write_bit_lem : (b : Bool) (w : BitWriter) → IsWriter w → Writes w (b ∷ []) (write_bit b w)
write_bit_lem b w h = record { well = write_bit-IsWriter b w h; exact = written-write_bit b w h }

pub Writes-none : (w : BitWriter) → IsWriter w → Writes w [] w
Writes-none w h = record { well = h; exact = sym (append-nil (written w)) }

pub Writes-trans :
    {w v u : BitWriter} {xs ys : List Bool} → Writes w xs v → Writes v ys u → Writes w (xs ++ ys) u
Writes-trans {w} {v} {u} {xs} {ys} a b = record {
  well = b.well;
  exact = b.exact ∙ rw a.exact (append_assoc (written w) xs ys);
}

pub write_ones_lem :
    (n : ℕ) (w : BitWriter) → IsWriter w → Writes w (replicate n true) (write_ones n w)
unfolding write_ones
write_ones_lem zero w h = Writes-none w h
write_ones_lem (suc n) w h =
    let first = write_bit_lem true w h in Writes-trans first (write_ones_lem n _ first.well)

pub write_bits_lem :
    (v n : ℕ) (w : BitWriter) → IsWriter w → Writes w (bits_of n v) (write_bits v n w)
unfolding write_bits bits_of
write_bits_lem v zero w h = Writes-none w h
write_bits_lem v (suc n) w h =
    let first = write_bit_lem ((v / 2 ^ n) % 2 == 1) w h in
    Writes-trans first (write_bits_lem v n _ first.well)

-- The bits of a delta in the stream.
unfoldable pub delta_bits : ℕ → ℕ → List Bool
delta_bits x p = replicate ((x - 1) / 2 ^ p) true ++ (false ∷ bits_of p ((x - 1) % 2 ^ p))

pub write_delta_lem :
    (x p : ℕ) (w : BitWriter) → IsWriter w → Writes w (delta_bits x p) (write_delta x p w)
unfolding write_delta delta_bits
write_delta_lem x p w h =
    let ones = write_ones_lem ((x - 1) / 2 ^ p) w h in
    let stop = write_bit_lem false _ ones.well in
    Writes-trans ones (Writes-trans stop (write_bits_lem ((x - 1) % 2 ^ p) p _ stop.well))

shifted : (k n v : ℕ) → bits_of (n + k) (v * 2 ^ k) ≡ bits_of n v ++ replicate k false
unfolding bits_of
shifted zero n v =
    let same : n + 0 ≡ n = omega arith in
    let kept : v * 1 ≡ v = omega arith in rw (same, kept) (sym (append-nil (bits_of n v)))
shifted (suc k) n v =
    let count : n + suc k ≡ suc n + k = omega arith in
    let value : v * 2 ^ suc k ≡ v * 2 * 2 ^ k =
      ap (λ x. v * x) (omega (arith, pow-suc 2 k)) ∙ sym (mul_assoc v 2 (2 ^ k)) in
    let twice : v * 2 ≡ v * 2 + bit_value false = omega arith in
    rw (count, value)
      (shifted k (suc n) (v * 2)
        ∙ ap (λ bits. bits ++ replicate k false)
            (ap (bits_of (suc n)) twice ∙ bits_of-snoc n v false)
        ∙ append_assoc (bits_of n v) (false ∷ []) (replicate k false))

shifted_lt : (k n c : ℕ) → c < 2 ^ n → c * 2 ^ k < 2 ^ (n + k)
shifted_lt zero n c h =
    let same : n + 0 ≡ n = omega arith in
    let kept : c * 2 ^ 0 ≡ c = omega arith in rw (same, kept) h
shifted_lt (suc k) n c h =
    let left : c * 2 ^ suc k ≡ c * 2 ^ k * 2 =
      ap (λ x. c * x) (pow-suc 2 k) ∙ sym (mul_assoc c (2 ^ k) 2) in
    let right : 2 ^ (n + suc k) ≡ 2 ^ (n + k) * 2 =
      ap (λ x. 2 ^ x) (omega arith) ∙ pow-suc 2 (n + k) in
    rw (left, right) (omega (arith, shifted_lt k n c h))

last_byte :
    (buf : List ℕ) (n k c : ℕ)
    → n + k ≡ 8
    → c < 2 ^ n
    → flat_bits (buf ++ (c * 2 ^ k % 256 ∷ []))
      ≡ (flat_bits buf ++ bits_of n c) ++ replicate k false
unfolding flat_bits
last_byte buf n k c e h =
    let below : c * 2 ^ k < 2 ^ 8 = subst (λ x. c * 2 ^ k < 2 ^ x) e (shifted_lt k n c h) in
    let exact : c * 2 ^ k % 256 ≡ c * 2 ^ k = mod-eq_of_lt below in
    let bits : bits_of 8 (c * 2 ^ k) ≡ bits_of n c ++ replicate k false =
      subst (λ x. bits_of x (c * 2 ^ k) ≡ bits_of n c ++ replicate k false) e (shifted k n c) in
    rw (flat_bits-append, exact)
      (ap (λ x. flat_bits buf ++ x) bits
        ∙ sym (append_assoc (flat_bits buf) (bits_of n c) (replicate k false)))

no_byte : (buf : List ℕ) (n c : ℕ) → n ≡ 0 → flat_bits buf ≡ (flat_bits buf ++ bits_of n c) ++ []
unfolding bits_of
no_byte buf n c e = rw e (sym (append-nil (flat_bits buf ++ []) ∙ append-nil (flat_bits buf)))

pub flat_bits-finish :
    (w : BitWriter) → IsWriter w → (rest : List Bool) × (flat_bits (finish w) ≡ written w ++ rest)
unfolding finish written
flat_bits-finish w h = elim (Bool-cases (ltb 0 w.nbits)) [
  | inl partial ↦ rw partial (
    replicate (8 - w.nbits) false,
    last_byte w.buf w.nbits (8 - w.nbits) w.cur (omega (arith, h.open_byte)) h.fits,
  )
  | inr whole ↦ rw whole ([], no_byte w.buf w.nbits w.cur (ground (arith, whole)))
]
