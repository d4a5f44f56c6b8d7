-- ===== src/Protocol/Unpad.antt =====
-- `unpad` of src/protocol.rs takes off what `pad` put on.
use bitmancer.Prelude.{
  ℕ, zero, suc, ◌+◌, ◌-◌, ◌%◌, ◌≤◌, ◌<◌, ◌≡◌, refl, ap, false, not, some, List, [], ◌∷◌, ◌++◌,
  arith, ◌==◌, length, take, drop, replicate, any, length-append, length-replicate,
  drop-append_length, take-append_length,
}
use bitmancer.Protocol.Padding.{optimal_block_size, pad, last?, strip, unpad}

last?-append : (xs : List ℕ) (n v : ℕ) → last? (xs ++ replicate (suc n) v) ≡ some v
unfolding last?
last?-append [] zero v = refl
last?-append [] (suc n) v = last?-append [] n v
last?-append (x ∷ []) n v = last?-append [] n v
last?-append (x ∷ y ∷ ys) n v = last?-append (y ∷ ys) n v

any-replicate : (n v : ℕ) → any (λ b. not (b == v)) (replicate n v) ≡ false
any-replicate zero v = refl
any-replicate (suc n) v = ground (arith, any-replicate n v)

strip-append : (bytes : List ℕ) (n : ℕ) → 0 < n → strip (bytes ++ replicate n n) n ≡ bytes
unfolding strip
strip-append bytes n h =
    let padded : List ℕ = bytes ++ replicate n n in
    let e : length padded - n ≡ length bytes =
      omega (arith, length-append bytes (replicate n n), length-replicate n n) in
    ground (
      arith,
      length-append bytes (replicate n n),
      length-replicate n n,
      any-replicate n n,
      ap (λ k. drop k padded) e,
      ap (λ k. take k padded) e,
      drop-append_length bytes (replicate n n),
      take-append_length bytes (replicate n n),
    )

unpad-append : (bytes : List ℕ) (m : ℕ) → unpad (bytes ++ replicate (suc m) (suc m)) ≡ bytes
unfolding unpad
unpad-append bytes m =
    rw (last?-append bytes m (suc m), unpad) (strip-append bytes (suc m) (omega arith))

pad-eq :
    (bytes : List ℕ) (m : ℕ)
    → m < 255
    → pad bytes (length bytes + suc m) ≡ bytes ++ replicate (suc m) (suc m)
unfolding pad
pad-eq bytes m h =
    let e : length bytes + suc m - length bytes ≡ suc m = omega arith in
    let w : suc m % 256 ≡ suc m = omega arith in rw e (rw w (ground arith))

-- Between 1 and 255 bytes of padding are added and taken off again.
pub unpad-pad :
    (bytes : List ℕ) (target : ℕ)
    → length bytes < target
    → target ≤ length bytes + 255
    → (length (pad bytes target) ≡ target) × (unpad (pad bytes target) ≡ bytes)
unpad-pad bytes target h k =
    let m : ℕ = target - length bytes - 1 in
    let e : target ≡ length bytes + suc m = omega arith in
    let small : m < 255 = omega arith in
    rw e (
      rw (pad-eq bytes m small) (
        omega (
          arith,
          length-append bytes (replicate (suc m) (suc m)),
          length-replicate (suc m) (suc m),
        ),
        unpad-append bytes m,
      ))

-- Up to 2,032 bytes get a block that holds them and 16 bytes more, up to 240 bytes one of 256;
-- more bytes than 2,032 keep their size.
pub optimal_block_size_least :
    (n : ℕ)
    → (2032 < n → optimal_block_size n ≡ n)
      × (n ≤ 2032 → n + 16 ≤ optimal_block_size n)
      × (n ≤ 240 → optimal_block_size n ≡ 256)
unfolding optimal_block_size
optimal_block_size_least n = ground arith
