-- ===== src/Protocol/Padding.antt =====
-- src/protocol.rs: PKCS#7 padding up to a block size.
use bitmancer.Prelude.{
  ℕ, ◌+◌, ◌-◌, ◌%◌, not, ◌||◌, Option, none, some, List, [], ◌∷◌, ◌++◌, ltb, leb, ◌==◌,
  if◌then◌else◌, length, take, drop, replicate, any,
}

-- Swift's allowance for an AEAD tag comes first; `BLOCK_SIZES` is walked in order.
unfoldable pub optimal_block_size : ℕ → ℕ
optimal_block_size data_size =
    let total = data_size + 16 in
    if leb total 256
    then 256
    else if leb total 512
    then 512
    else if leb total 1024
    then 1024
    else if leb total 2048
    then 2048
    else data_size

unfoldable pub pad : List ℕ → ℕ → List ℕ
pad bytes target_size =
    if leb target_size (length bytes)
    then bytes
    else let padding_needed = target_size - length bytes in
      if padding_needed == 0 || ltb 255 padding_needed
      then bytes
      else bytes ++ replicate padding_needed (padding_needed % 256)

-- `data.last()`
unfoldable pub last? : List ℕ → Option ℕ
last? [] = none
last? (x ∷ []) = some x
last? (x ∷ y ∷ ys) = last? (y ∷ ys)

-- Takes `padding_length` bytes off the end, if that many equal to it stand there.
unfoldable pub strip : List ℕ → ℕ → List ℕ
strip bytes padding_length =
    if padding_length == 0 || ltb (length bytes) padding_length
    then bytes
    else let start = length bytes - padding_length in
      if any (λ b. not (b == padding_length)) (drop start bytes) then bytes else take start bytes

unfoldable pub unpad : List ℕ → List ℕ
unfolding last? strip
unpad bytes = elim (last? bytes) [ none ↦ bytes | some last ↦ strip bytes last ]
