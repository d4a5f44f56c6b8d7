-- ===== src/Sync/Gcs.antt =====
-- Golomb-coded sets (src/sync/gcs.rs). The digest `sha256` is a parameter; the parameter `p` of a
-- filter, which `derive_p` computes with floating-point numbers, is an argument of `build_filter`.
use bitmancer.Prelude.{
  ℕ, zero, suc, ◌+◌, ◌-◌, ◌*◌, ◌/◌, ◌%◌, ◌^◌, min, max, Bool, true, false, ◌&&◌, Option, none, some,
  List, [], ◌∷◌, ◌++◌, ltb, leb, ◌==◌, if◌then◌else◌, length, map, take, get_elem?, any,
}
use bitmancer.Prelude.Bytes.{from_be_bytes}

abbrev pub max_p : ℕ
max_p = 32

pub record Params : Type 0 where
  pub p : ℕ
  pub m : ℕ
  pub bitstream : List ℕ
  pub included_count : ℕ

unfoldable pub estimate_max_elements : ℕ → ℕ → ℕ
estimate_max_elements size_bytes p = max (max (size_bytes * 8) 8 / max (p + 2) 3) 1

unfoldable pub hash_range : ℕ → ℕ → ℕ
hash_range count p =
    if count == 0
    then 1
    else if leb 64 p
    then 2 ^ 32 - 1
    else (let product = min (count * 2 ^ p) (2 ^ 64 - 1) in
        if product == 0 then 1 else min product (2 ^ 32 - 1))

-- The mask clears the top bit of 64.
unfoldable pub h64 : (List ℕ → List ℕ) → List ℕ → ℕ
h64 sha256 id = from_be_bytes (take 8 (sha256 id)) % 2 ^ 63

unfoldable pub map_hash : ℕ → ℕ → ℕ
map_hash hash modulo = if leb modulo 1 then 0 else if hash % modulo == 0 then 1 else hash % modulo

unfoldable pub increasing_from : ℕ → ℕ → List ℕ → List ℕ
increasing_from last modulo [] = []
increasing_from last modulo (value ∷ values) =
    let normalized = min value (modulo - 1) in
    let rest = increasing_from (if ltb last normalized then normalized else last) modulo values in
    if ltb last normalized then normalized ∷ rest else rest

unfoldable pub normalize_mapped_values : List ℕ → ℕ → List ℕ
unfolding increasing_from
normalize_mapped_values values modulo = if leb modulo 1 then [] else increasing_from 0 modulo values

unfoldable pub bucket : (List ℕ → List ℕ) → List ℕ → ℕ → ℕ
unfolding map_hash h64
bucket sha256 id m = if leb (max m 1) 1 then 0 else map_hash (h64 sha256 id) (max m 1)

-- The writer: the bytes that are full, the bits of the next one, and their number.
pub record BitWriter : Type 0 where
  pub buf : List ℕ
  pub cur : ℕ
  pub nbits : ℕ

abbrev pub new_writer : BitWriter
new_writer = record { buf = []; cur = 0; nbits = 0 }

abbrev pub bit_value : Bool → ℕ
bit_value false = 0
bit_value true = 1

unfoldable pub write_bit : Bool → BitWriter → BitWriter
write_bit bit w =
    let cur = (w.cur * 2) % 256 + bit_value bit in
    if w.nbits + 1 == 8
    then record { buf = w.buf ++ (cur ∷ []); cur = 0; nbits = 0 }
    else record w { cur = cur; nbits = w.nbits + 1 }

unfoldable pub write_ones : ℕ → BitWriter → BitWriter
unfolding write_bit
write_ones zero w = w
write_ones (suc count) w = write_ones count (write_bit true w)

-- `value`'s low bits, from the highest of them down.
unfoldable pub write_bits : ℕ → ℕ → BitWriter → BitWriter
unfolding write_bit
write_bits value zero w = w
write_bits value (suc count) w = write_bits value count (write_bit ((value / 2 ^ count) % 2 == 1) w)

unfoldable pub finish : BitWriter → List ℕ
finish w = if ltb 0 w.nbits then w.buf ++ ((w.cur * 2 ^ (8 - w.nbits)) % 256 ∷ []) else w.buf

-- One delta: the quotient in ones, a zero, and the remainder.
unfoldable pub write_delta : ℕ → ℕ → BitWriter → BitWriter
unfolding write_ones write_bits
write_delta x p w =
    write_bits ((x - 1) % 2 ^ p) p (write_bit false (write_ones ((x - 1) / 2 ^ p) w))

-- `value - prev` wraps in 64 bits; a difference of 0 is passed over.
unfoldable pub write_values : List ℕ → ℕ → ℕ → BitWriter → BitWriter
unfolding write_delta
write_values [] prev p w = w
write_values (value ∷ values) prev p w =
    let x = (value + 2 ^ 64 - prev) % 2 ^ 64 in
    write_values values value p (if x == 0 then w else write_delta x p w)

unfoldable pub encode_sorted : List ℕ → ℕ → List ℕ
unfolding write_values finish
encode_sorted sorted p = finish (write_values sorted 0 p new_writer)

pub record BitReader : Type 0 where
  pub source : List ℕ
  pub idx : ℕ
  pub cur : ℕ
  pub left : ℕ

unfoldable pub new_reader : List ℕ → BitReader
new_reader [] = record { source = []; idx = 0; cur = 0; left = 0 }
new_reader (byte ∷ bytes) = record { source = byte ∷ bytes; idx = 0; cur = byte; left = 8 }

-- On to the next byte, which is loaded if there is one.
unfoldable pub next_byte : Option ℕ → BitReader → BitReader
next_byte none r = record r { idx = r.idx + 1 }
next_byte (some byte) r = record r { idx = r.idx + 1; cur = byte; left = 8 }

unfoldable pub advance : BitReader → BitReader
unfolding next_byte
advance r = if r.left == 0 then next_byte (get_elem? r.source (r.idx + 1)) r else r

unfoldable pub read_bit : BitReader → Option (Bool × BitReader)
unfolding advance
read_bit r =
    if leb (length r.source) r.idx
    then none
    else some
        ((r.cur / 128) % 2 == 1, advance (record r { cur = (r.cur * 2) % 256; left = r.left - 1 }))

-- The fuel bounds the bits that are left.
unfoldable pub read_unary : ℕ → ℕ → BitReader → Option (ℕ × BitReader)
unfolding read_bit
read_unary zero q r = none
read_unary (suc fuel) q r = elim (read_bit r) [
  | none ↦ none
  | some (bit, rest) ↦
      (let more = read_unary fuel (q + 1) rest in if bit then more else some (q, rest))
]

unfoldable pub read_bits : ℕ → ℕ → BitReader → Option (ℕ × BitReader)
unfolding read_bit
read_bits zero value r = some (value, r)
read_bits (suc count) value r = elim (read_bit r) [
  | none ↦ none
  | some (bit, rest) ↦ read_bits count (value * 2 + bit_value bit) rest
]

-- `q << p` wraps in 64 bits, the sums stop at the top.
abbrev pub delta_of : ℕ → ℕ → ℕ → ℕ
delta_of p q r = min ((q * 2 ^ p) % 2 ^ 64 + r + 1) (2 ^ 64 - 1)

-- A quotient with its remainder behind it.
unfoldable pub read_delta : ℕ → ℕ → BitReader → Option (ℕ × BitReader)
unfolding read_unary read_bits
read_delta fuel p reader = elim (read_unary fuel 0 reader) [
  | none ↦ none
  | some (q, rest) ↦ elim (read_bits p 0 rest) [
    | none ↦ none
    | some (r, more) ↦ some (delta_of p q r, more)
  ]
]

abbrev pub push_value : ℕ → ℕ → Option (ℕ × BitReader) → (ℕ → BitReader → List ℕ) → List ℕ
push_value m acc none continue = []
push_value m acc (some (x, rest)) continue =
    let next = (acc + x) % 2 ^ 64 in if leb m next then [] else next ∷ continue next rest

-- Both loops take at least a bit each time round.
unfoldable pub decode_values : ℕ → ℕ → ℕ → ℕ → BitReader → List ℕ
unfolding read_delta
decode_values zero p m acc r = []
decode_values (suc fuel) p m acc r =
    push_value m acc (read_delta (suc fuel) p r) (λ next rest. decode_values fuel p m next rest)

unfoldable pub decode_to_sorted_set : ℕ → ℕ → List ℕ → List ℕ
unfolding decode_values new_reader
decode_to_sorted_set p m bytes =
    if leb 1 p && leb p max_p && ltb 1 m
    then decode_values (length bytes * 8 + 1) p m 0 (new_reader bytes)
    else []

-- `binary_search` on a list that is sorted finds what the list holds.
abbrev pub contains_value : List ℕ → ℕ → Bool
contains_value values candidate = any (λ value. value == candidate) values

-- `sort_unstable`
unfoldable pub insert_number : ℕ → List ℕ → List ℕ
insert_number n [] = n ∷ []
insert_number n (m ∷ ms) = let rest = insert_number n ms in if leb n m then n ∷ m ∷ ms else m ∷ rest

unfoldable pub sort_numbers : List ℕ → List ℕ
unfolding insert_number
sort_numbers [] = []
sort_numbers (n ∷ ns) = insert_number n (sort_numbers ns)

module _ (sha256 : List ℕ → List ℕ) (p : ℕ) where
  -- `encode_first`
  unfoldable pub encode_first : List (List ℕ) → ℕ → ℕ → List ℕ
  unfolding map_hash h64 sort_numbers normalize_mapped_values encode_sorted
  encode_first ids modulo count =
      elim (normalize_mapped_values
        (sort_numbers (map (λ id. map_hash (h64 sha256 id) modulo) (take count ids))) modulo) [
          | [] ↦ []
          | value ∷ values ↦ encode_sorted (value ∷ values) p
        ]

  -- The loop that trims the tail: the count shrinks each time round, so it bounds the rounds.
  unfoldable pub trim_count : ℕ → List (List ℕ) → ℕ → ℕ → ℕ → ℕ
  unfolding encode_first
  trim_count zero ids modulo max_bytes count = count
  trim_count (suc fuel) ids modulo max_bytes count =
      let rest = trim_count fuel ids modulo max_bytes (max (count * 9 / 10) 1) in
      if ltb max_bytes (length (encode_first ids modulo count)) && ltb 1 count then rest else count

  unfoldable pub trimmed_params : ℕ → ℕ → ℕ → List ℕ → Params
  trimmed_params range max_bytes count encoded =
      if ltb max_bytes (length encoded)
      then record { p = p; m = range; bitstream = []; included_count = 0 }
      else record {
        p = p;
        m = range;
        bitstream = encoded;
        included_count = if length encoded == 0 then 0 else count;
      }

  unfoldable pub build_filter : List (List ℕ) → ℕ → Params
  unfolding hash_range estimate_max_elements trim_count trimmed_params encode_first
  build_filter ids max_bytes =
      if length ids == 0
      then record { p = p; m = 1; bitstream = []; included_count = 0 }
      else (let start = min (length ids) (estimate_max_elements max_bytes p) in
          let range = max (hash_range start p) 1 in
          let count = trim_count start ids range max_bytes start in
          trimmed_params range max_bytes count (encode_first ids range count))
