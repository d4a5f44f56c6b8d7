-- ===== src/Sync/Filter.antt =====
-- A filter of src/sync/gcs.rs, decoded, holds what was encoded.
use bitmancer.Prelude.{
  ℕ, zero, suc, ◌+◌, ◌-◌, ◌*◌, ◌/◌, ◌%◌, ◌^◌, ◌≤◌, ◌<◌, ◌≡◌, refl, ◌∙◌, sym, ap, Bool, true, false,
  some, List, [], ◌∷◌, ◌++◌, ltb, leb, ◌==◌, ◌&&◌, length, replicate, append_assoc, arith,
  length-append, length-replicate,
}
use bitmancer.Sync.Gcs.{
  BitWriter, BitReader, new_writer, new_reader, write_values, finish, encode_sorted, read_delta,
  decode_values, decode_to_sorted_set,
}
use bitmancer.Sync.Bits.{
  IsWriter, Writes, Writes-none, Writes-trans, written, bits_of, flat_bits, delta_bits,
  write_delta_lem, flat_bits-finish,
}
use bitmancer.Sync.Reader.{IsReader, remaining}
use bitmancer.Sync.Reading.{read_delta_lem, new_reader_lem}

-- Every value is above the one before it and below `m`.
abbrev pub IsIncreasing : ℕ → ℕ → List ℕ → Type 0
IsIncreasing prev m [] = Unit
IsIncreasing prev m (v ∷ vs) = (prev < v) × (v < m) × IsIncreasing v m vs

-- The bits of the deltas of some values.
unfoldable stream : ℕ → ℕ → List ℕ → List Bool
stream p prev [] = []
stream p prev (v ∷ vs) = delta_bits (v - prev) p ++ stream p v vs

write_values_lem :
    (m p : ℕ) (vs : List ℕ) (prev : ℕ) (w : BitWriter)
    → m ≤ 2 ^ 32
    → IsIncreasing prev m vs
    → IsWriter w
    → Writes w (stream p prev vs) (write_values vs prev p w)
unfolding write_values stream
write_values_lem m p [] prev w le i h = Writes-none w h
write_values_lem m p (v ∷ vs) prev w le (above, below, i) h =
    let delta : (v + 2 ^ 64 - prev) % 2 ^ 64 ≡ v - prev = omega (arith, above, below, le) in
    let positive : (v - prev == 0) ≡ false = ground (arith, above) in
    let first = write_delta_lem (v - prev) p w h in
    rw delta (rw positive (Writes-trans first (write_values_lem m p vs v _ le i first.well)))

length-delta_bits : (x p : ℕ) → (x - 1) / 2 ^ p < length (delta_bits x p)
unfolding delta_bits
length-delta_bits x p = omega (
  arith,
  length-append (replicate ((x - 1) / 2 ^ p) true) (false ∷ bits_of p ((x - 1) % 2 ^ p)),
  length-replicate ((x - 1) / 2 ^ p) true,
)

decode_step :
    (m p prev v fuel : ℕ) (r after : BitReader)
    → prev < v
    → v < m
    → m ≤ 2 ^ 32
    → read_delta (suc fuel) p r ≡ some (v - prev, after)
    → decode_values (suc fuel) p m prev r ≡ v ∷ decode_values fuel p m v after
unfolding decode_values
decode_step m p prev v fuel r after above below le step =
    let sum : (prev + (v - prev)) % 2 ^ 64 ≡ v = omega (arith, above, below, le) in
    let within : leb m v ≡ false = ground (arith, below) in
    rw (decode_values, step) (rw sum (rw within refl))

decode_values_lem :
    (m p : ℕ) (vs : List ℕ) (prev fuel : ℕ) (r : BitReader) (extra : List Bool)
    → m ≤ 2 ^ 32
    → IsIncreasing prev m vs
    → IsReader r
    → remaining r ≡ stream p prev vs ++ extra
    → length (stream p prev vs ++ extra) < fuel
    → (rest : List ℕ) × (decode_values fuel p m prev r ≡ vs ++ rest)
unfolding stream
decode_values_lem m p [] prev fuel r extra le i h e lt = (decode_values fuel p m prev r, refl)
decode_values_lem m p (v ∷ vs) prev zero r extra le i h e lt = absurd (omega (arith, lt))
decode_values_lem m p (v ∷ vs) prev (suc fuel) r extra le (above, below, i) h e lt =
    let more = stream p v vs ++ extra in
    let count : length ((delta_bits (v - prev) p ++ stream p v vs) ++ extra)
        ≡ length (delta_bits (v - prev) p) + length more =
      ap length (append_assoc (delta_bits (v - prev) p) (stream p v vs) extra)
      ∙ length-append (delta_bits (v - prev) p) more in
    let (after, step, well, same) =
      read_delta_lem (suc fuel) p (v - prev) r more (omega (arith, above))
        (omega (arith, below, le)) (omega (arith, lt, count, length-delta_bits (v - prev) p)) h
        (e ∙ append_assoc (delta_bits (v - prev) p) (stream p v vs) extra) in
    let (rest, steps) =
      decode_values_lem m p vs v fuel after extra le i well same
        (omega (arith, lt, count, length-delta_bits (v - prev) p)) in
    (rest, decode_step m p prev v fuel r after above below le step ∙ ap (λ xs. v ∷ xs) steps)

length-flat_bits : (bytes : List ℕ) → length (flat_bits bytes) ≡ length bytes * 8
unfolding flat_bits bits_of
length-flat_bits [] = omega arith
length-flat_bits (b ∷ bs) = omega (arith, length-flat_bits bs)

new_writer-IsWriter : IsWriter new_writer
new_writer-IsWriter = record { open_byte = omega arith; fits = omega arith }

new_writer_bits : (bits : List Bool) → written new_writer ++ bits ≡ bits
unfolding written flat_bits bits_of
new_writer_bits bits = refl

-- Values that strictly increase from 1 on and are below a modulus of at most 2^32, encoded with a
-- parameter from 1 to 32, come first, in their order, in what the decoder finds.
pub decode-encode_sorted :
    (p m : ℕ) (vs : List ℕ)
    → 1 ≤ p
    → p ≤ 32
    → m ≤ 2 ^ 32
    → 1 < m
    → IsIncreasing 0 m vs
    → (rest : List ℕ) × (decode_to_sorted_set p m (encode_sorted vs p) ≡ vs ++ rest)
unfolding decode_to_sorted_set encode_sorted
decode-encode_sorted p m vs low high le big i =
    let bytes = finish (write_values vs 0 p new_writer) in
    let wrote = write_values_lem m p vs 0 new_writer le i new_writer-IsWriter in
    let (extra, ended) = flat_bits-finish (write_values vs 0 p new_writer) wrote.well in
    let (well, left) = new_reader_lem bytes in
    let bits : flat_bits bytes ≡ stream p 0 vs ++ extra =
      ended ∙ ap (λ xs. xs ++ extra) (wrote.exact ∙ new_writer_bits _) in
    let accepted : (leb 1 p && leb p 32 && ltb 1 m) ≡ true = ground (arith, low, high, big) in
    rw accepted (
      decode_values_lem m p vs 0 (length bytes * 8 + 1) (new_reader bytes) extra le i well
        (left ∙ bits) (omega (arith, ap length (sym bits), length-flat_bits bytes)))
