-- ===== src/Sync/Members.antt =====
-- A filter built by src/sync/gcs.rs claims every packet that it covers.
use bitmancer.Prelude.{
  ℕ, ◌-◌, ◌%◌, ◌^◌, ◌≤◌, ◌<◌, ◌≡◌, refl, ◌∙◌, ap, min, max, true, false, List, [], ◌∷◌, ltb, leb,
  ◌==◌, length, take, map, All, arith, inl, inr, Bool-cases,
}
use bitmancer.Sync.Gcs.{
  hash_range, map_hash, h64, bucket, normalize_mapped_values, contains_value, sort_numbers,
  encode_sorted, decode_to_sorted_set, encode_first, trim_count, trimmed_params, build_filter,
  estimate_max_elements,
}
use native.Mathlib.Nat.{mod-lt}
use bitmancer.Sync.Filter.{IsIncreasing, decode-encode_sorted}
use bitmancer.Sync.Sorted.{
  All-imp, contains_value-map, contains_value-append_left, contains_value-sort_numbers,
  All-sort_numbers, sort_numbers-IsSorted, increasing_from-IsIncreasing, increasing_from-keeps,
}

map_hash_range :
    (h modulo : ℕ) → 1 < modulo → (0 < map_hash h modulo) × (map_hash h modulo < modulo)
unfolding map_hash
map_hash_range h modulo big =
    let small : h % modulo < modulo = mod-lt h (omega (arith, big)) in
    (ground (arith, big, small), ground (arith, big, small))

mapped_range :
    (f : List ℕ → ℕ) (modulo : ℕ) (ids : List (List ℕ))
    → ((id : List ℕ) → f id < modulo)
    → All (λ x. x < modulo) (map f ids)
mapped_range f modulo [] h = tt
mapped_range f modulo (id ∷ ids) h = (h id, mapped_range f modulo ids h)

module _ (sha256 : List ℕ → List ℕ) (p : ℕ) where
  -- What the trimmed identifiers map to, in order and without repetition.
  mapped : List (List ℕ) → ℕ → ℕ → List ℕ
  mapped ids modulo count =
      normalize_mapped_values
        (sort_numbers (map (λ id. map_hash (h64 sha256 id) modulo) (take count ids))) modulo

  encode_first-eq :
      (ids : List (List ℕ)) (modulo count : ℕ)
      → encode_first sha256 p ids modulo count ≡ encode_sorted (mapped ids modulo count) p
  unfolding encode_first mapped encode_sorted
  encode_first-eq ids modulo count = by_values (mapped ids modulo count)
    where
      by_values :
          (values : List ℕ)
          → elim values [ [] ↦ [] | v ∷ vs ↦ encode_sorted (v ∷ vs) p ] ≡ encode_sorted values p
      by_values [] = refl
      by_values (v ∷ vs) = refl

  mapped-IsIncreasing :
      (ids : List (List ℕ)) (modulo count : ℕ)
      → 1 < modulo
      → IsIncreasing 0 modulo (mapped ids modulo count)
  unfolding mapped normalize_mapped_values
  mapped-IsIncreasing ids modulo count big =
      let wide : leb modulo 1 ≡ false = ground (arith, big) in
      rw wide (increasing_from-IsIncreasing 0 modulo _ (omega (arith, big)))

  mapped_holds :
      (ids : List (List ℕ)) (modulo count : ℕ)
      → 1 < modulo
      → All
          (λ id. contains_value (mapped ids modulo count) (map_hash (h64 sha256 id) modulo) ≡ true)
          (take count ids)
  unfolding mapped normalize_mapped_values
  mapped_holds ids modulo count big =
      let wide : leb modulo 1 ≡ false = ground (arith, big) in
      let f : List ℕ → ℕ = λ id. map_hash (h64 sha256 id) modulo in
      let hashes = map f (take count ids) in
      rw wide (
        All-imp
          (λ id held.
            increasing_from-keeps 0 modulo (f id) (sort_numbers hashes)
              (map_hash_range (h64 sha256 id) modulo big).0 (sort_numbers-IsSorted hashes)
              (All-sort_numbers _ hashes (
                mapped_range f modulo (take count ids)
                  (λ x. (map_hash_range (h64 sha256 x) modulo big).1)))
              (contains_value-sort_numbers (f id) hashes ∙ held))
          (take count ids) (contains_value-map f (take count ids)))

  bucket-map_hash :
      (id : List ℕ) (modulo : ℕ)
      → 1 < modulo
      → bucket sha256 id modulo ≡ map_hash (h64 sha256 id) modulo
  unfolding bucket
  bucket-map_hash id modulo big =
      let range : max modulo 1 ≡ modulo = omega (arith, big) in
      let wide : leb modulo 1 ≡ false = ground (arith, big) in rw range (rw wide refl)

  encode_first_holds :
      (ids : List (List ℕ)) (modulo count : ℕ)
      → 1 ≤ p
      → p ≤ 32
      → modulo ≤ 2 ^ 32
      → 1 < modulo
      → All
          (λ id.
            contains_value
              (decode_to_sorted_set p modulo (encode_first sha256 p ids modulo count))
              (bucket sha256 id modulo)
            ≡ true)
          (take count ids)
  encode_first_holds ids modulo count low high le big =
      let (rest, found) =
        decode-encode_sorted p modulo (mapped ids modulo count) low high le big
          (mapped-IsIncreasing ids modulo count big) in
      rw (encode_first-eq ids modulo count) (
        rw found (
          All-imp
            (λ id held. rw (bucket-map_hash id modulo big) (
              contains_value-append_left (mapped ids modulo count) rest
                (map_hash (h64 sha256 id) modulo) held))
            (take count ids) (mapped_holds ids modulo count big)))

  hash_range_le : (count : ℕ) → hash_range count p ≤ 2 ^ 32 - 1
  unfolding hash_range
  hash_range_le count = ground arith

  mapped-narrow :
      (ids : List (List ℕ)) (modulo count : ℕ) → modulo ≤ 1 → mapped ids modulo count ≡ []
  unfolding mapped normalize_mapped_values
  mapped-narrow ids modulo count h =
      let narrow : leb modulo 1 ≡ true = ground (arith, h) in rw narrow refl

  encode_sorted-none : encode_sorted [] p ≡ []
  unfolding encode_sorted
  encode_sorted-none = refl

  no_range :
      (ids : List (List ℕ)) (modulo count : ℕ)
      → modulo ≤ 1
      → encode_first sha256 p ids modulo count ≡ []
  no_range ids modulo count h =
      encode_first-eq ids modulo count
      ∙ ap (λ values. encode_sorted values p) (mapped-narrow ids modulo count h)
      ∙ encode_sorted-none

  trimmed_params_holds :
      (ids : List (List ℕ)) (range max_bytes count : ℕ)
      → 1 ≤ p
      → p ≤ 32
      → range ≤ 2 ^ 32
      → let params =
          trimmed_params sha256 p range max_bytes count (encode_first sha256 p ids range count) in
        (length params.bitstream ≤ max_bytes)
        × All
            (λ id.
              contains_value
                (decode_to_sorted_set params.p params.m params.bitstream)
                (bucket sha256 id params.m)
              ≡ true)
            (take params.included_count ids)
  unfolding trimmed_params
  trimmed_params_holds ids range max_bytes count low high le =
      let encoded = encode_first sha256 p ids range count in
      elim (Bool-cases (ltb max_bytes (length encoded))) [
        | inl over ↦ rw over (omega arith, tt)
        | inr fits ↦ rw fits (
          ground (arith, fits),
          elim (Bool-cases (length encoded == 0)) [
            | inl none_coded ↦ rw none_coded tt
            | inr some_coded ↦ rw some_coded (elim (Bool-cases (ltb 1 range)) [
              | inl wide ↦ encode_first_holds ids range count low high le (ground (arith, wide))
              | inr narrow ↦ absurd (
                  ground (
                    arith,
                    some_coded,
                    narrow,
                    ap length (no_range ids range count (ground (arith, narrow))),
                  ))
            ])
          ],
        )
      ]

  -- A filter keeps to its budget of bytes, and decoding it claims every identifier among those that
  -- it says it covers, the newest first: a peer that holds them is not sent them again.
  pub build_filter_covers :
      (ids : List (List ℕ)) (max_bytes : ℕ)
      → 1 ≤ p
      → p ≤ 32
      → let params = build_filter sha256 p ids max_bytes in
        (length params.bitstream ≤ max_bytes)
        × All
            (λ id.
              contains_value
                (decode_to_sorted_set params.p params.m params.bitstream)
                (bucket sha256 id params.m)
              ≡ true)
            (take params.included_count ids)
  unfolding build_filter
  build_filter_covers ids max_bytes low high = elim (Bool-cases (length ids == 0)) [
    | inl none_given ↦ rw none_given (omega arith, tt)
    | inr given ↦ rw given (
        let start = min (length ids) (estimate_max_elements max_bytes p) in
        let range = max (hash_range start p) 1 in
        trimmed_params_holds ids range max_bytes
          (trim_count sha256 p start ids range max_bytes start) low high
          (omega (arith, hash_range_le start)))
  ]
