-- ===== src/Fragment/Parse.antt =====
-- `parse` of src/fragment.rs reads what `split` wrote.
use bitmancer.Prelude.{
  ℕ, zero, suc, ◌+◌, ◌%◌, ◌^◌, ◌≤◌, ◌<◌, ◌≡◌, refl, ◌∙◌, true, not, ◌||◌, some, List, [], ◌∷◌, ◌++◌,
  length, take, drop, arith, length-append, get_elem?, take-append_length, ltb, leb, ◌==◌,
}
use bitmancer.Prelude.Bytes.{
  to_be_bytes, from_be_bytes, length-to_be_bytes, from_be_bytes-to_be_bytes,
}
use bitmancer.Protocol.Message.{Packet}
use bitmancer.Fragment.{
  FragmentHeader, chunks, div_ceil, max_fragments, fragment_payload, payloads_from, split, parse,
}
use bitmancer.Fragment.Chunks.{length-chunks}
use native.Mathlib.Nat.{add-zero}
use bitmancer.Fragment.Bounds.{IsHeader}

-- The header of the fragment at `index`.
abbrev pub header_of : List ℕ → ℕ → ℕ → ℕ → ℕ → List ℕ → FragmentHeader
header_of sender id original_type total index slice = record {
  key = record { sender = sender; id = id };
  index = index;
  total = total;
  original_type = original_type;
  content = slice;
}

-- Positions past the first bytes.
drop-past : (m k : ℕ) (xs ys : List ℕ) → m ≡ length xs + k → drop m (xs ++ ys) ≡ drop k ys
drop-past m k [] ys h = let e : m ≡ k = omega arith in rw e
drop-past zero k (x ∷ xs) ys h = absurd (omega arith)
drop-past (suc m) k (x ∷ xs) ys h = drop-past m k xs ys (omega arith)

get_elem?-past :
    (m k : ℕ) (xs ys : List ℕ) → m ≡ length xs + k → get_elem? (xs ++ ys) m ≡ get_elem? ys k
get_elem?-past m k [] ys h = let e : m ≡ k = omega arith in rw e
get_elem?-past zero k (x ∷ xs) ys h = absurd (omega arith)
get_elem?-past (suc m) k (x ∷ xs) ys h = get_elem?-past m k xs ys (omega arith)

take_front : (n : ℕ) (xs ys : List ℕ) → length xs ≡ n → take n (xs ++ ys) ≡ xs
take_front n xs ys h = rw (← h) (take-append_length xs ys)

module _ (a b c s : List ℕ) (t : ℕ) (la : length a ≡ 8) (lb : length b ≡ 2)
    (lc : length c ≡ 2) where
  abbrev layout : List ℕ
  layout = a ++ (b ++ (c ++ (t ∷ s)))

  layout_index : take 2 (drop 8 layout) ≡ b
  layout_index =
      rw (drop-past 8 0 a (b ++ (c ++ (t ∷ s))) (omega (arith, la))) (take_front 2 b _ lb)

  behind_index : drop 10 layout ≡ c ++ (t ∷ s)
  behind_index =
      drop-past 10 2 a (b ++ (c ++ (t ∷ s))) (omega (arith, la))
      ∙ drop-past 2 0 b (c ++ (t ∷ s)) (omega (arith, lb))

  layout_total : take 2 (drop 10 layout) ≡ c
  layout_total = rw behind_index (take_front 2 c (t ∷ s) lc)

  layout_type : get_elem? layout 12 ≡ some t
  layout_type =
      get_elem?-past 12 4 a (b ++ (c ++ (t ∷ s))) (omega (arith, la))
      ∙ get_elem?-past 4 2 b (c ++ (t ∷ s)) (omega (arith, lb))
      ∙ get_elem?-past 2 0 c (t ∷ s) (omega (arith, lc))

  layout_content : drop 13 layout ≡ s
  layout_content =
      drop-past 13 5 a (b ++ (c ++ (t ∷ s))) (omega (arith, la))
      ∙ drop-past 5 3 b (c ++ (t ∷ s)) (omega (arith, lb))
      ∙ drop-past 3 1 c (t ∷ s) (omega (arith, lc))

  length-layout : leb 13 (length layout) ≡ true
  length-layout = ground (
    arith,
    length-append a (b ++ (c ++ (t ∷ s))),
    length-append b (c ++ (t ∷ s)),
    length-append c (t ∷ s),
    la,
    lb,
    lc,
  )

two_bytes : (n : ℕ) → n < 2 ^ 16 → from_be_bytes (to_be_bytes 2 (n % 2 ^ 16)) ≡ n
two_bytes n h = from_be_bytes-to_be_bytes 2 (n % 2 ^ 16) (omega arith) ∙ omega arith

header_guard :
    (index total : ℕ)
    → index < total
    → total ≤ max_fragments
    → not (total == 0 || ltb max_fragments total || leb total index) ≡ true
header_guard index total h k = ground arith

-- A packet that carries a fragment's payload parses to its header.
pub parse-fragment_payload :
    (p : Packet) (id original_type total index : ℕ) (slice : List ℕ)
    → id < 2 ^ 64
    → index < total
    → total ≤ max_fragments
    → p.payload ≡ fragment_payload id original_type total index slice
    → parse p ≡ some (header_of p.sender_id id original_type total index slice)
unfolding parse fragment_payload
parse-fragment_payload p id original_type total index slice hi hx ht e =
    let a : List ℕ = to_be_bytes 8 id in
    let b : List ℕ = to_be_bytes 2 (index % 2 ^ 16) in
    let c : List ℕ = to_be_bytes 2 (total % 2 ^ 16) in
    let la : length a ≡ 8 = length-to_be_bytes 8 id in
    let lb : length b ≡ 2 = length-to_be_bytes 2 _ in
    let lc : length c ≡ 2 = length-to_be_bytes 2 _ in
    rw (
      e,
      length-layout a b c slice original_type la lb lc,
      layout_total a b c slice original_type la lb lc,
      layout_index a b c slice original_type la lb lc,
      two_bytes total (omega arith),
      two_bytes index (omega arith),
      header_guard index total hx ht,
      layout_type a b c slice original_type la lb lc,
      layout_content a b c slice original_type la lb lc,
      take_front 8 a (b ++ (c ++ (original_type ∷ slice))) la,
      from_be_bytes-to_be_bytes 8 id (omega arith),
    )

get_elem?-payloads_from :
    (id original_type total k : ℕ) (slices : List (List ℕ)) (i : ℕ) (payload : List ℕ)
    → get_elem? (payloads_from id original_type total k slices) i ≡ some payload
    → (slice : List ℕ) × (get_elem? slices i ≡ some slice)
      × (payload ≡ fragment_payload id original_type total (k + i) slice)
      × (i < length slices)
unfolding payloads_from
get_elem?-payloads_from id original_type total k [] i payload h = cc
get_elem?-payloads_from id original_type total k (s ∷ ss) zero payload h =
    (s, refl, rw add-zero (cc), omega arith)
get_elem?-payloads_from id original_type total k (s ∷ ss) (suc i) payload h =
    let (slice, at, e, lt) =
      get_elem?-payloads_from id original_type total (k + 1) ss i payload h in
    let place : k + suc i ≡ k + 1 + i = omega arith in (slice, at, rw place e, omega arith)

split-payloads_from :
    (id original_type size i : ℕ) (body payload : List ℕ)
    → get_elem? (split id original_type body size) i ≡ some payload
    → (0 < size)
      × (div_ceil (length body) size ≤ max_fragments)
      × (get_elem?
            (payloads_from id original_type (div_ceil (length body) size) 0 (chunks size body))
            i
          ≡ some payload)
unfolding split
split-payloads_from id original_type size i body payload h = ground arith

-- A packet that carries the payload at place `i` of a split body parses to a header with the
-- packet's sender, the identifier, the place, the number of chunks, the type, and the chunk of the
-- body at that place.
pub parse-split :
    (p : Packet) (id original_type size i : ℕ) (body payload : List ℕ)
    → id < 2 ^ 64
    → get_elem? (split id original_type body size) i ≡ some payload
    → p.payload ≡ payload
    → (slice : List ℕ) × (get_elem? (chunks size body) i ≡ some slice)
      × (parse p
          ≡ some (header_of p.sender_id id original_type (length (chunks size body)) i slice))
parse-split p id original_type size i body payload hi h e =
    let (sized, few, at) = split-payloads_from id original_type size i body payload h in
    let total : length (chunks size body) ≡ div_ceil (length body) size =
      length-chunks size body sized in
    let (slice, there, q, lt) =
      get_elem?-payloads_from id original_type (div_ceil (length body) size) 0 (chunks size body) i
        payload at in
    let place : 0 + i ≡ i = omega arith in
    (
      slice,
      there,
      parse-fragment_payload p id original_type (length (chunks size body)) i slice hi lt
          (omega (arith, total, few)) (e ∙ q ∙ cc (place, total)),
    )

-- What `parse` accepts has its index below its total, and the total within the limit.
pub parse-IsHeader : (p : Packet) (h : FragmentHeader) → parse p ≡ some h → IsHeader h
unfolding parse
parse-IsHeader p h e = record { in_range = ground arith; bounded = ground arith }
