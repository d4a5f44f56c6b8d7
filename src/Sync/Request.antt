-- ===== src/Sync/Request.antt =====
-- The payload of a sync request (src/sync/request.rs). A text is the list of its bytes; `is_utf8` is
-- the validity test of the standard library and `hex_decode` belongs to the `hex` library: both are
-- parameters.
use bitmancer.Prelude.{
  ℕ, zero, suc, ◌+◌, ◌*◌, ◌%◌, ◌^◌, Bool, not, ◌&&◌, Option, none, some, List, [], ◌∷◌, ◌++◌, ltb,
  leb, ◌==◌, if◌then◌else◌, length, take, drop, ◌>>=◌,
}
use bitmancer.Prelude.Keys.{bytes_eq}
use bitmancer.Prelude.Sets.{contains}
use bitmancer.Prelude.Bytes.{to_be_bytes, from_be_bytes}
use bitmancer.Sync.Gcs.{max_p}
use bitmancer.Sync.TypeFlags.{to_bytes, from_bytes, public_messages}

abbrev pub max_accept_bytes : ℕ
max_accept_bytes = 1024

abbrev pub max_fragment_id_filter_count : ℕ
max_fragment_id_filter_count = 60

pub record RequestSync : Type 0 where
  pub p : ℕ
  pub m : ℕ
  pub bitstream : List ℕ
  pub types : Option ℕ
  pub since_timestamp : Option ℕ
  pub fragment_id_filter : Option (List ℕ)

-- `split(',')`
abbrev pub cons_token : ℕ → List (List ℕ) → List (List ℕ)
cons_token b [] = (b ∷ []) ∷ []
cons_token b (token ∷ tokens) = (b ∷ token) ∷ tokens

unfoldable pub split_commas : List ℕ → List (List ℕ)
split_commas [] = [] ∷ []
split_commas (b ∷ bs) =
    let rest = split_commas bs in if b == 0x2c then [] ∷ rest else cons_token b rest

abbrev pub as_id : Option (List ℕ) → Option (List ℕ)
as_id none = none
as_id (some bytes) = if length bytes == 8 then some bytes else none

abbrev pub add_id : Option (List ℕ) → List (List ℕ) → List (List ℕ)
add_id none ids = ids
add_id (some id) ids = if contains ids id then ids else ids ++ (id ∷ [])

abbrev pub unless_none : List (List ℕ) → Option (List (List ℕ))
unless_none [] = none
unless_none (id ∷ ids) = some (id ∷ ids)

module _ (hex_decode : List ℕ → Option (List ℕ)) where
  unfoldable pub collect_ids : List (List ℕ) → List (List ℕ) → List (List ℕ)
  unfolding contains
  collect_ids [] ids = ids
  collect_ids (token ∷ tokens) ids =
      collect_ids tokens (if length token == 16 then add_id (as_id (hex_decode token)) ids else ids)

  unfoldable pub decode_fragment_id_filter : Option (List ℕ) → Option (List (List ℕ))
  unfolding collect_ids split_commas
  decode_fragment_id_filter none = none
  decode_fragment_id_filter (some filter) =
      unless_none (collect_ids (take max_fragment_id_filter_count (split_commas filter)) [])

-- `put`: a tag, the length in 16 bits, the value.
unfoldable pub put_field : ℕ → List ℕ → List ℕ
put_field tag value = (tag ∷ to_be_bytes 2 (length value % 2 ^ 16)) ++ value

unfoldable pub put_types : Option ℕ → List ℕ
unfolding put_field to_bytes
put_types none = []
put_types (some types) = elim (to_bytes types) [ none ↦ [] | some bytes ↦ put_field 0x04 bytes ]

unfoldable pub put_since : Option ℕ → List ℕ
unfolding put_field
put_since none = []
put_since (some since) = put_field 0x05 (to_be_bytes 8 since)

unfoldable pub put_filter : Option (List ℕ) → List ℕ
unfolding put_field
put_filter none = []
put_filter (some filter) = put_field 0x06 filter

unfoldable pub encode_request : RequestSync → List ℕ
unfolding put_field put_types put_since put_filter
encode_request r =
    put_field 0x01 (r.p % 256 ∷ [])
    ++ (put_field 0x02 (to_be_bytes 4 r.m)
        ++ (put_field 0x03 r.bitstream
            ++ (put_types r.types
                ++ (put_since r.since_timestamp ++ put_filter r.fragment_id_filter))))

-- What the loop of the decoder has read so far.
pub record Fields : Type 0 where
  pub p : Option ℕ
  pub m : Option ℕ
  pub payload : Option (List ℕ)
  pub types : Option ℕ
  pub since_timestamp : Option ℕ
  pub fragment_id_filter : Option (List ℕ)

abbrev pub no_fields : Fields
no_fields = record {
  p = none;
  m = none;
  payload = none;
  types = none;
  since_timestamp = none;
  fragment_id_filter = none;
}

abbrev pub set_types : Option ℕ → Fields → Fields
set_types none f = f
set_types (some types) f = record f { types = some types }

module _ (is_utf8 : List ℕ → Bool) where
  -- The `match` on the tag; a filter that is too long fails the whole.
  unfoldable pub read_field : ℕ → ℕ → List ℕ → Fields → Option Fields
  unfolding from_bytes
  read_field cap tag value f =
      if tag == 0x01 && length value == 1
      then some (record f { p = some (from_be_bytes value) })
      else if tag == 0x02 && length value == 4
      then some (record f { m = some (from_be_bytes value) })
      else if tag == 0x03
      then (if ltb cap (length value) then none else some (record f { payload = some value }))
      else if tag == 0x04
      then some (set_types (from_bytes value) f)
      else if tag == 0x05 && length value == 8
      then some (record f { since_timestamp = some (from_be_bytes value) })
      else if tag == 0x06 && leb (length value) cap && is_utf8 value
      then some (record f { fragment_id_filter = some value })
      else some f

  -- The fuel is the number of bytes: each turn takes three at least.
  unfoldable pub read_fields : ℕ → ℕ → List ℕ → Fields → Option Fields
  unfolding read_field
  read_fields zero cap bytes f = some f
  read_fields (suc fuel) cap (tag ∷ high ∷ low ∷ rest) f =
      if ltb (length rest) (high * 256 + low)
      then none
      else (read_field cap tag (take (high * 256 + low) rest) f
          >>= read_fields fuel cap (drop (high * 256 + low) rest))
  read_fields (suc fuel) cap bytes f = some f

  unfoldable pub complete_request : Fields → Option RequestSync
  complete_request f = do
    p ← f.p
    m ← f.m
    payload ← f.payload
    if leb 1 p && leb p max_p && not (m == 0)
        then some (record {
          p = p;
          m = m;
          bitstream = payload;
          types = f.types;
          since_timestamp = f.since_timestamp;
          fragment_id_filter = f.fragment_id_filter;
        })
        else none

  unfoldable pub decode_with_cap : List ℕ → ℕ → Option RequestSync
  unfolding read_fields complete_request
  decode_with_cap bytes cap = read_fields (length bytes) cap bytes no_fields >>= complete_request

  unfoldable pub decode_request : List ℕ → Option RequestSync
  unfolding decode_with_cap
  decode_request bytes = decode_with_cap bytes max_accept_bytes

abbrev pub or_public : Option ℕ → ℕ
or_public none = public_messages
or_public (some types) = types

unfoldable pub requested_types : RequestSync → ℕ
requested_types r = or_public r.types
