-- ===== src/Sync/TypeFlags.antt =====
-- Which message types a sync round covers (src/sync/type_flags.rs). A set is a 64-bit number.
use bitmancer.Prelude.{
  ℕ, zero, suc, ◌+◌, ◌*◌, ◌/◌, ◌%◌, ◌^◌, bit_and, bit_or, Bool, false, not, Option, none, some,
  List, [], ◌∷◌, ltb, ◌==◌, if◌then◌else◌, length, filter,
}
use bitmancer.Protocol.Message.{
  MessageType, announce, message, leave, noise_handshake, noise_encrypted, fragment, request_sync,
  file_transfer, board_post, prekey_bundle, group_message,
}

unfoldable pub bit_index : MessageType → Option ℕ
bit_index announce = some 0
bit_index message = some 1
bit_index leave = some 2
bit_index noise_handshake = some 3
bit_index noise_encrypted = some 4
bit_index fragment = some 5
bit_index request_sync = some 6
bit_index file_transfer = some 7
bit_index board_post = some 8
bit_index prekey_bundle = some 9
bit_index group_message = some 10
bit_index _ = none

abbrev pub mapped_types : List MessageType
mapped_types =
    announce ∷ message ∷ leave ∷ noise_handshake ∷ noise_encrypted ∷ fragment ∷ request_sync
    ∷ file_transfer ∷ board_post ∷ prekey_bundle ∷ group_message ∷ []

abbrev pub with_bit : ℕ → Option ℕ → ℕ
with_bit mask none = mask
with_bit mask (some bit) = bit_or mask (2 ^ bit)

-- The folds over a list of types.
unfoldable pub mask_of : List MessageType → ℕ → ℕ
unfolding bit_index
mask_of [] mask = mask
mask_of (t ∷ ts) mask = mask_of ts (with_bit mask (bit_index t))

unfoldable pub known_mask : ℕ
unfolding mask_of
known_mask = mask_of mapped_types 0

unfoldable pub from_raw : ℕ → ℕ
unfolding known_mask
from_raw raw = bit_and raw known_mask

unfoldable pub from_types : List MessageType → ℕ
unfolding mask_of from_raw
from_types types = from_raw (mask_of types 0)

unfoldable pub public_messages : ℕ
unfolding from_types
public_messages = from_types (announce ∷ message ∷ [])

abbrev pub has_bit : ℕ → Option ℕ → Bool
has_bit raw none = false
has_bit raw (some bit) = not (bit_and raw (2 ^ bit) == 0)

unfoldable pub has_type : ℕ → MessageType → Bool
unfolding bit_index
has_type raw t = has_bit raw (bit_index t)

-- `to_le_bytes`
unfoldable pub to_le_bytes : ℕ → ℕ → List ℕ
to_le_bytes zero n = []
to_le_bytes (suc w) n = (n % 256) ∷ to_le_bytes w (n / 256)

-- The loop that drops the zeros at the end.
abbrev pub cons_unless_zero : ℕ → List ℕ → List ℕ
cons_unless_zero b [] = if b == 0 then [] else b ∷ []
cons_unless_zero b (c ∷ cs) = b ∷ c ∷ cs

unfoldable pub trim_zeros : List ℕ → List ℕ
trim_zeros [] = []
trim_zeros (b ∷ bs) = cons_unless_zero b (trim_zeros bs)

unfoldable pub to_bytes : ℕ → Option (List ℕ)
unfolding to_le_bytes trim_zeros
to_bytes raw = if raw == 0 then none else some (trim_zeros (to_le_bytes 8 raw))

-- The fold over the bytes: the shifts do not overlap, so the union of the bits is the sum.
unfoldable pub le_value : List ℕ → ℕ
le_value [] = 0
le_value (b ∷ bs) = b + 256 * le_value bs

unfoldable pub from_bytes : List ℕ → Option ℕ
unfolding le_value from_raw
from_bytes bytes =
    if length bytes == 0
    then none
    else if ltb 8 (length bytes)
    then none
    else some (from_raw (le_value bytes))

unfoldable pub to_types : ℕ → List MessageType
unfolding has_type
to_types raw = filter (has_type raw) mapped_types
