-- ===== src/Protocol/Encode.antt =====
-- src/protocol.rs: `Packet::encode_with_padding` and what is signed.
use bitmancer.Prelude.{
  ℕ, ◌%◌, ◌^◌, Bool, true, false, not, ◌&&◌, ◌||◌, Option, none, some, List, [], ◌∷◌, ◌++◌, min,
  ltb, leb, ◌==◌, if◌then◌else◌, length, take, is_some, guard, ◌>>◌, bit_or,
}
use bitmancer.Prelude.Bytes.{to_be_bytes}
use bitmancer.Protocol.Message.{Packet, signature_size}
use bitmancer.Protocol.Padding.{optimal_block_size, pad}

-- The module `flags`.
abbrev pub has_recipient : ℕ
has_recipient = 0x01

abbrev pub has_signature : ℕ
has_signature = 0x02

abbrev pub is_compressed : ℕ
is_compressed = 0x04

abbrev pub has_route : ℕ
has_route = 0x08

abbrev pub is_rsr_flag : ℕ
is_rsr_flag = 0x10

-- `flag_byte |= flag` under a test.
abbrev set_flag : Bool → ℕ → ℕ → ℕ
set_flag test flag byte = if test then bit_or byte flag else byte

unfoldable pub flag_byte : Bool → Bool → Bool → Bool → ℕ
flag_byte recipient signature route rsr = set_flag rsr is_rsr_flag (
    set_flag route has_route
      (set_flag signature has_signature (set_flag recipient has_recipient 0)))

-- Routes are for version 2; an absent route is an empty one.
unfoldable pub effective_route : Packet → List (List ℕ)
effective_route p = if leb 2 p.version then (elim p.route [ none ↦ [] | some hops ↦ hops ]) else []

unfoldable pub hop_bytes : List (List ℕ) → List ℕ
hop_bytes [] = []
hop_bytes (hop ∷ hops) = hop ++ hop_bytes hops

unfoldable pub recipient_bytes : Option (List ℕ) → List ℕ
recipient_bytes none = []
recipient_bytes (some recipient) = recipient

unfoldable pub route_bytes : List (List ℕ) → List ℕ
unfolding hop_bytes
route_bytes [] = []
route_bytes (hop ∷ hops) = (length (hop ∷ hops) % 256) ∷ hop_bytes (hop ∷ hops)

unfoldable pub signature_bytes : Option (List ℕ) → List ℕ
signature_bytes none = []
signature_bytes (some signature) = take (min signature_size (length signature)) signature

-- The length field: four bytes in version 2, two in version 1.
unfoldable pub length_bytes : ℕ → ℕ → List ℕ
length_bytes version size =
    if version == 2 then to_be_bytes 4 (size % 2 ^ 32) else to_be_bytes 2 (size % 2 ^ 16)

abbrev pub is_nonempty {ℓ} : {A : Type ℓ} → List A → Bool
is_nonempty [] = false
is_nonempty (x ∷ xs) = true

-- What `encode_with_padding` pushes, before any padding.
unfoldable pub frame : Packet → List (List ℕ) → List ℕ
frame p route =
    p.version
    ∷ p.msg_type
    ∷ p.ttl
    ∷ (to_be_bytes 8 p.timestamp
        ++ (flag_byte (is_some p.recipient_id) (is_some p.signature)
              (is_nonempty route && leb 2 p.version) p.is_rsr
            ∷ (length_bytes p.version (length p.payload)
                ++ (p.sender_id
                    ++ (recipient_bytes p.recipient_id
                        ++ (route_bytes route ++ (p.payload ++ signature_bytes p.signature)))))))

unfoldable pub encode_with_padding : Packet → Bool → Option (List ℕ)
encode_with_padding p padding =
    let route = effective_route p in
    do
      guard (p.version == 1 || p.version == 2)
      guard (leb (length route) 255)
      guard (not (p.version == 1 && ltb 65535 (length p.payload)))
      let bytes = frame p route
      some (if padding then pad bytes (optimal_block_size (length bytes)) else bytes)

unfoldable pub encode : Packet → Option (List ℕ)
unfolding encode_with_padding
encode p = encode_with_padding p true

-- The bytes under the packet's signature: no signature, hop count 0, the response flag clear.
unfoldable pub signing_bytes : Packet → Option (List ℕ)
unfolding encode_with_padding
signing_bytes p = encode_with_padding (record p { signature = none; ttl = 0; is_rsr = false }) true
