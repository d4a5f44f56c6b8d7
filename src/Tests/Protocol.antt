-- ===== src/Tests/Protocol.antt =====
-- Runs of src/protocol.rs.
use bitmancer.Prelude.{ℕ, ◌-◌, ◌≡◌, refl, true, false, some, List, [], ◌∷◌, ◌++◌, arith, length}
use bitmancer.Prelude.Bytes.{to_be_bytes}
use bitmancer.Protocol.Encode.{
  encode_with_padding, signing_bytes, effective_route, frame, flag_byte, recipient_bytes,
  route_bytes, signature_bytes, length_bytes,
}
use bitmancer.Protocol.Padding.{pad, unpad}
use bitmancer.Protocol.Decode.{decode}
use bitmancer.Protocol.Framed.{IsFramed}
use bitmancer.Protocol.Sound.{decode-IsFramed}
use bitmancer.Protocol.RoundTrip.{decode-encode}
use bitmancer.Protocol.Signing.{signing_bytes-injective, SameSigned, one_hop_less}
use bitmancer.Protocol.Unpad.{unpad-pad}
use bitmancer.Tests.Samples.{
  no_inflate, no_inflate-YieldsBytes, greeting, greeting_wire, greeting-IsFramed,
  greeting_wire-IsBytes, decode-greeting,
}

encode-greeting : encode_with_padding greeting false ≡ some greeting_wire
unfolding encode_with_padding effective_route frame flag_byte recipient_bytes route_bytes
    signature_bytes length_bytes to_be_bytes
encode-greeting = refl

decode-IsFramed_example : IsFramed greeting
decode-IsFramed_example =
    decode-IsFramed no_inflate no_inflate-YieldsBytes greeting_wire greeting greeting_wire-IsBytes
      decode-greeting

decode-encode_example :
    (bytes : List ℕ) × (encode_with_padding greeting true ≡ some bytes)
    × (decode no_inflate (bytes ++ (9 ∷ [])) ≡ some greeting)
decode-encode_example = decode-encode no_inflate greeting true (9 ∷ []) greeting-IsFramed

signing_bytes-injective_example : SameSigned greeting (record greeting { ttl = greeting.ttl - 1 })
unfolding signing_bytes
signing_bytes-injective_example =
    signing_bytes-injective greeting (record greeting { ttl = greeting.ttl - 1 }) greeting-IsFramed
      (one_hop_less greeting greeting-IsFramed) refl

unpad-pad_example : (length (pad (5 ∷ 6 ∷ []) 4) ≡ 4) × (unpad (pad (5 ∷ 6 ∷ []) 4) ≡ 5 ∷ 6 ∷ [])
unpad-pad_example = unpad-pad (5 ∷ 6 ∷ []) 4 (omega arith) (omega arith)
