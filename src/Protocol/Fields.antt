-- ===== src/Protocol/Fields.antt =====
-- The decoder of src/protocol.rs reads back each part of a frame.
use bitmancer.Prelude.{
  ℕ, ◌^◌, ◌%◌, ◌≤◌, ◌≡◌, refl, ap, ◌∙◌, ◌⊎◌, inl, inr, Bool, true, false, ◌&&◌, Option, none, some,
  List, [], ◌∷◌, ◌++◌, arith, leb, ◌==◌, suc, length, All, append_assoc, is_some, take-eq_of_le,
  min,
}
use bitmancer.Prelude.Bytes.{IsArray, to_be_bytes, length-to_be_bytes, from_be_bytes-to_be_bytes}
use bitmancer.Protocol.Message.{Packet, max_framed_payload}
use bitmancer.Protocol.Encode.{
  has_recipient, has_signature, is_compressed, has_route, is_rsr_flag, flag_byte, effective_route,
  hop_bytes, recipient_bytes, route_bytes, signature_bytes, length_bytes, is_nonempty,
}
use bitmancer.Protocol.Reader.{pure, read_u8, read_slice, bind_step, read_slice-append}
use bitmancer.Protocol.Decode.{
  has_flag, read_length, decode_recipient, decode_hops, decode_route, decode_signature,
}
use bitmancer.Protocol.Framed.{IsOptional, IsRoute}

pub read_length-length_bytes :
    (v n : ℕ) (rest : List ℕ)
    → (v ≡ 1) ⊎ (v ≡ 2)
    → n ≤ max_framed_payload
    → (v ≡ 1 → n ≤ 65535)
    → read_length v (length_bytes v n ++ rest) ≡ some (n, rest)
unfolding read_length length_bytes pure
read_length-length_bytes v n rest (inl e) h k = rw e (
    bind_step (read_slice 2) _ _ rest (to_be_bytes 2 (n % 2 ^ 16))
      (read_slice-append 2 _ rest (length-to_be_bytes 2 _))
    ∙ ap (λ m. some (m, rest))
        (from_be_bytes-to_be_bytes 2 (n % 2 ^ 16) (omega arith) ∙ omega (arith, k e)))
read_length-length_bytes v n rest (inr e) h k = rw e (
    bind_step (read_slice 4) _ _ rest (to_be_bytes 4 (n % 2 ^ 32))
      (read_slice-append 4 _ rest (length-to_be_bytes 4 _))
    ∙ ap (λ m. some (m, rest))
        (from_be_bytes-to_be_bytes 4 (n % 2 ^ 32) (omega arith) ∙ omega arith))

pub flags_read :
    (r s t k : Bool)
    → (has_flag (flag_byte r s t k) has_recipient ≡ r)
      × (has_flag (flag_byte r s t k) has_signature ≡ s)
      × (has_flag (flag_byte r s t k) is_compressed ≡ false)
      × (has_flag (flag_byte r s t k) has_route ≡ t)
      × (has_flag (flag_byte r s t k) is_rsr_flag ≡ k)
unfolding flag_byte
flags_read r s t k = ground arith

pub decode_recipient-bytes :
    (o : Option (List ℕ)) (rest : List ℕ)
    → IsOptional (IsArray 8) o
    → decode_recipient (is_some o) (recipient_bytes o ++ rest) ≡ some (o, rest)
unfolding decode_recipient recipient_bytes pure
decode_recipient-bytes none rest h = refl
decode_recipient-bytes (some id) rest h =
    bind_step (read_slice 8) _ _ rest id (read_slice-append 8 id rest h.1)

pub decode_signature-bytes :
    (o : Option (List ℕ)) (rest : List ℕ)
    → IsOptional (IsArray 64) o
    → decode_signature (is_some o) (signature_bytes o ++ rest) ≡ some (o, rest)
unfolding decode_signature signature_bytes pure
decode_signature-bytes none rest h = refl
decode_signature-bytes (some s) rest h =
    rw (take-eq_of_le (min 64 (length s)) s (omega (arith, h.1)))
      (bind_step (read_slice 64) _ _ rest s (read_slice-append 64 s rest h.1))

pub decode_hops-bytes :
    (hops : List (List ℕ)) (rest : List ℕ)
    → All (IsArray 8) hops
    → decode_hops (length hops) (hop_bytes hops ++ rest) ≡ some (hops, rest)
unfolding decode_hops hop_bytes pure
decode_hops-bytes [] rest h = refl
decode_hops-bytes (hop ∷ hops) rest h = rw append_assoc (
    bind_step (read_slice 8) _ _ (hop_bytes hops ++ rest) hop (read_slice-append 8 hop _ h.0.1)
    ∙ bind_step (decode_hops (length hops)) _ _ rest hops (decode_hops-bytes hops rest h.1))

pub effective_route-none : (p : Packet) → p.route ≡ none → effective_route p ≡ []
unfolding effective_route
effective_route-none p h = ground arith

pub effective_route-some :
    (p : Packet) (hops : List (List ℕ))
    → p.version ≡ 2
    → p.route ≡ some hops
    → effective_route p ≡ hops
unfolding effective_route
effective_route-some p hops h k = ground arith

pub decode_route-hops :
    (hops : List (List ℕ)) (rest : List ℕ)
    → 1 ≤ length hops
    → length hops ≤ 255
    → All (IsArray 8) hops
    → decode_route true (route_bytes hops ++ rest) ≡ some (some hops, rest)
unfolding decode_route route_bytes read_u8 pure
decode_route-hops [] rest h k a = absurd (omega arith)
decode_route-hops (hop ∷ hops) rest h k a =
    bind_step read_u8 _ _ _ (length (hop ∷ hops) % 256) refl
    ∙ (let small : suc (length hops) % 256 ≡ suc (length hops) = omega arith in
        let counted : (suc (length hops) == 0) ≡ false = ground arith in
        rw (small, counted)
          (bind_step (decode_hops (length (hop ∷ hops))) _ _ rest (hop ∷ hops)
            (decode_hops-bytes (hop ∷ hops) rest a)))

-- The route of a packet that the format can carry is read back, an absent one as absent.
pub decode_route-bytes :
    (p : Packet) (rest : List ℕ) (o : Option (List (List ℕ)))
    → p.route ≡ o
    → IsOptional (IsRoute p.version) o
    → decode_route
        (is_nonempty (effective_route p) && leb 2 p.version)
        (route_bytes (effective_route p) ++ rest)
      ≡ some (o, rest)
unfolding decode_route route_bytes pure
decode_route-bytes p rest none e h = rw (effective_route-none p e)
decode_route-bytes p rest (some []) e h = absurd (omega (arith, h.nonempty))
decode_route-bytes p rest (some (hop ∷ hops)) e h =
    rw (effective_route-some p (hop ∷ hops) h.routed e, h.routed)
      (decode_route-hops (hop ∷ hops) rest h.nonempty h.fits h.arrays)
