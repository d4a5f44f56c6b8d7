-- ===== src/Tests/Samples.antt =====
-- A packet, its frame and the parameters of the runs.
use bitmancer.Prelude.{ℕ, ◌≡◌, refl, inl, false, Option, none, some, List, [], ◌∷◌, arith}
use bitmancer.Prelude.Bytes.{IsBytes, from_be_bytes}
use bitmancer.Protocol.Message.{Packet}
use bitmancer.Protocol.Framed.{IsFramed}
use bitmancer.Protocol.Sound.{YieldsBytes}
use bitmancer.Protocol.Decode.{decode, decode_core, decode_frame}
use bitmancer.Protocol.Reader.{◌>>=◌, check, pure, lift, read_u8, read_slice}

-- An inflater that accepts nothing.
abbrev pub no_inflate : List ℕ → ℕ → Option (List ℕ)
no_inflate bytes size = none

pub no_inflate-YieldsBytes : YieldsBytes no_inflate
no_inflate-YieldsBytes bytes size out h = cc

-- A public message "hi" with seven hops left.
abbrev pub greeting : Packet
greeting = record {
  version = 1;
  msg_type = 2;
  ttl = 7;
  timestamp = 1;
  sender_id = 1 ∷ 2 ∷ 3 ∷ 4 ∷ 5 ∷ 6 ∷ 7 ∷ 8 ∷ [];
  recipient_id = none;
  payload = 104 ∷ 105 ∷ [];
  signature = none;
  route = none;
  is_rsr = false;
}

abbrev pub greeting_wire : List ℕ
greeting_wire =
    1 ∷ 2 ∷ 7 ∷ 0 ∷ 0 ∷ 0 ∷ 0 ∷ 0 ∷ 0 ∷ 0 ∷ 1 ∷ 0 ∷ 0 ∷ 2 ∷ 1 ∷ 2 ∷ 3 ∷ 4 ∷ 5 ∷ 6 ∷ 7 ∷ 8 ∷ 104
    ∷ 105 ∷ []

pub greeting-IsFramed : IsFramed greeting
greeting-IsFramed = record {
  version = inl refl;
  msg_type = omega arith;
  ttl = omega arith;
  timestamp = omega arith;
  sender = omega arith;
  recipient = tt;
  payload = record { bytes = omega arith; bounded = omega arith; fits = λ _. omega arith };
  signature = tt;
  route = tt;
}

pub greeting_wire-IsBytes : IsBytes greeting_wire
greeting_wire-IsBytes = omega arith

pub decode-greeting : decode no_inflate greeting_wire ≡ some greeting
unfolding decode decode_core decode_frame ◌>>=◌ check pure lift read_u8 read_slice from_be_bytes
decode-greeting = refl
