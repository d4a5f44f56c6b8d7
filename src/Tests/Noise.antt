-- ===== src/Tests/Noise.antt =====
-- Runs of the cipher state of src/noise_protocol.rs.
use bitmancer.Prelude.{
  ℕ, zero, suc, ◌≡◌, refl, true, Option, none, some, List, [], ◌∷◌, if◌then◌else◌, map, arith,
}
use bitmancer.Prelude.BitOps.{to_le_bytes, from_le_bytes}
use bitmancer.Prelude.Results.{ok, err}
use bitmancer.Prelude.Sets.{contains, insert}
use bitmancer.Noise.{
  replay_detected, decryption_failed, Aead, NoiseCipherState, new_with_key, encrypt, decrypt,
  decrypt_frame, open_at, sealed, nonce_to_bytes, is_valid_nonce, mark_nonce_as_seen,
  extract_nonce_from_ciphertext_payload, or_bytes,
}
use bitmancer.Noise.Window.{welcomes, newest}
use bitmancer.Noise.Replay.{Received, after, replies, receive, receive_all, accepted_after}
use bitmancer.Noise.Delivery.{
  IsAead, IsFrames, decrypt_failed, window_refines, replay_refused, frame_opens,
}
use bitmancer.Noise.Sealing.{Seals}
use bitmancer.Noise.Conversation.{send_all, conversation_arrives}

-- A cipher that puts a tag before the text.
abbrev unseal_tagged : List ℕ → Option (List ℕ)
unseal_tagged (zero ∷ text) = some text
unseal_tagged [] = none
unseal_tagged (suc n ∷ text) = none

abbrev tagging : Aead
tagging = record {
  seal = λ key nonce aad text. some (0 ∷ text);
  unseal = λ key nonce aad text. unseal_tagged text;
}

tagging-IsAead : IsAead tagging
tagging-IsAead key nonce aad plaintext ciphertext e = ground (arith, e)

abbrev receiving : NoiseCipherState
receiving = new_with_key (9 ∷ []) true

-- Frames of the counters 0, 5 and 0 again.
abbrev first : List ℕ
first = 0 ∷ 0 ∷ 0 ∷ 0 ∷ 0 ∷ 104 ∷ []

abbrev five : List ℕ
five = 5 ∷ 0 ∷ 0 ∷ 0 ∷ 0 ∷ 105 ∷ []

abbrev frames : List Received
frames = (first, []) ∷ (five, []) ∷ (first, []) ∷ []

frames-IsFrames : IsFrames frames
frames-IsFrames = omega arith

window_refines_example : replies tagging receiving frames ≡ receive_all tagging (9 ∷ []) [] frames
window_refines_example = window_refines tagging (9 ∷ []) frames frames-IsFrames

replies-frames :
    receive_all tagging (9 ∷ []) [] frames
    ≡ ok (104 ∷ []) ∷ ok (105 ∷ []) ∷ err replay_detected ∷ []
unfolding receive_all receive welcomes newest contains from_le_bytes
replies-frames = refl

opens_first :
    (decrypt tagging (after tagging receiving ((five, []) ∷ [])) first []).1 ≡ ok (104 ∷ [])
unfolding decrypt decrypt_frame open_at after new_with_key is_valid_nonce mark_nonce_as_seen
    contains insert extract_nonce_from_ciphertext_payload or_bytes
opens_first = refl

abbrev forged : List ℕ
forged = 0 ∷ 0 ∷ 0 ∷ 0 ∷ 77 ∷ []

replay_refused_example :
    decrypt tagging
      (after tagging
        (decrypt tagging (after tagging receiving ((five, []) ∷ [])) first []).0
        ((five, []) ∷ []))
      forged
      (1 ∷ [])
    ≡ (
      after tagging
          (decrypt tagging (after tagging receiving ((five, []) ∷ [])) first []).0
          ((five, []) ∷ []),
      err replay_detected,
    )
replay_refused_example =
    replay_refused tagging (9 ∷ []) ((five, []) ∷ []) ((five, []) ∷ []) first forged [] (1 ∷ [])
      (104 ∷ []) (omega arith) (omega arith) (omega arith) refl opens_first

abbrev sender : NoiseCipherState
sender = record {
  key = some (9 ∷ []);
  nonce = 7;
  use_extracted_nonce = true;
  replay_window = [];
  highest_received_nonce = 0;
}

frame_opens_example :
    (decrypt tagging (after tagging receiving frames) (7 ∷ 0 ∷ 0 ∷ 0 ∷ 0 ∷ 33 ∷ []) []).1 ≡ (
      if welcomes (accepted_after tagging (9 ∷ []) [] frames) 7
      then ok (33 ∷ [])
      else err replay_detected)
frame_opens_example =
    frame_opens tagging (9 ∷ []) frames sender (33 ∷ []) [] (7 ∷ 0 ∷ 0 ∷ 0 ∷ 0 ∷ 33 ∷ [])
      tagging-IsAead frames-IsFrames refl refl (omega arith)
      (unfold encrypt sealed nonce_to_bytes to_le_bytes in refl)

abbrev texts : List Received
texts = (104 ∷ [], []) ∷ (105 ∷ [], 1 ∷ []) ∷ []

tagging-Seals : Seals tagging
tagging-Seals key nonce aad plaintext few = refl

conversation_arrives_example :
    (fs : List Received) × (send_all tagging (9 ∷ []) receiving texts ≡ some fs)
    × (replies tagging receiving fs ≡ map (λ m. ok m.0) texts)
conversation_arrives_example =
    conversation_arrives tagging (9 ∷ []) texts tagging-IsAead tagging-Seals (omega arith)
      (omega arith, (omega arith, tt))

decrypt_failed_example : (decrypt tagging receiving forged []).0 ≡ receiving
decrypt_failed_example = decrypt_failed tagging receiving forged [] {e = decryption_failed} (
    unfold decrypt decrypt_frame open_at new_with_key is_valid_nonce contains
      extract_nonce_from_ciphertext_payload or_bytes in
    refl)
