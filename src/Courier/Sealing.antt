-- ===== src/Courier/Sealing.antt =====
-- Mail that is sealed (src/courier.rs) opens for its recipient and names its sender.
use bitmancer.Prelude.{
  ℕ, ◌^◌, ◌≤◌, length, ◌≡◌, refl, ◌∙◌, ap, none, some, List, [], ◌∷◌, inl, inr, arith,
}
use bitmancer.Prelude.Results.{ok, err}
use bitmancer.Noise.{new}
use bitmancer.Noise.Symmetric.{Primitives, x, new_symmetric, mix_hash}
use bitmancer.Noise.Handshake.{
  NoiseHandshakeState, Step, initiator, responder, e, es, s, ss, with_prologue,
  mix_pre_message_keys, write_message, read_message,
}
use bitmancer.Noise.Transcript.{IsPrimitives}
use bitmancer.Noise.Mirror.{Mirror}
use bitmancer.Noise.Sealing.{Seals}
use bitmancer.Noise.Writing.{message-Sends}
use bitmancer.Noise.Exchange.{message_Delivered}
use bitmancer.Noise.Establish.{known_static}
use bitmancer.Courier.{seal, open_sealed, opened_by, reply_of, seal_prologue}

module _ (crypto : Primitives) (law : IsPrimitives crypto) where
  abbrev sender_end : List ℕ → List ℕ → NoiseHandshakeState
  sender_end ours theirs =
      with_prologue crypto initiator x (some ours) (some (crypto.public_key theirs)) seal_prologue

  abbrev recipient_end : List ℕ → NoiseHandshakeState
  recipient_end theirs = with_prologue crypto responder x (some theirs) none seal_prologue

  x-Mirror : (ours theirs : List ℕ) → Mirror crypto (sender_end ours theirs) (recipient_end theirs)
  unfolding with_prologue mix_pre_message_keys new_symmetric mix_hash new
  x-Mirror ours theirs = record {
    symmetric = refl;
    internal = refl;
    roles = refl;
    patterns = refl;
    position = refl;
    writer_static = refl;
    reader_static = refl;
    writer_ephemeral = refl;
    reader_ephemeral = refl;
    reader_told = inl refl;
    writer_told = inr refl;
  }

  sealed_message :
      (w : NoiseHandshakeState) (random payload message : List ℕ)
      → reply_of (write_message crypto random payload w).1 ≡ some message
      → write_message crypto random payload w
        ≡ ((write_message crypto random payload w).0, ok message)
  sealed_message w random payload message h = go (write_message crypto random payload w) h
    where
      go : (step : Step (List ℕ)) → reply_of step.1 ≡ some message → step ≡ (step.0, ok message)
      go (h', ok bytes) k = ap (λ b. (h', ok b)) (ground (arith, k))
      go (h', err bad) k = cc

  delivered_opens :
      (step : Step (List ℕ)) (next : NoiseHandshakeState) (payload : List ℕ) (sender : List ℕ)
      → step ≡ (next, ok payload)
      → next.remote_static_public ≡ some sender
      → opened_by step ≡ some (payload, sender)
  delivered_opens step next payload sender h k = rw h (rw k refl)

  -- If opening undoes sealing, tags have 16 bytes, public keys are valid and a Diffie-Hellman exchange
  -- gives both sides the same secret: what is sealed to the public key of a recipient, with any
  -- ephemeral secret, the recipient opens to the payload and the sender's public key.
  pub open_sealed-seal :
      (random payload ours theirs ciphertext : List ℕ)
      → seal crypto random payload (crypto.public_key theirs) ours ≡ some ciphertext
      → open_sealed crypto ciphertext theirs ≡ some (payload, crypto.public_key ours)
  open_sealed-seal random payload ours theirs ciphertext h =
      let written : reply_of (write_message crypto random payload (sender_end ours theirs)).1
          ≡ some ciphertext =
        unfold seal in rw (law.valid theirs) at h in
      let d =
        message_Delivered crypto law (sender_end ours theirs)
          (write_message crypto random payload (sender_end ours theirs)).0 (recipient_end theirs)
          (e ∷ es ∷ s ∷ ss ∷ []) random payload ciphertext (x-Mirror ours theirs)
          (unfold with_prologue mix_pre_message_keys in refl)
          (unfold with_prologue mix_pre_message_keys in refl)
          (sealed_message (sender_end ours theirs) random payload ciphertext written) in
      let mine : (sender_end ours theirs).local_static_private ≡ some ours =
        unfold with_prologue mix_pre_message_keys in refl in
      let sender : d.next.remote_static_public ≡ some (crypto.public_key ours) =
        known_static crypto law d.next
          (write_message crypto random payload (sender_end ours theirs)).0 ours
          d.mirrors.reader_told (d.writer_kept ∙ mine) (ground (arith, d.told)) in
      unfold open_sealed in
      delivered_opens (read_message crypto ciphertext (recipient_end theirs)) d.next payload
        (crypto.public_key ours) d.opened sender

  -- If opening undoes sealing, sealing fails on no text of up to 2³² bytes, tags have 16 bytes, public
  -- keys are valid and a Diffie-Hellman exchange gives both sides the same secret: a payload of up to
  -- 2³² bytes can be sealed to the public key of any recipient, with any ephemeral secret, and the
  -- recipient opens it to the payload and the sender's public key.
  pub mail_opens :
      (random payload ours theirs : List ℕ)
      → Seals crypto.aead
      → length payload ≤ 2 ^ 32
      → (ciphertext : List ℕ) × (seal crypto random payload (crypto.public_key theirs) ours
          ≡ some ciphertext)
        × (open_sealed crypto ciphertext theirs ≡ some (payload, crypto.public_key ours))
  mail_opens random payload ours theirs seals few =
      let a =
        message-Sends crypto law seals random payload (e ∷ es ∷ s ∷ ss ∷ [])
          (sender_end ours theirs) (unfold with_prologue mix_pre_message_keys in refl)
          (unfold with_prologue mix_pre_message_keys in refl) few
          (unfold with_prologue mix_pre_message_keys in refl) in
      let done : seal crypto random payload (crypto.public_key theirs) ours ≡ some a.message =
        unfold seal in rw (law.valid theirs) (ap (λ step. reply_of step.1) a.sent) in
      (a.message, done, open_sealed-seal random payload ours theirs a.message done)
