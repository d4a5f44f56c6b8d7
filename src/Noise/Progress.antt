-- ===== src/Noise/Progress.antt =====
-- The handshake of src/noise_protocol.rs with the pattern XX completes wherever sealing succeeds.
use bitmancer.Prelude.{ℕ, ◌^◌, ◌≤◌, ◌≡◌, refl, ◌∙◌, ap, List, [], ◌∷◌, length}
use bitmancer.Prelude.Results.{ok}
use bitmancer.Noise.Symmetric.{Primitives}
use bitmancer.Noise.Handshake.{
  initiator, responder, e, s, ee, es, se, NoiseHandshakeState, option_map, write_message,
  read_message,
}
use bitmancer.Noise.Transcript.{IsPrimitives}
use bitmancer.Noise.Establish.{
  xx_end, Finished, Stage, first_Stage, Stage-Turn, second_covered, xx_establishes,
}
use bitmancer.Noise.Sealing.{Seals}
use bitmancer.Noise.Writing.{message-Sends}

module _ (crypto : Primitives) (law : IsPrimitives crypto) (seals : Seals crypto.aead) where
  -- A run of the three messages.
  pub record XxRun (ours theirs prologue e1 e2 e3 p1 p2 p3 : List ℕ) : Type 0 where
    pub m1 : List ℕ
    pub m2 : List ℕ
    pub m3 : List ℕ
    pub i1 : NoiseHandshakeState
    pub r2 : NoiseHandshakeState
    pub i3 : NoiseHandshakeState
    pub sent1 : write_message crypto e1 p1 (xx_end crypto law initiator ours prologue) ≡ (i1, ok m1)
    pub opened1 : (read_message crypto m1 (xx_end crypto law responder theirs prologue)).1 ≡ ok p1
    pub sent2 :
        write_message crypto e2 p2
          (read_message crypto m1 (xx_end crypto law responder theirs prologue)).0
        ≡ (r2, ok m2)
    pub opened2 : (read_message crypto m2 i1).1 ≡ ok p2
    pub sent3 : write_message crypto e3 p3 (read_message crypto m2 i1).0 ≡ (i3, ok m3)
    pub opened3 : (read_message crypto m3 r2).1 ≡ ok p3
    pub finished : Finished crypto law ours theirs i3 (read_message crypto m3 r2).0
    pub stage1 :
        Stage crypto law responder 1 theirs ours
          (read_message crypto m1 (xx_end crypto law responder theirs prologue)).0
          i1
    pub stage2 : Stage crypto law initiator 2 ours theirs (read_message crypto m2 i1).0 r2

  pub xx_run :
      (ours theirs prologue e1 e2 e3 p1 p2 p3 : List ℕ)
      → length p1 ≤ 2 ^ 32
      → length p2 ≤ 2 ^ 32
      → length p3 ≤ 2 ^ 32
      → XxRun ours theirs prologue e1 e2 e3 p1 p2 p3
  xx_run ours theirs prologue e1 e2 e3 p1 p2 p3 few1 few2 few3 =
      let start = first_Stage crypto law ours theirs prologue in
      let a =
        message-Sends crypto law seals e1 p1 (e ∷ []) (xx_end crypto law initiator ours prologue)
          (rw (start.patterns, start.place) refl) start.mirror.writer_static few1 refl in
      let t1 =
        Stage-Turn crypto law initiator 0 ours theirs e1 p1 a.message _ a.next
          (xx_end crypto law responder theirs prologue) (e ∷ []) start refl (λ b. refl) a.sent in
      let met1 = t1.stage.mirror.reader_ephemeral ∙ ap (option_map crypto.public_key) a.fresh in
      let b =
        message-Sends crypto law seals e2 p2 (e ∷ ee ∷ s ∷ es ∷ []) _
          (rw (t1.stage.patterns, t1.stage.place) refl) t1.stage.mirror.writer_static few2
          (rw (t1.stage.writing, t1.stage.writer, met1) refl) in
      let t2 =
        Stage-Turn crypto law responder 1 theirs ours e2 p2 b.message _ b.next a.next
          (e ∷ ee ∷ s ∷ es ∷ []) t1.stage refl (second_covered crypto law) b.sent in
      let met2 = t2.stage.mirror.reader_ephemeral ∙ ap (option_map crypto.public_key) b.fresh in
      let c =
        message-Sends crypto law seals e3 p3 (s ∷ se ∷ []) _
          (rw (t2.stage.patterns, t2.stage.place) refl) t2.stage.mirror.writer_static few3
          (rw (t2.stage.writing, t2.stage.writer, met2) refl) in
      let (first, second, third, done) =
        xx_establishes crypto law ours theirs prologue e1 e2 e3 p1 p2 p3 a.message b.message
          c.message a.next b.next c.next a.sent b.sent c.sent in
      record {
        m1 = a.message;
        m2 = b.message;
        m3 = c.message;
        i1 = a.next;
        r2 = b.next;
        i3 = c.next;
        sent1 = a.sent;
        opened1 = first;
        sent2 = b.sent;
        opened2 = second;
        sent3 = c.sent;
        opened3 = third;
        finished = done;
        stage1 = t1.stage;
        stage2 = t2.stage;
      }

  -- If opening undoes sealing, sealing fails on no text of up to 2³² bytes, tags have 16 bytes, public
  -- keys are valid and a Diffie-Hellman exchange gives both sides the same secret: with the same
  -- prologue and payloads of up to 2³² bytes, an XX handshake completes. Each of its three messages is
  -- written, and read by its receiver to the payload that was written; then both ends are done, the
  -- cipher that one sends with is the one that the other receives with, each has the other's static
  -- key, and the hashes of their transcripts are equal.
  pub xx_completes :
      (ours theirs prologue e1 e2 e3 p1 p2 p3 : List ℕ)
      → length p1 ≤ 2 ^ 32
      → length p2 ≤ 2 ^ 32
      → length p3 ≤ 2 ^ 32
      → (m1 : List ℕ) × (m2 : List ℕ) × (m3 : List ℕ) × (i1 : NoiseHandshakeState)
        × (r2 : NoiseHandshakeState) × (i3 : NoiseHandshakeState) × (write_message crypto e1 p1
              (xx_end crypto law initiator ours prologue)
            ≡ (i1, ok m1))
        × ((read_message crypto m1 (xx_end crypto law responder theirs prologue)).1 ≡ ok p1)
        × (write_message crypto e2 p2
              (read_message crypto m1 (xx_end crypto law responder theirs prologue)).0
            ≡ (r2, ok m2))
        × ((read_message crypto m2 i1).1 ≡ ok p2)
        × (write_message crypto e3 p3 (read_message crypto m2 i1).0 ≡ (i3, ok m3))
        × ((read_message crypto m3 r2).1 ≡ ok p3)
        × Finished crypto law ours theirs i3 (read_message crypto m3 r2).0
  xx_completes ours theirs prologue e1 e2 e3 p1 p2 p3 few1 few2 few3 =
      let r = xx_run ours theirs prologue e1 e2 e3 p1 p2 p3 few1 few2 few3 in
      (
        r.m1, r.m2, r.m3, r.i1, r.r2, r.i3, r.sent1, r.opened1, r.sent2, r.opened2, r.sent3,
        r.opened3, r.finished,
      )
