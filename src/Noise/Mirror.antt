-- ===== src/Noise/Mirror.antt =====
-- The two ends of a handshake of src/noise_protocol.rs mirror each other: each token that one end
-- writes, the other reads, and what they know of each other stays in step.
use bitmancer.Prelude.{ℕ, ◌≡◌, refl, false, Option, none, some, List, ◌⊎◌, inl, inr, arith}
use bitmancer.Prelude.Results.{Result, ok}
use bitmancer.Noise.{NoiseError, initialize_key}
use bitmancer.Noise.Symmetric.{Primitives, mix_key}
use bitmancer.Noise.Handshake.{
  NoiseRole, initiator, responder, NoiseHandshakeState, option_map, mix_shared,
}
use bitmancer.Noise.Transcript.{IsPrimitives}

abbrev pub opposite : NoiseRole → NoiseRole
opposite initiator = responder
opposite responder = initiator

module _ (crypto : Primitives) where
  -- What one end has of the other's static key is nothing or that key.
  abbrev pub KnowsStatic : NoiseHandshakeState → NoiseHandshakeState → Type 0
  KnowsStatic h other =
      (h.remote_static_public ≡ none)
      ⊎ (h.remote_static_public ≡ option_map crypto.public_key other.local_static_private)

  -- The end that writes, and the end that reads.
  pub record Mirror (w r : NoiseHandshakeState) : Type 0 where
    pub symmetric : r.symmetric_state ≡ w.symmetric_state
    pub internal : w.symmetric_state.cipher_state.use_extracted_nonce ≡ false
    pub roles : r.role ≡ opposite w.role
    pub patterns : r.message_patterns ≡ w.message_patterns
    pub position : r.current_pattern ≡ w.current_pattern
    pub writer_static : w.local_static_public ≡ option_map crypto.public_key w.local_static_private
    pub reader_static : r.local_static_public ≡ option_map crypto.public_key r.local_static_private
    pub writer_ephemeral :
        r.remote_ephemeral_public ≡ option_map crypto.public_key w.local_ephemeral_private
    pub reader_ephemeral :
        w.remote_ephemeral_public ≡ option_map crypto.public_key r.local_ephemeral_private
    pub reader_told : KnowsStatic r w
    pub writer_told : KnowsStatic w r

module _ (crypto : Primitives) (law : IsPrimitives crypto) where
  Mirror-mix :
      (w r : NoiseHandshakeState) (a b : List ℕ)
      → Mirror crypto w r
      → Mirror crypto
          (record w {
            symmetric_state =
                mix_key crypto (crypto.diffie_hellman a (crypto.public_key b)) w.symmetric_state;
          })
          (record r {
            symmetric_state =
                mix_key crypto (crypto.diffie_hellman b (crypto.public_key a)) r.symmetric_state;
          })
  Mirror-mix w r a b m = record {
    symmetric = rw (m.symmetric, law.commutes a b) refl;
    internal = unfold mix_key initialize_key in m.internal;
    roles = m.roles;
    patterns = m.patterns;
    position = m.position;
    writer_static = m.writer_static;
    reader_static = m.reader_static;
    writer_ephemeral = m.writer_ephemeral;
    reader_ephemeral = m.reader_ephemeral;
    reader_told = m.reader_told;
    writer_told = m.writer_told;
  }

  -- Each end mixes its own secret with the other's key.
  pub record Mixes (writing : NoiseRole) (told knowing : Option (List ℕ)) (w' : NoiseHandshakeState)
      (mixed : NoiseHandshakeState × Result NoiseError (Unit {0})) : Type 0 where
    pub next : NoiseHandshakeState
    pub done : mixed ≡ (next, ok tt)
    pub still_told : next.remote_static_public ≡ told
    pub role : w'.role ≡ writing
    pub knows : w'.remote_static_public ≡ knowing
    pub mirrors : Mirror crypto w' next

  pub mix_shared-Mixes :
      (w r w' : NoiseHandshakeState) (ours theirs ours' theirs' : Option (List ℕ))
      → Mirror crypto w r
      → theirs' ≡ option_map crypto.public_key ours
      → (theirs ≡ none) ⊎ (theirs ≡ option_map crypto.public_key ours')
      → mix_shared crypto ours theirs w ≡ (w', ok tt)
      → Mixes w.role r.remote_static_public w.remote_static_public w'
          (mix_shared crypto ours' theirs' r)
  unfolding mix_shared
  mix_shared-Mixes w r w' none theirs ours' theirs' m k (inl p) h = cc
  mix_shared-Mixes w r w' none theirs ours' theirs' m k (inr p) h = cc
  mix_shared-Mixes w r w' (some a) theirs ours' theirs' m k (inl p) h =
      absurd (ground (arith, p, h))
  mix_shared-Mixes w r w' (some a) theirs none theirs' m k (inr p) h = absurd (ground (arith, p, h))
  mix_shared-Mixes w r w' (some a) theirs (some b) theirs' m k (inr p) h =
      let after = record w {
        symmetric_state =
            mix_key crypto (crypto.diffie_hellman a (crypto.public_key b)) w.symmetric_state;
      } in
      let same : after ≡ w' = ground (arith, p, h) in
      record {
        next = record r {
          symmetric_state =
              mix_key crypto (crypto.diffie_hellman b (crypto.public_key a)) r.symmetric_state;
        };
        done = rw k refl;
        still_told = refl;
        role = rw (← same) refl;
        knows = rw (← same) refl;
        mirrors = rw (← same) (Mirror-mix w r a b m);
      }
