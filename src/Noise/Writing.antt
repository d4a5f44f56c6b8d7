-- ===== src/Noise/Writing.antt =====
-- Where sealing succeeds, a handshake message of src/noise_protocol.rs is written if the keys that its
-- tokens need are there.
use bitmancer.Prelude.{
  ℕ, ◌+◌, ◌^◌, ◌≤◌, ◌≡◌, refl, ◌∙◌, sym, ap, Bool, true, false, ◌&&◌, Option, none, some, List, [],
  ◌∷◌, ◌++◌, inl, inr, length, get_elem?, is_some, arith, subst, Bool-cases,
}
use bitmancer.Prelude.Results.{ok}
use bitmancer.Noise.{sealed, has_key}
use bitmancer.Noise.PublicKey.{validate_public_key-length}
use bitmancer.Noise.Sealing.{Seals, encrypt_runs}
use bitmancer.Noise.Symmetric.{
  Primitives, NoiseSymmetricState, mix_hash, has_cipher_key, encrypt_and_hash,
}
use bitmancer.Noise.Handshake.{
  NoiseRole, initiator, responder, NoiseMessagePattern, e, s, ee, es, se, ss, NoiseHandshakeState,
  Step, then_do, leaving, option_map, mix_shared, mix_ee, mix_ss, write_token, write_static,
  write_tokens, write_message,
}
use bitmancer.Noise.Transcript.{IsPrimitives}
use bitmancer.Noise.Tokens.{mix_es_role, mix_se_role}

both_true : (a b : Bool) → (a && b) ≡ true → (a ≡ true) × (b ≡ true)
both_true true true h = (refl, refl)
both_true true false h = cc
both_true false b h = cc

module _ (crypto : Primitives) (law : IsPrimitives crypto) (seals : Seals crypto.aead) where
  encrypt_and_hash_runs :
      (plaintext : List ℕ) (state : NoiseSymmetricState)
      → length plaintext ≤ 2 ^ 32
      → (state' : NoiseSymmetricState) × (bytes : List ℕ) × (encrypt_and_hash crypto plaintext state
          ≡ (state', ok bytes))
  unfolding encrypt_and_hash
  encrypt_and_hash_runs plaintext state few = elim (Bool-cases (has_cipher_key crypto state)) [
    | inr bare ↦ (mix_hash crypto plaintext state, plaintext, rw bare refl)
    | inl keyed ↦
        let (c, bytes, ran, kept, counted) =
          encrypt_runs crypto.aead state.cipher_state plaintext state.hash seals
            (unfold has_cipher_key has_key in keyed) few in
        (mix_hash crypto bytes (record state { cipher_state = c }), bytes, rw (keyed, ran) refl)
  ]

  -- What a token leaves of a state that writes it.
  record Writes (ephemeral : Option (List ℕ)) (h : NoiseHandshakeState) (step : Step (List ℕ))
      : Type 0 where
    next : NoiseHandshakeState
    bytes : List ℕ
    done : step ≡ (next, ok bytes)
    role : next.role ≡ h.role
    private_kept : next.local_static_private ≡ h.local_static_private
    public_kept : next.local_static_public ≡ h.local_static_public
    told : next.remote_static_public ≡ h.remote_static_public
    met : next.remote_ephemeral_public ≡ h.remote_ephemeral_public
    fresh : next.local_ephemeral_private ≡ ephemeral

  abbrev pub token_ephemeral : List ℕ → Option (List ℕ) → NoiseMessagePattern → Option (List ℕ)
  token_ephemeral random old e = some random
  token_ephemeral random old s = old
  token_ephemeral random old ee = old
  token_ephemeral random old es = old
  token_ephemeral random old se = old
  token_ephemeral random old ss = old

  abbrev pub ephemeral_after : List ℕ → Option (List ℕ) → List NoiseMessagePattern → Option (List ℕ)
  ephemeral_after random old [] = old
  ephemeral_after random old (t ∷ ts) = ephemeral_after random (token_ephemeral random old t) ts

  -- The keys that a token needs: one's ephemeral and static key, and the other's.
  abbrev pub can_write :
      NoiseRole
      → Option (List ℕ)
      → Option (List ℕ)
      → Option (List ℕ)
      → Option (List ℕ)
      → NoiseMessagePattern
      → Bool
  can_write role mine static yours told e = true
  can_write role mine static yours told s = is_some static
  can_write role mine static yours told ee = is_some mine && is_some yours
  can_write initiator mine static yours told es = is_some mine && is_some told
  can_write responder mine static yours told es = is_some static && is_some yours
  can_write initiator mine static yours told se = is_some static && is_some yours
  can_write responder mine static yours told se = is_some mine && is_some told
  can_write role mine static yours told ss = is_some static && is_some told

  abbrev pub can_write_all :
      List ℕ
      → NoiseRole
      → Option (List ℕ)
      → Option (List ℕ)
      → Option (List ℕ)
      → Option (List ℕ)
      → List NoiseMessagePattern
      → Bool
  can_write_all random role mine static yours told [] = true
  can_write_all random role mine static yours told (t ∷ ts) =
      can_write role mine static yours told t
      && can_write_all random role (token_ephemeral random mine t) static yours told ts

  mixed-Writes :
      (ours theirs : Option (List ℕ)) (h : NoiseHandshakeState)
      → (is_some ours && is_some theirs) ≡ true
      → Writes h.local_ephemeral_private h (then_do (mix_shared crypto ours theirs h) (leaving []))
  unfolding mix_shared
  mixed-Writes none theirs h k = cc
  mixed-Writes (some a) none h k = cc
  mixed-Writes (some a) (some b) h k = record {
    next = _;
    bytes = [];
    done = refl;
    role = refl;
    private_kept = refl;
    public_kept = refl;
    told = refl;
    met = refl;
    fresh = refl;
  }

  static-Writes :
      (h : NoiseHandshakeState) (static : Option (List ℕ))
      → is_some static ≡ true
      → Writes h.local_ephemeral_private h
          (write_static crypto (option_map crypto.public_key static) h)
  static-Writes h none k = cc
  static-Writes h (some secret) k =
      let size : length (crypto.public_key secret) ≡ 32 =
        validate_public_key-length (crypto.public_key secret) (crypto.public_key secret)
          (law.valid secret) in
      let (state, bytes, ran) =
        encrypt_and_hash_runs (crypto.public_key secret) h.symmetric_state (omega (arith, size)) in
      record {
        next = record h { symmetric_state = state };
        bytes = bytes;
        done = rw ran refl;
        role = refl;
        private_kept = refl;
        public_kept = refl;
        told = refl;
        met = refl;
        fresh = refl;
      }

  token-Writes :
      (random : List ℕ) (t : NoiseMessagePattern) (h : NoiseHandshakeState) (role : NoiseRole)
      → h.role ≡ role
      → h.local_static_public ≡ option_map crypto.public_key h.local_static_private
      → can_write role h.local_ephemeral_private h.local_static_private h.remote_ephemeral_public
          h.remote_static_public t
        ≡ true
      → Writes
          (token_ephemeral random h.local_ephemeral_private t)
          h
          (write_token crypto random t h)
  unfolding write_token mix_ee mix_ss
  token-Writes random e h role r own k = record {
    next = _;
    bytes = _;
    done = refl;
    role = refl;
    private_kept = refl;
    public_kept = refl;
    told = refl;
    met = refl;
    fresh = refl;
  }
  token-Writes random s h role r own k =
      subst (λ public. Writes h.local_ephemeral_private h (write_static crypto public h)) (sym own)
        (static-Writes h h.local_static_private k)
  token-Writes random ee h role r own k = mixed-Writes _ _ h k
  token-Writes random es h initiator r own k =
      subst (λ mixed. Writes h.local_ephemeral_private h (then_do mixed (leaving [])))
        (sym (mix_es_role crypto law h initiator r)) (mixed-Writes _ _ h k)
  token-Writes random es h responder r own k =
      subst (λ mixed. Writes h.local_ephemeral_private h (then_do mixed (leaving [])))
        (sym (mix_es_role crypto law h responder r)) (mixed-Writes _ _ h k)
  token-Writes random se h initiator r own k =
      subst (λ mixed. Writes h.local_ephemeral_private h (then_do mixed (leaving [])))
        (sym (mix_se_role crypto law h initiator r)) (mixed-Writes _ _ h k)
  token-Writes random se h responder r own k =
      subst (λ mixed. Writes h.local_ephemeral_private h (then_do mixed (leaving [])))
        (sym (mix_se_role crypto law h responder r)) (mixed-Writes _ _ h k)
  token-Writes random ss h initiator r own k = mixed-Writes _ _ h k
  token-Writes random ss h responder r own k = mixed-Writes _ _ h k

  Writes-all :
      (random : List ℕ) (tokens : List NoiseMessagePattern) (buffer : List ℕ)
      (h : NoiseHandshakeState)
      → h.local_static_public ≡ option_map crypto.public_key h.local_static_private
      → can_write_all random h.role h.local_ephemeral_private h.local_static_private
          h.remote_ephemeral_public h.remote_static_public tokens
        ≡ true
      → Writes
          (ephemeral_after random h.local_ephemeral_private tokens)
          h
          (write_tokens crypto random tokens buffer h)
  unfolding write_tokens
  Writes-all random [] buffer h own k = record {
    next = h;
    bytes = buffer;
    done = refl;
    role = refl;
    private_kept = refl;
    public_kept = refl;
    told = refl;
    met = refl;
    fresh = refl;
  }
  Writes-all random (t ∷ ts) buffer h own k =
      let (now, later) = both_true _ _ k in
      let w = token-Writes random t h h.role refl own now in
      let ws =
        Writes-all random ts (buffer ++ w.bytes) w.next
          (w.public_kept ∙ own ∙ ap (option_map crypto.public_key) (sym w.private_kept))
          (rw (w.role, w.fresh, w.private_kept, w.met, w.told) later) in
      rw w.done (record {
        next = ws.next;
        bytes = ws.bytes;
        done = ws.done;
        role = ws.role ∙ w.role;
        private_kept = ws.private_kept ∙ w.private_kept;
        public_kept = ws.public_kept ∙ w.public_kept;
        told = ws.told ∙ w.told;
        met = ws.met ∙ w.met;
        fresh = ws.fresh ∙ ap (λ o. ephemeral_after random o ts) w.fresh;
      })

  -- A message that is written, with the ephemeral key that its writer then has.
  pub record Sends (ephemeral : Option (List ℕ)) (step : Step (List ℕ)) : Type 0 where
    pub next : NoiseHandshakeState
    pub message : List ℕ
    pub sent : step ≡ (next, ok message)
    pub fresh : next.local_ephemeral_private ≡ ephemeral

  pub message-Sends :
      (random payload : List ℕ) (tokens : List NoiseMessagePattern) (h : NoiseHandshakeState)
      → get_elem? h.message_patterns h.current_pattern ≡ some tokens
      → h.local_static_public ≡ option_map crypto.public_key h.local_static_private
      → length payload ≤ 2 ^ 32
      → can_write_all random h.role h.local_ephemeral_private h.local_static_private
          h.remote_ephemeral_public h.remote_static_public tokens
        ≡ true
      → Sends
          (ephemeral_after random h.local_ephemeral_private tokens)
          (write_message crypto random payload h)
  unfolding write_message
  message-Sends random payload tokens h here own few k =
      let w = Writes-all random tokens [] h own k in
      let (state, sealed, ran) = encrypt_and_hash_runs payload w.next.symmetric_state few in
      record {
        next = record w.next {
          symmetric_state = state;
          current_pattern = w.next.current_pattern + 1;
        };
        message = w.bytes ++ sealed;
        sent = rw (write_message, here) (rw w.done (rw ran refl));
        fresh = w.fresh;
      }
