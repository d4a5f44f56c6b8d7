-- ===== src/Noise/Kept.antt =====
-- What the tokens of a message leave alone in a handshake of src/noise_protocol.rs.
use bitmancer.Prelude.{
  ℕ, ◌≡◌, refl, ◌∙◌, Option, none, some, List, [], ◌∷◌, ◌++◌, inl, inr, ltb, length, take, drop,
  ◌==◌, Bool-cases,
}
use bitmancer.Prelude.Results.{Result, ok, err, is_ok}
use bitmancer.Noise.{NoiseError}
use bitmancer.Noise.PublicKey.{validate_public_key}
use bitmancer.Noise.Symmetric.{Primitives, NoiseSymmetricState, encrypt_and_hash, decrypt_and_hash}
use bitmancer.Noise.Handshake.{
  NoiseRole, initiator, responder, NoiseMessagePattern, e, s, ee, es, se, ss, NoiseHandshakeState,
  then_do, leaving, mix_shared, mix_ee, mix_es, mix_se, mix_ss, write_token, read_token,
  read_static, accept_static, write_static, read_ephemeral,
}
use bitmancer.Noise.Handshake.{Step, with_symmetric, write_tokens, read_tokens}

-- The parts of a handshake state that no token changes.
pub record IsSame (h h' : NoiseHandshakeState) : Type 0 where
  pub role : h'.role ≡ h.role
  pub patterns : h'.message_patterns ≡ h.message_patterns
  pub position : h'.current_pattern ≡ h.current_pattern
  pub static : h'.local_static_private ≡ h.local_static_private

IsSame-refl : (h : NoiseHandshakeState) → IsSame h h
IsSame-refl h = record { role = refl; patterns = refl; position = refl; static = refl }

IsSame-trans : (h h1 h2 : NoiseHandshakeState) → IsSame h h1 → IsSame h1 h2 → IsSame h h2
IsSame-trans h h1 h2 p q = record {
  role = q.role ∙ p.role;
  patterns = q.patterns ∙ p.patterns;
  position = q.position ∙ p.position;
  static = q.static ∙ p.static;
}

then_do-IsSame :
    {A : Type 0} {B : Type 0} (h : NoiseHandshakeState) (first : Step A)
    (f : NoiseHandshakeState → A → Step B)
    → IsSame h first.0
    → ((h' : NoiseHandshakeState) (a : A) → IsSame h h' → IsSame h (f h' a).0)
    → IsSame h (then_do first f).0
then_do-IsSame h (h1, ok a) f p k = k h1 a p
then_do-IsSame h (h1, err bad) f p k = p

with_symmetric-IsSame :
    {A : Type 0} (h : NoiseHandshakeState) (p : NoiseSymmetricState × Result NoiseError A)
    → IsSame h (with_symmetric h p).0
with_symmetric-IsSame h (state, reply) = record {
  role = refl;
  patterns = refl;
  position = refl;
  static = refl;
}

module _ (crypto : Primitives) where
  mix_shared-IsSame :
      (ours theirs : Option (List ℕ)) (h : NoiseHandshakeState)
      → IsSame h (mix_shared crypto ours theirs h).0
  unfolding mix_shared
  mix_shared-IsSame none theirs h = IsSame-refl h
  mix_shared-IsSame (some ours) none h = IsSame-refl h
  mix_shared-IsSame (some ours) (some theirs) h = record {
    role = refl;
    patterns = refl;
    position = refl;
    static = refl;
  }

  mix_es-IsSame : (h : NoiseHandshakeState) → IsSame h (mix_es crypto h).0
  unfolding mix_es
  mix_es-IsSame h = go h.role
    where
      go :
          (role : NoiseRole)
          → IsSame h
              (elim role as (λ r. Step (Unit {0})) [
                | initiator ↦ mix_shared crypto h.local_ephemeral_private h.remote_static_public h
                | responder ↦ mix_shared crypto h.local_static_private h.remote_ephemeral_public h
              ]).0
      go initiator = mix_shared-IsSame h.local_ephemeral_private h.remote_static_public h
      go responder = mix_shared-IsSame h.local_static_private h.remote_ephemeral_public h

  mix_se-IsSame : (h : NoiseHandshakeState) → IsSame h (mix_se crypto h).0
  unfolding mix_se
  mix_se-IsSame h = go h.role
    where
      go :
          (role : NoiseRole)
          → IsSame h
              (elim role as (λ r. Step (Unit {0})) [
                | initiator ↦ mix_shared crypto h.local_static_private h.remote_ephemeral_public h
                | responder ↦ mix_shared crypto h.local_ephemeral_private h.remote_static_public h
              ]).0
      go initiator = mix_shared-IsSame h.local_static_private h.remote_ephemeral_public h
      go responder = mix_shared-IsSame h.local_ephemeral_private h.remote_static_public h

  leaving-IsSame :
      (h : NoiseHandshakeState) (bytes : List ℕ) (mixed : Step (Unit {0}))
      → IsSame h mixed.0
      → IsSame h (then_do mixed (leaving bytes)).0
  leaving-IsSame h bytes mixed p = then_do-IsSame h mixed (leaving bytes) p (λ h' a q. q)

  mixing-IsSame :
      (t : NoiseMessagePattern) (h : NoiseHandshakeState)
      → IsSame h (mix_ee crypto h).0 × IsSame h (mix_ss crypto h).0
  unfolding mix_ee mix_ss
  mixing-IsSame t h = (
    mix_shared-IsSame h.local_ephemeral_private h.remote_ephemeral_public h,
    mix_shared-IsSame h.local_static_private h.remote_static_public h,
  )

  write_static-IsSame :
      (key : Option (List ℕ)) (h : NoiseHandshakeState) → IsSame h (write_static crypto key h).0
  write_static-IsSame none h = IsSame-refl h
  write_static-IsSame (some key) h =
      with_symmetric-IsSame h (encrypt_and_hash crypto key h.symmetric_state)

  write_token-IsSame :
      (random : List ℕ) (t : NoiseMessagePattern) (h : NoiseHandshakeState)
      → IsSame h (write_token crypto random t h).0
  unfolding write_token
  write_token-IsSame random e h = record {
    role = refl;
    patterns = refl;
    position = refl;
    static = refl;
  }
  write_token-IsSame random s h = write_static-IsSame h.local_static_public h
  write_token-IsSame random ee h = leaving-IsSame h [] (mix_ee crypto h) (mixing-IsSame ee h).0
  write_token-IsSame random es h = leaving-IsSame h [] (mix_es crypto h) (mix_es-IsSame h)
  write_token-IsSame random se h = leaving-IsSame h [] (mix_se crypto h) (mix_se-IsSame h)
  write_token-IsSame random ss h = leaving-IsSame h [] (mix_ss crypto h) (mixing-IsSame ss h).1

  pub write_tokens-IsSame :
      (random : List ℕ) (ts : List NoiseMessagePattern) (buffer : List ℕ) (h : NoiseHandshakeState)
      → IsSame h (write_tokens crypto random ts buffer h).0
  unfolding write_tokens
  write_tokens-IsSame random [] buffer h = IsSame-refl h
  write_tokens-IsSame random (t ∷ ts) buffer h =
      then_do-IsSame h (write_token crypto random t h) _ (write_token-IsSame random t h)
        (λ h' bytes p. IsSame-trans h h' _ p (write_tokens-IsSame random ts (buffer ++ bytes) h'))

  accept_static-IsSame :
      (key rest : List ℕ) (h : NoiseHandshakeState) → IsSame h (accept_static crypto key rest h).0
  unfolding accept_static
  accept_static-IsSame key rest h = elim (Bool-cases (length key == 32)) [
    | inl fits ↦ rw fits (elim (Bool-cases (is_ok (validate_public_key key))) [
      | inl good ↦ rw good (record { role = refl; patterns = refl; position = refl; static = refl })
      | inr bad ↦ rw bad (IsSame-refl h)
    ])
    | inr apart ↦ rw apart (IsSame-refl h)
  ]

  read_static-IsSame :
      (n : ℕ) (message : List ℕ) (h : NoiseHandshakeState)
      → IsSame h (read_static crypto n message h).0
  unfolding read_static
  read_static-IsSame n message h = elim (Bool-cases (ltb (length message) n)) [
    | inl short ↦ rw short (IsSame-refl h)
    | inr long ↦ rw long (
        then_do-IsSame h
          (with_symmetric h (decrypt_and_hash crypto (take n message) h.symmetric_state))
          (λ h' key. accept_static crypto key (drop n message) h')
          (with_symmetric-IsSame h (decrypt_and_hash crypto (take n message) h.symmetric_state))
          (λ h' key p. IsSame-trans h h' _ p (accept_static-IsSame key (drop n message) h')))
  ]

  read_ephemeral-IsSame :
      (key : Result NoiseError (List ℕ)) (message : List ℕ) (h : NoiseHandshakeState)
      → IsSame h (read_ephemeral crypto key message h).0
  read_ephemeral-IsSame (ok key) message h = record {
    role = refl;
    patterns = refl;
    position = refl;
    static = refl;
  }
  read_ephemeral-IsSame (err bad) message h = IsSame-refl h

  read_token-IsSame :
      (t : NoiseMessagePattern) (message : List ℕ) (h : NoiseHandshakeState)
      → IsSame h (read_token crypto t message h).0
  unfolding read_token
  read_token-IsSame e message h = elim (Bool-cases (ltb (length message) 32)) [
    | inl short ↦ rw short (IsSame-refl h)
    | inr long ↦ rw long (read_ephemeral-IsSame (validate_public_key (take 32 message)) message h)
  ]
  read_token-IsSame s message h = read_static-IsSame _ message h
  read_token-IsSame ee message h = leaving-IsSame h message (mix_ee crypto h) (mixing-IsSame ee h).0
  read_token-IsSame es message h = leaving-IsSame h message (mix_es crypto h) (mix_es-IsSame h)
  read_token-IsSame se message h = leaving-IsSame h message (mix_se crypto h) (mix_se-IsSame h)
  read_token-IsSame ss message h = leaving-IsSame h message (mix_ss crypto h) (mixing-IsSame ss h).1

  pub read_tokens-IsSame :
      (ts : List NoiseMessagePattern) (message : List ℕ) (h : NoiseHandshakeState)
      → IsSame h (read_tokens crypto ts message h).0
  unfolding read_tokens
  read_tokens-IsSame [] message h = IsSame-refl h
  read_tokens-IsSame (t ∷ ts) message h =
      then_do-IsSame h (read_token crypto t message h) _ (read_token-IsSame t message h)
        (λ h' rest p. IsSame-trans h h' _ p (read_tokens-IsSame ts rest h'))
