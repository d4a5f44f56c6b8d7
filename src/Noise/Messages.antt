-- ===== src/Noise/Messages.antt =====
-- Each message that one end of a handshake writes, the other reads (src/noise_protocol.rs).
use bitmancer.Prelude.{
  ℕ, ◌≡◌, refl, ◌∙◌, ap, true, false, not, ◌||◌, Option, none, some, List, [], ◌∷◌, ◌++◌, inr,
  if◌then◌else◌, ltb, length, any, ◌==◌, is_some, arith, length-append, take-append_length,
  drop-append_length, append_assoc, append-nil,
}
use bitmancer.Prelude.Results.{Result, ok, err}
use bitmancer.Noise.{NoiseError}
use bitmancer.Noise.Symmetric.{
  Primitives, NoiseSymmetricState, mix_hash, has_cipher_key, encrypt_and_hash,
}
use bitmancer.Noise.Handshake.{
  NoiseRole, NoiseMessagePattern, e, s, ee, es, se, ss, NoiseHandshakeState, then_do, option_map,
  mix_ee, mix_es, mix_se, mix_ss, write_token, read_token, read_static, accept_static,
}
use bitmancer.Noise.Transcript.{IsPrimitives, IsSealed, encrypt_and_hash-IsSealed}
use bitmancer.Noise.Mirror.{Mirror}
use bitmancer.Noise.Tokens.{
  needs, tells, covers, Reads, Reads-e, Reads-mixed, length-public_key, mixed_ee, mixed_es,
  mixed_se, mixed_ss,
}
use bitmancer.Noise.Handshake.{Step, with_symmetric, write_tokens, read_tokens}

module _ (crypto : Primitives) (law : IsPrimitives crypto) where
  pub symmetric_ok :
      (w w' : NoiseHandshakeState) (bytes : List ℕ)
      (sealing : NoiseSymmetricState × Result NoiseError (List ℕ))
      → with_symmetric w sealing ≡ (w', ok bytes)
      → (state : NoiseSymmetricState) × (sealing ≡ (state, ok bytes))
        × (record w { symmetric_state = state } ≡ w')
  symmetric_ok w w' bytes (state, ok text) h = (state, ground (arith, h), ground (arith, h))
  symmetric_ok w w' bytes (state, err bad) h = cc

  key_length-read :
      (r : NoiseHandshakeState) (secret bytes rest : List ℕ) (state : NoiseSymmetricState)
      → IsSealed crypto law (crypto.public_key secret) bytes r.symmetric_state state
      → read_token crypto s (bytes ++ rest) r ≡ (
        record r {
          symmetric_state = state;
          remote_static_public = some (crypto.public_key secret);
        },
        ok rest,
      )
  key_length-read r secret bytes rest state sealed =
      let key_length : ℕ = if has_cipher_key crypto r.symmetric_state then 48 else 32 in
      let fits : length bytes ≡ key_length =
        ground (arith, sealed.size, length-public_key crypto law secret) in
      let long : ltb (length (bytes ++ rest)) (length bytes) ≡ false =
        ground (arith, length-append bytes rest) in
      let sized : (length (crypto.public_key secret) == 32) ≡ true =
        ground (arith, length-public_key crypto law secret) in
      unfold read_token read_static accept_static in
      rw (← fits, long, take-append_length bytes rest, drop-append_length bytes rest)
        (rw sealed.opened (rw (sized, law.valid secret) refl))

  Reads-s :
      (w w' r : NoiseHandshakeState) (random bytes : List ℕ) (known : Option (List ℕ))
      → Mirror crypto w r
      → w.local_static_private ≡ known
      → write_token crypto random s w ≡ (w', ok bytes)
      → Reads crypto law s bytes w w' r
  Reads-s w w' r random bytes none m k h =
      absurd (unfold write_token in ground (arith, m.writer_static, k, h))
  Reads-s w w' r random bytes (some secret) m k h =
      let mine : w.local_static_public ≡ some (crypto.public_key secret) =
        m.writer_static ∙ ap (option_map crypto.public_key) k in
      let sent : with_symmetric w
            (encrypt_and_hash crypto (crypto.public_key secret) w.symmetric_state)
          ≡ (w', ok bytes) =
        unfold write_token in ground (arith, mine, h) in
      let (state, sealing, same) = symmetric_ok w w' bytes _ sent in
      let sealed =
        encrypt_and_hash-IsSealed crypto law (crypto.public_key secret) bytes w.symmetric_state
          state m.internal sealing in
      rw (← same) (record {
        next = record r {
          symmetric_state = state;
          remote_static_public = some (crypto.public_key secret);
        };
        reads = λ rest. key_length-read r secret bytes rest state (rw m.symmetric sealed);
        mirrors = record {
          symmetric = refl;
          internal = sealed.internal;
          roles = m.roles;
          patterns = m.patterns;
          position = m.position;
          writer_static = m.writer_static;
          reader_static = m.reader_static;
          writer_ephemeral = m.writer_ephemeral;
          reader_ephemeral = m.reader_ephemeral;
          reader_told = inr (rw k refl);
          writer_told = m.writer_told;
        };
        told = ground arith;
        role = refl;
        knows = refl;
      })

  pub token_Reads :
      (t : NoiseMessagePattern) (w w' r : NoiseHandshakeState) (random bytes : List ℕ)
      → Mirror crypto w r
      → (not (needs w.role t) || is_some r.remote_static_public) ≡ true
      → write_token crypto random t w ≡ (w', ok bytes)
      → Reads crypto law t bytes w w' r
  unfolding write_token
  token_Reads e w w' r random bytes m told h =
      let same : record w {
        local_ephemeral_private = some random;
        local_ephemeral_public = some (crypto.public_key random);
        symmetric_state = mix_hash crypto (crypto.public_key random) w.symmetric_state;
      }
          ≡ w' =
        ap (λ p. p.0) h in
      let text : crypto.public_key random ≡ bytes = ground (arith, h) in
      rw (← same, ← text) (Reads-e crypto law random w r m)
  token_Reads s w w' r random bytes m told h =
      Reads-s w w' r random bytes w.local_static_private m refl h
  token_Reads ee w w' r random bytes m told h =
      Reads-mixed crypto law ee w w' r bytes (mix_ee crypto w) (mix_ee crypto r) refl h
        (λ rest. unfold read_token in refl) (λ k. mixed_ee crypto law w r w' m k)
  token_Reads es w w' r random bytes m told h =
      Reads-mixed crypto law es w w' r bytes (mix_es crypto w) (mix_es crypto r) refl h
        (λ rest. unfold read_token in refl) (λ k. mixed_es crypto law w r w' w.role refl m told k)
  token_Reads se w w' r random bytes m told h =
      Reads-mixed crypto law se w w' r bytes (mix_se crypto w) (mix_se crypto r) refl h
        (λ rest. unfold read_token in refl) (λ k. mixed_se crypto law w r w' w.role refl m told k)
  token_Reads ss w w' r random bytes m told h =
      Reads-mixed crypto law ss w w' r bytes (mix_ss crypto w) (mix_ss crypto r) refl h
        (λ rest. unfold read_token in refl)
        (λ k. mixed_ss crypto law w r w' m (ground (arith, told)) k)

  -- A whole list of tokens: the reader takes off just what was written.
  pub record ReadsAll (role : NoiseRole) (knowing : Option (List ℕ)) (ts : List NoiseMessagePattern)
      (bytes : List ℕ) (w' r : NoiseHandshakeState) : Type 0 where
    pub next : NoiseHandshakeState
    pub reads : (rest : List ℕ) → read_tokens crypto ts (bytes ++ rest) r ≡ (next, ok rest)
    pub mirrors : Mirror crypto w' next
    pub same_role : w'.role ≡ role
    pub knows : w'.remote_static_public ≡ knowing
    pub told : is_some next.remote_static_public ≡ (is_some r.remote_static_public || any tells ts)

  pub then_ok :
      {A : Type 0} {B : Type 0} (first : Step A) (f : NoiseHandshakeState → A → Step B)
      (w' : NoiseHandshakeState) (b : B)
      → then_do first f ≡ (w', ok b)
      → (w1 : NoiseHandshakeState) × (a : A) × (first ≡ (w1, ok a)) × (f w1 a ≡ (w', ok b))
  then_ok (w1, ok a) f w' b h = (w1, a, refl, h)
  then_ok (w1, err bad) f w' b h = cc

  read_tokens_cons :
      (t : NoiseMessagePattern) (ts : List NoiseMessagePattern) (message tail : List ℕ)
      (r next : NoiseHandshakeState) (result : Step (List ℕ))
      → read_token crypto t message r ≡ (next, ok tail)
      → read_tokens crypto ts tail next ≡ result
      → read_tokens crypto (t ∷ ts) message r ≡ result
  unfolding read_tokens
  read_tokens_cons t ts message tail r next result h k = rw h k

  pub tokens_ReadsAll :
      (ts : List NoiseMessagePattern) (w w' r : NoiseHandshakeState) (random buffer out : List ℕ)
      → Mirror crypto w r
      → covers w.role (is_some r.remote_static_public) ts ≡ true
      → write_tokens crypto random ts buffer w ≡ (w', ok out)
      → (bytes : List ℕ) × (out ≡ buffer ++ bytes)
        × ReadsAll w.role w.remote_static_public ts bytes w' r
  unfolding write_tokens
  tokens_ReadsAll [] w w' r random buffer out m told h =
      let same : w ≡ w' = ap (λ p. p.0) h in
      (
        [],
        ground (arith, h, append-nil buffer),
        rw (← same) (record {
          next = r;
          reads = λ rest. unfold read_tokens in refl;
          mirrors = m;
          same_role = refl;
          knows = refl;
          told = ground arith;
        }),
      )
  tokens_ReadsAll (t ∷ ts) w w' r random buffer out m told h =
      let (w1, written, one, others) = then_ok (write_token crypto random t w) _ w' out h in
      let p = token_Reads t w w1 r random written m (ground (arith, told)) one in
      let (bytes, split, q) =
        tokens_ReadsAll ts w1 w' p.next random (buffer ++ written) out p.mirrors
          (rw (p.role, p.told) (ground (arith, told))) others in
      (
        written ++ bytes,
        split ∙ append_assoc buffer written bytes,
        record {
          next = q.next;
          reads = λ rest. rw (append_assoc written bytes rest) (
              read_tokens_cons t ts (written ++ (bytes ++ rest)) (bytes ++ rest) r p.next
                (q.next, ok rest) (p.reads (bytes ++ rest)) (q.reads rest));
          mirrors = q.mirrors;
          same_role = q.same_role ∙ p.role;
          knows = q.knows ∙ p.knows;
          told = ground (arith, q.told, p.told);
        },
      )
