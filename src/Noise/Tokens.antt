-- ===== src/Noise/Tokens.antt =====
-- Each token that one end of a handshake writes, the other reads (src/noise_protocol.rs).
use bitmancer.Prelude.{
  ℕ, ◌≡◌, refl, ◌∙◌, ap, Bool, true, false, not, ◌&&◌, ◌||◌, Option, some, List, [], ◌∷◌, ◌++◌, inl,
  inr, ltb, length, take, drop, is_some, arith, length-append, take-append_length,
  drop-append_length,
}
use bitmancer.Prelude.Results.{Result, ok, err}
use bitmancer.Noise.{NoiseError}
use bitmancer.Noise.PublicKey.{validate_public_key-length}
use bitmancer.Noise.Symmetric.{Primitives, mix_hash}
use bitmancer.Noise.Handshake.{
  NoiseRole, initiator, responder, NoiseMessagePattern, e, s, es, se, ss, NoiseHandshakeState,
  then_do, leaving, option_map, mix_shared, mix_ee, mix_es, mix_se, mix_ss, read_token,
}
use bitmancer.Noise.Transcript.{IsPrimitives}
use bitmancer.Noise.Mirror.{opposite, KnowsStatic, Mirror, Mixes, mix_shared-Mixes}

-- The tokens at which the reader uses the writer's static key.
abbrev pub needs : NoiseRole → NoiseMessagePattern → Bool
needs initiator se = true
needs responder es = true
needs role ss = true
needs role t = false

abbrev pub tells : NoiseMessagePattern → Bool
tells s = true
tells t = false

-- The writer's static key is told before it is used.
abbrev pub covers : NoiseRole → Bool → List NoiseMessagePattern → Bool
covers role told [] = true
covers role told (t ∷ ts) = (not (needs role t) || told) && covers role (told || tells t) ts

module _ (crypto : Primitives) (law : IsPrimitives crypto) where
  -- The reader takes the bytes off the message, and the ends mirror each other again.
  pub record Reads (t : NoiseMessagePattern) (bytes : List ℕ) (w w' r : NoiseHandshakeState)
      : Type 0 where
    pub next : NoiseHandshakeState
    pub reads : (rest : List ℕ) → read_token crypto t (bytes ++ rest) r ≡ (next, ok rest)
    pub mirrors : Mirror crypto w' next
    pub told : is_some next.remote_static_public ≡ (is_some r.remote_static_public || tells t)
    pub role : w'.role ≡ w.role
    pub knows : w'.remote_static_public ≡ w.remote_static_public

  knows_told :
      (r w : NoiseHandshakeState)
      → KnowsStatic crypto r w
      → is_some r.remote_static_public ≡ true
      → r.remote_static_public ≡ option_map crypto.public_key w.local_static_private
  knows_told r w (inl p) h = absurd (ground (arith, p, h))
  knows_told r w (inr p) h = p

  pub mixed_ee :
      (w r w' : NoiseHandshakeState)
      → Mirror crypto w r
      → mix_ee crypto w ≡ (w', ok tt)
      → Mixes crypto law w.role r.remote_static_public w.remote_static_public w' (mix_ee crypto r)
  unfolding mix_ee
  mixed_ee w r w' m h =
      mix_shared-Mixes crypto law w r w' w.local_ephemeral_private w.remote_ephemeral_public
        r.local_ephemeral_private r.remote_ephemeral_public m m.writer_ephemeral
        (inr m.reader_ephemeral) h

  pub mix_es_role :
      (h : NoiseHandshakeState) (role : NoiseRole)
      → h.role ≡ role
      → mix_es crypto h ≡ elim role [
        | initiator ↦ mix_shared crypto h.local_ephemeral_private h.remote_static_public h
        | responder ↦ mix_shared crypto h.local_static_private h.remote_ephemeral_public h
      ]
  unfolding mix_es
  mix_es_role h initiator k = ground (arith, k)
  mix_es_role h responder k = ground (arith, k)

  pub mix_se_role :
      (h : NoiseHandshakeState) (role : NoiseRole)
      → h.role ≡ role
      → mix_se crypto h ≡ elim role [
        | initiator ↦ mix_shared crypto h.local_static_private h.remote_ephemeral_public h
        | responder ↦ mix_shared crypto h.local_ephemeral_private h.remote_static_public h
      ]
  unfolding mix_se
  mix_se_role h initiator k = ground (arith, k)
  mix_se_role h responder k = ground (arith, k)

  pub mixed_es :
      (w r w' : NoiseHandshakeState) (role : NoiseRole)
      → w.role ≡ role
      → Mirror crypto w r
      → (not (needs role es) || is_some r.remote_static_public) ≡ true
      → mix_es crypto w ≡ (w', ok tt)
      → Mixes crypto law w.role r.remote_static_public w.remote_static_public w' (mix_es crypto r)
  mixed_es w r w' initiator k m told h = rw (mix_es_role r responder (m.roles ∙ ap opposite k)) (
      mix_shared-Mixes crypto law w r w' w.local_ephemeral_private w.remote_static_public
        r.local_static_private r.remote_ephemeral_public m m.writer_ephemeral m.writer_told
        (rw (mix_es_role w initiator k) at h))
  mixed_es w r w' responder k m told h = rw (mix_es_role r initiator (m.roles ∙ ap opposite k)) (
      mix_shared-Mixes crypto law w r w' w.local_static_private w.remote_ephemeral_public
        r.local_ephemeral_private r.remote_static_public m (knows_told r w m.reader_told told)
        (inr m.reader_ephemeral) (rw (mix_es_role w responder k) at h))

  pub mixed_se :
      (w r w' : NoiseHandshakeState) (role : NoiseRole)
      → w.role ≡ role
      → Mirror crypto w r
      → (not (needs role se) || is_some r.remote_static_public) ≡ true
      → mix_se crypto w ≡ (w', ok tt)
      → Mixes crypto law w.role r.remote_static_public w.remote_static_public w' (mix_se crypto r)
  mixed_se w r w' initiator k m told h = rw (mix_se_role r responder (m.roles ∙ ap opposite k)) (
      mix_shared-Mixes crypto law w r w' w.local_static_private w.remote_ephemeral_public
        r.local_ephemeral_private r.remote_static_public m (knows_told r w m.reader_told told)
        (inr m.reader_ephemeral) (rw (mix_se_role w initiator k) at h))
  mixed_se w r w' responder k m told h = rw (mix_se_role r initiator (m.roles ∙ ap opposite k)) (
      mix_shared-Mixes crypto law w r w' w.local_ephemeral_private w.remote_static_public
        r.local_static_private r.remote_ephemeral_public m m.writer_ephemeral m.writer_told
        (rw (mix_se_role w responder k) at h))

  pub mixed_ss :
      (w r w' : NoiseHandshakeState)
      → Mirror crypto w r
      → is_some r.remote_static_public ≡ true
      → mix_ss crypto w ≡ (w', ok tt)
      → Mixes crypto law w.role r.remote_static_public w.remote_static_public w' (mix_ss crypto r)
  unfolding mix_ss
  mixed_ss w r w' m told h =
      mix_shared-Mixes crypto law w r w' w.local_static_private w.remote_static_public
        r.local_static_private r.remote_static_public m (knows_told r w m.reader_told told)
        m.writer_told h

  mixed_write :
      (mixed : NoiseHandshakeState × Result NoiseError (Unit {0})) (w' : NoiseHandshakeState)
      (bytes : List ℕ)
      → then_do mixed (leaving []) ≡ (w', ok bytes)
      → (mixed ≡ (w', ok tt)) × ([] ≡ bytes)
  mixed_write (h, ok done) w' bytes k = (ground (arith, k), ground (arith, k))
  mixed_write (h, err bad) w' bytes k = cc

  mixed_read :
      (w' r : NoiseHandshakeState) (writing : NoiseRole) (told knowing : Option (List ℕ))
      (mixed : NoiseHandshakeState × Result NoiseError (Unit {0}))
      (p : Mixes crypto law writing told knowing w' mixed) (rest : List ℕ)
      → then_do mixed (leaving rest) ≡ (p.next, ok rest)
  mixed_read w' r writing told knowing mixed p rest = rw p.done refl

  pub Reads-mixed :
      (t : NoiseMessagePattern) (w w' r : NoiseHandshakeState) (bytes : List ℕ)
      (write read : NoiseHandshakeState × Result NoiseError (Unit {0}))
      → tells t ≡ false
      → then_do write (leaving []) ≡ (w', ok bytes)
      → ((rest : List ℕ) → read_token crypto t rest r ≡ then_do read (leaving rest))
      → (write ≡ (w', ok tt)
          → Mixes crypto law w.role r.remote_static_public w.remote_static_public w' read)
      → Reads t bytes w w' r
  Reads-mixed t w w' r bytes write read silent sent reading mixes =
      let (done, empty) = mixed_write write w' bytes sent in
      let p = mixes done in
      rw (← empty) (record {
        next = p.next;
        reads = λ rest.
            reading rest
            ∙ mixed_read w' r w.role r.remote_static_public w.remote_static_public read p rest;
        mirrors = p.mirrors;
        told = ground (arith, p.still_told, silent);
        role = p.role;
        knows = p.knows;
      })

  pub length-public_key : (secret : List ℕ) → length (crypto.public_key secret) ≡ 32
  length-public_key secret =
      validate_public_key-length (crypto.public_key secret) (crypto.public_key secret)
        (law.valid secret)

  take_key :
      (secret rest : List ℕ) → take 32 (crypto.public_key secret ++ rest) ≡ crypto.public_key secret
  take_key secret rest =
      rw (← length-public_key secret) (take-append_length (crypto.public_key secret) rest)

  drop_key : (secret rest : List ℕ) → drop 32 (crypto.public_key secret ++ rest) ≡ rest
  drop_key secret rest =
      rw (← length-public_key secret) (drop-append_length (crypto.public_key secret) rest)

  pub Reads-e :
      (random : List ℕ) (w r : NoiseHandshakeState)
      → Mirror crypto w r
      → Reads e
          (crypto.public_key random)
          w
          (record w {
            local_ephemeral_private = some random;
            local_ephemeral_public = some (crypto.public_key random);
            symmetric_state = mix_hash crypto (crypto.public_key random) w.symmetric_state;
          })
          r
  Reads-e random w r m = record {
    next = record r {
      remote_ephemeral_public = some (crypto.public_key random);
      symmetric_state = mix_hash crypto (crypto.public_key random) r.symmetric_state;
    };
    reads = λ rest. read rest;
    mirrors = record {
      symmetric = rw m.symmetric refl;
      internal = unfold mix_hash in m.internal;
      roles = m.roles;
      patterns = m.patterns;
      position = m.position;
      writer_static = m.writer_static;
      reader_static = m.reader_static;
      writer_ephemeral = refl;
      reader_ephemeral = m.reader_ephemeral;
      reader_told = m.reader_told;
      writer_told = m.writer_told;
    };
    told = ground arith;
    role = refl;
    knows = refl;
  }
    where
      read :
          (rest : List ℕ)
          → read_token crypto e (crypto.public_key random ++ rest) r ≡ (
            record r {
              remote_ephemeral_public = some (crypto.public_key random);
              symmetric_state = mix_hash crypto (crypto.public_key random) r.symmetric_state;
            },
            ok rest,
          )
      read rest =
          let fits : ltb (length (crypto.public_key random ++ rest)) 32 ≡ false =
            ground
              (arith, length-append (crypto.public_key random) rest, length-public_key random) in
          unfold read_token in
          rw (fits, take_key random rest, law.valid random)
            (rw (take_key random rest, drop_key random rest) refl)
