-- ===== src/Noise/Exchange.antt =====
-- A handshake of src/noise_protocol.rs from its first message on: what is written is read, and at the
-- end both ends hold the same keys.
use bitmancer.Prelude.{
  ℕ, ◌+◌, ◌≡◌, refl, ◌∙◌, sym, ap, Bool, true, ◌||◌, Option, some, List, [], ◌++◌, any, get_elem?,
  is_some, arith,
}
use bitmancer.Prelude.Results.{ok}
use bitmancer.Noise.Symmetric.{Primitives, encrypt_and_hash}
use bitmancer.Noise.Handshake.{NoiseMessagePattern, NoiseHandshakeState, then_do}
use bitmancer.Noise.Transcript.{IsPrimitives, encrypt_and_hash-IsSealed}
use bitmancer.Noise.Mirror.{Mirror}
use bitmancer.Noise.Tokens.{covers, tells}
use bitmancer.Noise.Messages.{symmetric_ok, then_ok, tokens_ReadsAll}
use bitmancer.Noise.Kept.{IsSame, write_tokens-IsSame, read_tokens-IsSame}
use bitmancer.Noise.Handshake.{
  Step, seal_payload, open_payload, with_symmetric, write_tokens, read_tokens, write_message,
  read_message,
}

module _ (crypto : Primitives) (law : IsPrimitives crypto) where
  pub swap-Mirror : (w r : NoiseHandshakeState) → Mirror crypto w r → Mirror crypto r w
  swap-Mirror w r m = record {
    symmetric = sym m.symmetric;
    internal = rw m.symmetric m.internal;
    roles = ground (arith, m.roles);
    patterns = sym m.patterns;
    position = sym m.position;
    writer_static = m.reader_static;
    reader_static = m.writer_static;
    writer_ephemeral = m.reader_ephemeral;
    reader_ephemeral = m.writer_ephemeral;
    reader_told = m.writer_told;
    writer_told = m.reader_told;
  }

  -- A message that is written is read, and the ends mirror each other again.
  pub record Delivered (payload : List ℕ) (known : Bool) (reader knowing : Option (List ℕ))
      (w w' : NoiseHandshakeState) (reading : Step (List ℕ)) : Type 0 where
    pub next : NoiseHandshakeState
    pub opened : reading ≡ (next, ok payload)
    pub mirrors : Mirror crypto w' next
    pub same_role : w'.role ≡ w.role
    pub same_patterns : w'.message_patterns ≡ w.message_patterns
    pub moved : w'.current_pattern ≡ w.current_pattern + 1
    pub writer_kept : w'.local_static_private ≡ w.local_static_private
    pub reader_kept : next.local_static_private ≡ reader
    pub knows : w'.remote_static_public ≡ knowing
    pub told : is_some next.remote_static_public ≡ known

  -- The payload, once the tokens are written and read.
  payload_Delivered :
      (payload buffer message : List ℕ) (w w1 w' r1 : NoiseHandshakeState)
      → IsSame w w1
      → Mirror crypto w1 r1
      → seal_payload crypto payload buffer w1 ≡ (w', ok message)
      → (sealed : List ℕ) × (message ≡ buffer ++ sealed)
        × Delivered payload
            (is_some r1.remote_static_public)
            r1.local_static_private
            w1.remote_static_public
            w
            w'
            (open_payload crypto sealed r1)
  payload_Delivered payload buffer message w w1 w' r1 k m h =
      let (w2, sealed, sealing, rest) =
        then_ok crypto law (with_symmetric w1 (encrypt_and_hash crypto payload w1.symmetric_state))
          _ w' message h in
      let (state, ran, same) = symmetric_ok crypto law w1 w2 sealed _ sealing in
      let p =
        encrypt_and_hash-IsSealed crypto law payload sealed w1.symmetric_state state m.internal
          ran in
      let last : record w1 { symmetric_state = state; current_pattern = w1.current_pattern + 1 }
          ≡ w' =
        rw (← same) at (ap (λ q. q.0) rest) in
      (
        sealed,
        ground (arith, rest),
        rw (← last) (record {
          next = record r1 { symmetric_state = state; current_pattern = r1.current_pattern + 1 };
          opened = rw m.symmetric (rw p.opened refl);
          mirrors = record {
            symmetric = refl;
            internal = p.internal;
            roles = m.roles;
            patterns = m.patterns;
            position = ap (λ n. n + 1) m.position;
            writer_static = m.writer_static;
            reader_static = m.reader_static;
            writer_ephemeral = m.writer_ephemeral;
            reader_ephemeral = m.reader_ephemeral;
            reader_told = m.reader_told;
            writer_told = m.writer_told;
          };
          same_role = k.role;
          same_patterns = k.patterns;
          moved = ap (λ n. n + 1) k.position;
          writer_kept = k.static;
          reader_kept = refl;
          knows = refl;
          told = refl;
        }),
      )

  read_opens :
      (message bytes sealed : List ℕ) (r next : NoiseHandshakeState)
      (tokens : List NoiseMessagePattern) (result : Step (List ℕ))
      → message ≡ bytes ++ sealed
      → get_elem? r.message_patterns r.current_pattern ≡ some tokens
      → read_tokens crypto tokens (bytes ++ sealed) r ≡ (next, ok sealed)
      → open_payload crypto sealed next ≡ result
      → read_message crypto message r ≡ result
  unfolding read_message
  read_opens message bytes sealed r next tokens result text here ran opened =
      rw text (rw (read_message, here) (rw ran opened))

  pub message_Delivered :
      (w w' r : NoiseHandshakeState) (tokens : List NoiseMessagePattern)
      (random payload message : List ℕ)
      → Mirror crypto w r
      → get_elem? w.message_patterns w.current_pattern ≡ some tokens
      → covers w.role (is_some r.remote_static_public) tokens ≡ true
      → write_message crypto random payload w ≡ (w', ok message)
      → Delivered payload
          (is_some r.remote_static_public || any tells tokens)
          r.local_static_private
          w.remote_static_public
          w
          w'
          (read_message crypto message r)
  message_Delivered w w' r tokens random payload message m here told h =
      let sent : then_do (write_tokens crypto random tokens [] w)
            (λ h' buffer. seal_payload crypto payload buffer h')
          ≡ (w', ok message) =
        unfold write_message in ground (arith, here, h) in
      let (w1, buffer, tokens_done, sealing) =
        then_ok crypto law (write_tokens crypto random tokens [] w) _ w' message sent in
      let (bytes, same_bytes, q) =
        tokens_ReadsAll crypto law tokens w w1 r random [] buffer m told tokens_done in
      let kept : IsSame w w1 = rw tokens_done at (write_tokens-IsSame crypto random tokens [] w) in
      let (sealed, whole, d) =
        payload_Delivered payload buffer message w w1 w' q.next kept q.mirrors sealing in
      let text : message ≡ bytes ++ sealed = whole ∙ ap (λ b. b ++ sealed) same_bytes in
      let reader : IsSame r q.next =
        rw (q.reads sealed) at (read_tokens-IsSame crypto tokens (bytes ++ sealed) r) in
      record {
        next = d.next;
        opened =
            read_opens message bytes sealed r q.next tokens (d.next, ok payload) text
              (rw (m.patterns, m.position) here) (q.reads sealed) d.opened;
        mirrors = d.mirrors;
        same_role = d.same_role;
        same_patterns = d.same_patterns;
        moved = d.moved;
        writer_kept = d.writer_kept;
        reader_kept = d.reader_kept ∙ reader.static;
        knows = d.knows ∙ q.knows;
        told = d.told ∙ q.told;
      }
