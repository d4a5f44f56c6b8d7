-- ===== src/Lib.antt =====
-- Verification of bitmancer, a terminal client for the bitchat mesh.
--
-- The program speaks a binary packet protocol over Bluetooth links. A frame that comes in is decoded
-- (src/protocol.rs), large packets are put together from fragments (src/fragment.rs), a packet may be
-- passed on to other links (src/relay.rs, called by `relay_plan` in src/main.rs), public packets are
-- archived and offered again to peers that ask for what they missed (src/sync), and private messages
-- wait until there is a way to their peer (src/outbox.rs). Two peers agree on keys by a Noise
-- handshake and seal their messages with the resulting ciphers (src/noise_protocol.rs). Mail for a
-- peer that is away is sealed with a one-way handshake into an envelope (src/courier.rs), which others
-- keep on a shelf until they meet the recipient (src/mailbox.rs). A node with a way to the relays may
-- carry events between them and the mesh (src/gateway.rs).
--
-- Protocol models src/protocol.rs: `Packet`, `MessageType`, `encode`, `signing_bytes`, `decode` with
-- `decode_core`, `pad`, `unpad`. Relay models src/relay.rs (`plan`, `Forwarded::accept`) and
-- `relay_plan` of src/main.rs. Fragment models src/fragment.rs (`split`, `parse`,
-- `Assembler::append`). Outbox models src/outbox.rs (`Pending`, `route`, every method of `Outbox`).
-- Sync models src/sync: RateLimit is rate_limit.rs, PacketId packet_id.rs, Archive archive.rs, Gcs
-- gcs.rs, TypeFlags type_flags.rs, Request request.rs, Responder responder.rs. Noise models
-- src/noise_protocol.rs: Noise itself is `NoiseCipherState`, Symmetric is `NoiseSymmetricState`,
-- PublicKey is `validate_public_key`, Handshake is `NoiseHandshakeState`; and src/noise_session.rs:
-- Session is `NoiseSession`. Courier models src/courier.rs, Mailbox src/mailbox.rs and Gateway
-- src/gateway.rs. The other modules below each of these hold proofs and the specifications that they
-- are about. Prelude holds what they share, Tests the runs at concrete inputs.
--
-- Bytes are numbers below 256 where a theorem needs it (`IsBytes`), arrays are lists, integers are
-- natural numbers with their wrap-around written out. A hash map is a table, a list of entries whose
-- order stands for the unspecified order of an iteration; a hash set is a list. A method that changes
-- its receiver returns the new state with its answer, also where the answer is an error. Instants are
-- numbers of nanoseconds, wire times numbers of milliseconds, the times of Mailbox and Gateway count
-- from the epoch on (an event dated before it is outside the model), and the clock and the random
-- bytes of a fresh key are arguments. `none` as a result of the assembler stands for a panic. The file
-- of the mailbox is the list of its rows, a part of its state.
--
-- Parameters stand for code that is not in the repository: `hex`, SHA-256, HMAC, X25519,
-- ChaCha20-Poly1305, and the unspecified hash of the standard library. The inflater is a parameter as
-- well: it stands for `decompress` of src/compression.rs, which is a few calls of `flate2` and is not
-- modelled. The theorems hold for any such functions, with these exceptions: where decoding has to
-- yield bytes, the inflater is assumed to (`YieldsBytes`); where a text has to come out, unsealing
-- undoes sealing (`IsAead`); and where a handshake has to succeed, the documented laws of the
-- primitives are assumed as well (`IsPrimitives`), and that sealing does not fail (`Seals`).
--
-- Fuel: `chunks` has the length of the body, of which each chunk takes a byte at least. The bit
-- reader's loops have the number of bits plus one, of which each turn takes one at least. The trimming
-- loop of `build_filter` has the count that it lowers. The decoder of a sync request has the number of
-- bytes, of which each turn takes three at least. The decoder of an envelope (`read_all`) has the
-- number of bytes, of which each field takes three at least.
--
-- Not modelled: src/compression.rs; the floating-point choice of a filter's parameter (`derive_p`), an
-- argument here; the log lines; the texts that describe the state of the shelf; and the other parts of
-- the program, among them the manager of Noise sessions, the Bluetooth transport, the mesh task that
-- drives these parts, the Nostr client, the topology, and the terminal interface.
pub mod Prelude
pub mod Protocol
pub mod Relay
pub mod Fragment
pub mod Outbox
pub mod Sync
pub mod Noise
pub mod Courier
pub mod Mailbox
pub mod Gateway
pub mod Tests
