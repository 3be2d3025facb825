-- ===== src/Lib.antt =====
-- A verification library for thrussh, an SSH client and server library in Rust: its packet
-- layer, its key exchange, the authentication of clients by the server, and the sessions and channels
-- behind them.
--
-- The parts of the program, and the files that model them:
--
-- - src/lib.rs (`Error`, `Channel`, `Limits`, `push_packet!`): Error.antt, Channel.antt, Wire.antt,
--   Encrypted.antt. An `anyhow::Error` is a `Failure`; a fallible function returns a `Result`, whose
--   `panic` is a Rust panic and whose `no_fuel` is a loop that has not ended in its rounds.
-- - src/sshbuffer.rs: SshBuffer.antt. A `CryptoVec` is the list of its bytes.
-- - src/cipher/mod.rs, clear.rs, chacha20poly1305.rs: Cipher.antt (`CipherPair::write` is `write`,
--   `cipher::read` is `read`). The primitives of thrussh_libsodium are the interface Sodium.antt,
--   with the laws that the packet layer relies on.
-- - src/negotiation.rs: Negotiation.antt (`Server::select` and `Client::select` are `server_select` and
--   `client_select`; `read_kex` takes either).
-- - src/compression.rs: Compression.antt, over the streams of flate2 as a parameter.
-- - src/auth.rs: Auth.antt, a `MethodSet` as its five bits.
-- - src/server/encrypted.rs and server/mod.rs (`Auth`, `Response`): ServerAuth.antt, with
--   ServerAuth/Requests.antt and PublicKey.antt, the authentication requests
--   (`server_read_auth_request`), and ServerAuth/Messages.antt, the match of `server_read_encrypted`
--   on the state (`read_packet`), which ServerAuth/Phases.antt sets against a
--   protocol of four phases. The handler and the public keys of
--   thrussh_keys are parameters. Utf8.antt is `std::str::from_utf8`.
-- - src/server/encrypted.rs (`server_read_authenticated`, `server_handle_channel_open`): ServerRead.antt,
--   with ServerRead/Messages.antt, ServerRead/Requests.antt and ServerRead/Open.antt. A message is read
--   into a `Step`, the call of the handler that it ends in; `finish` makes the call. Error/Ensures.antt
--   has the rules by which the theorems follow a chain of results.
-- - src/server/mod.rs (`reply`) and src/server/encrypted.rs (`server_read_encrypted`):
--   ServerReply.antt, one packet through key exchange, authentication and the connection protocol.
-- - src/server/mod.rs (the loop of `run_stream`): ServerLoop.antt, one round on each of the events that
--   `select!` waits for; what `cipher::read` leaves in the buffer when it fails is `left_by_read`.
-- - src/client/session.rs: ClientSession.antt; the functions that open a channel are one definition
--   over `Opening`, those that send a request one over `Request`. Dialogue.antt puts the client's
--   messages and the server's reading of them together, with the lemmas of Wire/Reading.antt: requests
--   (Dialogue/Requests.antt, Dialogue/Signals.antt), the login with a key (Dialogue/PublicKey.antt) and
--   the opening of a channel with its confirmation (Dialogue/Opening.antt).
-- - src/session.rs: Encrypted.antt, with Encrypted/Data.antt (its `data` is `send_data`) and
--   Encrypted/Flush.antt (`impl Encrypted`), and Kex.antt (the states of a key exchange). A channel
--   number is ℕ, the map of channels an association list (Base/Dict.antt).
-- - src/kex.rs and `KexDhDone::compute_keys`: Kex/Derivation.antt; src/server/kex.rs: Kex/Server.antt
--   (`KexDh::parse` is `parse_dh`); src/client/kex.rs: Kex/Client.antt; `server_key_check` of
--   src/client/mod.rs: Kex/Check.antt. The curve, the hash, the host keys and the handler are parameters.
-- - src/client/encrypted.rs: Client.antt (`client::Session`, `Reply`, the calls of the handler), with
--   Client/Auth.antt and Client/Answers.antt (authentication), Client/Channels.antt and
--   Client/Opened.antt (messages about channels) and Client/Read.antt (the match on the state).
-- - src/client/mod.rs (`reply`, `flush`): Client/Packets.antt, with the key exchange of
--   `client_read_encrypted`; the loop of `run`, with the messages of handles: Client/Commands.antt and
--   Client/Loop.antt.
-- - src/session.rs, `CommonSession`: CommonSession.antt; src/server/session.rs: ServerSession.antt, with
--   `flush` in ServerSession/Flush.antt.
-- - src/ssh_read.rs: SshRead.antt (`read_ssh_id`), on a stream that is a list of chunks.
-- - src/lib.rs (`Disconnect`, `Sig`, `ChannelOpenFailure`, `Limits::new`): Codes.antt.
-- - src/pty.rs and src/msg.rs: Pty.antt and Msg.antt.
--
-- How they interact: a session appends messages with `push_packet` to `write` of its `Encrypted`;
-- `flush` compresses each of them and gives it to `CipherPair::write`, which appends a packet to the
-- socket's `SshBuffer`; the other side takes it back with `cipher::read`. The encodings of numbers,
-- strings and lists that byteorder and thrussh_keys provide are the interface Wire.antt. Samples has
-- a value of each interface, and Tests runs the definitions and applies the theorems.
--
-- Numbers: a `u32`, `u64` or `Wrapping` addition is written with its `% 2 ^ w`; a subtraction of
-- `u32` that may wrap is `sub32`. A `usize` is a number without bound.
--
-- Loops: `send_loop` has as many rounds as there are bytes, since each round sends one, unless the
-- packet size is 0; `extend_key` has as many as bytes are wanted; `next_vacant` has one round more than
-- there are channels; `flush_loop` has as many rounds as the write buffer has bytes, since each moves
-- the cursor by four or more; `modes_loop` has one round more than there are bytes; `read_ssh_id` takes
-- as many rounds as the stream has bytes, and the loop over a flate2 stream takes its rounds as an
-- argument, which stands for a stream that ends. That the rounds of all but the last are enough is
-- part of the results. `wait_signed` does not end where no
-- signature is among the messages that wait.
--
-- Not modelled: the start and the end of the two loops, timers, and the
-- handles through which other tasks reach a session, so that a client's replies to them are a list, and
-- their messages one too; the delay of a rejection; tunnels and proxies; and the cryptography, which
-- other crates provide. A key exchange takes its random bytes from `Moment`.
pub mod Auth
pub mod Base
pub mod Channel
pub mod Cipher
pub mod Client
pub mod ClientSession
pub mod Codes
pub mod CommonSession
pub mod Compression
pub mod Dialogue
pub mod Encrypted
pub mod Error
pub mod Kex
pub mod Msg
pub mod Negotiation
pub mod Pty
pub mod Samples
pub mod ServerAuth
pub mod ServerConfig
pub mod ServerLoop
pub mod ServerRead
pub mod ServerReply
pub mod ServerSession
pub mod Sodium
pub mod SshBuffer
pub mod SshRead
pub mod Tests
pub mod Utf8
pub mod Wire
