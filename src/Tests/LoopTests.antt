-- ===== src/Tests/LoopTests.antt =====
-- `run_stream` of src/server/mod.rs, and `run` of src/client/mod.rs.
use thrussh_mod.Base.{ℕ, true, ◌≡◌, refl, some, [], ◌∷◌, ◌++◌, replicate, arith, Bytes, equal}
use thrussh_mod.Error.{Result, ok, ◌>>=◌}
use thrussh_mod.SshBuffer.{SshBuffer}
use thrussh_mod.Cipher.{SealingCipher, OpeningCipher, CipherPair, write, padding_length}
use thrussh_mod.ServerRead.{Session}
use thrussh_mod.ServerReply.{reply}
use thrussh_mod.ServerLoop.{packet, goes_on, end_round, round, rounds}
use thrussh_mod.ServerLoop.Idle.{up, at_end, rounds-at_end}
use thrussh_mod.ServerLoop.Unchecked.{Forged, round-Forged}
use thrussh_mod.Client.Commands.{shell, serve_command, on_session}
use thrussh_mod.Client.Loop.{
  ClientRunning, ClientRound, goes_on as client_goes_on, command, client_round, client_rounds,
  client_end_round, start_compress,
}
use thrussh_mod.Client.Packets.{client_flush}
use thrussh_mod.ServerSession.{is_rekeying}
use thrussh_mod.ClientSession.{request}
use thrussh_mod.Encrypted.Flush.{flush}
use thrussh_mod.Base.Dict.{lookup, insert}
use thrussh_mod.Wire.{push_packet}
use thrussh_mod.Compression.{compress}
use thrussh_mod.Client.Settled.{Settled, client_rounds-Settled}
use thrussh_mod.Samples.Clients.{client, client_env}
use thrussh_mod.Samples.Bytewise.{bytewise}
use thrussh_mod.Samples.Toggle.{toggling}
use thrussh_mod.Samples.Sessions.{session}
use thrussh_mod.Samples.Exchanges.{empty_buffer}
use thrussh_mod.Samples.Servers.{server, moment, connected, counting, trusting, any_key}

-- SSH_MSG_IGNORE, as `cipher::read` leaves it
abbrev ignored : SshBuffer
ignored = record empty_buffer { buffer = 0 ∷ 0 ∷ 0 ∷ 6 ∷ 4 ∷ 2 ∷ 9 ∷ [] }

rounds-at_end_example :
    rounds trusting any_key counting server moment
      (replicate 3 packet)
      (at_end (some 0) (up connected session) ignored)
    ≡ ok (goes_on (at_end (some 0) (up connected session) ignored))
rounds-at_end_example =
    rounds-at_end trusting any_key counting server moment 3 (some 0) connected session ignored 2
      (9 ∷ []) (omega arith) refl (omega arith) (omega arith)

abbrev keys : CipherPair
keys = record {
  local_to_remote = SealingCipher.chacha20_poly1305 (1 ∷ []) (2 ∷ []);
  remote_to_local = OpeningCipher.chacha20_poly1305 (1 ∷ []) (2 ∷ []);
}

abbrev keyed : Session
keyed = record connected { common = record connected.common { cipher = keys } }

abbrev four : Bytes
four = 1 ∷ 1 ∷ 1 ∷ 3 ∷ []

-- A message to close channel 0, with no encryption and the tag 0
abbrev forged : Forged bytewise toggling keys empty_buffer four (4 ∷ 97 ∷ 0 ∷ []) (replicate 16 0)
unfolding equal
forged = record {
  k1 = 1 ∷ [];
  k2 = 2 ∷ [];
  len = 3;
  chacha = refl;
  length-c4 = refl;
  says = refl;
  length-cr = refl;
  length-t = refl;
  bad = refl;
}

round-Forged_example :
    round trusting any_key counting server moment packet (record {
      handler = some 0;
      session = up keyed session;
      buffer = empty_buffer;
      stream = four ++ (((4 ∷ 97 ∷ 0 ∷ []) ++ replicate 16 0) ++ []);
      sent = [];
    })
    ≡ (reply trusting any_key counting server moment
          (some 0)
          (97 ∷ 0 ∷ replicate 16 0)
          (up keyed session)
        >>= λ (h', s').
            end_round trusting any_key counting server moment h' s'
              (record empty_buffer { buffer = four ++ ((4 ∷ 97 ∷ 0 ∷ []) ++ replicate 16 0) })
              [])
round-Forged_example =
    round-Forged trusting any_key counting server moment (some 0) keyed session empty_buffer four
      (4 ∷ 97 ∷ 0 ∷ []) (replicate 16 0) [] [] 97 (0 ∷ replicate 16 0) forged refl (omega arith)

abbrev client_starts : ClientRunning ℕ Bytes Bytes
client_starts = record {
  handler = some 0;
  session = client;
  buffer = empty_buffer;
  stream = [];
  sent = [];
}

-- Where a round leads, or where it began
abbrev reached :
    Result (ClientRound ℕ Bytes Bytes) → ClientRunning ℕ Bytes Bytes → ClientRunning ℕ Bytes Bytes
reached (ok (client_goes_on r)) start = r
reached _ start = start

abbrev client_asked : ClientRunning ℕ Bytes Bytes
client_asked =
    reached (client_rounds client_env moment (command (some (shell 1 true)) ∷ []) client_starts)
      client_starts

client_asks :
    client_rounds client_env moment (command (some (shell 1 true)) ∷ []) client_starts
    ≡ ok (client_goes_on client_asked)
unfolding client_rounds client_round serve_command on_session client_end_round start_compress
    client_flush is_rekeying request flush lookup insert push_packet compress write padding_length
client_asks = refl

client_rounds-Settled_example : Settled client_asked.session.common
client_rounds-Settled_example =
    client_rounds-Settled client_env moment (command (some (shell 1 true)) ∷ []) client_starts
      client_asked refl client_asks
