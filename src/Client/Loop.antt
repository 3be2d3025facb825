-- ===== src/Client/Loop.antt =====
-- src/client/mod.rs, the loop of `run`, as a step on explicit events.
use thrussh_mod.Base.{
  true, false, Option, none, some, [], ◌∷◌, ◌==◌, ltb, leb, length, drop, Bytes, List,
}
use thrussh_mod.Error.{Result, ok, err, panic, no_fuel, ◌>>=◌}
use thrussh_mod.SshBuffer.{SshBuffer}
use thrussh_mod.Cipher
use thrussh_mod.Compression.{init_compress, decompress}
use thrussh_mod.Encrypted.{
  EncryptedState, Encrypted, waiting_service_request, waiting_auth_request, init_compression,
  authenticated,
}
use thrussh_mod.CommonSession.{on_encrypted}
use thrussh_mod.ServerSession.{is_rekeying}
use thrussh_mod.ServerSession.Flush.{Moment}
use thrussh_mod.Client.{Session}
use thrussh_mod.Client.Commands.{Command, serve_command}
use thrussh_mod.Client.Packets.{ClientEnv, client_flush, client_reply}
use thrussh_mod.Msg

pub data ClientEvent (KP K : Type 0) : Type 0 where
  packet : ClientEvent KP K
  command : Option (Command KP K) → ClientEvent KP K

-- The loop between two rounds: the handler, the session, the buffer of packets, what the socket has
-- still to give, and what went out in the last round.
pub record ClientRunning (H KP K : Type 0) : Type 0 where
  pub handler : Option H
  pub session : Session KP K
  pub buffer : SshBuffer
  pub stream : Bytes
  pub sent : Bytes

pub data ClientRound (H KP K : Type 0) : Type 0 where
  stops : ClientRound H KP K
  goes_on : ClientRunning H KP K → ClientRound H KP K

-- Behind what was sent, the compression of an authenticated session begins.
unfoldable pub start_compress : Encrypted → EncryptedState → Encrypted
start_compress enc init_compression = record enc {
  compress = init_compress enc.client_compression enc.compress;
  state = authenticated;
}
start_compress enc (waiting_service_request sent accepted) = enc
start_compress enc (waiting_auth_request a) = enc
start_compress enc authenticated = enc

module _ {H KP K : Type 0} (e : ClientEnv H KP K) (m : Moment) where
  -- The end of a round: what waits is sent, and both buffers are cleared.
  unfoldable pub client_end_round :
      Option H → Session KP K → SshBuffer → Bytes → Result (ClientRound H KP K)
  unfolding start_compress
  client_end_round h s b stream = do
    common ← client_flush e m s.common
    let sent = record common { write_buffer = record common.write_buffer { buffer = [] } }
    ok (
        goes_on (record {
          handler = h;
          session = record s { common = on_encrypted (λ enc. start_compress enc enc.state) sent };
          buffer = record b { buffer = [] };
          stream = stream;
          sent = common.write_buffer.buffer;
        }))

  -- The text of a packet: no more is done with an empty one, or with one of the first four messages.
  unfoldable pub client_serve_text :
      Option H → Session KP K → SshBuffer → Bytes → (text : Bytes) → Result (ClientRound H KP K)
  unfolding client_end_round
  client_serve_text h s b stream [] =
      ok (goes_on (record { handler = h; session = s; buffer = b; stream = stream; sent = [] }))
  client_serve_text h s b stream (c ∷ text) = elim (c == Msg.disconnect) [
    | true ↦ ok stops
    | false ↦ elim (leb c 4) [
      | true ↦
          ok (goes_on (record { handler = h; session = s; buffer = b; stream = stream; sent = [] }))
      | false ↦ do (h', s') ← client_reply e m h s (c ∷ text); client_end_round h' s' b stream
    ]
  ]

  -- A packet that has been read
  unfoldable pub client_serve_buffer :
      Option H → Session KP K → SshBuffer → Bytes → Result (ClientRound H KP K)
  unfolding client_serve_text
  client_serve_buffer h s b stream = elim (ltb (length b.buffer) 5) [
    | true ↦ ok stops
    | false ↦ elim s.common.encrypted [
      | none ↦ client_serve_text h s b stream (drop 5 b.buffer)
      | some enc ↦ elim (decompress e.flate m.rounds enc.decompress (drop 5 b.buffer)) [
        | ok r ↦
            client_serve_text h
              (record s {
                common = record s.common { encrypted = some (record enc { decompress = r.0 }) };
              })
              b stream r.1
        | err x ↦ ok stops
        | panic ↦ panic
        | no_fuel ↦ no_fuel
      ]
    ]
  ]

  -- One round of the loop. While keys are exchanged, the messages of handles wait;
  -- without any handle the loop ends.
  unfoldable pub client_round :
      ClientEvent KP K → ClientRunning H KP K → Result (ClientRound H KP K)
  unfolding client_serve_buffer client_end_round
  client_round event r = elim r.session.common.disconnected [
    | true ↦ ok stops
    | false ↦ elim event [
      | packet ↦ elim (Cipher.read e.wire e.sodium r.stream r.buffer r.session.common.cipher) [
        | ok x ↦ client_serve_buffer r.handler r.session x.0.0 x.1
        | err x ↦ ok stops
        | panic ↦ panic
        | no_fuel ↦ no_fuel
      ]
      | command o ↦ elim (is_rekeying r.session.common) [
        | true ↦ ok (goes_on r)
        | false ↦ elim o [
          | none ↦ ok stops
          | some c ↦ do
            s ← serve_command e.wire e.sodium e.config e.keys c r.session
            client_end_round r.handler s r.buffer r.stream
        ]
      ]
    ]
  ]

  -- The rounds of some events
  unfoldable pub client_rounds :
      List (ClientEvent KP K) → ClientRunning H KP K → Result (ClientRound H KP K)
  unfolding client_round
  client_rounds [] r = ok (goes_on r)
  client_rounds (event ∷ events) r = do
    next ← client_round event r
    elim next [ stops ↦ ok stops | goes_on r' ↦ client_rounds events r' ]
