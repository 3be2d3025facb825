-- ===== src/ServerLoop.antt =====
-- src/server/mod.rs, the loop of `run_stream`, as a step on explicit events: a packet on the socket, the
-- end of the connection's time, a message of a handle. `ChannelMsg` is that of src/lib.rs.
pub mod Idle
pub mod Unchecked
use thrussh_mod.Base.{
  ℕ, ◌+◌, ◌-◌, Bool, true, false, Option, none, some, List, [], ◌∷◌, ◌++◌, ◌==◌, ltb, leb, length,
  take, drop, replicate, Bytes,
}
use thrussh_mod.Error.{Result, ok, err, panic, no_fuel, ◌>>=◌, unwrap}
use thrussh_mod.SshBuffer.{SshBuffer}
use thrussh_mod.Wire.{Wire}
use thrussh_mod.Sodium.{Sodium}
use thrussh_mod.Cipher.{
  CipherPair, read_exact, decrypt_packet_length, opening_tag_len, opened, finish_read,
}
use thrussh_mod.Compression.{decompress}
use thrussh_mod.Codes.{Sig}
use thrussh_mod.CommonSession.{CommonSession}
use thrussh_mod.ServerSession.{
  is_rekeying, send_eof, session_data, session_extended_data, xon_xoff_request, exit_status_request,
  exit_signal_request,
}
use thrussh_mod.ServerSession.Flush.{ServerEnv, Moment, session_flush}
use thrussh_mod.ServerAuth.{Handler, PublicKeys}
use thrussh_mod.ServerRead.{Session, ChannelHandler}
use thrussh_mod.ServerReply.{reply}
use thrussh_mod.Msg

pub data ChannelMsg : Type 0 where
  content : (bytes : Bytes) → ChannelMsg
  extended_content : (bytes : Bytes) → (ext : ℕ) → ChannelMsg
  end_of_content : ChannelMsg
  xon_xoff : (client_can_do : Bool) → ChannelMsg
  exit_status : (status : ℕ) → ChannelMsg
  exit_signal :
      (signal_name : Sig) → (core_dumped : Bool) → (error_message lang_tag : Bytes) → ChannelMsg
  window_adjusted : (new_size : ℕ) → ChannelMsg
  success : ChannelMsg

-- What `select!` finds ready.
pub data Event : Type 0 where
  packet timeout : Event
  message : Option (ℕ × ChannelMsg) → Event

-- The loop between two rounds: the handler, the session, the buffer of packets, what the socket has
-- still to give up to its end, and what went out in the last round.
pub record Running (H : Type 0) : Type 0 where
  pub handler : Option H
  pub session : Session
  pub buffer : SshBuffer
  pub stream : Bytes
  pub sent : Bytes

-- A round ends the loop by `break`, or the next one follows.
pub data Round (H : Type 0) : Type 0 where
  stops : Option H → Session → Round H
  goes_on : Running H → Round H

module _ (w : Wire) (na : Sodium) where
  -- The buffer that `cipher::read` leaves behind a whole packet, also where it fails: a tag that does
  -- not verify leaves the packet as it came, and a wrong padding leaves it decrypted.
  unfoldable pub left_by_packet : CipherPair → SshBuffer → (len body : Bytes) → Result SshBuffer
  left_by_packet pair b len body =
      let key = pair.remote_to_local in
      let whole = len ++ body in
      let ciphertext_len = length whole - opening_tag_len key in
      let tag = drop ciphertext_len whole in
      elim (opened w na key b.seqn (take ciphertext_len whole) tag) [
        | err e ↦ ok (record b { buffer = whole })
        | panic ↦ panic
        | no_fuel ↦ no_fuel
        | ok plaintext ↦ elim (finish_read w na b len tag plaintext) [
          | ok done ↦ ok done.0
          | err e ↦ ok (record b { buffer = len ++ (plaintext ++ tag) })
          | panic ↦ panic
          | no_fuel ↦ no_fuel
        ]
      ]

  -- The same behind the length of a packet, with what the socket has then; a packet that is cut off
  -- stands in a buffer of its full length, `room`.
  unfoldable pub left_by_rest :
      CipherPair → SshBuffer → (len stream : Bytes) → (room : ℕ) → Result (SshBuffer × Bytes)
  unfolding left_by_packet
  left_by_rest pair b len stream room = elim (read_exact room stream) [
    | err e ↦ ok (record b { buffer = len ++ (stream ++ replicate (room - length stream) 0) }, [])
    | panic ↦ panic
    | no_fuel ↦ no_fuel
    | ok body ↦ do b' ← left_by_packet pair b len body.0; ok (b', body.1)
  ]

  -- The buffer that `cipher::read` leaves, however it ends, and what the socket has then
  unfoldable pub left_by_read : Bytes → SshBuffer → CipherPair → Result (SshBuffer × Bytes)
  unfolding left_by_rest
  left_by_read stream b pair = elim (read_exact 4 stream) [
    | err e ↦ ok (b, [])
    | panic ↦ panic
    | no_fuel ↦ no_fuel
    | ok first ↦ do
      clear_len ←
          unwrap (w.read_u32_be (decrypt_packet_length w na pair.remote_to_local b.seqn first.0))
      left_by_rest pair b first.0 first.1 (clear_len + opening_tag_len pair.remote_to_local)
  ]

module _ {H K KP : Type 0} (auth : Handler H K) (public_keys : PublicKeys K)
    (handler : ChannelHandler H) (env : ServerEnv KP) (m : Moment) where
  -- The end of a round: what waits is sent, and both buffers are cleared.
  unfoldable pub end_round : Option H → Session → SshBuffer → Bytes → Result (Round H)
  end_round h s b stream = do
    common ← session_flush env m s.common
    ok (
        goes_on (record {
          handler = h;
          session = record s {
            common = record common { write_buffer = record common.write_buffer { buffer = [] } };
          };
          buffer = record b { buffer = [] };
          stream = stream;
          sent = common.write_buffer.buffer;
        }))

  -- The text of a packet: no more is done with an empty one, or with one of the first four messages.
  unfoldable pub serve_text :
      Option H → Session → SshBuffer → Bytes → (text : Bytes) → Result (Round H)
  unfolding end_round
  serve_text h s b stream [] =
      ok (goes_on (record { handler = h; session = s; buffer = b; stream = stream; sent = [] }))
  serve_text h s b stream (c ∷ text) = elim (c == Msg.disconnect) [
    | true ↦ ok (stops h s)
    | false ↦ elim (leb c 4) [
      | true ↦
          ok (goes_on (record { handler = h; session = s; buffer = b; stream = stream; sent = [] }))
      | false ↦ do
        (h', s') ← reply auth public_keys handler env m h (c ∷ text) s
        end_round h' s' b stream
    ]
  ]

  -- What is in the buffer behind `cipher::read`, whose own result is not looked at
  unfoldable pub serve_buffer : Option H → Session → SshBuffer → Bytes → Result (Round H)
  unfolding serve_text
  serve_buffer h s b stream = elim (ltb (length b.buffer) 5) [
    | true ↦ ok (stops h s)
    | false ↦ elim s.common.encrypted [
      | none ↦ serve_text h s b stream (drop 5 b.buffer)
      | some enc ↦ elim (decompress env.flate m.rounds enc.decompress (drop 5 b.buffer)) [
        | ok r ↦
            serve_text h
              (record s {
                common = record s.common { encrypted = some (record enc { decompress = r.0 }) };
              })
              b stream r.1
        | err e ↦ ok (stops h s)
        | panic ↦ panic
        | no_fuel ↦ no_fuel
      ]
    ]
  ]

  -- A message of a handle
  unfoldable pub serve_message : CommonSession → Option (ℕ × ChannelMsg) → Result CommonSession
  serve_message s none = ok s
  serve_message s (some (id, content bytes)) = session_data env.wire s id bytes
  serve_message s (some (id, extended_content bytes ext)) =
      session_extended_data env.wire s id ext bytes
  serve_message s (some (id, end_of_content)) = ok (send_eof env.wire s id)
  serve_message s (some (id, xon_xoff client_can_do)) = xon_xoff_request env.wire s id client_can_do
  serve_message s (some (id, exit_status status)) = exit_status_request env.wire s id status
  serve_message s (some (id, exit_signal signal_name core_dumped error_message lang_tag)) =
      exit_signal_request env.wire s id signal_name core_dumped error_message lang_tag
  serve_message s (some (id, window_adjusted new_size)) = ok s
  serve_message s (some (id, success)) = ok s

  -- One round of the loop. While keys are exchanged, the messages of handles wait.
  unfoldable pub round : Event → Running H → Result (Round H)
  unfolding serve_buffer serve_message end_round
  round event r = elim r.session.common.disconnected [
    | true ↦ ok (stops r.handler r.session)
    | false ↦ elim event [
      | timeout ↦ ok (stops r.handler r.session)
      | packet ↦ do
        (b, stream) ← left_by_read env.wire env.sodium r.stream r.buffer r.session.common.cipher
        serve_buffer r.handler r.session b stream
      | message o ↦ elim (is_rekeying r.session.common) [
        | true ↦ ok (goes_on r)
        | false ↦ do
          common ← serve_message r.session.common o
          end_round r.handler (record r.session { common = common }) r.buffer r.stream
      ]
    ]
  ]

  -- The rounds of some events
  unfoldable pub rounds : List Event → Running H → Result (Round H)
  unfolding round
  rounds [] r = ok (goes_on r)
  rounds (e ∷ es) r = do
    next ← round e r
    elim next [ stops h s ↦ ok (stops h s) | goes_on r' ↦ rounds es r' ]
