-- ===== src/Tests/ServerTests.antt =====
-- src/server/encrypted.rs and `reply` of src/server/mod.rs, with src/client/session.rs.
use thrussh_mod.Base.{
  ℕ, ◌≡◌, refl, inr, true, false, Option, none, some, [], ◌∷◌, ◌++◌, arith, Bytes, codes, equal,
}
use thrussh_mod.Base.Dict.{lookup, insert, remove}
use thrussh_mod.Error.{ok, err, keys_index_out_of_bounds}
use thrussh_mod.Wire.{push_packet}
use thrussh_mod.Codes.{Sig, name}
use thrussh_mod.Pty.{Pty, to_u8}
use thrussh_mod.Encrypted.{Encrypted, new_channel_id, next_vacant}
use thrussh_mod.Kex.{NewKeys, new_keys}
use thrussh_mod.CommonSession.{CommonSession, newkeys}
use thrussh_mod.ClientSession.{exec, signal, modes_bytes, request_message}
use thrussh_mod.ServerRead.{Session, Call, calls}
use thrussh_mod.ServerRead.Open.{
  open_kind, confirm_channel_open, next_channel_id, server_handle_channel_open,
}
use thrussh_mod.ServerRead.Requests.{read_modes}
use thrussh_mod.ServerRead.Modes.{read_modes-modes_bytes}
use thrussh_mod.ServerRead.Messages.{read_step, read_close, server_read_authenticated}
use thrussh_mod.ServerRead.Frame.{Frame, read_step-Frame}
use thrussh_mod.ServerRead.Opening.{Opened, WithChannel, server_handle_channel_open-Opened}
use thrussh_mod.ServerReply.{reply, continue_rekey}
use thrussh_mod.ServerReply.Isolation.{reply_isolated}
use thrussh_mod.ServerSession.Flushing.{SameIn}
use thrussh_mod.ServerReply.Rekeying.{rekey_keeps}
use thrussh_mod.Dialogue.Requests.{noted, server_read_authenticated-request}
use thrussh_mod.Dialogue.Signals.{server_read_authenticated-signal}
use thrussh_mod.Samples.Bytewise.{bytewise}
use thrussh_mod.Samples.Sessions.{waiting, session}
use thrussh_mod.Samples.Exchanges.{second_state, clear_keys, block}
use thrussh_mod.Samples.Servers.{
  server, moment, connected, counting, idle, trusting, any_key, config,
}
use thrussh_mod.Msg

abbrev closing : Bytes
closing = Msg.channel_close ∷ bytewise.u32_be 1

abbrev closed : Session
closed = record connected {
  common = record connected.common {
    encrypted = some (record session { channels = (2, waiting) ∷ [] });
  };
}

closes :
    read_step counting server moment Msg.channel_close (some 0) closing connected
    ≡ ok (calls (some 0) (Call.channel_close 1) closed)
unfolding read_step read_close remove insert
closes = refl

read_step-Frame_example :
    Frame counting server moment closing connected (calls (some 0) (Call.channel_close 1) closed)
read_step-Frame_example =
    read_step-Frame counting server moment Msg.channel_close (some 0) closing connected refl closes

read_modes-modes_bytes_example :
    read_modes bytewise (modes_bytes bytewise ((Pty.vintr, 3) ∷ []) ++ (0 ∷ 9 ∷ []))
    ≡ ok ((Pty.vintr, 3) ∷ [])
unfolding to_u8
read_modes-modes_bytes_example =
    read_modes-modes_bytes bytewise ((Pty.vintr, 3) ∷ []) (9 ∷ []) ((refl, omega arith), tt)

abbrev no_calls : Option ℕ
no_calls = some 0

abbrev opening : Bytes
opening =
    Msg.channel_open
    ∷ (bytewise.ssh_string (codes "session")
        ++ (bytewise.u32_be 7 ++ (bytewise.u32_be 50 ++ bytewise.u32_be 20)))

abbrev opened : Session
opened = record connected {
  common = record connected.common {
    encrypted = some (WithChannel bytewise config session 3 7 50 20);
  };
}

opens :
    server_handle_channel_open bytewise config no_calls opening connected
    ≡ ok (calls no_calls (Call.channel_open_session 3) opened)
unfolding server_handle_channel_open open_kind confirm_channel_open next_channel_id new_channel_id
    next_vacant lookup insert equal push_packet
opens = refl

server_handle_channel_open-Opened_example :
    Opened bytewise config session opening (calls no_calls (Call.channel_open_session 3) opened)
unfolding insert
server_handle_channel_open-Opened_example =
    server_handle_channel_open-Opened bytewise config no_calls opening connected session refl
      (omega arith) opens

reply_isolated_example :
    reply trusting any_key counting server moment
      (some 0)
      (1 ∷ [])
      (record connected { common = record connected.common { encrypted = none } })
    ≡ reply trusting any_key idle server moment
        (some 0)
        (1 ∷ [])
        (record connected { common = record connected.common { encrypted = none } })
reply_isolated_example =
    reply_isolated trusting any_key server moment counting idle (some 0) (1 ∷ [])
      (record connected { common = record connected.common { encrypted = none } }) tt

abbrev pub fresh_keys : NewKeys
fresh_keys = record {
  exchange = second_state.exchange;
  names = second_state.names;
  kex = record { local_secret = none; shared_secret = some (block 3) };
  key = 1;
  cipher = clear_keys;
  session_id = 4 ∷ [];
  received = false;
  sent = true;
}

abbrev rekeying : Encrypted
rekeying = record session { rekey = some (new_keys fresh_keys) }

abbrev rekeyed : CommonSession
rekeyed = record connected.common {
  encrypted = some (record session {
    exchange = some fresh_keys.exchange;
    kex = fresh_keys.kex;
    key = 1;
    mac = fresh_keys.names.mac;
  });
}

changes_keys :
    continue_rekey server moment connected.common rekeying
      (Msg.newkeys ∷ [])
      Msg.newkeys
      rekeying.rekey
    ≡ ok (some rekeyed)
unfolding continue_rekey newkeys
changes_keys = refl

rekey_keeps_example : SameIn connected.common rekeying rekeyed
rekey_keeps_example =
    rekey_keeps server moment connected.common rekeying (Msg.newkeys ∷ []) Msg.newkeys rekeyed
      (inr changes_keys)

server_read_authenticated-request_example :
    server_read_authenticated counting server moment
      (some 0)
      (request_message bytewise (exec (codes "ls")) true 1)
      connected
    ≡ ok (some 1, noted counting server moment 1 true connected)
server_read_authenticated-request_example =
    server_read_authenticated-request counting server moment 0 (exec (codes "ls")) true 1 connected
      (omega arith) (omega arith)

server_read_authenticated-signal_example :
    server_read_authenticated counting server moment
      (some 0)
      (request_message bytewise (signal Sig.term) false 1)
      connected
    ≡ err keys_index_out_of_bounds
unfolding name
server_read_authenticated-signal_example =
    server_read_authenticated-signal counting server moment (some 0) Sig.term 1 connected
      (omega arith) (omega arith) (omega arith)
