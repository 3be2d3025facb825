-- ===== src/Tests/DialogueTests.antt =====
-- The opening of a channel: src/client/session.rs and src/client/encrypted.rs with
-- src/server/encrypted.rs.
use thrussh_mod.Base.{none, Option, ℕ, ◌≡◌, refl, false, some, [], arith, Bytes, codes}
use thrussh_mod.Base.Dict.{lookup, insert}
use thrussh_mod.Error.{ok}
use thrussh_mod.Channel.{Channel}
use thrussh_mod.Encrypted.{Encrypted}
use thrussh_mod.ServerRead
use thrussh_mod.ServerRead.Open.{server_handle_channel_open}
use thrussh_mod.ClientSession.{Opening, direct_tcpip, open_message}
use thrussh_mod.Client.{Session, Call, calls}
use thrussh_mod.Client.Answers.{with_enc}
use thrussh_mod.Client.Channels.{read_confirmation}
use thrussh_mod.Dialogue.Opening.{
  opening_call, on_this_side, with_encrypted, channel_open_handshake,
}
use thrussh_mod.ServerRead.Opening.{WithChannel, grant}
use thrussh_mod.Utf8.{is_utf8}
use thrussh_mod.Samples.Bytewise.{bytewise}
use thrussh_mod.Samples.Sessions.{session}
use thrussh_mod.Samples.Servers.{connected, config}
use thrussh_mod.Samples.Clients.{client, client_config, counting_client}

-- A channel that the client has asked for
abbrev asked : Channel
asked = record {
  recipient_channel = 0;
  sender_channel = 5;
  recipient_window_size = 0;
  sender_window_size = 100;
  recipient_maximum_packet_size = 0;
  sender_maximum_packet_size = 10;
  confirmed = false;
  wants_reply = false;
  pending_data = [];
}

abbrev asking : Encrypted
asking = record session { channels = insert 5 asked session.channels }

abbrev client_asking : Session Bytes Bytes
client_asking = record client { common = record client.common { encrypted = some asking } }

is_asked : lookup 5 asking.channels ≡ some asked
unfolding lookup insert
is_asked = refl

abbrev no_calls : Option ℕ
no_calls = some 0

abbrev tunnel : Opening
tunnel = direct_tcpip (codes "host") 80 (codes "me") 9

channel_open_handshake_example :
    (id_s : ℕ) × (lookup id_s session.channels ≡ none)
    × (server_handle_channel_open bytewise config no_calls
          (open_message bytewise client_config tunnel 5)
          connected
        ≡ ok (
            ServerRead.calls no_calls
              (opening_call id_s tunnel)
              (with_encrypted connected (WithChannel bytewise config session id_s 5 100 10))))
    × (read_confirmation counting_client bytewise client_config no_calls client_asking
          (grant bytewise config id_s 5)
        ≡ ok (
            calls no_calls
              (Call.channel_open_confirmation 5 10 100)
              (with_enc client_asking (on_this_side asking asked 5 id_s 100 10))))
unfolding is_utf8 lookup insert
channel_open_handshake_example =
    channel_open_handshake counting_client bytewise client_config config no_calls no_calls tunnel 5
      connected session client_asking asking asked refl (omega arith)
      ((omega arith, refl), omega arith, (omega arith, refl), omega arith) (omega arith)
      (omega arith) (omega arith) (omega arith) (omega arith) refl is_asked
