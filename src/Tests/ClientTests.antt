-- ===== src/Tests/ClientTests.antt =====
-- src/client/encrypted.rs with the server that it meets, and a server after a key exchange.
use thrussh_mod.Base.{
  ℕ, ◌≡◌, refl, false, Option, none, some, [], ◌∷◌, replicate, arith, Bytes, codes,
}
use thrussh_mod.Base.Dict.{insert, remove}
use thrussh_mod.Error.{Result, ok}
use thrussh_mod.Wire.{push_packet}
use thrussh_mod.Utf8.{is_utf8}
use thrussh_mod.Cipher
use thrussh_mod.Negotiation.{write_kex}
use thrussh_mod.Auth.{AuthRequest, publickey_set}
use thrussh_mod.Encrypted.{waiting_auth_request}
use thrussh_mod.Encrypted.Flush.{flush, flush_loop, finish_flush}
use thrussh_mod.Kex.{new_keys}
use thrussh_mod.Kex.Server.{server_write}
use thrussh_mod.CommonSession.{CommonSession, newkeys}
use thrussh_mod.ServerAuth.{AuthSession, succeed}
use thrussh_mod.ServerAuth.Requests.{server_read_auth_request}
use thrussh_mod.ServerSession.Flush.{Moment, session_flush, flushed, begin_exchange}
use thrussh_mod.ServerReply.{continue_rekey}
use thrussh_mod.ServerReply.Again.{Begun, continue_rekey-again}
use thrussh_mod.Client.{Session, Call, calls, public_key}
use thrussh_mod.Client.Auth.{auth_message, client_send_signature}
use thrussh_mod.Client.Channels.{read_close}
use thrussh_mod.Client.Read.{client_read_step}
use thrussh_mod.Client.Frame.{Frame, client_read_step-Frame}
use thrussh_mod.Dialogue.PublicKey.{approved, public_key_login}
use thrussh_mod.Samples.Bytewise.{bytewise}
use thrussh_mod.Samples.Sessions.{waiting, session}
use thrussh_mod.Samples.Servers.{server, moment, connected, trusting, any_key}
use thrussh_mod.Samples.Clients.{plain_keys, plain_pair, client, client_config, counting_client}
use thrussh_mod.Tests.ServerTests.{fresh_keys}
use thrussh_mod.Msg

abbrev closing : Bytes
closing = Msg.channel_close ∷ bytewise.u32_be 1

abbrev closed : Session Bytes Bytes
closed = record client {
  common = record client.common {
    encrypted = some (record session { channels = (2, waiting) ∷ [] });
  };
}

abbrev asked : Option ℕ
asked = some 0

client_closes :
    client_read_step counting_client plain_keys bytewise client_config Msg.channel_close asked
      client closing
    ≡ ok (calls asked (Call.channel_close 1) closed)
unfolding client_read_step read_close remove insert
client_closes = refl

client_read_step-Frame_example :
    Frame counting_client plain_keys bytewise client_config closing client
      (calls asked (Call.channel_close 1) closed)
client_read_step-Frame_example =
    client_read_step-Frame counting_client plain_keys bytewise client_config Msg.channel_close asked
      client closing client_closes

abbrev request : AuthRequest
request = record {
  methods = publickey_set;
  partial_success = false;
  current = none;
  rejection_count = 0;
}

abbrev waits : AuthSession ℕ
waits = record {
  enc = record session { state = waiting_auth_request request };
  handler = some 0;
  auth_user = [];
}

public_key_login_example :
    let s' =
      approved bytewise trusting any_key plain_keys waits request 0
        (codes "me")
        (codes "plain")
        (codes "key") in
    (body : Bytes) × (signed_text : Bytes) × (server_read_auth_request bytewise trusting any_key
        waits
        (auth_message bytewise plain_keys (codes "me") (public_key (codes "key")))
      ≡ ok s')
    × (client_send_signature bytewise plain_keys session (codes "me") (public_key (codes "key")) []
        ≡ ok (record session { write = push_packet bytewise session.write body }, signed_text))
    × (server_read_auth_request bytewise trusting any_key s' body
        ≡ ok (succeed bytewise s' (some 0) (codes "me")))
unfolding is_utf8
public_key_login_example =
    public_key_login bytewise trusting any_key plain_keys (codes "key") (codes "key") plain_pair
      (codes "me") waits request 0 0 session [] (omega arith, refl) refl refl refl refl

abbrev busy : CommonSession
busy = record connected.common { write_buffer = record connected.common.write_buffer { bytes = 1 } }

abbrev keyed : CommonSession
keyed = record busy {
  encrypted = some (record session {
    exchange = some fresh_keys.exchange;
    kex = fresh_keys.kex;
    key = 1;
    mac = fresh_keys.names.mac;
  });
}

abbrev later : Moment
later = record moment { cookie = some (replicate 16 7) }

reads_newkeys :
    continue_rekey server moment busy session
      (Msg.newkeys ∷ [])
      Msg.newkeys
      (some (new_keys fresh_keys))
    ≡ ok (some keyed)
unfolding continue_rekey newkeys
reads_newkeys = refl

-- What a computation returns, or the session it began with
abbrev returned : Result CommonSession → CommonSession → CommonSession
returned (ok s) other = s
returned _ other = other

abbrev flushed_again : CommonSession
flushed_again = returned (session_flush server later keyed) keyed

begins_again : session_flush server later keyed ≡ ok flushed_again
unfolding session_flush flush flush_loop finish_flush flushed begin_exchange server_write write_kex
    Cipher.write Cipher.padding_length
begins_again = refl

continue_rekey-again_example : Begun flushed_again
continue_rekey-again_example =
    continue_rekey-again server moment later busy session (Msg.newkeys ∷ []) fresh_keys keyed
      flushed_again refl (omega arith) reads_newkeys begins_again
