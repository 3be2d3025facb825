-- ===== src/Tests/SessionTests.antt =====
-- src/session.rs and src/server/session.rs: replies and forwarding channels.
use thrussh_mod.Base.{◌≡◌, refl, true, false, none, some, [], ◌∷◌, ◌++◌, arith, codes}
use thrussh_mod.Base.Dict.{lookup, insert}
use thrussh_mod.Error.{ok}
use thrussh_mod.Wire.{packet, push_packet}
use thrussh_mod.Samples.Bytewise.{bytewise}
use thrussh_mod.Samples.Sessions.{narrow, waiting, session}
use thrussh_mod.Negotiation.{default_preferred}
use thrussh_mod.Auth.{publickey_set}
use thrussh_mod.Cipher.{SealingCipher, OpeningCipher}
use thrussh_mod.Encrypted.{Encrypted}
use thrussh_mod.CommonSession.{CommonSession}
use thrussh_mod.ServerConfig.{ServerConfig}
use thrussh_mod.ServerSession.{channel_reply}
use thrussh_mod.ServerSession.Replies.{
  Opening, channel_reply_once, channel_open_forwarded_tcpip_opens,
}
use thrussh_mod.Msg

abbrev asking : Encrypted
asking = record session { channels = (1, record narrow { wants_reply = true }) ∷ (2, waiting) ∷ [] }

abbrev common : CommonSession
common = record {
  auth_user = codes "me";
  encrypted = some asking;
  write_buffer = record { buffer = []; len = 0; bytes = 0; seqn = 0 };
  kex = none;
  cipher = record { local_to_remote = SealingCipher.clear; remote_to_local = OpeningCipher.clear };
  wants_reply = false;
  disconnected = false;
}

abbrev config : ServerConfig
config = record {
  methods = publickey_set;
  auth_banner = none;
  limits = record { rekey_write_limit = 1; rekey_read_limit = 1; rekey_time_limit = 1 };
  window_size = 100;
  maximum_packet_size = 10;
  preferred = default_preferred;
}

abbrev replied : CommonSession
replied = record common {
  encrypted = some (record asking {
    channels = (1, narrow) ∷ (2, waiting) ∷ [];
    write = [] ++ packet bytewise (Msg.channel_success ∷ bytewise.u32_be 4);
  });
}

replies : channel_reply bytewise Msg.channel_success common 1 ≡ ok replied
unfolding channel_reply lookup insert push_packet
replies = refl

channel_reply_once_example : channel_reply bytewise Msg.channel_failure replied 1 ≡ ok replied
channel_reply_once_example =
    channel_reply_once bytewise Msg.channel_success Msg.channel_failure common replied 1 replies

channel_open_forwarded_tcpip_opens_example :
    Opening bytewise config common asking (codes "a") 1 (codes "b") 2
channel_open_forwarded_tcpip_opens_example =
    channel_open_forwarded_tcpip_opens bytewise config common asking (codes "a") 1 (codes "b") 2
      refl (omega arith)
