-- ===== src/Samples/Servers.antt =====
-- A server with its host keys, a session of it, and handlers that count.
use thrussh_mod.Base.{ℕ, suc, false, true, none, some, List, [], ◌∷◌, Bytes, codes}
use thrussh_mod.Error.{ok}
use thrussh_mod.Compression.{Flate}
use thrussh_mod.Auth.{publickey_set}
use thrussh_mod.Negotiation.{default_preferred}
use thrussh_mod.ServerConfig.{ServerConfig}
use thrussh_mod.Kex.Server.{HostKeys}
use thrussh_mod.ServerAuth.{Handler, PublicKeys, accept}
use thrussh_mod.ServerSession.Flush.{ServerEnv, Moment}
use thrussh_mod.ServerRead.{Session, ChannelHandler}
use thrussh_mod.Samples.Bytewise.{bytewise}
use thrussh_mod.Samples.Toggle.{toggling}
use thrussh_mod.Samples.Sessions.{session}
use thrussh_mod.Samples.Exchanges.{toy, clear_keys, empty_buffer}

-- Host keys that are their own names.
abbrev pub named_keys : HostKeys Bytes
named_keys = record {
  name = λ k. k;
  push_to = λ k. bytewise.ssh_string k;
  add_signature = λ k hash. ok hash;
}

abbrev pub config : ServerConfig
config = record {
  methods = publickey_set;
  auth_banner = none;
  limits = record { rekey_write_limit = 1; rekey_read_limit = 1; rekey_time_limit = 1 };
  window_size = 100;
  maximum_packet_size = 10;
  preferred = default_preferred;
}

abbrev pub host_keys : List Bytes
host_keys = codes "rsa-sha2-256" ∷ codes "ssh-ed25519" ∷ []

abbrev pub no_flate : Flate
no_flate = record { compress = λ z input room. none; decompress = λ z input room. none }

abbrev pub server : ServerEnv Bytes
server = record {
  wire = bytewise;
  sodium = toggling;
  flate = no_flate;
  primitives = toy;
  host = named_keys;
  config = config;
  keys = host_keys;
}

abbrev pub moment : Moment
moment = record { now = 0; cookie = none; random = none; rounds = 1 }

abbrev pub connected : Session
connected = record {
  common = record {
    auth_user = codes "me";
    encrypted = some session;
    write_buffer = empty_buffer;
    kex = none;
    cipher = clear_keys;
    wants_reply = false;
    disconnected = false;
  };
  target_window_size = 100;
}

-- A handler that counts the calls, and one that does nothing.
abbrev pub counting : ChannelHandler ℕ
counting = record {
  handle = λ h call s. ok (suc h, s);
  tcpip_forward = λ h address port s. ok (suc h, s, true);
  cancel_tcpip_forward = λ h address port s. ok (suc h, s, true);
  adjust_window = λ h channel target. (h, 0);
}

abbrev pub idle : ChannelHandler ℕ
idle = record counting { handle = λ h call s. ok (h, s) }

abbrev pub trusting : Handler ℕ Bytes
trusting = record {
  auth_password = λ h user password. ok (h, accept);
  auth_publickey = λ h user key. ok (h, accept);
  auth_keyboard_interactive = λ h user submethods response. ok (h, accept);
}

abbrev pub any_key : PublicKeys Bytes
any_key = record { parse = λ algo key. ok key; verify_client_auth = λ key buffer sig. true }
