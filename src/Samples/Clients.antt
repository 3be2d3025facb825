-- ===== src/Samples/Clients.antt =====
-- A client with its keys, a session of it, and a handler that counts.
use thrussh_mod.Base.{ℕ, suc, true, none, [], Bytes, codes, refl, arith, ◌++◌}
use thrussh_mod.Error.{ok}
use thrussh_mod.ClientSession.{ClientConfig}
use thrussh_mod.Negotiation.{default_preferred}
use thrussh_mod.Client.{ClientKeys, ClientHandler, Session}
use thrussh_mod.Dialogue.PublicKey.{Pair}
use thrussh_mod.Samples.Bytewise.{bytewise}
use thrussh_mod.Client.Packets.{ClientEnv}
use thrussh_mod.Samples.Toggle.{toggling}
use thrussh_mod.Samples.Exchanges.{toy}
use thrussh_mod.Samples.Servers.{any_key, connected, no_flate}

-- Keys that are their own texts, with an empty signature
abbrev pub plain_keys : ClientKeys Bytes Bytes
plain_keys = record {
  name = λ k. codes "plain";
  push_to = λ k. bytewise.ssh_string k;
  public_name = λ k. codes "plain";
  public_push_to = λ k. bytewise.ssh_string k;
  self_signature = λ k buffer.
      ok (bytewise.ssh_string (bytewise.ssh_string (codes "plain") ++ bytewise.ssh_string []));
}

abbrev pub plain_pair : Pair bytewise plain_keys any_key (codes "key") (codes "key")
plain_pair = record {
  blob = codes "key";
  push_to-blob = refl;
  short_blob = omega arith;
  short_name = omega arith;
  parse-blob = refl;
  signature = λ buffer. [];
  self_signature-signature = λ buffer. refl;
  short_signature = λ buffer. omega arith;
  short_text = λ buffer. omega arith;
  verify-signature = λ buffer. refl;
}

abbrev pub client_config : ClientConfig
client_config = record {
  limits = record { rekey_write_limit = 1; rekey_read_limit = 1; rekey_time_limit = 1 };
  window_size = 100;
  maximum_packet_size = 10;
  preferred = default_preferred;
}

abbrev pub client : Session Bytes Bytes
client = record {
  common = connected.common;
  auth_method = none;
  buffer = [];
  replies = [];
  listening = true;
  received = [];
  target_window_size = 100;
}

abbrev pub counting_client : ClientHandler ℕ Bytes Bytes
counting_client = record {
  handle = λ h call s. ok (suc h, s);
  adjust_window = λ h channel target. (h, 0);
}

abbrev pub client_env : ClientEnv ℕ Bytes Bytes
client_env = record {
  wire = bytewise;
  sodium = toggling;
  flate = no_flate;
  primitives = toy;
  config = client_config;
  keys = plain_keys;
  server_keys = record {
    parse_public_key = λ blob. ok blob;
    push_to = λ k. bytewise.ssh_string k;
    verify_server_auth = λ k buffer sig. true;
  };
  check_server_key = λ h k. ok (h, true);
  handler = counting_client;
}
