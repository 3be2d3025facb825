-- ===== src/Samples/Sessions.antt =====
-- An encrypted session with two channels, one of them with a block that waits.
use thrussh_mod.Base.{true, false, none, [], ◌∷◌}
use thrussh_mod.Base.Dict.{insert}
use thrussh_mod.Compression.{Compression, Compress, Decompress}
use thrussh_mod.Channel.{Channel}
use thrussh_mod.Encrypted.{EncryptedState, Encrypted}

-- A channel with room for five bytes, in packets of two.
abbrev pub narrow : Channel
narrow = record {
  recipient_channel = 4;
  sender_channel = 1;
  recipient_window_size = 5;
  sender_window_size = 10;
  recipient_maximum_packet_size = 2;
  sender_maximum_packet_size = 100;
  confirmed = true;
  wants_reply = false;
  pending_data = [];
}

abbrev pub waiting : Channel
waiting = record narrow { sender_channel = 2; pending_data = (1 ∷ 2 ∷ [], none, 0) ∷ [] }

abbrev pub session : Encrypted
session = record {
  state = EncryptedState.authenticated;
  exchange = none;
  kex = record { local_secret = none; shared_secret = none };
  key = 0;
  mac = none;
  session_id = [];
  rekey = none;
  channels = insert 1 narrow (insert 2 waiting []);
  last_channel_id = 1;
  wants_reply = false;
  write = [];
  write_cursor = 0;
  last_rekey = 0;
  server_compression = Compression.none;
  client_compression = Compression.none;
  compress = Compress.none;
  decompress = Decompress.none;
}
