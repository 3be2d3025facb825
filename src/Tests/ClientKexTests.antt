-- ===== src/Tests/ClientKexTests.antt =====
-- src/client/kex.rs, and `server_key_check` of src/client/mod.rs.
use thrussh_mod.Base.{
  ℕ, suc, ◌≡◌, refl, true, false, none, some, [], ◌∷◌, ◌++◌, replicate, Bytes, equal,
}
use thrussh_mod.Error.{ok}
use thrussh_mod.Samples.Bytewise.{bytewise}
use thrussh_mod.Samples.Toggle.{toggling}
use thrussh_mod.SshBuffer.{SshBuffer}
use thrussh_mod.Compression.{from_string}
use thrussh_mod.Negotiation.{
  default_preferred, kex_lists, read_kex, write_kex, client_select, select_loop, scan, split,
  extend_first,
}
use thrussh_mod.Kex.Check.{
  ServerKeys, Checker, Checked, server_key_check, check_key, check_signature,
  server_key_check-Checked,
}
use thrussh_mod.Kex.Client.{
  Answered, client_parse, client_write, send_init, send_dh, client_parse-Answered,
}
use thrussh_mod.Msg
use thrussh_mod.Cipher.{
  write, make_sealing_cipher, make_opening_cipher, keys_of, seal, padding_length, fill_padding,
  SealingCipher, OpeningCipher,
}
use thrussh_mod.Kex.{KexInit, KexDhDone, NewKeys}
use thrussh_mod.Kex.Derivation.{
  client_dh, compute_shared_secret, compute_exchange_hash, compute_keys, compute_key, extend_key,
  done_keys,
}
use thrussh_mod.Samples.Exchanges.{block, toy, exchange, clear_keys, second_state, empty_buffer}

abbrev client_state : KexInit
client_state = record { algo = none; exchange = exchange; session_id = some (4 ∷ []); sent = false }

abbrev server_message : Bytes
server_message = (Msg.kexinit ∷ replicate 16 9) ++ kex_lists bytewise default_preferred

abbrev own_message : Bytes
own_message = (Msg.kexinit ∷ replicate 16 5) ++ kex_lists bytewise default_preferred

abbrev dh_message : Bytes
dh_message = Msg.kex_ecdh_init ∷ bytewise.ssh_string (block 1)

abbrev sent_buffer : SshBuffer
sent_buffer = record {
  buffer =
      (0 ∷ 0 ∷ 0 ∷ 252 ∷ 6 ∷ own_message)
      ++ (replicate 6 0 ++ ((0 ∷ 0 ∷ 0 ∷ 44 ∷ 6 ∷ dh_message) ++ replicate 6 0));
  len = 0;
  bytes = 282;
  seqn = 2;
}

abbrev client_done : KexDhDone
client_done = record {
  exchange = record exchange {
    client_kex_init = own_message;
    server_kex_init = server_message;
    client_ephemeral = block 1;
  };
  kex = record { local_secret = some (7 ∷ []); shared_secret = none };
  key = 0;
  session_id = some (4 ∷ []);
  names = second_state.names;
}

answers :
    client_parse bytewise toggling toy default_preferred clear_keys client_state
      (some (replicate 16 5))
      (some (7 ∷ []))
      server_message
      empty_buffer
    ≡ ok (client_done, sent_buffer)
unfolding client_parse send_init client_write send_dh read_kex client_select select_loop scan split
    extend_first kex_lists equal from_string client_dh write_kex write seal padding_length
    fill_padding
answers = refl

client_parse-Answered_example :
    Answered bytewise toggling toy default_preferred clear_keys client_state
      (some (replicate 16 5))
      (some (7 ∷ []))
      server_message
      empty_buffer
      (client_done, sent_buffer)
client_parse-Answered_example =
    client_parse-Answered bytewise toggling toy default_preferred clear_keys client_state
      (some (replicate 16 5)) (some (7 ∷ [])) server_message empty_buffer client_done sent_buffer
      answers

-- A key that signs a hash with the hash itself.
abbrev plain_keys : ServerKeys Bytes
plain_keys = record {
  parse_public_key = λ k. ok k;
  push_to = λ k. bytewise.ssh_string k;
  verify_server_auth = λ k hash sig. equal hash sig;
}

-- A handler that counts the keys it takes.
abbrev counting : Checker ℕ Bytes
counting n k = ok (suc n, true)

abbrev short_done : KexDhDone
short_done = record client_done {
  exchange = record exchange { client_ephemeral = block 1 };
  session_id = none;
}

abbrev server_reply : Bytes
server_reply =
    Msg.kex_ecdh_reply
    ∷ (bytewise.ssh_string (6 ∷ [])
        ++ (bytewise.ssh_string (block 2)
            ++ bytewise.ssh_string
                (bytewise.ssh_string (1 ∷ []) ++ bytewise.ssh_string (block 127))))

abbrev client_keys : NewKeys
client_keys = record {
  exchange = record short_done.exchange { server_ephemeral = block 2 };
  names = second_state.names;
  kex = record { local_secret = none; shared_secret = some (block 3) };
  key = 0;
  cipher = record {
    local_to_remote = SealingCipher.chacha20_poly1305 (block 96) (block 97);
    remote_to_local = OpeningCipher.chacha20_poly1305 (block 96) (block 97);
  };
  session_id = block 127;
  received = false;
  sent = true;
}

takes :
    server_key_check bytewise toy plain_keys counting short_done false (some 3) server_reply
    ≡ ok (client_keys, some 4)
unfolding server_key_check check_key check_signature done_keys compute_shared_secret
    compute_exchange_hash compute_keys compute_key extend_key equal make_sealing_cipher
    make_opening_cipher keys_of
takes = refl

server_key_check-Checked_example :
    Checked bytewise toy plain_keys counting short_done false
      (some 3)
      server_reply
      (client_keys, some 4)
server_key_check-Checked_example =
    server_key_check-Checked bytewise toy plain_keys counting short_done false (some 3) server_reply
      client_keys (some 4) takes
