-- ===== src/Tests/KexTests.antt =====
-- src/kex.rs and src/server/kex.rs: key exchanges over a toy curve and a toy hash.
use thrussh_mod.Base.{
  ◌≡◌, refl, true, false, none, some, [], ◌∷◌, ◌++◌, replicate, length, Bytes, equal,
}
use thrussh_mod.Error.{ok}
use thrussh_mod.Samples.Bytewise.{bytewise}
use thrussh_mod.Samples.Toggle.{toggling}
use thrussh_mod.Compression.{from_string}
use thrussh_mod.Negotiation.{
  default_preferred, kex_lists, read_kex, server_select, select_loop, scan, split, extend_first,
}
use thrussh_mod.Kex.Server.{server_parse, answer_init, find_key, parse_dh}
use thrussh_mod.Kex.Steps.{Parsed, server_parse-Parsed}
use thrussh_mod.Kex.Second.{Derived, parse_dh-Derived}
use thrussh_mod.Cipher.{CipherPair}
use thrussh_mod.Msg
use thrussh_mod.Cipher.Seal.{matching}
use thrussh_mod.Kex.{Algorithm, KexInit, KexDh, kex_dh}
use thrussh_mod.Kex.Derivation.{
  client_dh, server_dh, compute_shared_secret, compute_keys, chacha_name,
}
use thrussh_mod.Kex.Matching.{compute_keys-matching, dh_agree}
use thrussh_mod.Samples.Servers.{named_keys, config, host_keys}
use thrussh_mod.Samples.Exchanges.{
  block, toy, exchange, clear_keys, second_state, client_message, empty_buffer,
}

abbrev shared : Algorithm
shared = record { local_secret = none; shared_secret = some (block 5) }

compute_keys-matching_example :
    (server : CipherPair) × (client : CipherPair) × (compute_keys bytewise toy shared
        (1 ∷ [])
        (2 ∷ [])
        chacha_name
        true
      ≡ ok server)
    × (compute_keys bytewise toy shared (1 ∷ []) (2 ∷ []) chacha_name false ≡ ok client)
    × (client.remote_to_local ≡ matching server.local_to_remote)
    × (server.remote_to_local ≡ matching client.local_to_remote)
compute_keys-matching_example =
    compute_keys-matching bytewise toy (λ m. (block (length m), refl)) shared (1 ∷ []) (2 ∷ [])

dh_agree_example :
    let agreed : Algorithm = record {
      local_secret = none;
      shared_secret = some (toy.scalarmult (8 ∷ 9 ∷ []) (toy.scalarmult_base (7 ∷ [])));
    } in
    let point : Bytes = toy.scalarmult_base (8 ∷ 9 ∷ []) in
    (start : Algorithm) × (message : Bytes) × (client_dh bytewise toy (some (7 ∷ [])) []
      ≡ ok (start, toy.scalarmult_base (7 ∷ []), message))
    × (server_dh bytewise toy (some (8 ∷ 9 ∷ [])) exchange message
        ≡ ok (agreed, record exchange { server_ephemeral = point }))
    × (compute_shared_secret bytewise toy start point ≡ ok agreed)
dh_agree_example = dh_agree bytewise toy (7 ∷ []) (8 ∷ 9 ∷ []) exchange

abbrev first_state : KexInit
first_state = record { algo = none; exchange = exchange; session_id = some (4 ∷ []); sent = true }

parses :
    server_parse named_keys bytewise toggling toy config host_keys clear_keys first_state none
      client_message empty_buffer
    ≡ ok (kex_dh second_state, empty_buffer)
unfolding server_parse answer_init read_kex server_select select_loop scan split extend_first
    kex_lists equal from_string find_key
parses = refl

abbrev init_payload : Bytes
init_payload = replicate 16 7 ++ kex_lists bytewise default_preferred

server_parse-Parsed_example :
    Parsed named_keys bytewise toggling toy config host_keys clear_keys first_state Msg.kexinit
      init_payload empty_buffer
      (server_parse named_keys bytewise toggling toy config host_keys clear_keys first_state none
        (Msg.kexinit ∷ init_payload)
        empty_buffer)
server_parse-Parsed_example =
    server_parse-Parsed named_keys bytewise toggling toy config host_keys clear_keys first_state
      none Msg.kexinit init_payload empty_buffer

abbrev guessed : KexDh
guessed = record second_state { names = record second_state.names { ignore_guessed = true } }

passes_over :
    parse_dh named_keys bytewise toggling toy config host_keys clear_keys guessed none
      (1 ∷ [])
      empty_buffer
    ≡ ok (kex_dh second_state, empty_buffer)
unfolding parse_dh
passes_over = refl

parse_dh-Derived_example :
    Derived named_keys bytewise toggling toy config host_keys clear_keys guessed
      (1 ∷ [])
      empty_buffer
      (parse_dh named_keys bytewise toggling toy config host_keys clear_keys guessed none
        (1 ∷ [])
        empty_buffer)
parse_dh-Derived_example =
    parse_dh-Derived named_keys bytewise toggling toy config host_keys clear_keys guessed none
      (1 ∷ []) empty_buffer
