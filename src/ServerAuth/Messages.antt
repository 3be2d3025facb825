-- ===== src/ServerAuth/Messages.antt =====
-- src/server/encrypted.rs: `server_read_encrypted` behind its part on key exchange, which matches
-- on the state of the session.
use thrussh_mod.Base.{
  ℕ, Bool, true, false, Option, none, some, [], ◌∷◌, ◌==◌, if◌then◌else◌, Bytes, codes, equal,
}
use thrussh_mod.Error.{Result, ok, panic, ◌>>=◌, unwrap}
use thrussh_mod.Wire.{Wire, read_string?, read_u32?}
use thrussh_mod.Auth.{CurrentRequest, AuthRequest}
use thrussh_mod.Compression.{init_compress, init_decompress}
use thrussh_mod.Encrypted.{
  EncryptedState, Encrypted, waiting_service_request, waiting_auth_request, authenticated,
}
use thrussh_mod.ServerAuth.{
  Handler, PublicKeys, AuthSession, server_accept_service, turn_down, reply_userauth_info_response,
}
use thrussh_mod.ServerAuth.Requests.{server_read_auth_request}
use thrussh_mod.ServerConfig.{ServerConfig}
use thrussh_mod.Msg

-- `if let EncryptedState::InitCompression = enc.state { .. }`
abbrev pub start_decompress : Encrypted → EncryptedState → Encrypted
start_decompress enc EncryptedState.init_compression = record enc {
  decompress = init_decompress enc.client_compression enc.decompress;
}
start_decompress enc _ = enc

-- `buf[0]`
abbrev pub first_byte : Bytes → Result ℕ
first_byte [] = panic
first_byte (b ∷ bs) = ok b

module _ (w : Wire) where
  -- A service request: `ssh-userauth` is accepted, any other is passed over.
  unfoldable pub read_service_request :
      {H : Type 0} → ServerConfig → AuthSession H → Bytes → Result (AuthSession H)
  read_service_request config s buf = do
    (request, r) ← read_string? w buf 1
    let (write, a) = server_accept_service w config.auth_banner config.methods s.enc.write
    ok (
        if equal request (codes "ssh-userauth")
        then record s { enc = record s.enc { write = write; state = waiting_auth_request a } }
        else s)

module _ (w : Wire) {H K : Type 0} (handler : Handler H K) (keys : PublicKeys K) where
  -- The answers to the request `current`, of which only a dialogue expects any.
  unfoldable pub answered :
      AuthSession H → AuthRequest → Bytes → Option CurrentRequest → Result (AuthSession H × Bool)
  answered s a buf (some (CurrentRequest.keyboard_interactive submethods)) = do
    (n, r) ← read_u32? w buf 1
    h ← unwrap s.handler
    (h', auth) ←
        handler.auth_keyboard_interactive h s.auth_user submethods
          (some (record { message = buf; pos = r; n = n }))
    (write, a', accepted) ← reply_userauth_info_response w a s.enc.write auth
    ok (
      record {
        enc = record s.enc { write = write; state = waiting_auth_request a' };
        handler = some h';
        auth_user = s.auth_user;
      },
      accepted,
    )
  answered s a buf (some (CurrentRequest.public_key key algo sent)) =
      ok (turn_down w s a s.handler s.auth_user, false)
  answered s a buf none = ok (turn_down w s a s.handler s.auth_user, false)

  -- `read_userauth_info_response` for the request `a` that the state holds: the new session, and
  -- what the function returns.
  unfoldable pub read_userauth_info_response :
      AuthSession H → AuthRequest → Bytes → Result (AuthSession H × Bool)
  unfolding answered
  read_userauth_info_response s a buf = answered s a buf a.current

  -- The match of `server_read_encrypted`: the session, and whether `server_read_authenticated`
  -- reads the message next.
  unfoldable pub read_message :
      ServerConfig → EncryptedState → AuthSession H → Bytes → ℕ → Result (AuthSession H × Bool)
  unfolding read_service_request read_userauth_info_response
  read_message config (waiting_service_request sent accepted) s buf b =
      elim (b == Msg.service_request) [
        | true ↦ do s' ← read_service_request w config s buf; ok (s', false)
        | false ↦ ok (s, false)
      ]
  read_message config (waiting_auth_request a) s buf b = elim (b == Msg.userauth_request) [
    | true ↦ do
      s' ← server_read_auth_request w handler keys s buf
      ok (record s' { enc = start_decompress s'.enc s'.enc.state }, false)
    | false ↦ elim (b == Msg.userauth_info_response) [
      | true ↦ do
        (s', accepted) ← read_userauth_info_response s a buf
        ok (
          record s' { enc = if accepted then start_decompress s'.enc s'.enc.state else s'.enc },
          false,
        )
      | false ↦ ok (s, false)
    ]
  ]
  read_message config EncryptedState.init_compression s buf b = ok (
    record s {
      enc = record s.enc {
        compress = init_compress s.enc.server_compression s.enc.compress;
        state = authenticated;
      };
    },
    true,
  )
  read_message config authenticated s buf b = ok (s, true)

  -- `server_read_encrypted`, when no key exchange is under way and the message starts none.
  unfoldable pub read_packet : ServerConfig → AuthSession H → Bytes → Result (AuthSession H × Bool)
  unfolding read_message
  read_packet config s buf = do b ← first_byte buf; read_message config s.enc.state s buf b
