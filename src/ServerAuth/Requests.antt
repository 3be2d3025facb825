-- ===== src/ServerAuth/Requests.antt =====
-- src/server/encrypted.rs, `server_read_auth_request`: a request of any method.
use thrussh_mod.Base.{ℕ, true, false, none, some, [], Bytes, codes, equal}
use thrussh_mod.Error.{Error, thrussh, Result, ok, err, ◌>>=◌, ◌>>◌, unwrap}
use thrussh_mod.Wire.{Wire, read_string?, read_byte?}
use thrussh_mod.Auth.{password_set, difference, CurrentRequest, AuthRequest}
use thrussh_mod.Encrypted.{EncryptedState}
use thrussh_mod.ServerAuth.{
  Handler, PublicKeys, AuthSession, is_accept, text?, waiting, reply_userauth_info_response,
  succeed, turn_down, replied,
}
use thrussh_mod.ServerAuth.PublicKey.{server_read_auth_request_pk}

module _ (w : Wire) {H K : Type 0} (handler : Handler H K) (keys : PublicKeys K) where
  -- The branch of `server_read_auth_request` for the method "password".
  unfoldable pub request_password : AuthSession H → Bytes → Bytes → ℕ → Result (AuthSession H)
  request_password s buf user r = do
    a ← waiting s.enc.state
    (skipped, r1) ← read_byte? w buf r
    (password, r2) ← read_string? w buf r1
    text? password
    h ← unwrap s.handler
    (h', auth) ← handler.auth_password h user password
    elim (is_accept auth) [
      | true ↦ ok (succeed w s (some h') user)
      | false ↦ ok (
          turn_down w s
            (record a { methods = difference a.methods password_set; partial_success = false })
            (some h') [])
    ]

  -- The branch for the method "keyboard-interactive"
  unfoldable pub request_keyboard_interactive :
      AuthSession H → Bytes → Bytes → ℕ → Result (AuthSession H)
  unfolding reply_userauth_info_response
  request_keyboard_interactive s buf user r = do
    a ← waiting s.enc.state
    (language_tag, r1) ← read_string? w buf r
    (submethods, r2) ← read_string? w buf r1
    text? submethods
    h ← unwrap s.handler
    (h', auth) ← handler.auth_keyboard_interactive h user submethods none
    let a' : AuthRequest = record a {
      current = some (CurrentRequest.keyboard_interactive submethods);
    }
    reply ← reply_userauth_info_response w a' s.enc.write auth
    ok (replied w s h' user EncryptedState.init_compression reply)

  -- `server_read_auth_request`
  unfoldable pub server_read_auth_request : AuthSession H → Bytes → Result (AuthSession H)
  unfolding request_password server_read_auth_request_pk request_keyboard_interactive
  server_read_auth_request s buf = do
    (user, r1) ← read_string? w buf 1
    text? user
    (service_name, r2) ← read_string? w buf r1
    (method, r3) ← read_string? w buf r2
    elim (equal service_name (codes "ssh-connection")) [
      | false ↦ err (thrussh Error.inconsistent)
      | true ↦ elim (equal method (codes "password")) [
        | true ↦ request_password s buf user r3
        | false ↦ elim (equal method (codes "publickey")) [
          | true ↦ server_read_auth_request_pk w handler keys s buf user r3
          | false ↦ elim (equal method (codes "keyboard-interactive")) [
            | true ↦ request_keyboard_interactive s buf user r3
            | false ↦ do a ← waiting s.enc.state; ok (turn_down w s a s.handler s.auth_user)
          ]
        ]
      ]
    ]
