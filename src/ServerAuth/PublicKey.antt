-- ===== src/ServerAuth/PublicKey.antt =====
-- src/server/encrypted.rs, `server_read_auth_request_pk`: requests with a public key.
use thrussh_mod.Base.{
  ℕ, Bool, true, false, ◌&&◌, Option, some, [], ◌∷◌, ◌++◌, ◌==◌, take, is_empty, Bytes, equal,
}
use thrussh_mod.Error.{keys_could_not_read_key, Result, ok, err, panic, no_fuel, ◌>>=◌, unwrap}
use thrussh_mod.Wire.{Wire, push_packet, read_string?, read_byte?}
use thrussh_mod.Auth.{CurrentRequest, AuthRequest}
use thrussh_mod.Encrypted.{waiting_auth_request}
use thrussh_mod.Msg
use thrussh_mod.ServerAuth.{
  Handler, PublicKeys, AuthSession, is_accept, waiting, sent_pk_ok, succeed, turn_down,
}

module _ (w : Wire) {H K : Type 0} (handler : Handler H K) (keys : PublicKeys K) where
  -- Whether a signed request may go on to its signature.
  unfoldable pub is_valid :
      AuthSession H → AuthRequest → Bytes → K → Result (Bool × Option H × Bytes)
  is_valid s a user pubkey = elim (sent_pk_ok a.current && equal user s.auth_user) [
    | true ↦ ok (true, s.handler, s.auth_user)
    | false ↦ elim (is_empty s.auth_user) [
      | true ↦ do
        h ← unwrap s.handler
        (h', auth) ← handler.auth_publickey h user pubkey
        ok (is_accept auth, some h', user)
      | false ↦ ok (false, s.handler, s.auth_user)
    ]
  ]

  -- `server_read_auth_request_pk` with a signature
  unfoldable pub signed :
      AuthSession H → AuthRequest → Bytes → Bytes → ℕ → K → Result (AuthSession H)
  unfolding is_valid
  signed s a buf user pos0 pubkey = do
    (signature, r) ← read_string? w buf pos0
    (algo_, s1) ← read_string? w signature 0
    (sig, s2) ← read_string? w signature s1
    (valid, h, user') ← is_valid s a user pubkey
    let verified =
        keys.verify_client_auth pubkey (w.ssh_string s.enc.session_id ++ take pos0 buf) sig
    elim (valid && verified) [
      | true ↦ ok (succeed w s h user')
      | false ↦ ok (turn_down w s a h user')
    ]

  -- `server_read_auth_request_pk` without a signature
  unfoldable pub offered :
      AuthSession H → AuthRequest → (user algo key : Bytes) → K → Result (AuthSession H)
  offered s a user algo key pubkey = do
    h ← unwrap s.handler
    (h', auth) ← handler.auth_publickey h user pubkey
    elim (is_accept auth) [
      | true ↦ ok (record {
        enc = record s.enc {
          write =
              push_packet w s.enc.write
                (Msg.userauth_pk_ok ∷ (w.ssh_string algo ++ w.ssh_string key));
          state =
              waiting_auth_request
                (record a { current = some (CurrentRequest.public_key key algo true) });
        };
        handler = some h';
        auth_user = user;
      })
      | false ↦ ok (turn_down w s (record a { partial_success = false }) (some h') [])
    ]

  -- The match on the result of `PublicKey::parse`
  unfoldable pub with_key :
      AuthSession H
      → AuthRequest
      → (buf user : Bytes) → ℕ
      → (algo key : Bytes) → ℕ
      → Result K
      → Result (AuthSession H)
  unfolding signed offered
  with_key s a buf user is_real algo key pos0 (ok pubkey) = elim (is_real == 0) [
    | true ↦ offered s a user algo key pubkey
    | false ↦ signed s a buf user pos0 pubkey
  ]
  with_key s a buf user is_real algo key pos0 (err keys_could_not_read_key) =
      ok (turn_down w s a s.handler s.auth_user)
  with_key s a buf user is_real algo key pos0 (err e) = err e
  with_key s a buf user is_real algo key pos0 panic = panic
  with_key s a buf user is_real algo key pos0 no_fuel = no_fuel

  -- `server_read_auth_request_pk`
  unfoldable pub server_read_auth_request_pk :
      AuthSession H → (buf user : Bytes) → ℕ → Result (AuthSession H)
  unfolding with_key
  server_read_auth_request_pk s buf user r = do
    a ← waiting s.enc.state
    (is_real, r1) ← read_byte? w buf r
    (algo, r2) ← read_string? w buf r1
    (key, r3) ← read_string? w buf r2
    with_key s a buf user is_real algo key r3 (keys.parse algo key)
