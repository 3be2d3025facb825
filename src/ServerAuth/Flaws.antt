-- ===== src/ServerAuth/Flaws.antt =====
-- Two places in which the authentication of src/server/encrypted.rs lets through what it should not,
-- or keeps back what it should let through.
use thrussh_mod.Base.{
  ℕ, ◌≡◌, refl, ◌≢◌, true, false, some, [], ◌∷◌, ◌++◌, arith, take, Bytes, equal_self,
}
use thrussh_mod.Error.{ok}
use thrussh_mod.Wire.{Wire, packet, push_packet, read_string?, read_u32?}
use thrussh_mod.Auth.{CurrentRequest, AuthRequest}
use thrussh_mod.Encrypted.{waiting_auth_request}
use thrussh_mod.ServerAuth.{
  accept, Handler, PublicKeys, AuthSession, succeed, server_auth_request_success,
  reply_userauth_info_response,
}
use thrussh_mod.ServerAuth.PublicKey.{is_valid, signed, with_key}
use thrussh_mod.ServerAuth.Messages.{
  answered, read_userauth_info_response, read_message, read_packet,
}
use thrussh_mod.ServerConfig.{ServerConfig}
use thrussh_mod.Msg

module _ (w : Wire) {H K : Type 0} (handler : Handler H K) (keys : PublicKeys K) where
  -- After the server has answered USERAUTH_PK_OK to one key, it accepts a signed request of the same
  -- user with any other key, if only the signature is right under that other key: the handler is
  -- not asked about it, and stays as it was.
  pub with_key-other :
      (s : AuthSession H) (a : AuthRequest) (told told_algo : Bytes) (buf user : Bytes)
      (is_real : ℕ) (algo key : Bytes) (pos0 : ℕ) (other : K) (signature name sig : Bytes)
      (r s1 s2 : ℕ)
      → a.current ≡ some (CurrentRequest.public_key told told_algo true)
      → s.auth_user ≡ user
      → is_real ≢ 0
      → read_string? w buf pos0 ≡ ok (signature, r)
      → read_string? w signature 0 ≡ ok (name, s1)
      → read_string? w signature s1 ≡ ok (sig, s2)
      → keys.verify_client_auth other (w.ssh_string s.enc.session_id ++ take pos0 buf) sig ≡ true
      → with_key w handler keys s a buf user is_real algo key pos0 (ok other)
        ≡ ok (succeed w s s.handler user)
  unfolding with_key signed is_valid
  with_key-other s a told told_algo buf user is_real algo key pos0 other signature name sig r s1 s2
        hc hu hr e1 e2 e3 right =
      ground (arith, equal_self user)

  -- When the handler accepts the answers of a dialogue, the client is told so, but the session goes on
  -- waiting for a request.
  pub answers_accepted :
      (config : ServerConfig) (s : AuthSession H) (a : AuthRequest) (submethods rest : Bytes)
      (h h' : H) (n r : ℕ)
      → s.enc.state ≡ waiting_auth_request a
      → a.current ≡ some (CurrentRequest.keyboard_interactive submethods)
      → s.handler ≡ some h
      → let buf : Bytes = Msg.userauth_info_response ∷ rest in
        read_u32? w buf 1 ≡ ok (n, r)
        → handler.auth_keyboard_interactive h s.auth_user submethods
            (some (record { message = buf; pos = r; n = n }))
          ≡ ok (h', accept)
        → read_packet w handler keys config s buf
          ≡ ok (
            record {
              enc = record s.enc {
                write = s.enc.write ++ packet w (Msg.userauth_success ∷ []);
                state = waiting_auth_request a;
              };
              handler = some h';
              auth_user = s.auth_user;
            },
            false,
          )
  unfolding read_packet read_message read_userauth_info_response answered
      reply_userauth_info_response server_auth_request_success push_packet
  answers_accepted config s a submethods rest h h' n r hs hc hh e1 e2 = rw (hs, hc, hh, e1, e2) refl
