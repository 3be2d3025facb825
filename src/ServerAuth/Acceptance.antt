-- ===== src/ServerAuth/Acceptance.antt =====
-- When the server accepts a client: the outcomes of `server_read_auth_request`.
use thrussh_mod.Base.{
  ℕ, ◌≡◌, refl, sym, ap, subst, ◌∙◌, inl, inr, true, false, ◌&&◌, Option, none, some, ◌++◌, ◌==◌,
  arith, take, is_empty, Bytes, codes, equal, equal_iff,
}
use thrussh_mod.Error.{
  Result, ok, err, panic, no_fuel, keys_could_not_read_key, ◌>>=◌, AllOk, AllOk-ok, AllOk-bind,
  AllOk-elim, AllOk-err, AllOk-panic, AllOk-no_fuel, unwrap,
}
use thrussh_mod.Wire.{Wire, push_packet, read_string?, read_byte?}
use thrussh_mod.Auth.{password_set, CurrentRequest, AuthRequest}
use thrussh_mod.Encrypted.{EncryptedState, waiting_auth_request}
use thrussh_mod.ServerAuth.{
  Auth, accept, reject, unsupported_method, partial, Handler, PublicKeys, AuthSession, waiting,
  text?, is_accept, sent_pk_ok, succeed, turn_down, replied, reply_userauth_info_response,
  server_auth_request_success, reject_auth_request,
}
use thrussh_mod.ServerAuth.PublicKey.{
  is_valid, signed, offered, with_key, server_read_auth_request_pk,
}
use thrussh_mod.ServerAuth.Requests.{
  request_password, request_keyboard_interactive, server_read_auth_request,
}
use thrussh_mod.ServerAuth.Outcomes.{
  Subset, Subset-refl, Subset-difference, both, same_ok, unwrap-eq-ok, accepts, Accepted,
  by_password, by_dialogue, by_new_key, by_told_key, Outcome, accepted, waits, Names, HoldsKey,
  IsSigned,
}

module _ (w : Wire) {H K : Type 0} (handler : Handler H K) (keys : PublicKeys K) where
  module _ (s : AuthSession H) (a : AuthRequest) (buf : Bytes) where
    succeeds :
        (h : Option H) (user : Bytes)
        → Accepted w handler keys s a buf user h
        → Outcome w handler keys s a buf (succeed w s h user)
    unfolding server_auth_request_success push_packet
    succeeds h user reason = accepted user reason refl refl

    turned_down :
        (a' : AuthRequest) (h : Option H) (user : Bytes)
        → Subset a'.methods a.methods
        → Outcome w handler keys s a buf (turn_down w s a' h user)
    unfolding reject_auth_request push_packet
    turned_down a' h user less = waits _ _ _ refl (inl refl) less

    -- The request that waits is the one of the state.
    the_request :
        (a1 : AuthRequest)
        → s.enc.state ≡ waiting_auth_request a
        → waiting s.enc.state ≡ ok a1
        → a1 ≡ a
    the_request a1 hs e = same_ok a1 a (sym e ∙ ap waiting hs)

    request_password-Outcome :
        (user : Bytes) (r : ℕ)
        → s.enc.state ≡ waiting_auth_request a
        → Names w handler keys buf user (codes "password") r
        → AllOk (Outcome w handler keys s a buf) (request_password w handler keys s buf user r)
    unfolding request_password
    request_password-Outcome user r hs named = AllOk-bind _ (waiting s.enc.state) _ λ a1 e1.
        AllOk-bind _ (read_byte? w buf r) _ λ x e. AllOk-bind _ (read_string? w buf x.1) _ λ x2 e2.
          AllOk-bind _ (text? x2.0) _ λ x3 e3. AllOk-bind _ (unwrap s.handler) _ λ h e4.
            AllOk-bind _ (handler.auth_password h user x2.0) _ λ answer e5.
              AllOk-elim _ (is_accept answer.1) _ _
                (λ yes. AllOk-ok _ _ (
                  succeeds _ _ (
                    by_password h answer.0 x2.0 r named (x, x2.1, e, e2)
                      (unwrap-eq-ok s.handler h e4) (accepts _ answer e5 yes) refl)))
                λ no. AllOk-ok _ _ (
                  turned_down _ _ _
                    (rw (the_request a1 hs e1) (Subset-difference a.methods password_set)))

    reply-Outcome :
        (h : H) (user : Bytes) (a' : AuthRequest) (auth : Auth)
        → Subset a'.methods a.methods
        → (auth ≡ accept → Accepted w handler keys s a buf user (some h))
        → AllOk
            (λ reply.
              Outcome w handler keys s a buf
                (replied w s h user EncryptedState.init_compression reply))
            (reply_userauth_info_response w a' s.enc.write auth)
    unfolding reply_userauth_info_response server_auth_request_success reject_auth_request
        push_packet
    reply-Outcome h user a' accept less reason =
        AllOk-ok _ _ (accepted user (reason refl) refl refl)
    reply-Outcome h user a' reject less reason = AllOk-ok _ _ (waits _ _ _ refl (inl refl) less)
    reply-Outcome h user a' unsupported_method less reason = AllOk-panic _
    reply-Outcome h user a' (partial n i p) less reason =
        AllOk-ok _ _ (waits _ _ _ refl (inr refl) less)

    request_keyboard_interactive-Outcome :
        (user : Bytes) (r : ℕ)
        → s.enc.state ≡ waiting_auth_request a
        → Names w handler keys buf user (codes "keyboard-interactive") r
        → AllOk
            (Outcome w handler keys s a buf)
            (request_keyboard_interactive w handler keys s buf user r)
    unfolding request_keyboard_interactive
    request_keyboard_interactive-Outcome user r hs named =
        AllOk-bind _ (waiting s.enc.state) _ λ a1 e1. AllOk-bind _ (read_string? w buf r) _ λ x e.
          AllOk-bind _ (read_string? w buf x.1) _ λ x2 e2. AllOk-bind _ (text? x2.0) _ λ x3 e3.
            AllOk-bind _ (unwrap s.handler) _ λ h e4.
              AllOk-bind _ (handler.auth_keyboard_interactive h user x2.0 none) _ λ answer e5.
                AllOk-bind _
                  (reply_userauth_info_response w
                    (record a1 { current = some (CurrentRequest.keyboard_interactive x2.0) })
                    s.enc.write answer.1)
                  _
                  λ reply e6. AllOk-ok _ _ (
                    reply-Outcome answer.0 user _ answer.1
                      (rw (the_request a1 hs e1) (Subset-refl a.methods))
                      (λ agreed.
                        by_dialogue h answer.0 x2.0 r named (x, x2.1, e, e2)
                          (unwrap-eq-ok s.handler h e4) (e5 ∙ ap (λ x. ok (answer.0, x)) agreed)
                          refl)
                      reply e6)

    is_valid-reason :
        (user : Bytes) (r pos : ℕ) (pubkey : K)
        → Names w handler keys buf user (codes "publickey") r
        → HoldsKey w handler keys buf r pos pubkey
        → IsSigned w handler keys s buf pos pubkey
        → AllOk
            (λ v. v.0 ≡ true → Accepted w handler keys s a buf v.2 v.1)
            (is_valid w handler keys s a user pubkey)
    unfolding is_valid
    is_valid-reason user r pos pubkey named holds right =
        AllOk-elim _ (sent_pk_ok a.current && equal user s.auth_user) _ _
          (λ told.
            let (sent, same) = both _ _ told in
            let known : user ≡ s.auth_user = (equal_iff user s.auth_user).0 same in
            AllOk-ok _ _ λ valid.
              by_told_key r pos pubkey
                (subst (λ u. Names w handler keys buf u (codes "publickey") r) known named) holds
                right sent refl refl)
          λ untold.
            AllOk-elim _ (is_empty s.auth_user) _ _
              (λ free. AllOk-bind _ (unwrap s.handler) _ λ h e.
                AllOk-bind _ (handler.auth_publickey h user pubkey) _ λ answer e1.
                  AllOk-ok _ _ λ valid.
                    by_new_key h answer.0 r pos pubkey named holds right free
                      (unwrap-eq-ok s.handler h e) (accepts _ answer e1 valid) refl)
              λ taken. AllOk-ok _ _ λ valid. cc

    signed-Outcome :
        (user : Bytes) (r pos0 : ℕ) (pubkey : K)
        → Names w handler keys buf user (codes "publickey") r
        → HoldsKey w handler keys buf r pos0 pubkey
        → AllOk (Outcome w handler keys s a buf) (signed w handler keys s a buf user pos0 pubkey)
    unfolding signed
    signed-Outcome user r pos0 pubkey named holds = AllOk-bind _ (read_string? w buf pos0) _ λ x e.
        AllOk-bind _ (read_string? w x.0 0) _ λ x1 e1.
          AllOk-bind _ (read_string? w x.0 x1.1) _ λ x2 e2.
            AllOk-bind _ (is_valid w handler keys s a user pubkey) _ λ v e3.
              AllOk-elim _
                (v.0
                  && keys.verify_client_auth pubkey (w.ssh_string s.enc.session_id ++ take pos0 buf)
                      x2.0)
                _ _
                (λ yes.
                  let (valid, right) = both _ _ yes in
                  AllOk-ok _ _ (
                    succeeds _ _ (
                      is_valid-reason user r pos0 pubkey named holds (x, x1, x2, e, e1, e2, right) v
                        e3 valid)))
                λ no. AllOk-ok _ _ (turned_down _ _ _ (Subset-refl a.methods))

    offered-Outcome :
        (user algo key : Bytes) (pubkey : K)
        → AllOk (Outcome w handler keys s a buf) (offered w handler keys s a user algo key pubkey)
    unfolding offered push_packet
    offered-Outcome user algo key pubkey = AllOk-bind _ (unwrap s.handler) _ λ h e4.
        AllOk-bind _ (handler.auth_publickey h user pubkey) _ λ answer e5.
          AllOk-elim _ (is_accept answer.1) _ _
            (λ yes. AllOk-ok _ _ (waits _ _ _ refl (inr refl) (Subset-refl a.methods)))
            λ no. AllOk-ok _ _ (turned_down _ _ _ (Subset-refl a.methods))

    with_key-Outcome :
        (user : Bytes) (r is_real r1 : ℕ) (algo : Bytes) (r2 : ℕ) (key : Bytes) (pos0 : ℕ)
        (parsed : Result K)
        → Names w handler keys buf user (codes "publickey") r
        → read_byte? w buf r ≡ ok (is_real, r1)
        → read_string? w buf r1 ≡ ok (algo, r2)
        → read_string? w buf r2 ≡ ok (key, pos0)
        → keys.parse algo key ≡ parsed
        → AllOk
            (Outcome w handler keys s a buf)
            (with_key w handler keys s a buf user is_real algo key pos0 parsed)
    unfolding with_key
    with_key-Outcome user r is_real r1 algo r2 key pos0 (ok pubkey) named e1 e2 e3 e4 =
        AllOk-elim _ (is_real == 0) _ _ (λ offer. offered-Outcome user algo key pubkey)
          λ real.
            signed-Outcome user r pos0 pubkey named
              ((is_real, r1), (algo, r2), key, e1, ground (arith, real), e2, e3, e4)
    with_key-Outcome user r is_real r1 algo r2 key pos0 (err keys_could_not_read_key) named e1 e2 e3
          e4 =
        AllOk-ok _ _ (turned_down _ _ _ (Subset-refl a.methods))
    with_key-Outcome user r is_real r1 algo r2 key pos0 (err _) named e1 e2 e3 e4 = AllOk-err _ _
    with_key-Outcome user r is_real r1 algo r2 key pos0 panic named e1 e2 e3 e4 = AllOk-panic _
    with_key-Outcome user r is_real r1 algo r2 key pos0 no_fuel named e1 e2 e3 e4 = AllOk-no_fuel _

    server_read_auth_request_pk-Outcome :
        (user : Bytes) (r : ℕ)
        → s.enc.state ≡ waiting_auth_request a
        → Names w handler keys buf user (codes "publickey") r
        → AllOk
            (Outcome w handler keys s a buf)
            (server_read_auth_request_pk w handler keys s buf user r)
    unfolding server_read_auth_request_pk
    server_read_auth_request_pk-Outcome user r hs named =
        AllOk-bind _ (waiting s.enc.state) _ λ a1 e1. AllOk-bind _ (read_byte? w buf r) _ λ x e.
          AllOk-bind _ (read_string? w buf x.1) _ λ x2 e2.
            AllOk-bind _ (read_string? w buf x2.1) _ λ x3 e3.
              subst
                (λ a'.
                  AllOk (Outcome w handler keys s a buf) (
                    with_key w handler keys s a' buf user x.0 x2.0 x3.0 x3.1
                      (keys.parse x2.0 x3.0)))
                (sym (the_request a1 hs e1))
                (with_key-Outcome user r x.0 x.1 x2.0 x2.1 x3.0 x3.1 (keys.parse x2.0 x3.0) named e
                  e2 e3 refl)

    dispatch-Outcome :
        (user method : Bytes) (r : ℕ)
        → s.enc.state ≡ waiting_auth_request a
        → Names w handler keys buf user method r
        → AllOk (Outcome w handler keys s a buf) (elim (equal method (codes "password")) [
          | true ↦ request_password w handler keys s buf user r
          | false ↦ elim (equal method (codes "publickey")) [
            | true ↦ server_read_auth_request_pk w handler keys s buf user r
            | false ↦ elim (equal method (codes "keyboard-interactive")) [
              | true ↦ request_keyboard_interactive w handler keys s buf user r
              | false ↦ (waiting s.enc.state >>= λ a'. ok (turn_down w s a' s.handler s.auth_user))
            ]
          ]
        ])
    dispatch-Outcome user method r hs named =
        let with_method : (m : Bytes) → equal method m ≡ true → Names w handler keys buf user m r =
          λ m e. subst (λ m. Names w handler keys buf user m r) ((equal_iff method m).0 e) named in
        AllOk-elim _ (equal method (codes "password")) _ _
          (λ e. request_password-Outcome user r hs (with_method _ e))
          λ e.
            AllOk-elim _ (equal method (codes "publickey")) _ _
              (λ e. server_read_auth_request_pk-Outcome user r hs (with_method _ e))
              λ e.
                AllOk-elim _ (equal method (codes "keyboard-interactive")) _ _
                  (λ e. request_keyboard_interactive-Outcome user r hs (with_method _ e))
                  λ e. AllOk-bind _ (waiting s.enc.state) _ λ a1 e1.
                    AllOk-ok _ _
                      (turned_down _ _ _ (rw (the_request a1 hs e1) (Subset-refl a.methods)))

  -- Whatever a client sends while its request waits: if `server_read_auth_request` returns, then it
  -- sends exactly one message and changes nothing of the encrypted session but that and the state.
  -- Either the message is the success and the state moves on, and then the session has the user whom
  -- the message names, and: the handler, asked about this user, has accepted the password or the
  -- dialogue of the message; or the message holds a signature that is right for this session and
  -- the message before it, under the key of the message, and either no user was known and the handler,
  -- asked about this user, accepts this key, or the user is the one that the session had and the
  -- request has the flag that a key was approved. Or the message is a failure, an information request
  -- or the answer to an offered key, and the request waits on, with no method that it did not have.
  pub server_read_auth_request-Outcome :
      (s : AuthSession H) (a : AuthRequest) (buf : Bytes) (s' : AuthSession H)
      → s.enc.state ≡ waiting_auth_request a
      → server_read_auth_request w handler keys s buf ≡ ok s'
      → Outcome w handler keys s a buf s'
  unfolding server_read_auth_request
  server_read_auth_request-Outcome s a buf s' hs =
      AllOk-bind _ (read_string? w buf 1) _
        (λ x e. AllOk-bind _ (text? x.0) _ λ x1 e1. AllOk-bind _ (read_string? w buf x.1) _ λ x2 e2.
          AllOk-bind _ (read_string? w buf x2.1) _ λ x3 e3.
            AllOk-elim _ (equal x2.0 (codes "ssh-connection")) _ _
              (λ known. dispatch-Outcome s a buf x.0 x3.0 x3.1 hs (
                x.1,
                x2.1,
                e,
                e2 ∙ ap (λ n. ok (n, x2.1)) ((equal_iff x2.0 (codes "ssh-connection")).0 known),
                e3,
              ))
              λ unknown. AllOk-err _ _)
        s'
