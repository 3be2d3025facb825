-- ===== src/ServerAuth/History.antt =====
-- Runs of the server over the messages of a client, up to the state in which it counts as authenticated.
use thrussh_mod.Base.{
  ℕ, ◌≡◌, refl, sym, ap, ◌∙◌, ◌≢◌, ◌⊎◌, inl, inr, Bool, true, false, Option, none, some, arith,
  ◌==◌, if◌then◌else◌, Bytes, codes, equal,
}
use thrussh_mod.Error.{ok, AllOk, AllOk-ok, AllOk-bind, AllOk-elim, unwrap}
use thrussh_mod.Wire.{Wire, read_string?, read_u32?}
use thrussh_mod.Auth.{CurrentRequest, AuthRequest}
use thrussh_mod.Encrypted.{
  EncryptedState, Encrypted, waiting_service_request, waiting_auth_request, authenticated,
}
use thrussh_mod.ServerAuth.{Handler, PublicKeys, AuthSession, reply_userauth_info_response}
use thrussh_mod.ServerAuth.Requests.{server_read_auth_request}
use thrussh_mod.ServerAuth.Messages.{
  start_decompress, first_byte, answered, read_userauth_info_response, read_service_request,
  read_message, read_packet,
}
use thrussh_mod.ServerAuth.Outcomes.{Accepted, Outcome, accepted, waits}
use thrussh_mod.ServerAuth.Acceptance.{server_read_auth_request-Outcome}
use thrussh_mod.ServerConfig.{ServerConfig}
use thrussh_mod.Msg

-- The states behind authentication.
abbrev pub is_open : EncryptedState → Bool
is_open EncryptedState.init_compression = true
is_open authenticated = true
is_open _ = false

pub start_decompress-state :
    (enc : Encrypted) (st : EncryptedState) → (start_decompress enc st).state ≡ enc.state
start_decompress-state enc EncryptedState.init_compression = refl
start_decompress-state enc authenticated = refl
start_decompress-state enc (waiting_auth_request a) = refl
start_decompress-state enc (waiting_service_request sent acc) = refl

pub kept :
    (enc : Encrypted) (b : Bool)
    → (if b then start_decompress enc enc.state else enc).state ≡ enc.state
kept enc true = start_decompress-state enc enc.state
kept enc false = refl

module _ (w : Wire) {H K : Type 0} (handler : Handler H K) (keys : PublicKeys K)
    (config : ServerConfig) where
  -- The sessions that messages lead to, one after another.
  pub data Run (s : AuthSession H) : AuthSession H → Type 0 where
    start : Run s s
    step :
        {s1 s2 : AuthSession H} (buf : Bytes) (more : Bool)
        → Run s s1
        → read_packet w handler keys config s1 buf ≡ ok (s2, more)
        → Run s s2

  -- The message is the proof of who the client is, between the sessions before and behind it: a request
  -- waited, the message was accepted for a user, and the session has this user.
  pub record Proof (s : AuthSession H) (message : Bytes) (s' : AuthSession H) : Type 0 where
    pub request : AuthRequest
    pub user : Bytes
    pub state : s.enc.state ≡ waiting_auth_request request
    pub reason : Accepted w handler keys s request message user s'.handler
    pub user_named : s'.auth_user ≡ user

  -- What a message that opens the session has shown; in an open session the user stays.
  abbrev Shown : AuthSession H → Bytes → AuthSession H × Bool → Type 0
  Shown s buf r =
      is_open r.0.enc.state ≡ true
      → ((is_open s.enc.state ≡ true) × (r.0.auth_user ≡ s.auth_user)) ⊎ Proof s buf r.0

  request-Shown :
      (s : AuthSession H) (a : AuthRequest) (buf : Bytes) (s' : AuthSession H)
      → s.enc.state ≡ waiting_auth_request a
      → Outcome w handler keys s a buf s'
      → is_open s'.enc.state ≡ true
      → Proof s buf s'
  request-Shown s a buf s' hs (accepted user reason named e) o = record {
    request = a;
    user = user;
    state = hs;
    reason = reason;
    user_named = named;
  }
  request-Shown s a buf s' hs (waits a' b rest e kind less) o = absurd (ground (arith, e, o))

  service-Shown :
      (s : AuthSession H) (buf : Bytes)
      → AllOk
          (λ s'.
            is_open s'.enc.state ≡ true
            → (is_open s.enc.state ≡ true) × (s'.auth_user ≡ s.auth_user))
          (read_service_request w config s buf)
  unfolding read_service_request
  service-Shown s buf =
      AllOk-bind _ (read_string? w buf 1) _
        λ x e. AllOk-ok _ _ (left_out (equal x.0 (codes "ssh-userauth")) _ _)
    where
      left_out :
          (known : Bool) (write : Bytes) (a : AuthRequest)
          → let s' : AuthSession H =
              if known
              then record s { enc = record s.enc { write = write; state = waiting_auth_request a } }
              else s in
            is_open s'.enc.state ≡ true
            → (is_open s.enc.state ≡ true) × (s'.auth_user ≡ s.auth_user)
      left_out true write a o = cc
      left_out false write a o = (o, refl)

  answered-Shown :
      (s : AuthSession H) (a : AuthRequest) (buf : Bytes) (current : Option CurrentRequest)
      → AllOk (λ r. is_open r.0.enc.state ≢ true) (answered w handler keys s a buf current)
  unfolding answered
  answered-Shown s a buf (some (CurrentRequest.keyboard_interactive submethods)) =
      AllOk-bind _ (read_u32? w buf 1) _ λ x e. AllOk-bind _ (unwrap s.handler) _ λ h e1.
        AllOk-bind _
          (handler.auth_keyboard_interactive h s.auth_user submethods
            (some (record { message = buf; pos = x.1; n = x.0 })))
          _
          λ answer e2.
            AllOk-bind _ (reply_userauth_info_response w a s.enc.write answer.1) _
              λ reply e3. AllOk-ok _ _ λ o. cc
  answered-Shown s a buf (some (CurrentRequest.public_key key algo sent)) = AllOk-ok _ _ λ o. cc
  answered-Shown s a buf none = AllOk-ok _ _ λ o. cc

  info-Shown :
      (s : AuthSession H) (a : AuthRequest) (buf : Bytes)
      → AllOk
          (λ r. is_open r.0.enc.state ≢ true)
          (read_userauth_info_response w handler keys s a buf)
  unfolding read_userauth_info_response
  info-Shown s a buf = answered-Shown s a buf a.current

  message-Shown :
      (st : EncryptedState) (s : AuthSession H) (buf : Bytes) (b : ℕ)
      → s.enc.state ≡ st
      → AllOk (Shown s buf) (read_message w handler keys config st s buf b)
  unfolding read_message
  message-Shown EncryptedState.init_compression s buf b hs =
      AllOk-ok _ _ λ o. inl (rw hs refl, refl)
  message-Shown authenticated s buf b hs = AllOk-ok _ _ λ o. inl (rw hs refl, refl)
  message-Shown (waiting_service_request sent acc) s buf b hs =
      AllOk-elim _ (b == Msg.service_request) _ _
        (λ e.
          AllOk-bind _ (read_service_request w config s buf) _
            λ s' e1. AllOk-ok _ _ λ o. inl (service-Shown s buf s' e1 o))
        λ e. AllOk-ok _ _ λ o. inl (o, refl)
  message-Shown (waiting_auth_request a) s buf b hs =
      AllOk-elim _ (b == Msg.userauth_request) _ _
        (λ e. AllOk-bind _ (server_read_auth_request w handler keys s buf) _ λ s' e1.
          AllOk-ok _ _ λ o.
            let shown =
              request-Shown s a buf s' hs
                (server_read_auth_request-Outcome w handler keys s a buf s' hs e1)
                (sym (ap is_open (start_decompress-state s'.enc s'.enc.state)) ∙ o) in
            inr (record {
              request = shown.request;
              user = shown.user;
              state = shown.state;
              reason = shown.reason;
              user_named = shown.user_named;
            }))
        λ e.
          AllOk-elim _ (b == Msg.userauth_info_response) _ _
            (λ e1. AllOk-bind _ (read_userauth_info_response w handler keys s a buf) _ λ r e2.
              AllOk-ok _ _
                λ o. absurd (info-Shown s a buf r e2 (sym (ap is_open (kept r.0.enc r.1)) ∙ o)))
            λ e1. AllOk-ok _ _ λ o. inl (o, refl)

  step-Shown :
      (s : AuthSession H) (buf : Bytes)
      → AllOk (Shown s buf) (read_packet w handler keys config s buf)
  unfolding read_packet
  step-Shown s buf = AllOk-bind _ (first_byte buf) _ λ b e. message-Shown s.enc.state s buf b refl

  -- However many messages a client sends, and in whatever order: when the server has gone from a
  -- state before authentication to one behind it, then one of the messages on the way was the proof.
  -- While a request waited, it named the user whom the session has at the end, and held the password
  -- or the dialogue that the handler accepted for this user, or a key and a right signature over this
  -- session, the key accepted by the handler for this user, or the user being the one that the session
  -- had when a key had been answered.
  pub Run-Proof :
      (s s' : AuthSession H)
      → Run s s'
      → is_open s.enc.state ≡ false
      → is_open s'.enc.state ≡ true
      → (s1 : AuthSession H) × (message : Bytes) × (more : Bool) × (s2 : AuthSession H) × Run s s1
        × (read_packet w handler keys config s1 message ≡ ok (s2, more))
        × Run s2 s'
        × (p : Proof s1 message s2) × (s'.auth_user ≡ p.user)
  Run-Proof s _ start shut o = cc
  Run-Proof s s' (step {s1} buf more run e) shut o = elim (step-Shown s1 buf (s', more) e o) [
    | inl (before, same) ↦
        let (s0, message, more0, s2, run0, e0, run2, p, user) = Run-Proof s s1 run shut before in
        (s0, message, more0, s2, run0, e0, step buf more run2 e, p, same ∙ user)
    | inr shown ↦ (s1, buf, more, s', run, e, start, shown, shown.user_named)
  ]
