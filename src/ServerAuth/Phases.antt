-- ===== src/ServerAuth/Phases.antt =====
-- `server_read_encrypted` (src/server/encrypted.rs) as a machine with four phases.
use thrussh_mod.Base.{
  ℕ, ◌≡◌, refl, sym, ap, ◌∙◌, subst, Bool, true, false, Option, none, some, arith, ◌==◌, ◌∷◌,
  if◌then◌else◌, Bytes,
}
use thrussh_mod.Error.{ok, AllOk, AllOk-ok, AllOk-bind, AllOk-elim, unwrap}
use thrussh_mod.Wire.{Wire, read_string?, read_u32?}
use thrussh_mod.Auth.{CurrentRequest, AuthRequest}
use thrussh_mod.Encrypted.{
  EncryptedState, waiting_service_request, waiting_auth_request, authenticated,
}
use thrussh_mod.ServerAuth.{Handler, PublicKeys, AuthSession, reply_userauth_info_response}
use thrussh_mod.ServerAuth.Requests.{server_read_auth_request}
use thrussh_mod.ServerAuth.Messages.{
  answered, read_userauth_info_response, read_service_request, read_message, read_packet,
}
use thrussh_mod.ServerAuth.Outcomes.{Outcome, accepted, waits}
use thrussh_mod.ServerAuth.Acceptance.{server_read_auth_request-Outcome}
use thrussh_mod.ServerAuth.History.{start_decompress-state, kept}
use thrussh_mod.ServerConfig.{ServerConfig}
use thrussh_mod.Msg

pub data Phase : Type 0 where
  service : Phase
  request : Phase
  opening : Phase
  served : Phase

-- The protocol of authentication: what a message that begins with the byte `b` may lead to, and whether
-- the message is then one of the connection protocol.
pub data Moves (b : ℕ) : Phase → Phase → Bool → Type 0 where
  service_waits : Moves b service service false
  service_accepted : b ≡ Msg.service_request → Moves b service request false
  request_waits : Moves b request request false
  request_accepted : b ≡ Msg.userauth_request → Moves b request opening false
  opens : Moves b opening served true
  serves : Moves b served served true

-- The phase of a state, which forgets the request that waits
abbrev pub phase : EncryptedState → Phase
phase (waiting_service_request sent acc) = service
phase (waiting_auth_request a) = request
phase EncryptedState.init_compression = opening
phase authenticated = served

module _ (w : Wire) {H K : Type 0} (handler : Handler H K) (keys : PublicKeys K)
    (config : ServerConfig) where
  answered-request :
      (s : AuthSession H) (a : AuthRequest) (buf : Bytes) (current : Option CurrentRequest)
      → AllOk (λ r. phase r.0.enc.state ≡ request) (answered w handler keys s a buf current)
  unfolding answered
  answered-request s a buf (some (CurrentRequest.keyboard_interactive submethods)) =
      AllOk-bind _ (read_u32? w buf 1) _ λ x e. AllOk-bind _ (unwrap s.handler) _ λ h e1.
        AllOk-bind _
          (handler.auth_keyboard_interactive h s.auth_user submethods
            (some (record { message = buf; pos = x.1; n = x.0 })))
          _
          λ answer e2.
            AllOk-bind _ (reply_userauth_info_response w a s.enc.write answer.1) _
              λ reply e3. AllOk-ok _ _ refl
  answered-request s a buf (some (CurrentRequest.public_key key algo sent)) = AllOk-ok _ _ refl
  answered-request s a buf none = AllOk-ok _ _ refl

  -- A step from `s` on a message that begins with `b`
  abbrev Step : ℕ → AuthSession H → AuthSession H × Bool → Type 0
  Step b s r = Moves b (phase s.enc.state) (phase r.0.enc.state) r.1

  ends_in : (b : ℕ) (p q q' : Phase) (more : Bool) → q' ≡ q → Moves b p q more → Moves b p q' more
  ends_in b p q q' more e m = subst (λ q. Moves b p q more) (sym e) m

  begins_in : (b : ℕ) (p p' q : Phase) (more : Bool) → p' ≡ p → Moves b p q more → Moves b p' q more
  begins_in b p p' q more e m = subst (λ p. Moves b p q more) (sym e) m

  request-Step :
      (s : AuthSession H) (a : AuthRequest) (buf : Bytes) (s' : AuthSession H) (b : ℕ)
      → b ≡ Msg.userauth_request
      → Outcome w handler keys s a buf s'
      → Moves b request (phase s'.enc.state) false
  request-Step s a buf s' b is (accepted user reason named e) =
      ends_in b request opening _ false (ap (λ enc. phase enc.state) e) (request_accepted is)
  request-Step s a buf s' b is (waits a' b' rest e kind less) =
      ends_in b request request _ false (ap (λ enc. phase enc.state) e) request_waits

  service_answered :
      (s : AuthSession H) (b : ℕ) (known : Bool) (write : Bytes) (a : AuthRequest)
      → b ≡ Msg.service_request
      → phase s.enc.state ≡ service
      → Moves b service
          (phase
            (if known
              then record s { enc = record s.enc { write = write; state = waiting_auth_request a } }
              else s).enc.state)
          false
  service_answered s b true write a is before = service_accepted is
  service_answered s b false write a is before =
      ends_in b service service _ false before service_waits

  service-Step :
      (s : AuthSession H) (buf : Bytes) (b : ℕ)
      → b ≡ Msg.service_request
      → phase s.enc.state ≡ service
      → AllOk
          (λ s'. Moves b service (phase s'.enc.state) false)
          (read_service_request w config s buf)
  unfolding read_service_request
  service-Step s buf b is before =
      AllOk-bind _ (read_string? w buf 1) _
        λ x e. AllOk-ok _ _ (service_answered s b _ _ _ is before)

  message-Step :
      (st : EncryptedState) (s : AuthSession H) (buf : Bytes) (b : ℕ)
      → s.enc.state ≡ st
      → AllOk (Step b s) (read_message w handler keys config st s buf b)
  unfolding read_message
  message-Step EncryptedState.init_compression s buf b hs =
      AllOk-ok _ _ (begins_in b opening _ served true (ap phase hs) opens)
  message-Step authenticated s buf b hs = AllOk-ok _ _ (rw (ap phase hs) serves)
  message-Step (waiting_service_request sent acc) s buf b hs =
      AllOk-elim _ (b == Msg.service_request) _ _
        (λ e. AllOk-bind _ (read_service_request w config s buf) _ λ s' e1. AllOk-ok _ _ (
          begins_in b service _ (phase s'.enc.state) false (ap phase hs)
            (service-Step s buf b (ground (arith, e)) (ap phase hs) s' e1)))
        λ e. AllOk-ok _ _ (rw (ap phase hs) service_waits)
  message-Step (waiting_auth_request a) s buf b hs =
      AllOk-elim _ (b == Msg.userauth_request) _ _
        (λ e. AllOk-bind _ (server_read_auth_request w handler keys s buf) _ λ s' e1. AllOk-ok _ _ (
          begins_in b request _ _ false (ap phase hs) (
            ends_in b request (phase s'.enc.state) _ false
              (ap phase (start_decompress-state s'.enc s'.enc.state))
              (request-Step s a buf s' b (ground (arith, e))
                (server_read_auth_request-Outcome w handler keys s a buf s' hs e1)))))
        λ e.
          AllOk-elim _ (b == Msg.userauth_info_response) _ _
            (λ e1. AllOk-bind _ (read_userauth_info_response w handler keys s a buf) _ λ r e2.
              AllOk-ok _ _ (
                begins_in b request _ _ false (ap phase hs) (
                  ends_in b request request _ false
                    (ap phase (kept r.0.enc r.1) ∙ answered-request s a buf a.current r e2)
                    request_waits)))
            λ e1. AllOk-ok _ _ (rw (ap phase hs) request_waits)

  -- The server's part of authentication implements the protocol of four phases: when a message that
  -- begins with the byte `b` is read without an error, the phase changes as the protocol lets it. It
  -- leaves the first phase on a service request only, and the second on an authentication request
  -- only, never on the answers of a dialogue; the next message of whatever kind opens the session;
  -- and only in the last two phases, which it does not leave for an earlier one, is a message one of
  -- the connection protocol.
  pub read_packet-Moves :
      (s s' : AuthSession H) (b : ℕ) (rest : Bytes) (more : Bool)
      → read_packet w handler keys config s (b ∷ rest) ≡ ok (s', more)
      → Moves b (phase s.enc.state) (phase s'.enc.state) more
  unfolding read_packet
  read_packet-Moves s s' b rest more e = message-Step s.enc.state s (b ∷ rest) b refl (s', more) e
