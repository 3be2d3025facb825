-- ===== src/ServerReply/Isolation.antt =====
-- Who is called when: before a client is authenticated, no message of it reaches the part of the
-- handler that serves channels.
use thrussh_mod.Base.{ℕ, ◌≡◌, refl, ap, true, false, Option, none, some, ◌==◌, Bytes}
use thrussh_mod.Error.{Result, ok, ◌>>=◌, >>=_congr}
use thrussh_mod.Error.Ensures.{Ensures, Ensures-elim, Ensures-ok, Ensures-bind}
use thrussh_mod.Encrypted.{
  EncryptedState, Encrypted, waiting_service_request, waiting_auth_request, authenticated,
}
use thrussh_mod.ServerAuth.{Handler, PublicKeys, AuthSession}
use thrussh_mod.ServerAuth.Messages.{
  first_byte, read_packet, read_message, read_service_request, read_userauth_info_response,
}
use thrussh_mod.ServerAuth.Requests.{server_read_auth_request}
use thrussh_mod.ServerSession.Flush.{ServerEnv, Moment}
use thrussh_mod.ServerRead.{Session, ChannelHandler}
use thrussh_mod.ServerReply.{read_state, server_read_encrypted, continue_rekey, begin_rekey, reply}
use thrussh_mod.Msg

-- The client of this session has not been authenticated.
abbrev pub IsUnknown : EncryptedState → Type 0
IsUnknown (waiting_service_request sent accepted) = Unit
IsUnknown (waiting_auth_request a) = Unit
IsUnknown _ = ⊥

module _ {H K KP : Type 0} (auth : Handler H K) (public_keys : PublicKeys K) (env : ServerEnv KP)
    (m : Moment) (one other : ChannelHandler H) where
  read_message-closed :
      (state : EncryptedState) (s : AuthSession H) (buf : Bytes) (b : ℕ)
      → IsUnknown state
      → Ensures (λ r. r.1 ≡ false) (read_message env.wire auth public_keys env.config state s buf b)
  unfolding read_message
  read_message-closed (waiting_service_request sent accepted) s buf b h =
      Ensures-elim (b == Msg.service_request) _ _
        (λ e.
          Ensures-bind (read_service_request env.wire env.config s buf) _
            λ s' e1. Ensures-ok _ refl)
        λ e. Ensures-ok _ refl
  read_message-closed (waiting_auth_request a) s buf b h =
      Ensures-elim (b == Msg.userauth_request) _ _
        (λ e.
          Ensures-bind (server_read_auth_request env.wire auth public_keys s buf) _
            λ s' e1. Ensures-ok _ refl)
        λ e.
          Ensures-elim (b == Msg.userauth_info_response) _ _
            (λ e1.
              Ensures-bind (read_userauth_info_response env.wire auth public_keys s a buf) _
                λ r e2. Ensures-ok _ refl)
            λ e1. Ensures-ok _ refl
  read_message-closed EncryptedState.init_compression s buf b h = elim h [ ]
  read_message-closed authenticated s buf b h = elim h [ ]

  read_packet-closed :
      (s : AuthSession H) (buf : Bytes)
      → IsUnknown s.enc.state
      → Ensures (λ r. r.1 ≡ false) (read_packet env.wire auth public_keys env.config s buf)
  unfolding read_packet
  read_packet-closed s buf h =
      Ensures-bind (first_byte buf) _ λ b e. read_message-closed s.enc.state s buf b h

  read_state_isolated :
      (h : Option H) (buf : Bytes) (s : Session) (enc : Encrypted)
      → IsUnknown enc.state
      → read_state auth public_keys one env m h buf s enc
        ≡ read_state auth public_keys other env m h buf s enc
  unfolding read_state
  read_state_isolated h buf s enc unknown = >>=_congr _ _ _ λ (a, is_authenticated) e.
      let closed =
        (read_packet-closed (record { enc = enc; handler = h; auth_user = s.common.auth_user }) buf
            unknown).at
          _ e in
      rw closed

  -- `server_read_encrypted`, where `rest` is done with a message of no key exchange
  abbrev answer_with :
      Option H
      → Bytes
      → Session
      → Encrypted
      → Result (Option H × Session)
      → Result (Option H × Session)
  answer_with h buf s enc rest = do
    b ← first_byte buf
    elim (b == Msg.kexinit) [
      | true ↦ do
        common ← begin_rekey env m s.common enc buf enc.rekey
        ok (h, record s { common = common })
      | false ↦ do
        exchanged ← continue_rekey env m s.common enc buf b enc.rekey
        elim exchanged [ some common ↦ ok (h, record s { common = common }) | none ↦ rest ]
    ]

  reply_encrypted_isolated :
      (h : Option H) (buf : Bytes) (s : Session) (enc : Encrypted)
      → IsUnknown enc.state
      → server_read_encrypted auth public_keys one env m h buf s enc
        ≡ server_read_encrypted auth public_keys other env m h buf s enc
  unfolding server_read_encrypted
  reply_encrypted_isolated h buf s enc unknown =
      ap (answer_with h buf s enc) (read_state_isolated h buf s enc unknown)

  -- The session is not encrypted yet, or its client is not authenticated.
  abbrev pub IsClosed : Option Encrypted → Type 0
  IsClosed none = Unit
  IsClosed (some enc) = IsUnknown enc.state

  reply_isolated_of :
      (h : Option H) (buf : Bytes) (s : Session) (encrypted : Option Encrypted)
      → s.common.encrypted ≡ encrypted
      → IsClosed encrypted
      → reply auth public_keys one env m h buf s ≡ reply auth public_keys other env m h buf s
  unfolding reply
  reply_isolated_of h buf s none e closed = rw e
  reply_isolated_of h buf s (some enc) e closed =
      rw (e, reply_encrypted_isolated h buf s enc closed)

  -- While a session is not encrypted, or its client is not authenticated, the answer to a packet does
  -- not depend on what the handler does about channels and forwarding: with any other handler of those
  -- messages the answer is the same, and so no such message is served before authentication.
  pub reply_isolated :
      (h : Option H) (buf : Bytes) (s : Session)
      → IsClosed s.common.encrypted
      → reply auth public_keys one env m h buf s ≡ reply auth public_keys other env m h buf s
  reply_isolated h buf s closed = reply_isolated_of h buf s s.common.encrypted refl closed
