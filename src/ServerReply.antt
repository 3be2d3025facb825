-- ===== src/ServerReply.antt =====
-- src/server/mod.rs, `reply`, and src/server/encrypted.rs, `server_read_encrypted`: what the server
-- does with one packet, through key exchange, authentication and the connection protocol.
pub mod Again
pub mod Isolation
pub mod Rekeying
use thrussh_mod.Base.{ℕ, true, false, ◌||◌, Option, none, some, ◌==◌, Bytes}
use thrussh_mod.Base.Dict.{is_some}
use thrussh_mod.Error.{Error, thrussh, Result, ok, err, ◌>>=◌}
use thrussh_mod.SshBuffer.{SshBuffer}
use thrussh_mod.Encrypted.{Encrypted, waiting_service_request}
use thrussh_mod.Negotiation.{read_kex, server_select}
use thrussh_mod.Kex.{Exchange, Kex, KexInit, KexDh, kex_init, kex_dh, new_keys, received_rekey}
use thrussh_mod.Kex.Server.{server_parse, parse_dh}
use thrussh_mod.CommonSession.{CommonSession, newkeys, start_encrypted}
use thrussh_mod.ServerAuth.{Handler, PublicKeys}
use thrussh_mod.ServerAuth.Messages.{first_byte, read_packet}
use thrussh_mod.ServerSession.Flush.{ServerEnv, Moment, session_flush}
use thrussh_mod.ServerRead.{Session, ChannelHandler}
use thrussh_mod.ServerRead.Messages.{server_read_authenticated}
use thrussh_mod.Msg

module _ {KP : Type 0} (env : ServerEnv KP) (m : Moment) where
  -- `kexinit.server_parse` and `kexdh.parse`, with the buffer of the session
  unfoldable pub parse_init : CommonSession → KexInit → Bytes → Result (Kex × SshBuffer)
  parse_init s kexinit buf =
      server_parse env.host env.wire env.sodium env.primitives env.config env.keys s.cipher kexinit
        m.cookie buf s.write_buffer

  unfoldable pub parse_exchange : CommonSession → KexDh → Bytes → Result (Kex × SshBuffer)
  parse_exchange s kexdh buf =
      parse_dh env.host env.wire env.sodium env.primitives env.config env.keys s.cipher kexdh
        m.random buf s.write_buffer

  -- The session in which a key exchange has come to the state `kex`
  abbrev pub rekeyed : CommonSession → Encrypted → Kex × SshBuffer → CommonSession
  rekeyed s enc r = record s {
    encrypted = some (record enc { rekey = some r.0 });
    write_buffer = r.1;
  }

  -- A key exchange that the client begins, when none is under way
  unfoldable pub accept_rekey :
      CommonSession → Encrypted → Bytes → Option Exchange → Result CommonSession
  unfolding parse_init
  accept_rekey s enc buf none = ok (record s { encrypted = some (record enc { rekey = none }) })
  accept_rekey s enc buf (some exchange) = do
    algo ← read_kex env.wire server_select buf env.config.preferred
    r ← parse_init s (received_rekey exchange algo enc.session_id) buf
    ok (rekeyed s (record enc { exchange = none }) r)

  -- A KEXINIT in a running session
  unfoldable pub begin_rekey : CommonSession → Encrypted → Bytes → Option Kex → Result CommonSession
  unfolding accept_rekey parse_init
  begin_rekey s enc buf (some (kex_init kexinit)) = do
    r ← parse_init s kexinit buf
    session_flush env m (rekeyed s enc r)
  begin_rekey s enc buf none = accept_rekey s enc buf enc.exchange
  begin_rekey s enc buf (some other) = accept_rekey s enc buf enc.exchange

  -- Any other message in a running session: the new session, where a key exchange waits for it
  unfoldable pub continue_rekey :
      CommonSession → Encrypted → Bytes → ℕ → Option Kex → Result (Option CommonSession)
  unfolding parse_exchange
  continue_rekey s enc buf b (some (kex_dh kexdh)) = do
    r ← parse_exchange s kexdh buf
    ok (some (rekeyed s enc r))
  continue_rekey s enc buf b (some (new_keys n)) = elim (b == Msg.newkeys) [
    | true ↦ ok (some (newkeys (record s { encrypted = some (record enc { rekey = none }) }) n))
    | false ↦ err (thrussh Error.kex)
  ]
  continue_rekey s enc buf b none = ok none
  continue_rekey s enc buf b (some other) = ok none

  -- The first key exchange, in which nothing is encrypted
  unfoldable pub reply_kex : CommonSession → Bytes → Option Kex → Result CommonSession
  unfolding parse_init parse_exchange
  reply_kex s buf (some (kex_init kexinit)) = do
    b ← first_byte buf
    elim (is_some kexinit.algo || b == Msg.kexinit) [
      | true ↦ do
        (kex, out) ← parse_init s kexinit buf
        ok (record s { kex = some kex; write_buffer = out })
      | false ↦ ok s
    ]
  reply_kex s buf (some (kex_dh kexdh)) = do
    (kex, out) ← parse_exchange s kexdh buf
    ok (record s { kex = some kex; write_buffer = out })
  reply_kex s buf (some (new_keys n)) = do
    b ← first_byte buf
    elim (b == Msg.newkeys) [
      | true ↦
          ok (
            start_encrypted (record s { kex = none }) (waiting_service_request false false) n m.now)
      | false ↦ err (thrussh Error.kex)
    ]
  reply_kex s buf none = ok s
  reply_kex s buf (some other) = ok s

module _ {H K KP : Type 0} (auth : Handler H K) (public_keys : PublicKeys K)
    (handler : ChannelHandler H) (env : ServerEnv KP) (m : Moment) where
  -- A message that belongs to no key exchange
  unfoldable pub read_state : Option H → Bytes → Session → Encrypted → Result (Option H × Session)
  read_state h buf s enc = do
    (a, is_authenticated) ←
        read_packet env.wire auth public_keys env.config
          (record { enc = enc; handler = h; auth_user = s.common.auth_user }) buf
    let s' = record s {
      common = record s.common { encrypted = some a.enc; auth_user = a.auth_user };
    }
    elim is_authenticated [
      | true ↦ server_read_authenticated handler env m a.handler buf s'
      | false ↦ ok (a.handler, s')
    ]

  -- `server_read_encrypted`
  unfoldable pub server_read_encrypted :
      Option H → Bytes → Session → Encrypted → Result (Option H × Session)
  unfolding read_state begin_rekey continue_rekey
  server_read_encrypted h buf s enc = do
    b ← first_byte buf
    elim (b == Msg.kexinit) [
      | true ↦ do
        common ← begin_rekey env m s.common enc buf enc.rekey
        ok (h, record s { common = common })
      | false ↦ do
        exchanged ← continue_rekey env m s.common enc buf b enc.rekey
        elim exchanged [
          | some common ↦ ok (h, record s { common = common })
          | none ↦ read_state h buf s enc
        ]
    ]

  -- `reply`
  unfoldable pub reply : Option H → Bytes → Session → Result (Option H × Session)
  unfolding server_read_encrypted reply_kex
  reply h buf s = elim s.common.encrypted [
    | none ↦ do
      common ← reply_kex env m s.common buf s.common.kex
      ok (h, record s { common = common })
    | some enc ↦ server_read_encrypted h buf s enc
  ]
