-- ===== src/Client/Packets.antt =====
-- src/client/mod.rs, `reply` and `Session::flush`, and the part of `client_read_encrypted` of
-- src/client/encrypted.rs on key exchange: what the client does with one packet.
use thrussh_mod.Base.{ℕ, Bool, true, false, not, ◌||◌, Option, none, some, [], ◌∷◌, ◌==◌, Bytes}
use thrussh_mod.Base.Dict.{is_some}
use thrussh_mod.Error.{Error, thrussh, Result, ok, err, panic, ◌>>=◌}
use thrussh_mod.Wire.{Wire}
use thrussh_mod.Sodium.{Sodium}
use thrussh_mod.SshBuffer.{SshBuffer}
use thrussh_mod.Cipher
use thrussh_mod.Compression.{Flate}
use thrussh_mod.Negotiation.{read_kex, client_select}
use thrussh_mod.Encrypted.{Encrypted, waiting_service_request}
use thrussh_mod.Encrypted.Flush.{flush}
use thrussh_mod.Kex.{
  Exchange, Kex, KexInit, KexDhDone, NewKeys, kex_init, kex_dh_done, new_keys, received_rekey,
  initiate_rekey,
}
use thrussh_mod.Kex.Derivation.{Primitives}
use thrussh_mod.Kex.Client.{client_write, client_parse}
use thrussh_mod.Kex.Check.{ServerKeys, Checker, server_key_check}
use thrussh_mod.CommonSession.{CommonSession, newkeys, start_encrypted}
use thrussh_mod.ServerAuth.Messages.{first_byte}
use thrussh_mod.ServerSession.Flush.{Moment}
use thrussh_mod.ClientSession.{ClientConfig}
use thrussh_mod.Client.{ClientKeys, ClientHandler, Session}
use thrussh_mod.Client.Auth.{service_request}
use thrussh_mod.Client.Read.{client_read_state}
use thrussh_mod.Msg

-- What a client runs with: the crates that it calls, its configuration, and the check of a server's
-- key by its handler.
pub record ClientEnv (H KP K : Type 0) : Type 0 where
  pub wire : Wire
  pub sodium : Sodium
  pub flate : Flate
  pub primitives : Primitives
  pub config : ClientConfig
  pub keys : ClientKeys KP K
  pub server_keys : ServerKeys K
  pub check_server_key : Checker H K
  pub handler : ClientHandler H KP K

module _ {H KP K : Type 0} (env : ClientEnv H KP K) (m : Moment) where
  -- A key exchange that the client begins, with the exchange that it takes out of the session
  unfoldable pub client_begin_exchange :
      CommonSession → Encrypted → SshBuffer → Option Exchange → Result CommonSession
  client_begin_exchange s enc out none = ok (record s { encrypted = some enc; write_buffer = out })
  client_begin_exchange s enc out (some exchange) = do
    (kexinit, out') ←
        client_write env.wire env.sodium env.primitives env.config.preferred s.cipher
          (initiate_rekey exchange enc.session_id) m.cookie out
    ok (record s {
      encrypted = some (record enc { exchange = none; rekey = some (kex_init kexinit) });
      write_buffer = out';
    })

  -- `Session::flush`
  unfoldable pub client_flush : CommonSession → Result CommonSession
  unfolding client_begin_exchange
  client_flush s = elim s.encrypted [
    | none ↦ ok s
    | some enc ↦ do
      (enc', out, again) ←
          flush env.wire env.sodium env.flate s.cipher m.rounds enc env.config.limits s.write_buffer
            m.now
      let kept = record s { encrypted = some enc'; write_buffer = out }
      elim again [
        | false ↦ ok kept
        | true ↦ elim enc'.rekey [
          | some rekey ↦ ok kept
          | none ↦ client_begin_exchange s enc' out enc'.exchange
        ]
      ]
  ]

  -- `kexinit.client_parse`, with the buffer of the session
  unfoldable pub parse_server_init :
      CommonSession → KexInit → Bytes → Result (KexDhDone × SshBuffer)
  parse_server_init s kexinit buf =
      client_parse env.wire env.sodium env.primitives env.config.preferred s.cipher kexinit m.cookie
        m.random buf s.write_buffer

  -- The check of the server's key, and the NEWKEYS that the client sends then
  unfoldable pub check_reply :
      CommonSession
      → (rekey : Bool) → KexDhDone
      → Option H
      → Bytes
      → Result (NewKeys × Option H × SshBuffer)
  check_reply s rekey kexdhdone h buf = do
    (n, h') ←
        server_key_check env.wire env.primitives env.server_keys env.check_server_key kexdhdone
          rekey h buf
    out ← Cipher.write env.wire env.sodium s.cipher (Msg.newkeys ∷ []) s.write_buffer
    ok (n, h', out)

  -- The next state of a key exchange in a running session
  abbrev pub rekeyed : CommonSession → Encrypted → Kex → SshBuffer → CommonSession
  rekeyed s enc kex out = record s {
    encrypted = some (record enc { rekey = some kex });
    write_buffer = out;
  }

  -- A key exchange that the server begins, when none is under way
  unfoldable pub client_accept_rekey :
      CommonSession → Encrypted → Bytes → Option Exchange → Result CommonSession
  unfolding parse_server_init
  client_accept_rekey s enc buf none =
      ok (record s { encrypted = some (record enc { rekey = none }) })
  client_accept_rekey s enc buf (some exchange) = do
    algo ← read_kex env.wire client_select buf env.config.preferred
    (d, out) ← parse_server_init s (received_rekey exchange algo enc.session_id) buf
    ok (rekeyed s (record enc { exchange = none }) (kex_dh_done d) out)

  -- A KEXINIT in a running session
  unfoldable pub client_begin_rekey :
      CommonSession → Encrypted → Bytes → Option Kex → Result CommonSession
  unfolding client_accept_rekey parse_server_init client_flush
  client_begin_rekey s enc buf (some (kex_init kexinit)) = do
    (d, out) ← parse_server_init s kexinit buf
    client_flush (rekeyed s enc (kex_dh_done d) out)
  client_begin_rekey s enc buf none = client_accept_rekey s enc buf enc.exchange
  client_begin_rekey s enc buf (some other) = client_accept_rekey s enc buf enc.exchange

  -- The same state, without the mark that a guessed packet is to be passed over
  abbrev pub guess_passed : KexDhDone → KexDhDone
  guess_passed d = record d { names = record d.names { ignore_guessed = false } }

  -- A message while the client waits for the server's key
  unfoldable pub client_continue_dh :
      CommonSession
      → Encrypted
      → Option H
      → Bytes
      → ℕ
      → KexDhDone
      → Result (Option H × CommonSession)
  unfolding check_reply client_flush
  client_continue_dh s enc h buf b d = elim d.names.ignore_guessed [
    | true ↦ ok (h, rekeyed s enc (kex_dh_done (guess_passed d)) s.write_buffer)
    | false ↦ elim (b == Msg.kex_ecdh_reply) [
      | true ↦ do
        (n, h', out) ← check_reply s true d h buf
        common ← client_flush (rekeyed s enc (new_keys n) out)
        ok (h', common)
      | false ↦ err (thrussh Error.inconsistent)
    ]
  ]

  -- Any other message in a running session: the new session, where a key exchange waits for it
  unfoldable pub client_continue_rekey :
      CommonSession
      → Encrypted
      → Option H
      → Bytes
      → ℕ
      → Option Kex
      → Result (Option (Option H × CommonSession))
  unfolding client_continue_dh
  client_continue_rekey s enc h buf b (some (kex_dh_done d)) = do
    r ← client_continue_dh s enc h buf b d
    ok (some r)
  client_continue_rekey s enc h buf b (some (new_keys n)) = elim (b == Msg.newkeys) [
    | true ↦
        let s' = record s {
          encrypted = some (record enc { rekey = none; last_rekey = m.now });
          write_buffer = record s.write_buffer { bytes = 0 };
        } in
        ok (some (h, newkeys s' n))
    | false ↦ err (thrussh Error.kex)
  ]
  client_continue_rekey s enc h buf b none = ok none
  client_continue_rekey s enc h buf b (some other) = ok none

  -- `client_read_encrypted`
  unfoldable pub client_read_encrypted :
      Option H → Session KP K → Bytes → Result (Option H × Session KP K)
  unfolding client_begin_rekey client_continue_rekey
  client_read_encrypted h s buf = do
    b ← first_byte buf
    elim (b == Msg.kexinit) [
      | true ↦ elim s.common.encrypted [
        | none ↦ panic
        | some enc ↦ do
          common ← client_begin_rekey s.common enc buf enc.rekey
          ok (h, record s { common = common })
      ]
      | false ↦ elim s.common.encrypted [
        | none ↦ client_read_state env.handler env.keys env.wire env.config h s buf
        | some enc ↦ do
          exchanged ← client_continue_rekey s.common enc h buf b enc.rekey
          elim exchanged [
            | some r ↦ ok (r.0, record s { common = r.1 })
            | none ↦ client_read_state env.handler env.keys env.wire env.config h s buf
          ]
      ]
    ]

  -- The new keys of the first key exchange, and the request for authentication
  unfoldable pub start_session : CommonSession → NewKeys → Result CommonSession
  start_session s n = elim s.encrypted [
    | some enc ↦ ok (start_encrypted s (waiting_service_request false false) n m.now)
    | none ↦ do
      let s' = start_encrypted s (waiting_service_request true false) n m.now
      out ← Cipher.write env.wire env.sodium s'.cipher service_request s'.write_buffer
      ok (record s' { write_buffer = out })
  ]

  -- A message of the key exchange outside the encrypted session
  unfoldable pub client_reply_kex :
      CommonSession → Option H → Bytes → Kex → Result (Option H × CommonSession)
  unfolding parse_server_init check_reply client_flush start_session
  client_reply_kex s h buf (kex_init kexinit) = do
    b ← first_byte buf
    elim (is_some kexinit.algo || (b == Msg.kexinit || not (is_some s.encrypted))) [
      | false ↦ ok (h, record s { kex = none })
      | true ↦ do
        (d, out) ← parse_server_init s kexinit buf
        common ← client_flush (record s { kex = some (kex_dh_done d); write_buffer = out })
        ok (h, common)
    ]
  client_reply_kex s h buf (kex_dh_done d) = elim d.names.ignore_guessed [
    | true ↦ ok (h, record s { kex = some (kex_dh_done (guess_passed d)) })
    | false ↦ do
      b ← first_byte buf
      elim (b == Msg.kex_ecdh_reply) [
        | true ↦ do
          (n, h', out) ← check_reply s false d h buf
          common ← client_flush (record s { kex = some (new_keys n); write_buffer = out })
          ok (h', common)
        | false ↦ err (thrussh Error.inconsistent)
      ]
  ]
  client_reply_kex s h buf (new_keys n) = do
    b ← first_byte buf
    elim (b == Msg.newkeys) [
      | true ↦ do common ← start_session (record s { kex = none }) n; ok (h, common)
      | false ↦ err (thrussh Error.kex)
    ]
  client_reply_kex s h buf other = ok (h, s)

  -- `reply`
  unfoldable pub client_reply : Option H → Session KP K → Bytes → Result (Option H × Session KP K)
  unfolding client_reply_kex client_read_encrypted
  client_reply h s buf = elim s.common.kex [
    | none ↦ client_read_encrypted h s buf
    | some kex ↦ do
      (h', common) ← client_reply_kex s.common h buf kex
      ok (h', record s { common = common })
  ]
