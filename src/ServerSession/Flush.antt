-- ===== src/ServerSession/Flush.antt =====
-- src/server/session.rs, `Session::flush`: the packets that wait are sent, and keys are exchanged
-- anew when it is time.
use thrussh_mod.Base.{ℕ, Bool, true, false, Option, none, some, List, Bytes}
use thrussh_mod.Error.{Result, ok, ◌>>=◌}
use thrussh_mod.Wire.{Wire}
use thrussh_mod.Sodium.{Sodium}
use thrussh_mod.SshBuffer.{SshBuffer}
use thrussh_mod.Compression.{Flate}
use thrussh_mod.Encrypted.{Encrypted}
use thrussh_mod.Encrypted.Flush.{flush}
use thrussh_mod.Kex.{Exchange, kex_init, initiate_rekey}
use thrussh_mod.Kex.Derivation.{Primitives}
use thrussh_mod.Kex.Server.{HostKeys, server_write}
use thrussh_mod.ServerConfig.{ServerConfig}
use thrussh_mod.CommonSession.{CommonSession}

-- What a server runs with: the crates that it calls, its configuration and its host keys.
pub record ServerEnv (KP : Type 0) : Type 0 where
  pub wire : Wire
  pub sodium : Sodium
  pub flate : Flate
  pub primitives : Primitives
  pub host : HostKeys KP
  pub config : ServerConfig
  pub keys : List KP

-- What is met at one packet: the time, what `rand_bytes` gives for a cookie and for a secret, and
-- the rounds that a compression may take.
pub record Moment : Type 0 where
  pub now : ℕ
  pub cookie : Option Bytes
  pub random : Option Bytes
  pub rounds : ℕ

module _ {KP : Type 0} (env : ServerEnv KP) (m : Moment) where
  -- A key exchange that the server begins, with the exchange that it takes out of the session
  unfoldable pub begin_exchange :
      CommonSession → Encrypted → SshBuffer → Option Exchange → Result CommonSession
  begin_exchange s enc out none = ok (record s { encrypted = some enc; write_buffer = out })
  begin_exchange s enc out (some exchange) = do
    (kexinit, out') ←
        server_write env.host env.wire env.sodium env.primitives env.config env.keys s.cipher
          (initiate_rekey exchange enc.session_id) m.cookie out
    ok (record s {
      encrypted = some (record enc { exchange = none; rekey = some (kex_init kexinit) });
      write_buffer = out';
    })

  -- `flush`, of which `again` says that keys are to be exchanged anew
  unfoldable pub flushed :
      CommonSession → Encrypted → SshBuffer → (again : Bool) → Result CommonSession
  unfolding begin_exchange
  flushed s enc out false = ok (record s { encrypted = some enc; write_buffer = out })
  flushed s enc out true = elim enc.rekey [
    | none ↦ begin_exchange s enc out enc.exchange
    | some rekey ↦ ok (record s { encrypted = some enc; write_buffer = out })
  ]

  -- `Session::flush`
  unfoldable pub session_flush : CommonSession → Result CommonSession
  unfolding flushed
  session_flush s = elim s.encrypted [
    | none ↦ ok s
    | some enc ↦ do
      (enc', out, again) ←
          flush env.wire env.sodium env.flate s.cipher m.rounds enc env.config.limits s.write_buffer
            m.now
      flushed s enc' out again
  ]
