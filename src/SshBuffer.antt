-- ===== src/SshBuffer.antt =====
-- src/sshbuffer.rs. A `CryptoVec` is read as the list of its bytes.
use thrussh_mod.Base.{ℕ, [], ◌∷◌, ◌++◌, Bytes}

pub record SshBuffer : Type 0 where
  pub buffer : Bytes
  pub len : ℕ
  pub bytes : ℕ
  pub seqn : ℕ

pub new : SshBuffer
new = record { buffer = []; len = 0; bytes = 0; seqn = 0 }

pub send_ssh_id : SshBuffer → Bytes → SshBuffer
send_ssh_id b id = record b { buffer = (b.buffer ++ id) ++ b'\r' ∷ b'\n' ∷ [] }
