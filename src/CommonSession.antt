-- ===== src/CommonSession.antt =====
-- src/session.rs, `struct CommonSession`: what a session of either side holds. Its configuration is
-- an argument where it is read; `auth_method`, which the client sets, and the buffer for reading
-- are left out.
use thrussh_mod.Base.{ℕ, Bool, true, false, Option, none, some, [], ◌∷◌, ◌++◌, if◌then◌else◌, Bytes}
use thrussh_mod.Wire.{Wire, push_packet}
use thrussh_mod.SshBuffer.{SshBuffer}
use thrussh_mod.Cipher.{CipherPair}
use thrussh_mod.Compression.{Compress, Decompress}
use thrussh_mod.Kex.{Kex, NewKeys}
use thrussh_mod.Codes.{Disconnect, disconnect_code}
use thrussh_mod.Encrypted.{EncryptedState, Encrypted}
use thrussh_mod.Encrypted
use thrussh_mod.Msg

pub record CommonSession : Type 0 where
  pub auth_user : Bytes
  pub encrypted : Option Encrypted
  pub write_buffer : SshBuffer
  pub kex : Option Kex
  pub cipher : CipherPair
  pub wants_reply : Bool
  pub disconnected : Bool

-- A change of the encrypted session, if there is one.
abbrev pub on_encrypted : (Encrypted → Encrypted) → CommonSession → CommonSession
on_encrypted f s = elim s.encrypted [ none ↦ s | some enc ↦ record s { encrypted = some (f enc) } ]

-- `newkeys`
unfoldable pub newkeys : CommonSession → NewKeys → CommonSession
newkeys s k = elim s.encrypted [
  | none ↦ s
  | some enc ↦ record s {
    encrypted =
        some
          (record enc { exchange = some k.exchange; kex = k.kex; key = k.key; mac = k.names.mac });
    cipher = k.cipher;
  }
]

-- `encrypted`, at the time `now`
unfoldable pub start_encrypted : CommonSession → EncryptedState → NewKeys → ℕ → CommonSession
start_encrypted s state k now = record s {
  encrypted = some (record {
    state = state;
    exchange = some k.exchange;
    kex = k.kex;
    key = k.key;
    mac = k.names.mac;
    session_id = k.session_id;
    rekey = none;
    channels = [];
    last_channel_id = 1;
    wants_reply = false;
    write = [];
    write_cursor = 0;
    last_rekey = now;
    server_compression = k.names.server_compression;
    client_compression = k.names.client_compression;
    compress = Compress.none;
    decompress = Decompress.none;
  });
  cipher = k.cipher;
}

module _ (w : Wire) where
  -- The message of `disconnect`
  abbrev pub disconnect_message : Disconnect → Bytes → Bytes → Bytes
  disconnect_message reason description language_tag =
      Msg.disconnect
      ∷ (w.u32_be (disconnect_code reason)
          ++ (w.ssh_string description ++ w.ssh_string language_tag))

  -- `disconnect`
  unfoldable pub disconnect : CommonSession → Disconnect → Bytes → Bytes → CommonSession
  disconnect s reason description language_tag =
      let message = disconnect_message reason description language_tag in
      if s.disconnected then s else elim s.encrypted [
        | some enc ↦ record s {
          disconnected = true;
          encrypted = some (record enc { write = push_packet w enc.write message });
        }
        | none ↦ record s {
          disconnected = true;
          write_buffer = record s.write_buffer {
            buffer = push_packet w s.write_buffer.buffer message;
          };
        }
      ]

  -- `byte`
  unfoldable pub send_byte : CommonSession → ℕ → ℕ → CommonSession
  send_byte s channel msg = on_encrypted (λ enc. Encrypted.byte w enc channel msg) s
