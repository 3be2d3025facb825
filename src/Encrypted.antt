-- ===== src/Encrypted.antt =====
-- src/session.rs, `impl Encrypted`: the packets of an encrypted session that wait to be sent, its
-- channels with their windows and pending data, and the numbers of new channels.
pub mod Data
pub mod Flush
pub mod Sending
pub mod Queue
pub mod PendingData
pub mod Window
pub mod Ids
pub mod Flushing
use thrussh_mod.Base.{
  ℕ, zero, suc, ◌+◌, ◌-◌, ◌*◌, ◌/◌, ◌%◌, ◌^◌, min, Bool, true, false, ◌||◌, Option, none, some,
  List, [], ◌∷◌, ◌++◌, Bytes, length, take, drop, is_empty, ltb, leb, if◌then◌else◌,
}
use thrussh_mod.Base.Dict.{Dict, lookup, insert, contains_key}
use thrussh_mod.Error.{Result, ok, err, panic, no_fuel, ◌>>=◌, ◌>>◌, assert, unwrap, unwrap_result}
use thrussh_mod.Wire.{Wire, push_packet}
use thrussh_mod.Sodium.{Sodium}
use thrussh_mod.SshBuffer.{SshBuffer}
use thrussh_mod.Cipher.{CipherPair}
use thrussh_mod.Cipher
use thrussh_mod.Compression.{Compression, Compress, Decompress, Flate, compress}
use thrussh_mod.Channel.{Channel, Pending}
use thrussh_mod.Auth.{AuthRequest}
use thrussh_mod.Kex.{Algorithm, Exchange, Kex}
use thrussh_mod.Msg

pub data EncryptedState : Type 0 where
  waiting_service_request : (sent accepted : Bool) → EncryptedState
  waiting_auth_request : AuthRequest → EncryptedState
  init_compression : EncryptedState
  authenticated : EncryptedState

-- `last_rekey` is in milliseconds; `compress_buffer`, a scratch buffer, is left out.
pub record Encrypted : Type 0 where
  pub state : EncryptedState
  pub exchange : Option Exchange
  pub kex : Algorithm
  pub key : ℕ
  pub mac : Option Bytes
  pub session_id : Bytes
  pub rekey : Option Kex
  pub channels : Dict Channel
  pub last_channel_id : ℕ
  pub wants_reply : Bool
  pub write : Bytes
  pub write_cursor : ℕ
  pub last_rekey : ℕ
  pub server_compression : Compression
  pub client_compression : Compression
  pub compress : Compress
  pub decompress : Decompress

pub record Limits : Type 0 where
  pub rekey_write_limit : ℕ
  pub rekey_read_limit : ℕ
  pub rekey_time_limit : ℕ

-- `a as u32`, and `a - b` on `u32` as a release build computes it.
abbrev pub u32 : ℕ → ℕ
u32 a = a % 2 ^ 32

abbrev pub sub32 : ℕ → ℕ → ℕ
sub32 a b = (a + 2 ^ 32 - b) % 2 ^ 32

-- `&buf[from..to]` and `&buf[from..]`
abbrev pub slice : Bytes → ℕ → ℕ → Result Bytes
slice buf from to =
    if ltb to from
    then panic
    else if ltb (length buf) to
    then panic
    else ok (drop from (take to buf))

abbrev pub slice_from : Bytes → ℕ → Result Bytes
slice_from buf from = if ltb (length buf) from then panic else ok (drop from buf)

pub sender_window_size : Encrypted → ℕ → ℕ
sender_window_size enc channel = elim (lookup channel enc.channels) [
  | none ↦ 0
  | some c ↦ c.sender_window_size
]

pub has_pending_data : Encrypted → ℕ → Bool
has_pending_data enc channel = elim (lookup channel enc.channels) [
  | none ↦ false
  | some c ↦ if is_empty c.pending_data then false else true
]

-- The part of a buffer that the window of the other side lets through, from an offset on.
unfoldable pub window_slice : Channel → Bytes → ℕ → Result Bytes
window_slice c buf0 from =
    if ltb c.recipient_window_size (u32 (length buf0))
    then slice buf0 from c.recipient_window_size
    else slice_from buf0 from

-- The search of `new_channel_id` and `new_channel`: count on, with wrap-around, to the next number
-- that no channel has.
unfoldable pub next_vacant : ℕ → ℕ → Dict Channel → Result ℕ
next_vacant zero last channels = no_fuel
next_vacant (suc fuel) last channels =
    let id = (last + 1) % 2 ^ 32 in
    let more = next_vacant fuel id channels in if contains_key id channels then more else ok id

-- `new_channel_id`. One round more than there are channels is enough.
unfoldable pub new_channel_id : Encrypted → Result (Encrypted × ℕ)
new_channel_id enc = do
  id ← next_vacant (suc (length enc.channels)) enc.last_channel_id enc.channels
  ok (record enc { last_channel_id = id }, id)

-- `new_channel`
unfoldable pub new_channel : Encrypted → ℕ → ℕ → Result (Encrypted × ℕ)
new_channel enc window_size maxpacket = do
  id ← next_vacant (suc (length enc.channels)) enc.last_channel_id enc.channels
  let c : Channel = record {
    recipient_channel = 0;
    sender_channel = id;
    recipient_window_size = 0;
    sender_window_size = window_size;
    recipient_maximum_packet_size = 0;
    sender_maximum_packet_size = maxpacket;
    confirmed = false;
    wants_reply = false;
    pending_data = [];
  }
  ok (record enc { last_channel_id = id; channels = insert id c enc.channels }, id)

module _ (w : Wire) where
  -- `byte`
  unfoldable pub byte : Encrypted → ℕ → ℕ → Encrypted
  byte enc channel msg = elim (lookup channel enc.channels) [
    | none ↦ enc
    | some c ↦ record enc { write = push_packet w enc.write (msg ∷ w.u32_be c.recipient_channel) }
  ]

  -- `eof`
  unfoldable pub eof : Encrypted → ℕ → Encrypted
  unfolding byte
  eof enc channel = byte enc channel Msg.channel_eof

  -- `adjust_window_size`: the new state, and whether the window was opened again.
  unfoldable pub adjust_window_size : Encrypted → ℕ → Bytes → ℕ → Encrypted × Bool
  adjust_window_size enc channel data_ target = elim (lookup channel enc.channels) [
    | none ↦ (enc, false)
    | some c ↦
        let size =
          if leb (u32 (length data_)) c.sender_window_size
          then c.sender_window_size - u32 (length data_)
          else c.sender_window_size in
        if ltb size (target / 2)
        then (
          record enc {
            write = push_packet w enc.write (
                Msg.channel_window_adjust
                ∷ (w.u32_be c.recipient_channel ++ w.u32_be (target - size)));
            channels = insert channel (record c { sender_window_size = target }) enc.channels;
          },
          true,
        )
        else (
          record enc {
            channels = insert channel (record c { sender_window_size = size }) enc.channels;
          },
          false,
        )
  ]
