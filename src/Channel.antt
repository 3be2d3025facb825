-- ===== src/Channel.antt =====
-- src/lib.rs, `struct Channel`: the parameters of a channel. A `ChannelId` is its number.
use thrussh_mod.Base.{ℕ, Bool, Option, List, Bytes}

-- A block of data that waits for the window: its bytes, its extended code, and the offset from
-- which it is still to be sent.
abbrev pub Pending : Type 0
Pending = Bytes × Option ℕ × ℕ

pub record Channel : Type 0 where
  pub recipient_channel : ℕ
  pub sender_channel : ℕ
  pub recipient_window_size : ℕ
  pub sender_window_size : ℕ
  pub recipient_maximum_packet_size : ℕ
  pub sender_maximum_packet_size : ℕ
  pub confirmed : Bool
  pub wants_reply : Bool
  pub pending_data : List Pending
