-- ===== src/ServerRead/Open.antt =====
-- `server_handle_channel_open`: the client opens a channel.
use thrussh_mod.Base.{
  ℕ, true, false, Option, none, some, [], ◌∷◌, ◌++◌, if◌then◌else◌, Bytes, codes, equal,
}
use thrussh_mod.Base.Dict.{insert}
use thrussh_mod.Error.{Result, ok, panic, ◌>>=◌, ◌>>◌}
use thrussh_mod.Wire.{Wire, push_packet, read_string?, read_u32?}
use thrussh_mod.Channel.{Channel}
use thrussh_mod.Encrypted.{new_channel_id}
use thrussh_mod.CommonSession.{on_encrypted}
use thrussh_mod.ServerConfig.{ServerConfig}
use thrussh_mod.ServerAuth.{text?}
use thrussh_mod.ServerRead.{Session, Call, Step, done, calls, in_common, push_message}
use thrussh_mod.Msg

module _ (w : Wire) (config : ServerConfig) where
  -- The message of `server_confirm_channel_open`
  abbrev pub confirmation : Channel → Bytes
  confirmation channel =
      Msg.channel_open_confirmation
      ∷ (w.u32_be channel.recipient_channel
          ++ (w.u32_be channel.sender_channel
              ++ (w.u32_be config.window_size ++ w.u32_be config.maximum_packet_size)))

  -- `confirm_channel_open`
  unfoldable pub confirm_channel_open : Channel → Session → Session
  confirm_channel_open channel = in_common (
      on_encrypted λ enc. record enc {
        write = push_packet w enc.write (confirmation channel);
        channels = insert channel.sender_channel channel enc.channels;
      })

  -- The channel that the client asks for, as this side sees it
  abbrev pub opened_channel : (sender_channel sender window maxpacket : ℕ) → Channel
  opened_channel sender_channel sender window maxpacket = record {
    recipient_channel = sender;
    sender_channel = sender_channel;
    recipient_window_size = window;
    sender_window_size = config.window_size;
    recipient_maximum_packet_size = maxpacket;
    sender_maximum_packet_size = config.maximum_packet_size;
    confirmed = true;
    wants_reply = false;
    pending_data = [];
  }

  -- The channel that the session numbers next; without an encrypted session, `unreachable!()`.
  unfoldable pub next_channel_id : Session → Result (Session × ℕ)
  next_channel_id s = elim s.common.encrypted [
    | none ↦ panic
    | some enc ↦ do
      (enc', id) ← new_channel_id enc
      ok (record s { common = record s.common { encrypted = some enc' } }, id)
  ]

  abbrev pub open_refusal : (sender : ℕ) → Bytes
  open_refusal sender =
      Msg.channel_open_failure
      ∷ (w.u32_be sender
          ++ (w.u32_be 3
              ++ (w.ssh_string (codes "Unknown channel type") ++ w.ssh_string (codes "en"))))

  module _ {H : Type 0} where
    -- The kinds of channel; `r` is behind the maximal packet size.
    unfoldable pub open_kind :
        Option H → Channel → Bytes → (r : ℕ) → (kind : Bytes) → Session → Result (Step H)
    unfolding confirm_channel_open
    open_kind h channel buf r kind s =
        if equal kind (codes "session")
        then ok (
            calls h (Call.channel_open_session channel.sender_channel)
              (confirm_channel_open channel s))
        else if equal kind (codes "x11")
        then (do
          (a, r1) ← read_string? w buf r
          text? a
          (b, r2) ← read_u32? w buf r1
          ok (
              calls h (Call.channel_open_x11 channel.sender_channel a b)
                (confirm_channel_open channel s)))
        else if equal kind (codes "direct-tcpip")
        then (do
          (a, r1) ← read_string? w buf r
          text? a
          (b, r2) ← read_u32? w buf r1
          (c, r3) ← read_string? w buf r2
          text? c
          (d, r4) ← read_u32? w buf r3
          ok (
              calls h (Call.channel_open_direct_tcpip channel.sender_channel a b c d)
                (confirm_channel_open channel s)))
        else ok (done h (push_message w (open_refusal channel.recipient_channel) s))

    -- `server_handle_channel_open`
    unfoldable pub server_handle_channel_open : Option H → Bytes → Session → Result (Step H)
    unfolding open_kind next_channel_id
    server_handle_channel_open h buf s = do
      (kind, r1) ← read_string? w buf 1
      (sender, r2) ← read_u32? w buf r1
      (window, r3) ← read_u32? w buf r2
      (maxpacket, r4) ← read_u32? w buf r3
      (s', sender_channel) ← next_channel_id s
      open_kind h (opened_channel sender_channel sender window maxpacket) buf r4 kind s'
