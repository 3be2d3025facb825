-- ===== src/Client/Opened.antt =====
-- src/client/encrypted.rs, `client_handle_channel_open`, `confirm_channel_open` and
-- `create_forwarded_tcpip_channel`: the server opens a channel.
use thrussh_mod.Base.{ℕ, true, false, Option, none, some, [], ◌∷◌, ◌++◌, Bytes, codes, equal}
use thrussh_mod.Base.Dict.{insert}
use thrussh_mod.Error.{Error, thrussh, Result, ok, err, ◌>>=◌}
use thrussh_mod.Wire.{Wire, push_packet, read_string?, read_u32?}
use thrussh_mod.Channel.{Channel}
use thrussh_mod.Encrypted.{new_channel_id}
use thrussh_mod.CommonSession.{CommonSession, on_encrypted}
use thrussh_mod.ClientSession.{ClientConfig}
use thrussh_mod.Client.{Session, Call, Step, done, calls}
use thrussh_mod.Msg

module _ (w : Wire) where
  -- `client_confirm_channel_open`
  unfoldable pub client_confirm_channel_open :
      ClientConfig → Bytes → (remote_channel_no local_channel_no : ℕ) → Bytes
  client_confirm_channel_open config buffer remote_channel_no local_channel_no =
      push_packet w buffer (
        Msg.channel_open_confirmation
        ∷ (w.u32_be remote_channel_no
            ++ (w.u32_be local_channel_no
                ++ (w.u32_be config.window_size ++ w.u32_be config.maximum_packet_size))))

  -- `confirm_channel_open`
  unfoldable pub confirm_channel_open :
      ClientConfig → CommonSession → (remote_channel_no local_channel_no : ℕ) → CommonSession
  unfolding client_confirm_channel_open
  confirm_channel_open config s remote_channel_no local_channel_no =
      on_encrypted
        (λ enc. record enc {
          write = client_confirm_channel_open config enc.write remote_channel_no local_channel_no;
        })
        s

  -- The channel of `create_forwarded_tcpip_channel`
  abbrev pub forwarded_channel :
      ClientConfig → (id remote_channel window_size max_packet_size : ℕ) → Channel
  forwarded_channel config id remote_channel window_size max_packet_size = record {
    recipient_channel = remote_channel;
    sender_channel = id;
    recipient_window_size = window_size;
    sender_window_size = config.window_size;
    recipient_maximum_packet_size = max_packet_size;
    sender_maximum_packet_size = config.maximum_packet_size;
    confirmed = true;
    wants_reply = false;
    pending_data = [];
  }

  -- `create_forwarded_tcpip_channel`, with the number of the channel
  unfoldable pub create_forwarded_tcpip_channel :
      ClientConfig
      → CommonSession
      → (remote_channel window_size max_packet_size : ℕ) → Result (CommonSession × ℕ)
  unfolding confirm_channel_open
  create_forwarded_tcpip_channel config s remote_channel window_size max_packet_size =
      elim s.encrypted [
        | none ↦ err (thrussh Error.inconsistent)
        | some enc ↦ do
          (enc', id) ← new_channel_id enc
          let c = forwarded_channel config id remote_channel window_size max_packet_size
          let opened = record s {
            encrypted = some (record enc' { channels = insert id c enc'.channels });
          }
          ok (confirm_channel_open config opened remote_channel id, id)
      ]

  module _ {H KP K : Type 0} where
    -- The kinds of channel that a server opens; `r` is behind the maximal packet size.
    unfoldable pub handle_open_kind :
        Option H
        → Session KP K
        → Bytes
        → ℕ
        → (kind : Bytes) → (sender_channel window maxpacket : ℕ) → Result (Step H KP K)
    handle_open_kind h s buf r kind sender_channel window maxpacket =
        elim (equal kind (codes "forwarded-tcpip")) [
          | true ↦ do
            (address, r1) ← read_string? w buf r
            (port, r2) ← read_u32? w buf r1
            (orig_addr, r3) ← read_string? w buf r2
            (orig_port, r4) ← read_u32? w buf r3
            ok (
                calls h
                  (Call.channel_open_forwarded_tcpip_client sender_channel address port orig_addr
                    orig_port window maxpacket)
                  s)
          | false ↦ ok (
              done h (record s {
                common =
                    on_encrypted
                      (λ enc. record enc {
                        write = push_packet w enc.write (
                            Msg.channel_open_failure
                            ∷ (w.u32_be sender_channel
                                ++ (w.u32_be 3
                                    ++ (w.ssh_string (codes "Unknown channel type")
                                        ++ w.ssh_string (codes "en")))));
                      })
                      s.common;
              }))
        ]

    -- `client_handle_channel_open`
    unfoldable pub client_handle_channel_open :
        Option H → Session KP K → Bytes → Result (Step H KP K)
    unfolding handle_open_kind
    client_handle_channel_open h s buf = do
      (kind, r) ← read_string? w buf 1
      (sender_channel, r1) ← read_u32? w buf r
      (window, r2) ← read_u32? w buf r1
      (maxpacket, r3) ← read_u32? w buf r2
      handle_open_kind h s buf r3 kind sender_channel window maxpacket
