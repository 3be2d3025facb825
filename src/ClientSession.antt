-- ===== src/ClientSession.antt =====
-- src/client/session.rs, `impl Session`: what a client may ask of its session, and the fields of
-- `Config` of src/client/mod.rs that the model reads.
use thrussh_mod.Base.{
  ℕ, ◌+◌, ◌*◌, Bool, false, none, some, List, [], ◌∷◌, ◌++◌, if◌then◌else◌, length, Bytes, codes,
}
use thrussh_mod.Base.Dict.{lookup}
use thrussh_mod.Error.{Error, thrussh, Result, ok, err, panic, ◌>>=◌}
use thrussh_mod.Wire.{Wire, push_packet}
use thrussh_mod.Codes.{Sig, name}
use thrussh_mod.Pty.{Pty, to_u8}
use thrussh_mod.Negotiation.{Preferred}
use thrussh_mod.Encrypted.{Limits, authenticated, u32, new_channel, eof}
use thrussh_mod.Encrypted.Data.{send_data, extended_data}
use thrussh_mod.CommonSession.{CommonSession, on_encrypted}
use thrussh_mod.Msg

pub record ClientConfig : Type 0 where
  pub limits : Limits
  pub window_size : ℕ
  pub maximum_packet_size : ℕ
  pub preferred : Preferred

-- The kinds of channel that a client opens, with what follows in the message
pub data Opening : Type 0 where
  session : Opening
  x11 : (originator_address : Bytes) → (originator_port : ℕ) → Opening
  direct_tcpip :
      (host_to_connect : Bytes)
      → (port_to_connect : ℕ) → (originator_address : Bytes) → (originator_port : ℕ) → Opening

-- The requests on a channel, each with its arguments
pub data Request : Type 0 where
  shell : Request
  pty :
      (term : Bytes)
      → (col_width row_height pix_width pix_height : ℕ) → (terminal_modes : List (Pty × ℕ))
      → Request
  x11_forwarding :
      (single_connection : Bool)
      → (x11_authentication_protocol x11_authentication_cookie : Bytes) → (x11_screen_number : ℕ)
      → Request
  env : (variable_name variable_value : Bytes) → Request
  exec : (command : Bytes) → Request
  subsystem : (name : Bytes) → Request
  window_change : (col_width row_height pix_width pix_height : ℕ) → Request
  signal : Sig → Request

abbrev pub flag : Bool → ℕ
flag b = if b then 1 else 0

abbrev pub open_kind : Opening → Bytes
open_kind session = codes "session"
open_kind (x11 address port) = codes "x11"
open_kind (direct_tcpip a b c d) = codes "direct-tcpip"

abbrev pub request_kind : Request → Bytes
request_kind shell = codes "shell"
request_kind (pty a b c d e f) = codes "pty-req"
request_kind (x11_forwarding a b c d) = codes "x11-req"
request_kind (env a b) = codes "env"
request_kind (exec a) = codes "exec"
request_kind (subsystem a) = codes "subsystem"
request_kind (window_change a b c d) = codes "window-change"
request_kind (signal a) = codes "signal"

module _ (w : Wire) where
  abbrev pub modes_bytes : List (Pty × ℕ) → Bytes
  modes_bytes [] = []
  modes_bytes ((code, value) ∷ modes) = to_u8 code ∷ (w.u32_be value ++ modes_bytes modes)

  abbrev pub open_arguments : Opening → Bytes
  open_arguments session = []
  open_arguments (x11 address port) = w.ssh_string address ++ w.u32_be port
  open_arguments (direct_tcpip host port address originator_port) =
      w.ssh_string host ++ (w.u32_be port ++ (w.ssh_string address ++ w.u32_be originator_port))

  abbrev pub request_arguments : Request → Bytes
  request_arguments shell = []
  request_arguments (pty term col_width row_height pix_width pix_height modes) =
      w.ssh_string term
      ++ (w.u32_be col_width
          ++ (w.u32_be row_height
              ++ (w.u32_be pix_width
                  ++ (w.u32_be pix_height
                      ++ (w.u32_be (u32 (1 + 5 * length modes))
                          ++ (modes_bytes modes ++ (0 ∷ [])))))))
  request_arguments (x11_forwarding single protocol cookie screen) =
      flag single ∷ (w.ssh_string protocol ++ (w.ssh_string cookie ++ w.u32_be screen))
  request_arguments (env variable_name variable_value) =
      w.ssh_string variable_name ++ w.ssh_string variable_value
  request_arguments (exec command) = w.ssh_string command
  request_arguments (subsystem name) = w.ssh_string name
  request_arguments (window_change col_width row_height pix_width pix_height) =
      w.u32_be col_width ++ (w.u32_be row_height ++ (w.u32_be pix_width ++ w.u32_be pix_height))
  request_arguments (signal sig) = w.ssh_string (name sig)

  abbrev pub request_message : Request → (want_reply : Bool) → (recipient_channel : ℕ) → Bytes
  request_message q want_reply recipient_channel =
      Msg.channel_request
      ∷ (w.u32_be recipient_channel
          ++ (w.ssh_string (request_kind q) ++ (flag want_reply ∷ request_arguments q)))

  abbrev pub open_message : ClientConfig → Opening → ℕ → Bytes
  open_message config o sender_channel =
      Msg.channel_open
      ∷ (w.ssh_string (open_kind o)
          ++ (w.u32_be sender_channel
              ++ (w.u32_be config.window_size
                  ++ (w.u32_be config.maximum_packet_size ++ open_arguments o))))

  -- `channel_open_session`, `channel_open_x11` and `channel_open_direct_tcpip`
  unfoldable pub channel_open : ClientConfig → Opening → CommonSession → Result (CommonSession × ℕ)
  channel_open config o s = elim s.encrypted [
    | none ↦ err (thrussh Error.inconsistent)
    | some enc ↦ elim enc.state [
      | authenticated ↦ do
        (enc', id) ← new_channel enc config.window_size config.maximum_packet_size
        ok (
          record s {
            encrypted =
                some (record enc' { write = push_packet w enc'.write (open_message config o id) });
          },
          id,
        )
      | _ ↦ err (thrussh Error.not_authenticated)
    ]
  ]

  -- A request on a channel, if the session is encrypted and has the channel
  unfoldable pub request : ℕ → (want_reply : Bool) → Request → CommonSession → CommonSession
  request channel want_reply q = on_encrypted λ enc. elim (lookup channel enc.channels) [
    | none ↦ enc
    | some c ↦ record enc {
      write = push_packet w enc.write (request_message q want_reply c.recipient_channel);
    }
  ]

  -- The functions of `Session` that send these requests; the last two never want a reply.
  abbrev pub request_pty :
      ℕ → Bool → Bytes → ℕ → ℕ → ℕ → ℕ → List (Pty × ℕ) → CommonSession → CommonSession
  request_pty channel want_reply term col_width row_height pix_width pix_height modes =
      request channel want_reply (pty term col_width row_height pix_width pix_height modes)

  abbrev pub request_x11 : ℕ → Bool → Bool → Bytes → Bytes → ℕ → CommonSession → CommonSession
  request_x11 channel want_reply single protocol cookie screen =
      request channel want_reply (x11_forwarding single protocol cookie screen)

  abbrev pub set_env : ℕ → Bool → Bytes → Bytes → CommonSession → CommonSession
  set_env channel want_reply variable_name variable_value =
      request channel want_reply (env variable_name variable_value)

  abbrev pub request_shell : Bool → ℕ → CommonSession → CommonSession
  request_shell want_reply channel = request channel want_reply shell

  abbrev pub request_exec : ℕ → Bool → Bytes → CommonSession → CommonSession
  request_exec channel want_reply command = request channel want_reply (exec command)

  abbrev pub request_subsystem : Bool → ℕ → Bytes → CommonSession → CommonSession
  request_subsystem want_reply channel name = request channel want_reply (subsystem name)

  abbrev pub send_signal : ℕ → Sig → CommonSession → CommonSession
  send_signal channel sig = request channel false (signal sig)

  abbrev pub send_window_change : ℕ → ℕ → ℕ → ℕ → ℕ → CommonSession → CommonSession
  send_window_change channel col_width row_height pix_width pix_height =
      request channel false (window_change col_width row_height pix_width pix_height)

  -- `tcpip_forward` and `cancel_tcpip_forward`
  abbrev forward_message : (cancel want_reply : Bool) → Bytes → ℕ → Bytes
  forward_message cancel want_reply address port =
      Msg.global_request
      ∷ (w.ssh_string (if cancel then codes "cancel-tcpip-forward" else codes "tcpip-forward")
          ++ (flag want_reply ∷ (w.ssh_string address ++ w.u32_be port)))

  unfoldable pub forward : (cancel want_reply : Bool) → Bytes → ℕ → CommonSession → CommonSession
  forward cancel want_reply address port = on_encrypted λ enc. record enc {
    write = push_packet w enc.write (forward_message cancel want_reply address port);
  }

  -- `data`, `extended_data` and `eof`; without an encrypted session they are `unreachable!()`.
  unfoldable pub client_data : CommonSession → ℕ → Bytes → Result CommonSession
  client_data s channel content = elim s.encrypted [
    | none ↦ panic
    | some enc ↦ do enc' ← send_data w enc channel content; ok (record s { encrypted = some enc' })
  ]

  unfoldable pub client_extended_data : CommonSession → ℕ → ℕ → Bytes → Result CommonSession
  client_extended_data s channel ext content = elim s.encrypted [
    | none ↦ panic
    | some enc ↦ do
      enc' ← extended_data w enc channel ext content
      ok (record s { encrypted = some enc' })
  ]

  unfoldable pub client_eof : CommonSession → ℕ → Result CommonSession
  client_eof s channel = elim s.encrypted [
    | none ↦ panic
    | some enc ↦ ok (record s { encrypted = some (eof w enc channel) })
  ]
