-- ===== src/ServerRead.antt =====
-- src/server/encrypted.rs, `server_read_authenticated`: the messages of an authenticated client, with
-- `Session` of src/server/session.rs. A message changes the session, and mostly ends in one call of
-- the handler.
pub mod Open
pub mod Requests
pub mod Messages
pub mod Modes
pub mod Naming
pub mod Opening
pub mod Touched
pub mod Frame
use thrussh_mod.Base.{ℕ, Bool, true, false, Option, none, some, List, [], ◌∷◌, if◌then◌else◌, Bytes}
use thrussh_mod.Error.{Result, ok, ◌>>=◌, unwrap}
use thrussh_mod.Wire.{Wire, push_packet}
use thrussh_mod.Codes.{Sig}
use thrussh_mod.Pty.{Pty}
use thrussh_mod.CommonSession.{CommonSession, on_encrypted}
use thrussh_mod.Msg

-- `server::Session`, without its ends of the queue of messages from other tasks.
pub record Session : Type 0 where
  pub common : CommonSession
  pub target_window_size : ℕ

-- The methods of `server::Handler` that a message of an authenticated client calls, with their
-- arguments.
pub data Call : Type 0 where
  channel_close channel_eof shell_request : (channel : ℕ) → Call
  channel_data : (channel : ℕ) → (content : Bytes) → Call
  extended_data : (channel code : ℕ) → (content : Bytes) → Call
  window_adjusted : (channel new_size : ℕ) → Call
  pty_request :
      (channel : ℕ)
      → (term : Bytes) → (col_width row_height pix_width pix_height : ℕ) → (modes : List (Pty × ℕ))
      → Call
  x11_request :
      (channel : ℕ)
      → (single_connection : Bool) → (x11_auth_protocol x11_auth_cookie : Bytes)
      → (x11_screen_number : ℕ) → Call
  env_request : (channel : ℕ) → (variable_name variable_value : Bytes) → Call
  exec_request : (channel : ℕ) → (command : Bytes) → Call
  subsystem_request : (channel : ℕ) → (name : Bytes) → Call
  window_change_request : (channel col_width row_height pix_width pix_height : ℕ) → Call
  signal : (channel : ℕ) → Sig → Call
  channel_open_session : (channel : ℕ) → Call
  channel_open_x11 : (channel : ℕ) → (originator_address : Bytes) → (originator_port : ℕ) → Call
  channel_open_direct_tcpip :
      (channel : ℕ)
      → (host_to_connect : Bytes) → (port_to_connect : ℕ) → (originator_address : Bytes)
      → (originator_port : ℕ) → Call

-- `server::Handler`, with its state `H`. The two methods on forwarding also answer whether they
-- succeeded.
pub record ChannelHandler (H : Type 0) : Type 0 where
  pub handle : H → Call → Session → Result (H × Session)
  pub tcpip_forward : H → (address : Bytes) → (port : ℕ) → Session → Result (H × Session × Bool)
  pub cancel_tcpip_forward :
      H → (address : Bytes) → (port : ℕ) → Session → Result (H × Session × Bool)
  pub adjust_window : H → (channel target : ℕ) → H × ℕ

-- What is left to do when a message has been read.
pub data Step (H : Type 0) : Type 0 where
  done : Option H → Session → Step H
  calls : Option H → Call → Session → Step H
  forwards : Option H → (cancel : Bool) → (address : Bytes) → (port : ℕ) → Session → Step H

-- A change of the encrypted session, if there is one.
abbrev pub in_common : (CommonSession → CommonSession) → Session → Session
in_common f s = record s { common = f s.common }

-- `push_packet!(enc.write, body)`
abbrev pub push_message : Wire → Bytes → Session → Session
push_message w body =
    in_common (on_encrypted (λ enc. record enc { write = push_packet w enc.write body }))

module _ {H : Type 0} (w : Wire) (handler : ChannelHandler H) where
  -- The answer to a request for forwarding
  abbrev pub forward_reply : H × Session × Bool → Option H × Session
  forward_reply (h, s, result) = (
    some h,
    push_message w ((if result then Msg.request_success else Msg.request_failure) ∷ []) s,
  )

  -- The calls of the handler, and what follows them.
  unfoldable pub finish : Step H → Result (Option H × Session)
  finish (done h s) = ok (h, s)
  finish (calls h c s) = do taken ← unwrap h; (h', s') ← handler.handle taken c s; ok (some h', s')
  finish (forwards h true address port s) = do
    taken ← unwrap h
    r ← handler.cancel_tcpip_forward taken address port s
    ok (forward_reply r)
  finish (forwards h false address port s) = do
    taken ← unwrap h
    r ← handler.tcpip_forward taken address port s
    ok (forward_reply r)
