-- ===== src/Client/Commands.antt =====
-- src/client/mod.rs, `Msg` and its match in `run`: what the handles of a client ask of its session. The
-- ends of queues that some of these messages carry are left out.
use thrussh_mod.Base.{ℕ, Bool, true, false, List, Bytes}
use thrussh_mod.Error.{Result, ok, ◌>>=◌}
use thrussh_mod.Wire.{Wire}
use thrussh_mod.Sodium.{Sodium}
use thrussh_mod.Codes.{Sig, Disconnect}
use thrussh_mod.Pty.{Pty}
use thrussh_mod.CommonSession.{CommonSession, disconnect}
use thrussh_mod.ClientSession.{
  ClientConfig, Opening, channel_open, forward, client_data, client_extended_data, client_eof,
  request_pty, request_x11, set_env, request_shell, request_exec, request_subsystem, send_signal,
  send_window_change,
}
use thrussh_mod.Client.{Method, ClientKeys, Session}
use thrussh_mod.Client.Auth.{write_auth_request_if_needed}

-- `Msg`; the three that open a channel are one, over what is opened.
pub data Command (KP K : Type 0) : Type 0 where
  authenticate : (user : Bytes) → Method KP K → Command KP K
  signed : (content : Bytes) → Command KP K
  open_channel : Opening → Command KP K
  tcpip_forward cancel_tcpip_forward :
      (want_reply : Bool) → (address : Bytes) → (port : ℕ) → Command KP K
  end_session : Disconnect → (description language_tag : Bytes) → Command KP K
  content : (id : ℕ) → (bytes : Bytes) → Command KP K
  extended_content : (id : ℕ) → (bytes : Bytes) → (ext : ℕ) → Command KP K
  end_of_content : (id : ℕ) → Command KP K
  pty :
      (id : ℕ)
      → (want_reply : Bool) → (term : Bytes) → (col_width row_height pix_width pix_height : ℕ)
      → (terminal_modes : List (Pty × ℕ)) → Command KP K
  shell : (id : ℕ) → (want_reply : Bool) → Command KP K
  exec subsystem : (id : ℕ) → (want_reply : Bool) → (text : Bytes) → Command KP K
  signal : (id : ℕ) → Sig → Command KP K
  x11 :
      (id : ℕ)
      → (want_reply single_connection : Bool)
      → (x11_authentication_protocol x11_authentication_cookie : Bytes) → (x11_screen_number : ℕ)
      → Command KP K
  env : (id : ℕ) → (want_reply : Bool) → (variable_name variable_value : Bytes) → Command KP K
  window_change : (id col_width row_height pix_width pix_height : ℕ) → Command KP K

module _ {KP K : Type 0} (w : Wire) (na : Sodium) (config : ClientConfig)
    (keys : ClientKeys KP K) where
  -- A command that touches the session without its authentication
  unfoldable pub on_session : Command KP K → CommonSession → Result CommonSession
  on_session (open_channel o) s = do (s', id) ← channel_open w config o s; ok s'
  on_session (tcpip_forward want_reply address port) s =
      ok (forward w false want_reply address port s)
  on_session (cancel_tcpip_forward want_reply address port) s =
      ok (forward w true want_reply address port s)
  on_session (end_session reason description language_tag) s =
      ok (disconnect w s reason description language_tag)
  on_session (content id bytes) s = client_data w s id bytes
  on_session (extended_content id bytes ext) s = client_extended_data w s id ext bytes
  on_session (end_of_content id) s = client_eof w s id
  on_session (pty id want_reply term a b c d modes) s =
      ok (request_pty w id want_reply term a b c d modes s)
  on_session (shell id want_reply) s = ok (request_shell w want_reply id s)
  on_session (exec id want_reply text) s = ok (request_exec w id want_reply text s)
  on_session (subsystem id want_reply text) s = ok (request_subsystem w want_reply id text s)
  on_session (signal id sig) s = ok (send_signal w id sig s)
  on_session (x11 id want_reply single protocol cookie screen) s =
      ok (request_x11 w id want_reply single protocol cookie screen s)
  on_session (env id want_reply variable_name variable_value) s =
      ok (set_env w id want_reply variable_name variable_value s)
  on_session (window_change id a b c d) s = ok (send_window_change w id a b c d s)
  on_session (signed bytes) s = ok s
  on_session (authenticate user method) s = ok s

  -- The match on a message of the handles
  unfoldable pub serve_command : Command KP K → Session KP K → Result (Session KP K)
  unfolding on_session
  serve_command (authenticate user method) s = do
    (s', is_waiting) ← write_auth_request_if_needed w keys na s user method
    ok s'
  serve_command command s = do
    common ← on_session command s.common
    ok (record s { common = common })
