-- ===== src/Client/Read.antt =====
-- src/client/encrypted.rs: the match of `client_read_authenticated` on the first byte, and that of
-- `client_read_encrypted` on the state of the session.
use thrussh_mod.Base.{ℕ, true, false, Option, none, some, ◌==◌, Bytes}
use thrussh_mod.Error.{Result, ok, panic, ◌>>=◌}
use thrussh_mod.Wire.{Wire}
use thrussh_mod.Encrypted.{
  Encrypted, EncryptedState, waiting_service_request, waiting_auth_request, init_compression,
  authenticated,
}
use thrussh_mod.ServerAuth.Messages.{first_byte}
use thrussh_mod.ClientSession.{ClientConfig}
use thrussh_mod.Client.{ClientKeys, ClientHandler, Session, Step, done, finish}
use thrussh_mod.Client.Answers.{read_service_accept, read_auth_answer}
use thrussh_mod.Client.Opened.{client_handle_channel_open}
use thrussh_mod.Client.Channels
use thrussh_mod.Msg

module _ {H KP K : Type 0} (handler : ClientHandler H KP K) (keys : ClientKeys KP K) (w : Wire)
    (config : ClientConfig) where
  -- The match on the first byte
  unfoldable pub client_read_step : ℕ → Option H → Session KP K → Bytes → Result (Step H KP K)
  client_read_step b h s buf = elim (b == Msg.channel_open_confirmation) [
    | true ↦ Channels.read_confirmation handler w config h s buf
    | false ↦ elim (b == Msg.channel_close) [
      | true ↦ Channels.read_close handler w config h s buf
      | false ↦ elim (b == Msg.channel_eof) [
        | true ↦ Channels.read_eof handler w config h s buf
        | false ↦ elim (b == Msg.channel_open_failure) [
          | true ↦ Channels.read_open_failure handler w config h s buf
          | false ↦ elim (b == Msg.channel_data) [
            | true ↦ Channels.read_data handler w config h s buf
            | false ↦ elim (b == Msg.channel_extended_data) [
              | true ↦ Channels.read_extended_data handler w config h s buf
              | false ↦ elim (b == Msg.channel_request) [
                | true ↦ Channels.read_channel_request handler w config h s buf
                | false ↦ elim (b == Msg.channel_window_adjust) [
                  | true ↦ Channels.read_window_adjust handler w config h s buf
                  | false ↦ elim (b == Msg.global_request) [
                    | true ↦ Channels.read_global_request handler w config h s buf
                    | false ↦ elim (b == Msg.channel_success) [
                      | true ↦ Channels.read_success handler w config h s buf
                      | false ↦ elim (b == Msg.channel_open) [
                        | true ↦ client_handle_channel_open w h s buf
                        | false ↦ ok (done h s)
                      ]
                    ]
                  ]
                ]
              ]
            ]
          ]
        ]
      ]
    ]
  ]

  -- The match on the state of the session; a state that is set up anew is `unreachable!()`.
  unfoldable pub read_in_state :
      Option H → Session KP K → Encrypted → EncryptedState → Bytes → ℕ → Result (Step H KP K)
  unfolding client_read_step
  read_in_state h s enc (waiting_service_request sent accepted) buf b = do
    s' ← read_service_accept w keys s enc buf b sent
    ok (done h s')
  read_in_state h s enc (waiting_auth_request a) buf b = read_auth_answer w keys h s enc a buf b
  read_in_state h s enc init_compression buf b = panic
  read_in_state h s enc authenticated buf b = client_read_step b h s buf

  -- `client_read_encrypted` behind its part on key exchange
  unfoldable pub client_read_state :
      Option H → Session KP K → Bytes → Result (Option H × Session KP K)
  unfolding read_in_state
  client_read_state h s buf = elim s.common.encrypted [
    | none ↦ ok (h, s)
    | some enc ↦ do
      b ← first_byte buf
      step ← read_in_state h s enc enc.state buf b
      finish handler step
  ]
