-- ===== src/ServerSession.antt =====
-- src/server/session.rs, `impl Session`: what the server's handler may ask of its session. `flush`,
-- which may begin a key exchange, and the `Handle` to other tasks are left out.
pub mod Flush
pub mod Flushing
pub mod Replies
use thrussh_mod.Base.{
  ℕ, zero, suc, ◌+◌, ◌-◌, ◌*◌, ◌/◌, ◌%◌, ◌^◌, ◌≤◌, ◌<◌, min, max, ◌≡◌, refl, sym, ap, ap₂, subst,
  ◌∙◌, ◌≢◌, ◌↔◌, ◌⊎◌, inl, inr, Bool, true, false, not, ◌&&◌, ◌||◌, Option, none, some, List, [],
  ◌∷◌, ◌++◌, map, append-nil, append_assoc, arith, ltb, leb, ◌==◌, if◌then◌else◌, ltb→lt, lt→ltb,
  leb→le, le→leb, ==_iff, ==_self, Bool-cases, Option-cases, length, take, drop, replicate,
  get_elem?, is_empty, length-append, length-take, length-drop, length-replicate, take-append-drop,
  take-append_of_length, drop-append_of_length, take-all, Bytes, codes, equal, equal_iff,
  equal_self,
}
use thrussh_mod.Base.Dict.{lookup, insert}
use thrussh_mod.Error.{Error, thrussh, Result, ok, err, panic, ◌>>=◌, ◌>>◌, assert}
use thrussh_mod.Wire.{Wire, push_packet}
use thrussh_mod.Channel.{Channel}
use thrussh_mod.Codes.{Sig, name, ChannelOpenFailure, failure_code}
use thrussh_mod.Encrypted.{EncryptedState, Encrypted, authenticated, new_channel}
use thrussh_mod.Encrypted.Data.{send_data, extended_data, flush_pending}
use thrussh_mod.CommonSession.{CommonSession, on_encrypted, send_byte}
use thrussh_mod.ServerConfig.{ServerConfig}
use thrussh_mod.Msg

abbrev pub is_some {ℓ} : {A : Type ℓ} → Option A → Bool
is_some none = false
is_some (some a) = true

unfoldable pub is_rekeying : CommonSession → Bool
is_rekeying s = elim s.encrypted [ none ↦ true | some enc ↦ is_some enc.rekey ]

-- A question about a channel, with 0 where there is none.
abbrev pub of_channel : CommonSession → ℕ → (Channel → ℕ) → ℕ
of_channel s channel f = elim s.encrypted [
  | none ↦ 0
  | some enc ↦ elim (lookup channel enc.channels) [ none ↦ 0 | some c ↦ f c ]
]

pub writable_packet_size : CommonSession → ℕ → ℕ
writable_packet_size s channel =
    of_channel s channel λ c. min c.sender_window_size c.sender_maximum_packet_size

pub window_size : CommonSession → ℕ → ℕ
window_size s channel = of_channel s channel λ c. c.sender_window_size

pub max_packet_size : CommonSession → ℕ → ℕ
max_packet_size s channel = of_channel s channel λ c. c.sender_maximum_packet_size

module _ (w : Wire) where
  abbrev push : Bytes → Encrypted → Encrypted
  push body enc = record enc { write = push_packet w enc.write body }

  unfoldable pub request_success : CommonSession → CommonSession
  request_success s =
      if s.wants_reply
      then elim s.encrypted [
        | none ↦ s
        | some enc ↦ record s {
          wants_reply = false;
          encrypted = some (push (Msg.request_success ∷ []) enc);
        }
      ]
      else s

  unfoldable pub request_failure : CommonSession → CommonSession
  request_failure s = elim s.encrypted [
    | none ↦ s
    | some enc ↦ record s {
      wants_reply = false;
      encrypted = some (push (Msg.request_failure ∷ []) enc);
    }
  ]

  -- An access to a channel of the encrypted session; without either, nothing happens.
  abbrev with_channel :
      CommonSession → ℕ → (Encrypted → Channel → Result Encrypted) → Result CommonSession
  with_channel s channel f = elim s.encrypted [
    | none ↦ ok s
    | some enc ↦ elim (lookup channel enc.channels) [
      | none ↦ ok s
      | some c ↦ do enc' ← f enc c; ok (record s { encrypted = some enc' })
    ]
  ]

  -- `channel_success` and `channel_failure`
  unfoldable pub channel_reply : ℕ → CommonSession → ℕ → Result CommonSession
  channel_reply msg s channel = with_channel s channel λ enc c. do
    assert c.confirmed
    ok (
        if c.wants_reply
        then push (msg ∷ w.u32_be c.recipient_channel) (record enc {
          channels = insert channel (record c { wants_reply = false }) enc.channels;
        })
        else enc)

  unfoldable pub channel_success : CommonSession → ℕ → Result CommonSession
  unfolding channel_reply
  channel_success = channel_reply Msg.channel_success

  unfoldable pub channel_failure : CommonSession → ℕ → Result CommonSession
  unfolding channel_reply
  channel_failure = channel_reply Msg.channel_failure

  unfoldable pub channel_open_failure :
      CommonSession → ℕ → ChannelOpenFailure → Bytes → Bytes → CommonSession
  channel_open_failure s channel reason description language =
      on_encrypted
        (push (
          Msg.channel_open_failure
          ∷ (w.u32_be channel
              ++ (w.u32_be (failure_code reason)
                  ++ (w.ssh_string description ++ w.ssh_string language)))))
        s

  pub close : CommonSession → ℕ → CommonSession
  close s channel = send_byte w s channel Msg.channel_close

  pub send_eof : CommonSession → ℕ → CommonSession
  send_eof s channel = send_byte w s channel Msg.channel_eof

  -- `data` and `extended_data`; without an encrypted session they are `unreachable!()`.
  unfoldable pub session_data : CommonSession → ℕ → Bytes → Result CommonSession
  session_data s channel buf = elim s.encrypted [
    | none ↦ panic
    | some enc ↦ do enc' ← send_data w enc channel buf; ok (record s { encrypted = some enc' })
  ]

  unfoldable pub session_extended_data : CommonSession → ℕ → ℕ → Bytes → Result CommonSession
  session_extended_data s channel extended buf = elim s.encrypted [
    | none ↦ panic
    | some enc ↦ do
      enc' ← extended_data w enc channel extended buf
      ok (record s { encrypted = some enc' })
  ]

  unfoldable pub session_flush_pending : CommonSession → ℕ → Result (CommonSession × ℕ)
  session_flush_pending s channel = elim s.encrypted [
    | none ↦ ok (s, 0)
    | some enc ↦ do
      (enc', n) ← flush_pending w enc channel
      ok (record s { encrypted = some enc' }, n)
  ]

  abbrev flag : Bool → ℕ
  flag b = if b then 1 else 0

  -- A channel request for which no reply is wanted.
  abbrev channel_request : CommonSession → ℕ → Bytes → Bytes → Result CommonSession
  channel_request s channel kind arguments = with_channel s channel λ enc c. do
    assert c.confirmed
    ok (
        push
          (Msg.channel_request
            ∷ (w.u32_be c.recipient_channel ++ (w.ssh_string kind ++ (0 ∷ arguments))))
          enc)

  unfoldable pub xon_xoff_request : CommonSession → ℕ → Bool → Result CommonSession
  xon_xoff_request s channel client_can_do =
      channel_request s channel (codes "xon-xoff") (flag client_can_do ∷ [])

  unfoldable pub exit_status_request : CommonSession → ℕ → ℕ → Result CommonSession
  exit_status_request s channel exit_status =
      channel_request s channel (codes "exit-status") (w.u32_be exit_status)

  unfoldable pub exit_signal_request :
      CommonSession → ℕ → Sig → Bool → Bytes → Bytes → Result CommonSession
  exit_signal_request s channel signal core_dumped error_message language_tag =
      channel_request s channel (codes "exit-signal") (
        w.ssh_string (name signal)
        ++ (flag core_dumped ∷ (w.ssh_string error_message ++ w.ssh_string language_tag)))

  -- `channel_open_forwarded_tcpip`
  unfoldable pub channel_open_forwarded_tcpip :
      ServerConfig → CommonSession → Bytes → ℕ → Bytes → ℕ → Result (CommonSession × ℕ)
  channel_open_forwarded_tcpip config s connected_address connected_port originator_address
        originator_port =
      elim s.encrypted [
        | none ↦ err (thrussh Error.inconsistent)
        | some enc ↦ elim enc.state [
          | authenticated ↦ do
            (enc', sender_channel) ← new_channel enc config.window_size config.maximum_packet_size
            let message =
                Msg.channel_open
                ∷ (w.ssh_string (codes "forwarded-tcpip")
                    ++ (w.u32_be sender_channel
                        ++ (w.u32_be config.window_size
                            ++ (w.u32_be config.maximum_packet_size
                                ++ (w.ssh_string connected_address
                                    ++ (w.u32_be connected_port
                                        ++ (w.ssh_string originator_address
                                            ++ w.u32_be originator_port)))))))
            ok (record s { encrypted = some (push message enc') }, sender_channel)
          | _ ↦ err (thrussh Error.inconsistent)
        ]
      ]
