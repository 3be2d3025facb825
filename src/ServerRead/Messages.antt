-- ===== src/ServerRead/Messages.antt =====
-- `server_read_authenticated`: the match on the first byte of a message.
use thrussh_mod.Base.{
  ℕ, ◌+◌, Bool, true, false, not, ◌||◌, Option, none, some, [], ◌∷◌, ◌==◌, ltb, if◌then◌else◌,
  Bytes, codes, equal,
}
use thrussh_mod.Base.Dict.{lookup, insert, remove}
use thrussh_mod.Error.{Error, thrussh, Result, ok, err, ◌>>=◌, ◌>>◌, unwrap}
use thrussh_mod.Wire.{read_string?, read_u32?, read_byte?}
use thrussh_mod.Encrypted.{Encrypted, u32, adjust_window_size}
use thrussh_mod.CommonSession.{on_encrypted}
use thrussh_mod.ServerAuth.{text?}
use thrussh_mod.ServerAuth.Messages.{first_byte}
use thrussh_mod.ServerSession.Flush.{ServerEnv, Moment, session_flush}
use thrussh_mod.ServerRead.{
  Session, Call, ChannelHandler, Step, done, calls, forwards, in_common, push_message, finish,
}
use thrussh_mod.ServerRead.Open.{server_handle_channel_open}
use thrussh_mod.ServerRead.Requests.{read_request}
use thrussh_mod.Msg

module _ {H KP : Type 0} (handler : ChannelHandler H) (env : ServerEnv KP) (m : Moment) where
  unfoldable pub read_close : Option H → Bytes → Session → Result (Step H)
  read_close h buf s = do
    (channel, r) ← read_u32? env.wire buf 1
    ok (
        calls h (Call.channel_close channel)
          (in_common (on_encrypted λ enc. record enc { channels = remove channel enc.channels }) s))

  unfoldable pub read_eof : Option H → Bytes → Session → Result (Step H)
  read_eof h buf s = do
    (channel, r) ← read_u32? env.wire buf 1
    ok (calls h (Call.channel_eof channel) s)

  -- The new target window that the handler chooses, unless it is 0
  unfoldable pub take_window : H → ℕ → Session → H × Session
  take_window h channel s =
      let (h', window) = handler.adjust_window h channel s.target_window_size in
      (h', if ltb 0 window then record s { target_window_size = window } else s)

  -- The window of this side after some content has come, with the handler's answer if it was opened
  -- again.
  unfoldable pub receive : H → ℕ → Bytes → Session → H × Session
  unfolding take_window
  receive h channel content s = elim s.common.encrypted [
    | none ↦ (h, s)
    | some enc ↦
        let (enc', again) = adjust_window_size env.wire enc channel content s.target_window_size in
        let s' = record s { common = record s.common { encrypted = some enc' } } in
        if again then take_window h channel s' else (h, s')
  ]

  -- The content of a message, behind its channel and, in extended data, its code
  unfoldable pub received : Option H → ℕ → Option ℕ → Bytes → Session → Result (Step H)
  unfolding receive
  received h channel ext content s = do
    taken ← unwrap h
    let (h', s') = receive taken channel content s
    common ← session_flush env m s'.common
    ok (
        calls (some h')
          (elim ext [
            | some code ↦ Call.extended_data channel code content
            | none ↦ Call.channel_data channel content
          ])
          (record s' { common = common }))

  unfoldable pub read_data : Option H → Bytes → Session → Result (Step H)
  unfolding received
  read_data h buf s = do
    (channel, r) ← read_u32? env.wire buf 1
    (content, r1) ← read_string? env.wire buf r
    received h channel none content s

  unfoldable pub read_extended_data : Option H → Bytes → Session → Result (Step H)
  unfolding received
  read_extended_data h buf s = do
    (channel, r) ← read_u32? env.wire buf 1
    (code, r1) ← read_u32? env.wire buf r
    (content, r2) ← read_string? env.wire buf r1
    received h channel (some code) content s

  -- `recipient_window_size += amount`, as a release build computes it
  unfoldable pub widen : Encrypted → ℕ → ℕ → Result (Encrypted × ℕ)
  widen enc channel amount = elim (lookup channel enc.channels) [
    | none ↦ err (thrussh Error.wrong_channel)
    | some c ↦
        let size = u32 (c.recipient_window_size + amount) in
        ok (
          record enc {
            channels = insert channel (record c { recipient_window_size = size }) enc.channels;
          },
          size,
        )
  ]

  unfoldable pub widened : Session → ℕ → ℕ → Result (Session × ℕ)
  unfolding widen
  widened s channel amount = elim s.common.encrypted [
    | none ↦ ok (s, 0)
    | some enc ↦ do
      (enc', size) ← widen enc channel amount
      ok (record s { common = record s.common { encrypted = some enc' } }, size)
  ]

  unfoldable pub read_window_adjust : Option H → Bytes → Session → Result (Step H)
  unfolding widened
  read_window_adjust h buf s = do
    (channel, r) ← read_u32? env.wire buf 1
    (amount, r1) ← read_u32? env.wire buf r
    (s', new_value) ← widened s channel amount
    ok (calls h (Call.window_adjusted channel new_value) s')

  -- Whether the channel of this number is to get a reply
  unfoldable pub note_reply : ℕ → Bool → Encrypted → Encrypted
  note_reply channel wants_reply enc = elim (lookup channel enc.channels) [
    | none ↦ enc
    | some c ↦ record enc {
      channels = insert channel (record c { wants_reply = wants_reply }) enc.channels;
    }
  ]

  unfoldable pub read_channel_request : Option H → Bytes → Session → Result (Step H)
  unfolding note_reply
  read_channel_request h buf s = do
    (channel, r) ← read_u32? env.wire buf 1
    (req_type, r1) ← read_string? env.wire buf r
    (wants_reply, r2) ← read_byte? env.wire buf r1
    let s' = in_common (on_encrypted (note_reply channel (not (wants_reply == 0)))) s
    request ← read_request env.wire req_type buf r2 channel
    ok (elim request [
      | some call ↦ calls h call s'
      | none ↦ done h (push_message env.wire (Msg.channel_failure ∷ []) s')
    ])

  unfoldable pub read_global_request : Option H → Bytes → Session → Result (Step H)
  read_global_request h buf s = do
    (req_type, r) ← read_string? env.wire buf 1
    (wants_reply, r1) ← read_byte? env.wire buf r
    let s' = in_common (λ c. record c { wants_reply = not (wants_reply == 0) }) s
    elim (equal req_type (codes "tcpip-forward") || equal req_type (codes "cancel-tcpip-forward")) [
      | true ↦ do
        (address, r2) ← read_string? env.wire buf r1
        text? address
        (port, r3) ← read_u32? env.wire buf r2
        ok (forwards h (equal req_type (codes "cancel-tcpip-forward")) address port s')
      | false ↦ ok (done h (push_message env.wire (Msg.request_failure ∷ []) s'))
    ]

  -- The match on the first byte
  unfoldable pub read_step : ℕ → Option H → Bytes → Session → Result (Step H)
  unfolding read_close read_eof read_data read_extended_data read_window_adjust read_channel_request
      read_global_request
  read_step b h buf s = elim (b == Msg.channel_open) [
    | true ↦ server_handle_channel_open env.wire env.config h buf s
    | false ↦ elim (b == Msg.channel_close) [
      | true ↦ read_close h buf s
      | false ↦ elim (b == Msg.channel_eof) [
        | true ↦ read_eof h buf s
        | false ↦ elim (b == Msg.channel_extended_data) [
          | true ↦ read_extended_data h buf s
          | false ↦ elim (b == Msg.channel_data) [
            | true ↦ read_data h buf s
            | false ↦ elim (b == Msg.channel_window_adjust) [
              | true ↦ read_window_adjust h buf s
              | false ↦ elim (b == Msg.channel_request) [
                | true ↦ read_channel_request h buf s
                | false ↦ elim (b == Msg.global_request) [
                  | true ↦ read_global_request h buf s
                  | false ↦ ok (done h s)
                ]
              ]
            ]
          ]
        ]
      ]
    ]
  ]

  -- `server_read_authenticated`
  unfoldable pub server_read_authenticated :
      Option H → Bytes → Session → Result (Option H × Session)
  unfolding read_step
  server_read_authenticated h buf s = do
    b ← first_byte buf
    step ← read_step b h buf s
    finish env.wire handler step
