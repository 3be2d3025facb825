-- ===== src/Client/Channels.antt =====
-- src/client/encrypted.rs, `client_read_authenticated`: the messages of the server about channels.
use thrussh_mod.Base.{
  ℕ, ◌+◌, true, false, not, Option, none, some, ◌==◌, ltb, if◌then◌else◌, Bytes, codes, equal,
}
use thrussh_mod.Base.Dict.{lookup, insert, remove}
use thrussh_mod.Error.{Error, thrussh, Result, ok, err, ◌>>=◌, ◌>>◌, unwrap}
use thrussh_mod.Wire.{Wire, read_string?, read_u32?, read_byte?}
use thrussh_mod.Codes.{from_name, from_u32}
use thrussh_mod.Encrypted.{Encrypted, u32, adjust_window_size}
use thrussh_mod.CommonSession.{on_encrypted}
use thrussh_mod.ServerAuth.{text?}
use thrussh_mod.ClientSession.{ClientConfig}
use thrussh_mod.Client.{ClientHandler, Session, Call, Step, done, calls}
use thrussh_mod.Client.Answers.{with_enc}

-- A channel of this side that the server has confirmed
unfoldable pub confirmed : Encrypted → (id_send id_recv window max_packet : ℕ) → Result Encrypted
confirmed enc id_send id_recv window max_packet = elim (lookup id_send enc.channels) [
  | none ↦ err (thrussh Error.inconsistent)
  | some c ↦ ok (record enc {
    channels =
        insert id_send
          (record c {
            recipient_channel = id_recv;
            recipient_window_size = window;
            recipient_maximum_packet_size = max_packet;
            confirmed = true;
          })
          enc.channels;
  })
]

-- `channel.recipient_window_size += amount`, as a release build computes it
unfoldable pub window_grown : Encrypted → (channel amount : ℕ) → Result (Encrypted × ℕ)
window_grown enc channel amount = elim (lookup channel enc.channels) [
  | none ↦ err (thrussh Error.wrong_channel)
  | some c ↦
      let size = u32 (c.recipient_window_size + amount) in
      ok (
        record enc {
          channels = insert channel (record c { recipient_window_size = size }) enc.channels;
        },
        size,
      )
]

module _ {H KP K : Type 0} (handler : ClientHandler H KP K) (w : Wire) (config : ClientConfig) where
  unfoldable pub read_confirmation : Option H → Session KP K → Bytes → Result (Step H KP K)
  unfolding confirmed
  read_confirmation h s buf = do
    (id_send, r) ← read_u32? w buf 1
    (id_recv, r1) ← read_u32? w buf r
    (window, r2) ← read_u32? w buf r1
    (max_packet, r3) ← read_u32? w buf r2
    elim s.common.encrypted [
      | none ↦ err (thrussh Error.inconsistent)
      | some enc ↦ do
        enc' ← confirmed enc id_send id_recv window max_packet
        ok (calls h (Call.channel_open_confirmation id_send max_packet window) (with_enc s enc'))
    ]

  -- The session without a channel
  abbrev pub without : (channel : ℕ) → Session KP K → Session KP K
  without channel s = record s {
    common = on_encrypted (λ enc. record enc { channels = remove channel enc.channels }) s.common;
  }

  unfoldable pub read_close : Option H → Session KP K → Bytes → Result (Step H KP K)
  read_close h s buf = do
    (channel, r) ← read_u32? w buf 1
    ok (calls h (Call.channel_close channel) (without channel s))

  unfoldable pub read_eof : Option H → Session KP K → Bytes → Result (Step H KP K)
  read_eof h s buf = do (channel, r) ← read_u32? w buf 1; ok (calls h (Call.channel_eof channel) s)

  unfoldable pub read_open_failure : Option H → Session KP K → Bytes → Result (Step H KP K)
  read_open_failure h s buf = do
    (channel, r) ← read_u32? w buf 1
    (code, r1) ← read_u32? w buf r
    reason ← unwrap (from_u32 code)
    (description, r2) ← read_string? w buf r1
    text? description
    (language, r3) ← read_string? w buf r2
    text? language
    ok (calls h (Call.channel_open_failure channel reason description language) (without channel s))

  -- The window of this side after some content has come, with the handler's answer if it was opened
  -- again.
  unfoldable pub receive : H → (channel : ℕ) → Bytes → Session KP K → H × Session KP K
  receive h channel content s = elim s.common.encrypted [
    | none ↦ (h, s)
    | some enc ↦
        let (enc', again) = adjust_window_size w enc channel content config.window_size in
        elim again [
          | false ↦ (h, with_enc s enc')
          | true ↦
              let (h', next_window) = handler.adjust_window h channel s.target_window_size in
              let target = if ltb 0 next_window then next_window else s.target_window_size in
              (h', record (with_enc s enc') { target_window_size = target })
        ]
  ]

  unfoldable pub read_data : Option H → Session KP K → Bytes → Result (Step H KP K)
  unfolding receive
  read_data h s buf = do
    (channel, r) ← read_u32? w buf 1
    (content, r1) ← read_string? w buf r
    taken ← unwrap h
    let (h', s') = receive taken channel content s
    ok (calls (some h') (Call.channel_data channel content) s')

  unfoldable pub read_extended_data : Option H → Session KP K → Bytes → Result (Step H KP K)
  unfolding receive
  read_extended_data h s buf = do
    (channel, r) ← read_u32? w buf 1
    (extended_code, r1) ← read_u32? w buf r
    (content, r2) ← read_string? w buf r1
    taken ← unwrap h
    let (h', s') = receive taken channel content s
    ok (calls (some h') (Call.extended_data channel extended_code content) s')

  unfoldable pub read_forwarded : Bytes → (r channel : ℕ) → Result Call
  read_forwarded buf r channel = do
    (a, r1) ← read_string? w buf r
    text? a
    (b, r2) ← read_u32? w buf r1
    (c, r3) ← read_string? w buf r2
    text? c
    (d, r4) ← read_u32? w buf r3
    ok (Call.channel_open_forwarded_tcpip channel a b c d)

  unfoldable pub read_exit_signal : Bytes → (r channel : ℕ) → Result Call
  read_exit_signal buf r channel = do
    (zero_byte, r1) ← read_byte? w buf r
    (signal_name, r2) ← read_string? w buf r1
    sig ← from_name signal_name
    (core_dumped, r3) ← read_byte? w buf r2
    (error_message, r4) ← read_string? w buf r3
    text? error_message
    (lang_tag, r5) ← read_string? w buf r4
    text? lang_tag
    ok (Call.exit_signal channel sig (not (core_dumped == 0)) error_message lang_tag)

  -- The match on the type of a request: the call, or none for any other type
  unfoldable pub read_request_kind : (req buf : Bytes) → (r channel : ℕ) → Result (Option Call)
  unfolding read_forwarded read_exit_signal
  read_request_kind req buf r channel =
      if equal req (codes "forwarded_tcpip")
      then (do c ← read_forwarded buf r channel; ok (some c))
      else if equal req (codes "xon-xoff")
      then (do
        (zero_byte, r1) ← read_byte? w buf r
        (client_can_do, r2) ← read_byte? w buf r1
        ok (some (Call.xon_xoff channel (not (client_can_do == 0)))))
      else if equal req (codes "exit-status")
      then (do
        (zero_byte, r1) ← read_byte? w buf r
        (exit_status, r2) ← read_u32? w buf r1
        ok (some (Call.exit_status channel exit_status)))
      else if equal req (codes "exit-signal")
      then (do c ← read_exit_signal buf r channel; ok (some c))
      else ok none

  unfoldable pub read_channel_request : Option H → Session KP K → Bytes → Result (Step H KP K)
  unfolding read_request_kind
  read_channel_request h s buf = do
    (channel, r) ← read_u32? w buf 1
    (req, r1) ← read_string? w buf r
    taken ← unwrap h
    request ← read_request_kind req buf r1 channel
    ok (elim request [ some call ↦ calls h call s | none ↦ done h s ])

  unfoldable pub read_window_adjust : Option H → Session KP K → Bytes → Result (Step H KP K)
  unfolding window_grown
  read_window_adjust h s buf = do
    (channel, r) ← read_u32? w buf 1
    (amount, r1) ← read_u32? w buf r
    elim s.common.encrypted [
      | none ↦ ok (calls h (Call.window_adjusted channel 0) s)
      | some enc ↦ do
        (enc', new_value) ← window_grown enc channel amount
        ok (calls h (Call.window_adjusted channel new_value) (with_enc s enc'))
    ]

  unfoldable pub read_global_request : Option H → Session KP K → Bytes → Result (Step H KP K)
  read_global_request h s buf = do (req, r) ← read_string? w buf 1; ok (done h s)

  unfoldable pub read_success : Option H → Session KP K → Bytes → Result (Step H KP K)
  read_success h s buf = do
    (channel, r) ← read_u32? w buf 1
    ok (calls h (Call.channel_success channel) s)
