-- ===== src/ServerSession/Replies.antt =====
-- Replies of the server: at most one to a channel request, and the one message of a disconnection;
-- and the channels that it opens itself.
use thrussh_mod.Base.{
  ℕ, ◌^◌, ◌<◌, ◌≡◌, refl, ◌≢◌, ◌⊎◌, inl, inr, true, false, none, some, [], ◌∷◌, ◌++◌, arith,
  ==_self, Bool-cases, Option-cases, length, Bytes, codes,
}
use thrussh_mod.Base.Dict.{lookup, insert, lookup-insert}
use thrussh_mod.Error.{Error, thrussh, ok, err}
use thrussh_mod.Wire.{Wire, packet, push_packet}
use thrussh_mod.Channel.{Channel}
use thrussh_mod.Codes.{Disconnect}
use thrussh_mod.Encrypted.{EncryptedState, Encrypted, authenticated, new_channel}
use thrussh_mod.Encrypted.Ids.{requested, new_channel_registers}
use thrussh_mod.CommonSession.{CommonSession, disconnect}
use thrussh_mod.ServerConfig.{ServerConfig}
use thrussh_mod.ServerSession.{
  channel_reply, request_success, request_failure, channel_open_forwarded_tcpip,
}
use thrussh_mod.Msg

module _ (w : Wire) where
  -- A channel that wants no reply gets none.
  reply_unwanted :
      (msg : ℕ) (s : CommonSession) (channel : ℕ) (enc : Encrypted) (c : Channel)
      → s.encrypted ≡ some enc
      → lookup channel enc.channels ≡ some c
      → c.confirmed ≡ true
      → c.wants_reply ≡ false
      → channel_reply w msg s channel ≡ ok s
  unfolding channel_reply
  reply_unwanted msg s channel enc c he hc conf unwanted = ground arith

  -- A channel whose reply was wanted wants none behind the first.
  after_reply :
      (first second : ℕ) (s s' : CommonSession) (channel : ℕ) (enc : Encrypted) (c : Channel)
      → s.encrypted ≡ some enc
      → lookup channel enc.channels ≡ some c
      → c.wants_reply ≡ true
      → channel_reply w first s channel ≡ ok s'
      → channel_reply w second s' channel ≡ ok s'
  unfolding channel_reply
  after_reply first second s s' channel enc c he hc wanted e = ground (
    arith,
    lookup-insert channel channel (record c { wants_reply = false }) enc.channels,
    ==_self channel,
  )

  -- Whatever is replied first to a request on a channel, success or failure: a second reply, of either
  -- kind, sends nothing and changes nothing.
  pub channel_reply_once :
      (first second : ℕ) (s s' : CommonSession) (channel : ℕ)
      → channel_reply w first s channel ≡ ok s'
      → channel_reply w second s' channel ≡ ok s'
  unfolding channel_reply
  channel_reply_once first second s s' channel e = elim (Option-cases s.encrypted) [
    | inl he ↦ ground arith
    | inr (enc, he) ↦ elim (Option-cases (lookup channel enc.channels)) [
      | inl hc ↦ ground arith
      | inr (c, hc) ↦ elim (Bool-cases c.wants_reply) [
        | inl wanted ↦ after_reply first second s s' channel enc c he hc wanted e
        | inr unwanted ↦ ground arith
      ]
    ]
  ]

  -- A session that was disconnected sends no second message of disconnection.
  pub disconnect_once :
      (s : CommonSession) (r1 r2 : Disconnect) (d1 d2 l1 l2 : Bytes)
      → disconnect w (disconnect w s r1 d1 l1) r2 d2 l2 ≡ disconnect w s r1 d1 l1
  unfolding disconnect
  disconnect_once s r1 r2 d1 d2 l1 l2 = ground arith

  -- Where no reply to a global request is wanted, `request_success` does nothing, but
  -- `request_failure` sends a failure all the same.
  pub request_failure_unwanted :
      (s : CommonSession) (enc : Encrypted)
      → s.wants_reply ≡ false
      → s.encrypted ≡ some enc
      → (request_success w s ≡ s)
        × (request_failure w s ≡ record s {
          encrypted =
              some (record enc { write = enc.write ++ packet w (Msg.request_failure ∷ []) });
        })
  unfolding request_success request_failure push_packet
  request_failure_unwanted s enc unwanted he = ground arith

  -- The message that asks for a channel of this number.
  abbrev pub open_message : ServerConfig → ℕ → Bytes → ℕ → Bytes → ℕ → Bytes
  open_message config id address port originator originator_port =
      Msg.channel_open
      ∷ (w.ssh_string (codes "forwarded-tcpip")
          ++ (w.u32_be id
              ++ (w.u32_be config.window_size
                  ++ (w.u32_be config.maximum_packet_size
                      ++ (w.ssh_string address
                          ++ (w.u32_be port
                              ++ (w.ssh_string originator ++ w.u32_be originator_port)))))))

  opens :
      (config : ServerConfig) (s : CommonSession) (enc enc' : Encrypted) (id : ℕ) (address : Bytes)
      (port : ℕ) (originator : Bytes) (originator_port : ℕ)
      → s.encrypted ≡ some enc
      → enc.state ≡ authenticated
      → new_channel enc config.window_size config.maximum_packet_size ≡ ok (enc', id)
      → channel_open_forwarded_tcpip w config s address port originator originator_port
        ≡ ok (
          record s {
            encrypted = some (record enc' {
              write =
                  enc'.write
                  ++ packet w (open_message config id address port originator originator_port);
            });
          },
          id,
        )
  unfolding channel_open_forwarded_tcpip push_packet
  opens config s enc enc' id address port originator originator_port he hs e = rw (he, hs, e) refl

  -- What the call comes to.
  abbrev pub Opening : ServerConfig → CommonSession → Encrypted → Bytes → ℕ → Bytes → ℕ → Type 0
  Opening config s enc address port originator originator_port =
      ((enc.state ≢ authenticated)
        × (channel_open_forwarded_tcpip w config s address port originator originator_port
            ≡ err (thrussh Error.inconsistent)))
      ⊎ ((enc.state ≡ authenticated)
          × ((id : ℕ) × (lookup id enc.channels ≡ none)
              × (channel_open_forwarded_tcpip w config s address port originator originator_port
                  ≡ ok (
                    record s {
                      encrypted = some (record enc {
                        last_channel_id = id;
                        channels =
                            insert id (requested id config.window_size config.maximum_packet_size)
                              enc.channels;
                        write =
                            enc.write
                            ++ packet w
                                (open_message config id address port originator originator_port);
                      });
                    },
                    id,
                  ))))

  by_state :
      (config : ServerConfig) (s : CommonSession) (enc : Encrypted) (address : Bytes) (port : ℕ)
      (originator : Bytes) (originator_port : ℕ)
      → s.encrypted ≡ some enc
      → length enc.channels < 2 ^ 32
      → (st : EncryptedState) → enc.state ≡ st
      → Opening config s enc address port originator originator_port
  unfolding channel_open_forwarded_tcpip
  by_state config s enc address port originator originator_port he h authenticated hs =
      let (id, made, vacant, small, mine, others) =
        new_channel_registers enc config.window_size config.maximum_packet_size h in
      inr (
        hs,
        (id, vacant, opens config s enc _ id address port originator originator_port he hs made),
      )
  by_state config s enc address port originator originator_port he h _ hs =
      inl ((λ e. cc), rw (he, hs) refl)

  -- The server opens a forwarding channel only behind authentication. Then it always does, while
  -- there are fewer channels than numbers: the channel is new, unconfirmed, and announced to the client
  -- under its number with the window and packet size that it was registered with.
  pub channel_open_forwarded_tcpip_opens :
      (config : ServerConfig) (s : CommonSession) (enc : Encrypted) (address : Bytes) (port : ℕ)
      (originator : Bytes) (originator_port : ℕ)
      → s.encrypted ≡ some enc
      → length enc.channels < 2 ^ 32
      → Opening config s enc address port originator originator_port
  channel_open_forwarded_tcpip_opens config s enc address port originator originator_port he h =
      by_state config s enc address port originator originator_port he h enc.state refl
