-- ===== src/Dialogue/Opening.antt =====
-- The opening of a channel by a client: src/client/session.rs and src/client/encrypted.rs with
-- src/server/encrypted.rs.
use thrussh_mod.Base.{
  ℕ, ◌^◌, ◌<◌, ◌≡◌, refl, true, Option, none, some, ◌++◌, arith, length, Bytes, equal,
}
use thrussh_mod.Base.Dict.{lookup, insert}
use thrussh_mod.Error.{ok}
use thrussh_mod.Wire.{Wire, push_packet}
use thrussh_mod.Wire.Reading.{At, At-first, reads_string, reads_u32, reads_u32_last}
use thrussh_mod.Channel.{Channel}
use thrussh_mod.Encrypted.{Encrypted, new_channel_id}
use thrussh_mod.ServerConfig.{ServerConfig}
use thrussh_mod.ServerRead.{Session, Call, calls}
use thrussh_mod.ServerRead.Open.{
  confirm_channel_open, next_channel_id, open_kind, server_handle_channel_open,
}
use thrussh_mod.ClientSession.{
  ClientConfig, Opening, session, x11, direct_tcpip, open_kind as kind_of, open_arguments,
  open_message,
}
use thrussh_mod.Client.{ClientHandler}
use thrussh_mod.Client
use thrussh_mod.Client.Answers.{with_enc}
use thrussh_mod.Client.Channels.{confirmed, read_confirmation}
use thrussh_mod.Msg
use thrussh_mod.Encrypted.Ids.{new_channel_id_fresh}
use thrussh_mod.ServerRead.Opening.{WithChannel, grant, numbered}
use thrussh_mod.Dialogue.Arguments.{IsText, is_text}

-- The openings whose arguments a message can hold, and what the handler is asked for them
abbrev pub FitsOpening : Opening → Type 0
FitsOpening session = Unit {0}
FitsOpening (x11 address port) = IsText address × (port < 2 ^ 32)
FitsOpening (direct_tcpip host port address originator_port) =
    IsText host × (port < 2 ^ 32) × IsText address × (originator_port < 2 ^ 32)

abbrev pub opening_call : ℕ → Opening → Call
opening_call n session = Call.channel_open_session n
opening_call n (x11 address port) = Call.channel_open_x11 n address port
opening_call n (direct_tcpip host port address originator_port) =
    Call.channel_open_direct_tcpip n host port address originator_port

-- A client's session in which the channel `c` has been confirmed, with the number, the window and the
-- packet size of the server
abbrev pub on_this_side : Encrypted → Channel → (id_send id_recv window max_packet : ℕ) → Encrypted
on_this_side enc c id_send id_recv window max_packet = record enc {
  channels =
      insert id_send
        (record c {
          recipient_channel = id_recv;
          recipient_window_size = window;
          recipient_maximum_packet_size = max_packet;
          confirmed = true;
        })
        enc.channels;
}

abbrev pub with_encrypted : Session → Encrypted → Session
with_encrypted s enc = record s { common = record s.common { encrypted = some enc } }

length-kind_of : (o : Opening) → length (kind_of o) < 2 ^ 32
length-kind_of session = omega arith
length-kind_of (x11 a b) = omega arith
length-kind_of (direct_tcpip a b c d) = omega arith

numbers :
    (w : Wire) (config : ServerConfig) (s : Session) (enc : Encrypted) (id : ℕ)
    → s.common.encrypted ≡ some enc
    → new_channel_id enc ≡ ok (record enc { last_channel_id = id }, id)
    → next_channel_id w config s ≡ ok (numbered w config s enc id, id)
unfolding next_channel_id
numbers w config s enc id e found = rw (next_channel_id, e, found) refl

module _ {H : Type 0} (w : Wire) (config : ServerConfig) where
  reads_kind :
      (h : Option H) (o : Opening) (channel : Channel) (buf : Bytes) (r : ℕ) (s : Session)
      → At buf r (open_arguments w o)
      → FitsOpening o
      → open_kind w config h channel buf r (kind_of o) s
        ≡ ok (
            calls h
              (opening_call channel.sender_channel o)
              (confirm_channel_open w config channel s))
  unfolding open_kind equal
  reads_kind h session channel buf r s at fits = refl
  reads_kind h (x11 address port) channel buf r s at (is, small) =
      let (r1, e1, a1) = reads_string w address (w.u32_be port) at is.0 in
      let (r2, e2) = reads_u32_last w port a1 small in rw (e1, is_text address is, e2) refl
  reads_kind h (direct_tcpip host port address originator_port) channel buf r s at
        (is, small, is', small') =
      let (r1, e1, a1) =
        reads_string w host (w.u32_be port ++ (w.ssh_string address ++ w.u32_be originator_port)) at
          is.0 in
      let (r2, e2, a2) =
        reads_u32 w port (w.ssh_string address ++ w.u32_be originator_port) a1 small in
      let (r3, e3, a3) = reads_string w address (w.u32_be originator_port) a2 is'.0 in
      let (r4, e4) = reads_u32_last w originator_port a3 small' in
      rw (e1, is_text host is, e2, e3, is_text address is', e4) refl

  opens :
      (cconfig : ClientConfig) (h : Option H) (o : Opening) (id_c id_s : ℕ) (s : Session)
      (enc : Encrypted)
      → s.common.encrypted ≡ some enc
      → new_channel_id enc ≡ ok (record enc { last_channel_id = id_s }, id_s)
      → id_c < 2 ^ 32
      → cconfig.window_size < 2 ^ 32
      → cconfig.maximum_packet_size < 2 ^ 32
      → FitsOpening o
      → server_handle_channel_open w config h (open_message w cconfig o id_c) s
        ≡ ok (
            calls h (opening_call id_s o) (
              with_encrypted s (
                WithChannel w config enc id_s id_c cconfig.window_size
                  cconfig.maximum_packet_size)))
  unfolding server_handle_channel_open confirm_channel_open push_packet
  opens cconfig h o id_c id_s s enc e found small small_window small_packet fits =
      let (r1, e1, a1) =
        reads_string w (kind_of o) _ (At-first Msg.channel_open _) (length-kind_of o) in
      let (r2, e2, a2) = reads_u32 w id_c _ a1 small in
      let (r3, e3, a3) = reads_u32 w cconfig.window_size _ a2 small_window in
      let (r4, e4, a4) =
        reads_u32 w cconfig.maximum_packet_size (open_arguments w o) a3 small_packet in
      rw (e1, e2, e3, e4, numbers w config s enc id_s e found)
        (reads_kind h o _ _ r4 (numbered w config s enc id_s) a4 fits)

confirmed-found :
    (enc : Encrypted) (c : Channel) (id_send id_recv window max_packet : ℕ)
    → lookup id_send enc.channels ≡ some c
    → confirmed enc id_send id_recv window max_packet
      ≡ ok (on_this_side enc c id_send id_recv window max_packet)
unfolding confirmed
confirmed-found enc c id_send id_recv window max_packet found = rw (confirmed, found) refl

module _ {H KP K : Type 0} (handler : ClientHandler H KP K) (w : Wire) (config : ClientConfig) where
  reads_confirmation :
      (sconfig : ServerConfig) (h : Option H) (s : Client.Session KP K) (enc : Encrypted)
      (c : Channel) (id_c id_s : ℕ)
      → s.common.encrypted ≡ some enc
      → lookup id_c enc.channels ≡ some c
      → id_c < 2 ^ 32
      → id_s < 2 ^ 32
      → sconfig.window_size < 2 ^ 32
      → sconfig.maximum_packet_size < 2 ^ 32
      → read_confirmation handler w config h s (grant w sconfig id_s id_c)
        ≡ ok (
            Client.calls h
              (Client.Call.channel_open_confirmation id_c sconfig.maximum_packet_size
                sconfig.window_size)
              (with_enc s
                (on_this_side enc c id_c id_s sconfig.window_size sconfig.maximum_packet_size)))
  unfolding read_confirmation
  reads_confirmation sconfig h s enc c id_c id_s e found small small' small_window small_packet =
      let (r1, e1, a1) = reads_u32 w id_c _ (At-first Msg.channel_open_confirmation _) small in
      let (r2, e2, a2) = reads_u32 w id_s _ a1 small' in
      let (r3, e3, a3) =
        reads_u32 w sconfig.window_size (w.u32_be sconfig.maximum_packet_size) a2 small_window in
      let (r4, e4) = reads_u32_last w sconfig.maximum_packet_size a3 small_packet in
      let confirms =
        confirmed-found enc c id_c id_s sconfig.window_size sconfig.maximum_packet_size found in
      rw (e1, e2, e3, e4, e, confirms) refl

  -- A client asks a server for a channel with any of its messages for that, which hold arguments that
  -- fit, and the server has fewer channels than there are numbers. The server picks a number that none
  -- of its channels has and calls its handler for the kind of the channel with the arguments that the
  -- client gave. Of its session no more changes than these: under that number there is a channel, with
  -- the number, the window and the packet size of the client, and its own limits; it was the last
  -- number given out; and a confirmation is queued. When the client reads that confirmation while it
  -- still has the channel, then its channel is confirmed, has the number, the window and the packet
  -- size of the server, and is the same else, and its handler is told so. The client's number and the
  -- windows and the packet sizes of the two are below 2 ^ 32.
  pub channel_open_handshake :
      {G : Type 0} (sconfig : ServerConfig) (g : Option G) (h : Option H) (o : Opening) (id_c : ℕ)
      (server : Session) (senc : Encrypted) (client : Client.Session KP K) (enc : Encrypted)
      (c : Channel)
      → server.common.encrypted ≡ some senc
      → length senc.channels < 2 ^ 32
      → FitsOpening o
      → id_c < 2 ^ 32
      → config.window_size < 2 ^ 32
      → config.maximum_packet_size < 2 ^ 32
      → sconfig.window_size < 2 ^ 32
      → sconfig.maximum_packet_size < 2 ^ 32
      → client.common.encrypted ≡ some enc
      → lookup id_c enc.channels ≡ some c
      → (id_s : ℕ) × (lookup id_s senc.channels ≡ none)
        × (server_handle_channel_open w sconfig g (open_message w config o id_c) server
            ≡ ok (
                calls g (opening_call id_s o) (
                  with_encrypted server (
                    WithChannel w sconfig senc id_s id_c config.window_size
                      config.maximum_packet_size))))
        × (read_confirmation handler w config h client (grant w sconfig id_s id_c)
            ≡ ok (
                Client.calls h
                  (Client.Call.channel_open_confirmation id_c sconfig.maximum_packet_size
                    sconfig.window_size)
                  (with_enc client (
                    on_this_side enc c id_c id_s sconfig.window_size sconfig.maximum_packet_size))))
  channel_open_handshake sconfig g h o id_c server senc client enc c up room fits c1 c3 c4 c5 c6 e
        found =
      let (id_s, numbered, fresh, c2) = new_channel_id_fresh senc room in
      (
        id_s,
        fresh,
        opens w sconfig config g o id_c id_s server senc up numbered c1 c3 c4 fits,
        reads_confirmation sconfig h client enc c id_c id_s e found c1 c2 c5 c6,
      )
