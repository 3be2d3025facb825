-- ===== src/ServerRead/Opening.antt =====
-- What becomes of a request to open a channel.
use thrussh_mod.Base.{
  ℕ, ◌^◌, ◌<◌, ◌≡◌, ◌≢◌, refl, sym, ap, ◌∙◌, false, true, Option, none, some, [], ◌∷◌, ◌++◌, length,
  Bytes, codes, arith, equal, equal_iff,
}
use thrussh_mod.Base.Dict.{lookup, insert}
use thrussh_mod.Error.{ok}
use thrussh_mod.Error.Ensures.{Ensures, Ensures-if, Ensures-ok, Ensures-bind}
use thrussh_mod.Wire.{Wire, packet, push_packet, read_string?, read_u32?}
use thrussh_mod.Channel.{Channel}
use thrussh_mod.Encrypted.{Encrypted}
use thrussh_mod.Encrypted.Ids.{new_channel_id_fresh}
use thrussh_mod.ServerConfig.{ServerConfig}
use thrussh_mod.ServerAuth.{text?}
use thrussh_mod.ServerRead.{Session, Call, Step, done, calls, forwards}
use thrussh_mod.ServerRead.Open.{
  confirm_channel_open, opened_channel, next_channel_id, open_kind, server_handle_channel_open,
}
use thrussh_mod.Msg
use thrussh_mod.ServerRead.Naming.{channel_of}

different : (a b : Bytes) → equal a b ≡ false → a ≢ b
different a b e same = ground (arith, (equal_iff a b).1 same, e)

module _ (w : Wire) (config : ServerConfig) where
  -- What the message asks for; `r` is behind the maximal packet size.
  abbrev pub Asked : (buf kind : Bytes) → (sender window maxpacket r : ℕ) → Type 0
  Asked buf kind sender window maxpacket r =
      (r1 : ℕ) × (r2 : ℕ) × (r3 : ℕ) × (read_string? w buf 1 ≡ ok (kind, r1))
      × (read_u32? w buf r1 ≡ ok (sender, r2))
      × (read_u32? w buf r2 ≡ ok (window, r3))
      × (read_u32? w buf r3 ≡ ok (maxpacket, r))

  -- Behind `r` the message has a text and a number.
  abbrev pub HasAddress : Bytes → (r : ℕ) → Bytes → ℕ → (r2 : ℕ) → Type 0
  HasAddress buf r address port r2 =
      (r1 : ℕ) × (read_string? w buf r ≡ ok (address, r1)) × (read_u32? w buf r1 ≡ ok (port, r2))

  -- The call is the one for the kind, with the arguments that the message has behind `r`.
  abbrev pub Serves : (buf kind : Bytes) → (r : ℕ) → Call → Type 0
  Serves buf kind r (Call.channel_open_session n) = kind ≡ codes "session"
  Serves buf kind r (Call.channel_open_x11 n address port) =
      (kind ≡ codes "x11") × (r' : ℕ) × HasAddress buf r address port r'
  Serves buf kind r (Call.channel_open_direct_tcpip n host port address originator_port) =
      (kind ≡ codes "direct-tcpip")
      × (r' : ℕ) × (r'' : ℕ) × HasAddress buf r host port r'
      × HasAddress buf r' address originator_port r''
  Serves buf kind r _ = ⊥

  abbrev pub Unknown : (kind : Bytes) → Type 0
  Unknown kind = (kind ≢ codes "session") × (kind ≢ codes "x11") × (kind ≢ codes "direct-tcpip")

  -- The channel of number `id`, as the server is to know it
  abbrev pub agreed : (id sender window maxpacket : ℕ) → Channel
  agreed id sender window maxpacket = record {
    recipient_channel = sender;
    sender_channel = id;
    recipient_window_size = window;
    sender_window_size = config.window_size;
    recipient_maximum_packet_size = maxpacket;
    sender_maximum_packet_size = config.maximum_packet_size;
    confirmed = true;
    wants_reply = false;
    pending_data = [];
  }

  -- What tells the client that its channel `sender` is open
  abbrev pub grant : (id sender : ℕ) → Bytes
  grant id sender =
      Msg.channel_open_confirmation
      ∷ (w.u32_be sender
          ++ (w.u32_be id ++ (w.u32_be config.window_size ++ w.u32_be config.maximum_packet_size)))

  -- The channel of number `id` is open, and has been confirmed to the client.
  abbrev pub WithChannel : Encrypted → (id sender window maxpacket : ℕ) → Encrypted
  WithChannel enc id sender window maxpacket = record enc {
    last_channel_id = id;
    write = enc.write ++ packet w (grant id sender);
    channels = insert id (agreed id sender window maxpacket) enc.channels;
  }

  abbrev pub Opened : {H : Type 0} → Encrypted → Bytes → Step H → Type 0
  Opened enc buf (calls h call s') =
      (kind : Bytes) × (sender : ℕ) × (window : ℕ) × (maxpacket : ℕ) × (r : ℕ) × Asked buf kind
        sender window maxpacket r
      × Serves buf kind r call
      × (lookup (channel_of call) enc.channels ≡ none)
      × (channel_of call < 2 ^ 32)
      × (s'.common.encrypted ≡ some (WithChannel enc (channel_of call) sender window maxpacket))
  Opened enc buf (done h s') =
      (kind : Bytes) × (sender : ℕ) × (window : ℕ) × (maxpacket : ℕ) × (r : ℕ) × (id : ℕ) × Asked
        buf kind sender window maxpacket r
      × Unknown kind
      × (s'.common.encrypted
          ≡ some (record enc {
            last_channel_id = id;
            write =
                enc.write
                ++ packet w (
                    Msg.channel_open_failure
                    ∷ (w.u32_be sender
                        ++ (w.u32_be 3
                            ++ (w.ssh_string (codes "Unknown channel type")
                                ++ w.ssh_string (codes "en")))));
          }))
  Opened enc buf (forwards h cancel address port s') = ⊥

  -- The session that has numbered a channel, and no more
  abbrev pub numbered : Session → Encrypted → ℕ → Session
  numbered s enc id = record s {
    common = record s.common { encrypted = some (record enc { last_channel_id = id }) };
  }

  module _ {H : Type 0} (h : Option H) (buf : Bytes) (s : Session) (enc : Encrypted) where
    open_kind-Opened :
        (id sender window maxpacket r : ℕ) (kind : Bytes)
        → Asked buf kind sender window maxpacket r
        → lookup id enc.channels ≡ none
        → id < 2 ^ 32
        → Ensures (Opened enc buf) (
            open_kind w config h
              (opened_channel w config id sender window maxpacket)
              buf
              r
              kind
              (numbered s enc id))
    unfolding open_kind confirm_channel_open push_packet
    open_kind-Opened id sender window maxpacket r kind asked fresh small =
        Ensures-if (equal kind (codes "session")) _ _
          (λ e.
            Ensures-ok _ (
              kind,
              sender,
              window,
              maxpacket,
              r,
              asked,
              (equal_iff kind _).0 e,
              fresh,
              small,
              refl,
            ))
          λ e.
            Ensures-if (equal kind (codes "x11")) _ _
              (λ e'. Ensures-bind (read_string? w buf r) _ λ a e1.
                Ensures-bind (text? a.0) _ λ t e2. Ensures-bind (read_u32? w buf a.1) _ λ b e3.
                  Ensures-ok _ (
                    kind,
                    sender,
                    window,
                    maxpacket,
                    r,
                    asked,
                    ((equal_iff kind _).0 e', b.1, (a.1, e1, e3)),
                    fresh,
                    small,
                    refl,
                  ))
              λ e'.
                Ensures-if (equal kind (codes "direct-tcpip")) _ _
                  (λ e''. Ensures-bind (read_string? w buf r) _ λ a e1.
                    Ensures-bind (text? a.0) _ λ t e2. Ensures-bind (read_u32? w buf a.1) _ λ b e3.
                      Ensures-bind (read_string? w buf b.1) _ λ c e4.
                        Ensures-bind (text? c.0) _ λ t' e5.
                          Ensures-bind (read_u32? w buf c.1) _ λ d e6. Ensures-ok _ (
                            kind,
                            sender,
                            window,
                            maxpacket,
                            r,
                            asked,
                            ((equal_iff kind _).0 e'', b.1, d.1, (a.1, e1, e3), (c.1, e4, e6)),
                            fresh,
                            small,
                            refl,
                          ))
                  λ e''. Ensures-ok _ (
                    kind,
                    sender,
                    window,
                    maxpacket,
                    r,
                    id,
                    asked,
                    (different kind _ e, different kind _ e', different kind _ e''),
                    refl,
                  )

    opened_lem :
        length enc.channels < 2 ^ 32
        → Ensures (Opened enc buf) (
            server_handle_channel_open w config h buf
              (record s { common = record s.common { encrypted = some enc } }))
    unfolding server_handle_channel_open next_channel_id
    opened_lem room = Ensures-bind (read_string? w buf 1) _ λ kind e1.
        Ensures-bind (read_u32? w buf kind.1) _ λ sender e2.
          Ensures-bind (read_u32? w buf sender.1) _ λ window e3.
            Ensures-bind (read_u32? w buf window.1) _ λ maxpacket e4.
              let (id, found, fresh, small) = new_channel_id_fresh enc room in
              rw found (
                open_kind-Opened id sender.0 window.0 maxpacket.0 maxpacket.1 kind.0
                  (kind.1, sender.1, window.1, e1, e2, e3, e4) fresh small)

  -- A request of the client to open a channel, in a session with fewer channels than there are numbers.
  -- When it is read without an error: either its kind is known and the handler is called for this kind
  -- with the arguments of the message, about a channel whose number no channel of the session has; the
  -- session then holds a confirmed channel of that number with the number, the window and the packet
  -- size that the message asks for and with the limits of the configuration, and a message is queued
  -- that tells the client so. Or the kind is none of the three, and a refusal with the client's number
  -- is queued. Nothing else of the encrypted session changes, but for the last number given out.
  pub server_handle_channel_open-Opened :
      {H : Type 0} (h : Option H) (buf : Bytes) (s : Session) (enc : Encrypted) {step : Step H}
      → s.common.encrypted ≡ some enc
      → length enc.channels < 2 ^ 32
      → server_handle_channel_open w config h buf s ≡ ok step
      → Opened enc buf step
  server_handle_channel_open-Opened h buf s enc {step} e room run =
      let held : Option Encrypted → Session =
        λ o. record s { common = record s.common { encrypted = o } } in
      (opened_lem h buf s enc room).at step
        (sym (ap (λ o. server_handle_channel_open w config h buf (held o)) e) ∙ run)
