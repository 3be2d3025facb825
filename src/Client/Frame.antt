-- ===== src/Client/Frame.antt =====
-- What a message of the server touches in the session of a client: the channel that it names, and no
-- other (src/client/encrypted.rs, `client_read_authenticated`).
use thrussh_mod.Base.{
  ℕ, ◌≡◌, refl, sym, ap, ◌∙◌, ◌⊎◌, inl, inr, false, Option, none, some, ◌==◌, arith, Bytes, codes,
  equal,
}
use thrussh_mod.Base.Dict.{lookup}
use thrussh_mod.Error.{ok, unwrap}
use thrussh_mod.Error.Ensures.{
  Ensures, Ensures-ok, Ensures-err, Ensures-bind, Ensures-elim, Ensures-option,
}
use thrussh_mod.Wire.{Wire, push_packet, read_string?, read_u32?}
use thrussh_mod.Codes.{from_u32}
use thrussh_mod.Encrypted.{Encrypted}
use thrussh_mod.CommonSession.{on_encrypted}
use thrussh_mod.ServerAuth.{text?}
use thrussh_mod.ServerRead.Touched.{
  channel_in, OnlyAt, SameChannels, changed-OnlyAt, remove-other, insert-other,
  adjust_window_size-other,
}
use thrussh_mod.ClientSession.{ClientConfig}
use thrussh_mod.Client.{ClientKeys, ClientHandler, Session, Call, Step, done, calls}
use thrussh_mod.Client.Channels.{
  confirmed, window_grown, read_confirmation, read_close, read_eof, read_open_failure, receive,
  read_data, read_extended_data, read_request_kind, read_channel_request, read_window_adjust,
  read_global_request, read_success,
}
use thrussh_mod.Client.Naming.{Concerns, IsOpening, ConcernsIf, request_kind-about}
use thrussh_mod.Client.Opened.{client_handle_channel_open, handle_open_kind}
use thrussh_mod.Client.Read.{client_read_step}
use thrussh_mod.Msg

module _ {H KP K : Type 0} (handler : ClientHandler H KP K) (keys : ClientKeys KP K) (w : Wire)
    (config : ClientConfig) where
  -- The message names the channel `n`, and the others are as they were.
  abbrev pub Names : Bytes → Session KP K → ℕ → Session KP K → Type 0
  Names buf s n s' = ((r : ℕ) × (read_u32? w buf 1 ≡ ok (n, r))) × OnlyAt n s.common s'.common

  abbrev pub Frame : Bytes → Session KP K → Step H KP K → Type 0
  Frame buf s (calls h c s') =
      ((n : ℕ) × Names buf s n s' × Concerns n c) ⊎ (IsOpening c × SameChannels s.common s'.common)
  Frame buf s (done h s') = SameChannels s.common s'.common

  confirmed-other :
      (enc : Encrypted) (n id_recv window max_packet : ℕ)
      → Ensures
          (λ e. (j : ℕ) → (n == j) ≡ false → lookup j e.channels ≡ lookup j enc.channels)
          (confirmed enc n id_recv window max_packet)
  unfolding confirmed
  confirmed-other enc n id_recv window max_packet =
      Ensures-option (lookup n enc.channels) _ _ (λ e. Ensures-err _)
        λ c e. Ensures-ok _ λ j ne. insert-other n j _ enc ne

  window_grown-other :
      (enc : Encrypted) (n amount : ℕ)
      → Ensures
          (λ r. (j : ℕ) → (n == j) ≡ false → lookup j r.0.channels ≡ lookup j enc.channels)
          (window_grown enc n amount)
  unfolding window_grown
  window_grown-other enc n amount =
      Ensures-option (lookup n enc.channels) _ _ (λ e. Ensures-err _)
        λ c e. Ensures-ok _ λ j ne. insert-other n j _ enc ne

  receive-other :
      (h : H) (n : ℕ) (content : Bytes) (s : Session KP K) (o : Option Encrypted) (j : ℕ)
      → (n == j) ≡ false
      → channel_in
          (receive handler w config h n content
            (record s { common = record s.common { encrypted = o } })).1.common.encrypted
          j
        ≡ channel_in o j
  unfolding receive
  receive-other h n content s none j ne = refl
  receive-other h n content s (some enc) j ne =
      ground (arith, adjust_window_size-other w enc n content config.window_size j ne)

  module _ (h : Option H) (s : Session KP K) (buf : Bytes) where
    confirmation-Frame : Ensures (Frame buf s) (read_confirmation handler w config h s buf)
    unfolding read_confirmation
    confirmation-Frame = Ensures-bind (read_u32? w buf 1) _ λ (n, r) e.
        Ensures-bind (read_u32? w buf r) _ λ x e1. Ensures-bind (read_u32? w buf x.1) _ λ y e2.
          Ensures-bind (read_u32? w buf y.1) _ λ z e3.
            Ensures-option s.common.encrypted _ _ (λ absent. Ensures-err _)
              λ enc present. Ensures-bind (confirmed enc n x.0 y.0 z.0) _ λ enc' e4. Ensures-ok _ (
                inl (
                  n,
                  (
                    (r, e),
                    λ j ne.
                        (confirmed-other enc n x.0 y.0 z.0).at enc' e4 j ne
                        ∙ ap (λ o. channel_in o j) (sym present),
                  ),
                  refl,
                ))

    close-Frame : Ensures (Frame buf s) (read_close handler w config h s buf)
    unfolding read_close
    close-Frame = Ensures-bind (read_u32? w buf 1) _ λ (n, r) e. Ensures-ok _ (
        inl (
          n,
          (
            (r, e),
            changed-OnlyAt n _ s.common s.common.encrypted (λ enc j ne. remove-other n j enc ne),
          ),
          refl,
        ))

    eof-Frame : Ensures (Frame buf s) (read_eof handler w config h s buf)
    unfolding read_eof
    eof-Frame =
        Ensures-bind (read_u32? w buf 1) _
          λ (n, r) e. Ensures-ok _ (inl (n, ((r, e), λ j ne. refl), refl))

    success-Frame : Ensures (Frame buf s) (read_success handler w config h s buf)
    unfolding read_success
    success-Frame =
        Ensures-bind (read_u32? w buf 1) _
          λ (n, r) e. Ensures-ok _ (inl (n, ((r, e), λ j ne. refl), refl))

    open_failure-Frame : Ensures (Frame buf s) (read_open_failure handler w config h s buf)
    unfolding read_open_failure
    open_failure-Frame = Ensures-bind (read_u32? w buf 1) _ λ (n, r) e.
        Ensures-bind (read_u32? w buf r) _ λ x e1.
          Ensures-bind (unwrap (from_u32 x.0)) _ λ reason e2.
            Ensures-bind (read_string? w buf x.1) _ λ y e3. Ensures-bind (text? y.0) _ λ t e4.
              Ensures-bind (read_string? w buf y.1) _ λ z e5. Ensures-bind (text? z.0) _ λ t' e6.
                Ensures-ok _ (
                  inl (
                    n,
                    (
                      (r, e),
                      changed-OnlyAt n _ s.common s.common.encrypted
                          (λ enc j ne. remove-other n j enc ne),
                    ),
                    refl,
                  ))

    data-Frame : Ensures (Frame buf s) (read_data handler w config h s buf)
    unfolding read_data
    data-Frame = Ensures-bind (read_u32? w buf 1) _ λ (n, r) e.
        Ensures-bind (read_string? w buf r) _ λ x e1. Ensures-bind (unwrap h) _ λ taken e2.
          Ensures-ok _
            (inl (n, ((r, e), λ j ne. receive-other taken n x.0 s s.common.encrypted j ne), refl))

    extended_data-Frame : Ensures (Frame buf s) (read_extended_data handler w config h s buf)
    unfolding read_extended_data
    extended_data-Frame = Ensures-bind (read_u32? w buf 1) _ λ (n, r) e.
        Ensures-bind (read_u32? w buf r) _ λ x e1. Ensures-bind (read_string? w buf x.1) _ λ y e2.
          Ensures-bind (unwrap h) _ λ taken e3.
            Ensures-ok _
              (inl (n, ((r, e), λ j ne. receive-other taken n y.0 s s.common.encrypted j ne), refl))

    global-Frame : Ensures (Frame buf s) (read_global_request handler w config h s buf)
    unfolding read_global_request
    global-Frame = Ensures-bind (read_string? w buf 1) _ λ x e. Ensures-ok _ λ j. refl

    window_adjust-Frame : Ensures (Frame buf s) (read_window_adjust handler w config h s buf)
    unfolding read_window_adjust
    window_adjust-Frame = Ensures-bind (read_u32? w buf 1) _ λ (n, r) e.
        Ensures-bind (read_u32? w buf r) _ λ x e1.
          Ensures-option s.common.encrypted _ _
            (λ absent. Ensures-ok _ (inl (n, ((r, e), λ j ne. refl), refl)))
            λ enc present. Ensures-bind (window_grown enc n x.0) _ λ y e2. Ensures-ok _ (
              inl (
                n,
                (
                  (r, e),
                  λ j ne.
                      (window_grown-other enc n x.0).at y e2 j ne
                      ∙ ap (λ o. channel_in o j) (sym present),
                ),
                refl,
              ))

    answered :
        (n r : ℕ) (request : Option Call)
        → read_u32? w buf 1 ≡ ok (n, r)
        → ConcernsIf n request
        → Frame buf s (elim request [ some call ↦ calls h call s | none ↦ done h s ])
    answered n r (some call) e about = inl (n, ((r, e), λ j ne. refl), about)
    answered n r none e about = λ j. refl

    request-Frame : Ensures (Frame buf s) (read_channel_request handler w config h s buf)
    unfolding read_channel_request
    request-Frame = Ensures-bind (read_u32? w buf 1) _ λ (n, r) e.
        Ensures-bind (read_string? w buf r) _ λ x e1. Ensures-bind (unwrap h) _ λ taken e2.
          Ensures-bind (read_request_kind handler w config x.0 buf x.1 n) _ λ request e3.
            Ensures-ok _ (
              answered n r request e
                ((request_kind-about handler w config buf x.0 x.1 n).at request e3))

    pushed-SameChannels :
        (body : Bytes) (o : Option Encrypted)
        → SameChannels
            (record s.common { encrypted = o })
            (on_encrypted
              (λ enc. record enc { write = push_packet w enc.write body })
              (record s.common { encrypted = o }))
    pushed-SameChannels body none j = refl
    pushed-SameChannels body (some enc) j = refl

    open-Frame : Ensures (Frame buf s) (client_handle_channel_open w h s buf)
    unfolding client_handle_channel_open handle_open_kind
    open-Frame = Ensures-bind (read_string? w buf 1) _ λ kind e.
        Ensures-bind (read_u32? w buf kind.1) _ λ x e1. Ensures-bind (read_u32? w buf x.1) _ λ y e2.
          Ensures-bind (read_u32? w buf y.1) _ λ z e3.
            Ensures-elim (equal kind.0 (codes "forwarded-tcpip")) _ _
              (λ e4. Ensures-bind (read_string? w buf z.1) _ λ a e5.
                Ensures-bind (read_u32? w buf a.1) _ λ b e6.
                  Ensures-bind (read_string? w buf b.1) _ λ c e7.
                    Ensures-bind (read_u32? w buf c.1) _ λ d e8. Ensures-ok _ (inr (tt, λ j. refl)))
              λ e4. Ensures-ok _ (pushed-SameChannels _ s.common.encrypted)

    dispatched : (b : ℕ) → Ensures (Frame buf s) (client_read_step handler keys w config b h s buf)
    unfolding client_read_step
    dispatched b =
        Ensures-elim (b == Msg.channel_open_confirmation) _ _ (λ e. confirmation-Frame)
          λ e.
            Ensures-elim (b == Msg.channel_close) _ _ (λ e. close-Frame)
              λ e.
                Ensures-elim (b == Msg.channel_eof) _ _ (λ e. eof-Frame)
                  λ e.
                    Ensures-elim (b == Msg.channel_open_failure) _ _ (λ e. open_failure-Frame)
                      λ e.
                        Ensures-elim (b == Msg.channel_data) _ _ (λ e. data-Frame)
                          λ e.
                            Ensures-elim (b == Msg.channel_extended_data) _ _
                              (λ e. extended_data-Frame)
                              λ e.
                                Ensures-elim (b == Msg.channel_request) _ _ (λ e. request-Frame)
                                  λ e.
                                    Ensures-elim (b == Msg.channel_window_adjust) _ _
                                      (λ e. window_adjust-Frame)
                                      λ e.
                                        Ensures-elim (b == Msg.global_request) _ _
                                          (λ e. global-Frame)
                                          λ e.
                                            Ensures-elim (b == Msg.channel_success) _ _
                                              (λ e. success-Frame)
                                              λ e.
                                                Ensures-elim (b == Msg.channel_open) _ _
                                                  (λ e. open-Frame) λ e. Ensures-ok _ λ j. refl

  -- A message of the server to an authenticated client. Where it is read: if a method of the handler is
  -- called, then either it is called for the channel whose number the message holds, and every other
  -- channel is as it was, or the server wants to open a channel, and every channel is as it was; if
  -- none is called, all channels are as they were.
  pub client_read_step-Frame :
      (b : ℕ) (h : Option H) (s : Session KP K) (buf : Bytes) {step : Step H KP K}
      → client_read_step handler keys w config b h s buf ≡ ok step
      → Frame buf s step
  client_read_step-Frame b h s buf {step} e = (dispatched h s buf b).at step e
