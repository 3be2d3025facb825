-- ===== src/ServerRead/Frame.antt =====
-- What one message touches: the channel that it names, and no other.
use thrussh_mod.Base.{
  ℕ, ◌≡◌, refl, sym, subst, ◌∙◌, ◌⊎◌, inl, inr, Bool, true, false, not, ◌||◌, Option, none, some,
  [], ◌∷◌, ◌==◌, Bytes, codes, equal,
}
use thrussh_mod.Error.{ok, unwrap}
use thrussh_mod.Error.Ensures.{Ensures, Ensures-elim, Ensures-ok, Ensures-bind}
use thrussh_mod.Wire.{read_string?, read_u32?, read_byte?}
use thrussh_mod.CommonSession.{CommonSession}
use thrussh_mod.ServerAuth.{text?}
use thrussh_mod.ServerSession.Flush.{ServerEnv, Moment, session_flush}
use thrussh_mod.ServerRead.{
  Session, Call, ChannelHandler, Step, done, calls, forwards, push_message,
}
use thrussh_mod.ServerRead.Requests.{read_request}
use thrussh_mod.ServerRead.Naming.{channel_of, IsAbout, read_request-IsAbout}
use thrussh_mod.ServerRead.Messages.{
  read_close, read_eof, receive, received, read_data, read_extended_data, widened,
  read_window_adjust, read_channel_request, read_global_request, read_step,
}
use thrussh_mod.Msg
use thrussh_mod.ServerRead.Touched.{
  OnlyAt, SameChannels, changed-OnlyAt, remove-other, receive-channel, flushed-OnlyAt,
  widened-OnlyAt, noted-OnlyAt, pushed-channel,
}

module _ {H KP : Type 0} (handler : ChannelHandler H) (env : ServerEnv KP) (m : Moment) where
  -- The message names the channel of the call, and touches no other.
  abbrev pub Names : Bytes → CommonSession → ℕ → CommonSession → Type 0
  Names buf s n s' = ((r : ℕ) × (read_u32? env.wire buf 1 ≡ ok (n, r))) × OnlyAt n s s'

  abbrev pub Frame : Bytes → Session → Step H → Type 0
  Frame buf s (calls h c s') = Names buf s.common (channel_of c) s'.common
  Frame buf s (done h s') =
      SameChannels s.common s'.common ⊎ ((n : ℕ) × Names buf s.common n s'.common)
  Frame buf s (forwards h cancel address port s') = SameChannels s.common s'.common

  read_close-Frame :
      (h : Option H) (buf : Bytes) (s : Session)
      → Ensures (Frame buf s) (read_close handler env m h buf s)
  unfolding read_close
  read_close-Frame h buf s = Ensures-bind (read_u32? env.wire buf 1) _ λ (channel, r) e.
      Ensures-ok _ (
        (r, e),
        changed-OnlyAt channel _ s.common s.common.encrypted
            (λ enc j ne. remove-other channel j enc ne),
      )

  read_eof-Frame :
      (h : Option H) (buf : Bytes) (s : Session)
      → Ensures (Frame buf s) (read_eof handler env m h buf s)
  unfolding read_eof
  read_eof-Frame h buf s =
      Ensures-bind (read_u32? env.wire buf 1) _
        λ (channel, r) e. Ensures-ok _ ((r, e), λ j ne. refl)

  received-Frame :
      (h : Option H) (n r : ℕ) (ext : Option ℕ) (content buf : Bytes) (s : Session)
      → read_u32? env.wire buf 1 ≡ ok (n, r)
      → Ensures (Frame buf s) (received handler env m h n ext content s)
  unfolding received
  received-Frame h n r ext content buf s e = Ensures-bind (unwrap h) _ λ taken e1.
      let s' = (receive handler env m taken n content s).1.common in
      Ensures-bind (session_flush env m s') _ λ common e2.
        let only =
          (flushed-OnlyAt handler env m n s.common s' s'.encrypted
              (receive-channel handler env m taken n content s s.common.encrypted)).at
            common e2 in
        Ensures-ok _ (subst (λ k. Names buf s.common k common) (sym (named ext)) ((r, e), only))
    where
      named :
          (ext : Option ℕ)
          → channel_of (elim ext [
            | some code ↦ Call.extended_data n code content
            | none ↦ Call.channel_data n content
          ])
            ≡ n
      named none = refl
      named (some code) = refl

  read_data-Frame :
      (h : Option H) (buf : Bytes) (s : Session)
      → Ensures (Frame buf s) (read_data handler env m h buf s)
  unfolding read_data
  read_data-Frame h buf s = Ensures-bind (read_u32? env.wire buf 1) _ λ (channel, r) e.
      Ensures-bind (read_string? env.wire buf r) _
        λ x e1. received-Frame h channel r none x.0 buf s e

  read_extended_data-Frame :
      (h : Option H) (buf : Bytes) (s : Session)
      → Ensures (Frame buf s) (read_extended_data handler env m h buf s)
  unfolding read_extended_data
  read_extended_data-Frame h buf s = Ensures-bind (read_u32? env.wire buf 1) _ λ (channel, r) e.
      Ensures-bind (read_u32? env.wire buf r) _ λ x e1.
        Ensures-bind (read_string? env.wire buf x.1) _
          λ y e2. received-Frame h channel r (some x.0) y.0 buf s e

  read_window_adjust-Frame :
      (h : Option H) (buf : Bytes) (s : Session)
      → Ensures (Frame buf s) (read_window_adjust handler env m h buf s)
  unfolding read_window_adjust
  read_window_adjust-Frame h buf s = Ensures-bind (read_u32? env.wire buf 1) _ λ (channel, r) e.
      Ensures-bind (read_u32? env.wire buf r) _ λ x e1.
        Ensures-bind (widened handler env m s channel x.0) _ λ y e2.
          Ensures-ok _
            ((r, e), (widened-OnlyAt handler env m s channel x.0 s.common.encrypted).at y e2)

  -- What is done with a request on the channel `n`
  answered :
      (buf : Bytes) (n : ℕ) (request : Option Call) (h : Option H) (s s' : Session)
      → Names buf s.common n s'.common
      → IsAbout n request
      → Frame buf s (elim request [
        | some call ↦ calls h call s'
        | none ↦ done h (push_message env.wire (Msg.channel_failure ∷ []) s')
      ])
  answered buf n (some call) h s s' names about =
      subst (λ k. Names buf s.common k s'.common) (sym about) names
  answered buf n none h s s' (named, only) about = inr (
    n,
    (
      named,
      λ j ne.
          pushed-channel handler env m (Msg.channel_failure ∷ []) s'.common s'.common.encrypted j
          ∙ only j ne,
    ),
  )

  read_channel_request-Frame :
      (h : Option H) (buf : Bytes) (s : Session)
      → Ensures (Frame buf s) (read_channel_request handler env m h buf s)
  unfolding read_channel_request
  read_channel_request-Frame h buf s = Ensures-bind (read_u32? env.wire buf 1) _ λ (channel, r) e.
      Ensures-bind (read_string? env.wire buf r) _ λ x e1.
        Ensures-bind (read_byte? env.wire buf x.1) _ λ y e2.
          Ensures-bind (read_request env.wire x.0 buf y.1 channel) _ λ request e3. Ensures-ok _ (
            answered buf channel request h s _
              (
                (r, e),
                noted-OnlyAt handler env m channel (not (y.0 == 0)) s.common s.common.encrypted,
              )
              ((read_request-IsAbout env.wire x.0 buf y.1 channel).at request e3))

  read_global_request-Frame :
      (h : Option H) (buf : Bytes) (s : Session)
      → Ensures (Frame buf s) (read_global_request handler env m h buf s)
  unfolding read_global_request
  read_global_request-Frame h buf s = Ensures-bind (read_string? env.wire buf 1) _ λ x e.
      Ensures-bind (read_byte? env.wire buf x.1) _ λ y e1.
        Ensures-elim (equal x.0 (codes "tcpip-forward") || equal x.0 (codes "cancel-tcpip-forward"))
          _ _
          (λ e2. Ensures-bind (read_string? env.wire buf y.1) _ λ z e3.
            Ensures-bind (text? z.0) _
              λ t e4. Ensures-bind (read_u32? env.wire buf z.1) _ λ p e5. Ensures-ok _ λ j. refl)
          λ e2. Ensures-ok _ (
            inl (
              pushed-channel handler env m (Msg.request_failure ∷ [])
                (record s.common { wants_reply = not (y.0 == 0) }) s.common.encrypted))

  dispatched :
      (b : ℕ) (h : Option H) (buf : Bytes) (s : Session)
      → (b == Msg.channel_open) ≡ false
      → Ensures (Frame buf s) (read_step handler env m b h buf s)
  unfolding read_step
  dispatched b h buf s other =
      Ensures-elim (b == Msg.channel_open) _ _ (λ e. absurd (clash _ e other))
        λ e.
          Ensures-elim (b == Msg.channel_close) _ _ (λ e. read_close-Frame h buf s)
            λ e.
              Ensures-elim (b == Msg.channel_eof) _ _ (λ e. read_eof-Frame h buf s)
                λ e.
                  Ensures-elim (b == Msg.channel_extended_data) _ _
                    (λ e. read_extended_data-Frame h buf s)
                    λ e.
                      Ensures-elim (b == Msg.channel_data) _ _ (λ e. read_data-Frame h buf s)
                        λ e.
                          Ensures-elim (b == Msg.channel_window_adjust) _ _
                            (λ e. read_window_adjust-Frame h buf s)
                            λ e.
                              Ensures-elim (b == Msg.channel_request) _ _
                                (λ e. read_channel_request-Frame h buf s)
                                λ e.
                                  Ensures-elim (b == Msg.global_request) _ _
                                    (λ e. read_global_request-Frame h buf s)
                                    λ e. Ensures-ok _ (inl (λ j. refl))
    where
      clash : (t : Bool) → t ≡ true → t ≡ false → ⊥
      clash t e other = cc

  -- A message of an authenticated client, other than one that opens a channel. Where it is served: if a
  -- method of the handler is called, it is called for the channel whose number the message holds, and
  -- every other channel is as it was; if none is, then again every channel but the one that the message
  -- names, or every channel; and a request for forwarding leaves all channels as they were.
  pub read_step-Frame :
      (b : ℕ) (h : Option H) (buf : Bytes) (s : Session) {step : Step H}
      → (b == Msg.channel_open) ≡ false
      → read_step handler env m b h buf s ≡ ok step
      → Frame buf s step
  read_step-Frame b h buf s {step} other e = (dispatched b h buf s other).at step e
