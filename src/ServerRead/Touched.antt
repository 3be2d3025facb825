-- ===== src/ServerRead/Touched.antt =====
-- What an operation on one channel leaves of the others.
use thrussh_mod.Base.{ℕ, ◌≡◌, refl, ap, ◌∙◌, Bool, false, Option, none, some, ◌==◌, arith, Bytes}
use thrussh_mod.Base.Dict.{lookup, insert, remove, lookup-insert, lookup-remove}
use thrussh_mod.Error.Ensures.{
  Ensures, Ensures-err, Ensures-ok, Ensures-bind, Ensures-weaken, Ensures-option,
}
use thrussh_mod.Wire.{Wire, push_packet}
use thrussh_mod.Channel.{Channel}
use thrussh_mod.Encrypted.{Encrypted, adjust_window_size}
use thrussh_mod.CommonSession.{CommonSession, on_encrypted}
use thrussh_mod.ServerSession.Flush.{ServerEnv, Moment, session_flush}
use thrussh_mod.ServerRead.{Session, ChannelHandler}
use thrussh_mod.ServerRead.Messages.{take_window, receive, widen, widened, note_reply}
use thrussh_mod.ServerSession.Flushing.{session_flush-SameIn}

-- The channel of a number, in a session that may not be encrypted
abbrev pub channel_in : Option Encrypted → ℕ → Option Channel
channel_in none j = none
channel_in (some enc) j = lookup j enc.channels

-- All channels but that of number `n` are what they were.
abbrev pub OnlyAt : ℕ → CommonSession → CommonSession → Type 0
OnlyAt n s s' = (j : ℕ) → (n == j) ≡ false → channel_in s'.encrypted j ≡ channel_in s.encrypted j

abbrev pub SameChannels : CommonSession → CommonSession → Type 0
SameChannels s s' = (j : ℕ) → channel_in s'.encrypted j ≡ channel_in s.encrypted j

pub changed-OnlyAt :
    (n : ℕ) (f : Encrypted → Encrypted) (s : CommonSession) (encrypted : Option Encrypted)
    → ((enc : Encrypted) (j : ℕ)
        → (n == j) ≡ false
        → lookup j (f enc).channels ≡ lookup j enc.channels)
    → OnlyAt n
        (record s { encrypted = encrypted })
        (on_encrypted f (record s { encrypted = encrypted }))
changed-OnlyAt n f s none h j ne = refl
changed-OnlyAt n f s (some enc) h j ne = h enc j ne

pub remove-other :
    (n j : ℕ) (enc : Encrypted)
    → (n == j) ≡ false
    → lookup j (remove n enc.channels) ≡ lookup j enc.channels
remove-other n j enc ne = lookup-remove n j enc.channels ∙ rw ne

pub insert-other :
    (n j : ℕ) (c : Channel) (enc : Encrypted)
    → (n == j) ≡ false
    → lookup j (insert n c enc.channels) ≡ lookup j enc.channels
insert-other n j c enc ne = lookup-insert n j c enc.channels ∙ rw ne

pub adjust_window_size-other :
    (w : Wire) (enc : Encrypted) (n : ℕ) (content : Bytes) (target j : ℕ)
    → (n == j) ≡ false
    → lookup j (adjust_window_size w enc n content target).0.channels ≡ lookup j enc.channels
unfolding adjust_window_size
adjust_window_size-other w enc n content target j ne = grind (arith, lookup-insert)

module _ {H KP : Type 0} (handler : ChannelHandler H) (env : ServerEnv KP) (m : Moment) where
  pub receive-channel :
      (h : H) (n : ℕ) (content : Bytes) (s : Session) (o : Option Encrypted) (j : ℕ)
      → (n == j) ≡ false
      → channel_in
          (receive handler env m h n content
            (record s { common = record s.common { encrypted = o } })).1.common.encrypted
          j
        ≡ channel_in o j
  unfolding receive take_window
  receive-channel h n content s none j ne = refl
  receive-channel h n content s (some enc) j ne =
      ground (arith, adjust_window_size-other env.wire enc n content s.target_window_size j ne)

  pub flushed-OnlyAt :
      (n : ℕ) (s s' : CommonSession) (o : Option Encrypted)
      → OnlyAt n s (record s' { encrypted = o })
      → Ensures (OnlyAt n s) (session_flush env m (record s' { encrypted = o }))
  unfolding session_flush
  flushed-OnlyAt n s s' none only = Ensures-ok _ only
  flushed-OnlyAt n s s' (some enc) only =
      Ensures-weaken _ (session_flush-SameIn env m s' enc) λ s'' (user, (enc', e, same)) j ne.
        ap (λ o. channel_in o j) e ∙ (ap (lookup j) same.2 ∙ only j ne)

  widen-other :
      (enc : Encrypted) (n amount : ℕ)
      → Ensures
          (λ r. (j : ℕ) → (n == j) ≡ false → lookup j r.0.channels ≡ lookup j enc.channels)
          (widen handler env m enc n amount)
  unfolding widen
  widen-other enc n amount =
      Ensures-option (lookup n enc.channels) _ _ (λ e. Ensures-err _)
        λ c e. Ensures-ok _ λ j ne. insert-other n j _ enc ne

  pub widened-OnlyAt :
      (s : Session) (n amount : ℕ) (o : Option Encrypted)
      → Ensures
          (λ r. OnlyAt n (record s.common { encrypted = o }) r.0.common)
          (widened handler env m (record s { common = record s.common { encrypted = o } }) n amount)
  unfolding widened
  widened-OnlyAt s n amount none = Ensures-ok _ λ j ne. refl
  widened-OnlyAt s n amount (some enc) =
      Ensures-bind (widen handler env m enc n amount) _
        λ r e. Ensures-ok _ ((widen-other enc n amount).at r e)

  note_reply-other :
      (n j : ℕ) (wants_reply : Bool) (enc : Encrypted)
      → (n == j) ≡ false
      → lookup j (note_reply handler env m n wants_reply enc).channels ≡ lookup j enc.channels
  unfolding note_reply
  note_reply-other n j wants_reply enc ne = grind (arith, lookup-insert)

  pub pushed-channel :
      (body : Bytes) (s : CommonSession) (o : Option Encrypted) (j : ℕ)
      → channel_in
          (on_encrypted
            (λ enc. record enc { write = push_packet env.wire enc.write body })
            (record s { encrypted = o })).encrypted
          j
        ≡ channel_in o j
  pushed-channel body s none j = refl
  pushed-channel body s (some enc) j = refl

  pub noted-OnlyAt :
      (n : ℕ) (wants_reply : Bool) (s : CommonSession) (o : Option Encrypted)
      → OnlyAt n
          (record s { encrypted = o })
          (on_encrypted (note_reply handler env m n wants_reply) (record s { encrypted = o }))
  noted-OnlyAt n wants_reply s o =
      changed-OnlyAt n _ s o (λ enc j ne. note_reply-other n j wants_reply enc ne)
