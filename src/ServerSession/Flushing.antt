-- ===== src/ServerSession/Flushing.antt =====
-- What `Session::flush` leaves alone.
use thrussh_mod.Base.{◌≡◌, ◌∙◌, Bool, true, false, Option, none, some}
use thrussh_mod.Error.{ok}
use thrussh_mod.Error.Ensures.{Ensures, Ensures-bind, Ensures-weaken, ensures_rules}
use thrussh_mod.SshBuffer.{SshBuffer}
use thrussh_mod.Encrypted.{Encrypted}
use thrussh_mod.Encrypted.Flush.{flush, finish_flush}
use thrussh_mod.Kex.{Exchange, Kex}
use thrussh_mod.CommonSession.{CommonSession}
use thrussh_mod.ServerSession.Flush.{ServerEnv, Moment, session_flush, flushed, begin_exchange}

-- The session has the state, the identifier and the channels that it had.
abbrev pub Same : Encrypted → Encrypted → Type 0
Same enc enc' =
    (enc'.state ≡ enc.state)
    × (enc'.session_id ≡ enc.session_id)
    × (enc'.channels ≡ enc.channels)
    × (enc'.last_channel_id ≡ enc.last_channel_id)

abbrev pub SameIn : CommonSession → Encrypted → CommonSession → Type 0
SameIn s enc s' =
    (s'.auth_user ≡ s.auth_user) × ((enc' : Encrypted) × (s'.encrypted ≡ some enc') × Same enc enc')

module _ {KP : Type 0} (env : ServerEnv KP) (m : Moment) where
  begin_exchange-SameIn :
      (s : CommonSession) (enc : Encrypted) (out : SshBuffer) (exchange : Option Exchange)
      → Ensures (SameIn s enc) (begin_exchange env m s enc out exchange)
  unfolding begin_exchange
  begin_exchange-SameIn s enc out none = search ensures_rules
  begin_exchange-SameIn s enc out (some exchange) = search ensures_rules

  flushed-SameIn :
      (s : CommonSession) (enc : Encrypted) (out : SshBuffer) (again : Bool)
      → Ensures (SameIn s enc) (flushed env m s enc out again)
  unfolding flushed
  flushed-SameIn s enc out false = search ensures_rules
  flushed-SameIn s enc out true =
      rekey_case enc.rekey (begin_exchange-SameIn s enc out enc.exchange)
    where
      rekey_case :
          (rekey : Option Kex)
          → Ensures (SameIn s enc) (begin_exchange env m s enc out enc.exchange)
          → Ensures (SameIn s enc) (elim rekey [
            | none ↦ begin_exchange env m s enc out enc.exchange
            | some rekey ↦ ok (record s { encrypted = some enc; write_buffer = out })
          ])
      rekey_case none h = h
      rekey_case (some rekey) h = search ensures_rules

  flush-Same :
      (s : CommonSession) (enc : Encrypted)
      → Ensures
          (λ r. Same enc r.0)
          (flush env.wire env.sodium env.flate s.cipher m.rounds enc env.config.limits
            s.write_buffer m.now)
  unfolding flush finish_flush
  flush-Same s enc = search ensures_rules

  SameIn-trans :
      (s s' : CommonSession) (enc enc' : Encrypted)
      → Same enc enc'
      → SameIn s enc' s'
      → SameIn s enc s'
  SameIn-trans s s' enc enc' (h0, h1, h2, h3) (user, (last, e, (k0, k1, k2, k3))) =
      (user, (last, e, (k0 ∙ h0, k1 ∙ h1, k2 ∙ h2, k3 ∙ h3)))

  pub session_flush-SameIn :
      (s : CommonSession) (enc : Encrypted)
      → Ensures (SameIn s enc) (session_flush env m (record s { encrypted = some enc }))
  unfolding session_flush
  session_flush-SameIn s enc =
      Ensures-bind
        (flush env.wire env.sodium env.flate s.cipher m.rounds enc env.config.limits s.write_buffer
          m.now)
        _
        λ (enc', out, again) h.
          Ensures-weaken _ (flushed-SameIn (record s { encrypted = some enc }) enc' out again)
            λ s' same. SameIn-trans s s' enc enc' ((flush-Same s enc).at _ h) same
