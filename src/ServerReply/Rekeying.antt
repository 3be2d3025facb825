-- ===== src/ServerReply/Rekeying.antt =====
-- What a key exchange in a running session leaves alone.
use thrussh_mod.Base.{ℕ, ◌≡◌, refl, ◌⊎◌, inl, inr, Option, none, some, ◌==◌, Bytes}
use thrussh_mod.Error.{ok}
use thrussh_mod.Error.Ensures.{
  Ensures, Ensures-elim, Ensures-err, Ensures-ok, Ensures-bind, ensures_rules,
}
use thrussh_mod.Encrypted.{Encrypted}
use thrussh_mod.Negotiation.{read_kex, server_select}
use thrussh_mod.Kex.{Exchange, Kex, received_rekey, kex_init, kex_dh, kex_dh_done, new_keys}
use thrussh_mod.CommonSession.{CommonSession, newkeys}
use thrussh_mod.ServerSession.Flush.{ServerEnv, Moment}
use thrussh_mod.ServerReply.{begin_rekey, continue_rekey, accept_rekey, parse_init, parse_exchange}
use thrussh_mod.Msg
use thrussh_mod.ServerSession.Flushing.{SameIn, session_flush-SameIn}

module _ {KP : Type 0} (env : ServerEnv KP) (m : Moment) where
  accept_rekey-SameIn :
      (s : CommonSession) (enc : Encrypted) (buf : Bytes) (exchange : Option Exchange)
      → Ensures (SameIn s enc) (accept_rekey env m s enc buf exchange)
  unfolding accept_rekey
  accept_rekey-SameIn s enc buf none = search ensures_rules
  accept_rekey-SameIn s enc buf (some exchange) =
      Ensures-bind (read_kex env.wire server_select buf env.config.preferred) _ λ algo h.
        Ensures-bind (parse_init env m s (received_rekey exchange algo enc.session_id) buf) _
          λ r k. Ensures-ok _ (refl, (_, refl, (refl, refl, refl, refl)))

  begin_rekey-SameIn :
      (s : CommonSession) (enc : Encrypted) (buf : Bytes) (rekey : Option Kex)
      → Ensures (SameIn s enc) (begin_rekey env m s enc buf rekey)
  unfolding begin_rekey
  begin_rekey-SameIn s enc buf (some (kex_init kexinit)) =
      Ensures-bind (parse_init env m s kexinit buf) _ λ r h.
        session_flush-SameIn env m (record s { write_buffer = r.1 })
          (record enc { rekey = some r.0 })
  begin_rekey-SameIn s enc buf none = accept_rekey-SameIn s enc buf enc.exchange
  begin_rekey-SameIn s enc buf (some (kex_dh d)) = accept_rekey-SameIn s enc buf enc.exchange
  begin_rekey-SameIn s enc buf (some (kex_dh_done d)) = accept_rekey-SameIn s enc buf enc.exchange
  begin_rekey-SameIn s enc buf (some (new_keys n)) = accept_rekey-SameIn s enc buf enc.exchange

  -- What a message to a key exchange under way leaves, if it was one
  abbrev pub SameIfAny : CommonSession → Encrypted → Option CommonSession → Type 0
  SameIfAny s enc none = Unit
  SameIfAny s enc (some s') = SameIn s enc s'

  continue_rekey-SameIn :
      (s : CommonSession) (enc : Encrypted) (buf : Bytes) (b : ℕ) (rekey : Option Kex)
      → Ensures (SameIfAny s enc) (continue_rekey env m s enc buf b rekey)
  unfolding continue_rekey newkeys
  continue_rekey-SameIn s enc buf b none = search (ensures_rules, tt)
  continue_rekey-SameIn s enc buf b (some (kex_init k)) = search (ensures_rules, tt)
  continue_rekey-SameIn s enc buf b (some (kex_dh_done k)) = search (ensures_rules, tt)
  continue_rekey-SameIn s enc buf b (some (kex_dh k)) =
      Ensures-bind (parse_exchange env m s k buf) _
        λ r h. Ensures-ok _ (refl, (_, refl, (refl, refl, refl, refl)))
  continue_rekey-SameIn s enc buf b (some (new_keys n)) =
      Ensures-elim (b == Msg.newkeys) _ _
        (λ e. Ensures-ok _ (refl, (_, refl, (refl, refl, refl, refl)))) λ e. Ensures-err _

  -- A message that is read as a part of a key exchange, in a running session: a KEXINIT, or what a key
  -- exchange that is under way waits for. Whatever it holds, the session keeps the name of the user,
  -- its state, its identifier, its channels and their numbers: keys are exchanged anew without
  -- authenticating anybody, and without a change to the session's identifier.
  pub rekey_keeps :
      (s : CommonSession) (enc : Encrypted) (buf : Bytes) (b : ℕ) (s' : CommonSession)
      → (begin_rekey env m s enc buf enc.rekey ≡ ok s')
        ⊎ (continue_rekey env m s enc buf b enc.rekey ≡ ok (some s'))
      → SameIn s enc s'
  rekey_keeps s enc buf b s' (inl e) = (begin_rekey-SameIn s enc buf enc.rekey).at s' e
  rekey_keeps s enc buf b s' (inr e) = (continue_rekey-SameIn s enc buf b enc.rekey).at (some s') e
