-- ===== src/ServerReply/Again.antt =====
-- What follows a further key exchange of the server, src/server/encrypted.rs and `Session::flush` of
-- src/server/session.rs.
use thrussh_mod.Base.{
  ◌≤◌, ◌≡◌, refl, sym, ap, subst, ◌∙◌, false, none, some, [], arith, ltb, le→leb, Bytes,
}
use thrussh_mod.Error.{ok}
use thrussh_mod.Error.Ensures.{Ensures, Ensures-ok, Ensures-bind}
use thrussh_mod.SshBuffer.{SshBuffer}
use thrussh_mod.Encrypted.{Encrypted}
use thrussh_mod.Encrypted.Flush.{flush, flush_loop, finish_flush}
use thrussh_mod.Kex.{KexInit, NewKeys, Exchange, kex_init, new_keys, initiate_rekey}
use thrussh_mod.Kex.Server.{server_write}
use thrussh_mod.CommonSession.{CommonSession, newkeys}
use thrussh_mod.ServerSession.Flush.{ServerEnv, Moment, begin_exchange, flushed, session_flush}
use thrussh_mod.ServerReply.{continue_rekey}
use thrussh_mod.Msg

-- A key exchange that this side has begun is under way.
abbrev pub Begun : CommonSession → Type 0
Begun s =
    (enc : Encrypted) × (kexinit : KexInit) × (s.encrypted ≡ some enc)
    × (enc.rekey ≡ some (kex_init kexinit))

module _ {KP : Type 0} (env : ServerEnv KP) (m : Moment) where
  -- With nothing to send, and more bytes written than the limit, a flush begins a key exchange.
  flush-Begun :
      (s : CommonSession) (enc : Encrypted) (exchange : Exchange)
      → env.config.limits.rekey_write_limit ≤ s.write_buffer.bytes
      → Ensures Begun (
          session_flush env m (record s {
            encrypted = some (record enc { write = []; rekey = none; exchange = some exchange });
          }))
  unfolding session_flush flush flush_loop finish_flush flushed begin_exchange
  flush-Begun s enc exchange over =
      let none_left : ltb enc.write_cursor 0 ≡ false = ground arith in
      let again = le→leb env.config.limits.rekey_write_limit s.write_buffer.bytes over in
      rw (none_left, again)
        (Ensures-bind
          (server_write env.host env.wire env.sodium env.primitives env.config env.keys s.cipher
            (initiate_rekey exchange enc.session_id) m.cookie s.write_buffer)
          _ λ (r : KexInit × SshBuffer) e. Ensures-ok _ (_, r.0, refl, refl))

-- A server that has nothing to send and has written as many bytes as its limit allows under one key, or
-- more, reads the NEWKEYS that ends a key exchange. The count of the bytes goes on, so that the next
-- flush, at whatever time, begins yet another key exchange, where it succeeds: the limit, once
-- reached, is reached for good.
pub continue_rekey-again :
    {KP : Type 0} (env : ServerEnv KP) (m later : Moment) (s : CommonSession) (enc : Encrypted)
    (buf : Bytes) (n : NewKeys) (s' s'' : CommonSession)
    → enc.write ≡ []
    → env.config.limits.rekey_write_limit ≤ s.write_buffer.bytes
    → continue_rekey env m s enc buf Msg.newkeys (some (new_keys n)) ≡ ok (some s')
    → session_flush env later s' ≡ ok s''
    → Begun s''
unfolding continue_rekey newkeys
continue_rekey-again env m later s enc buf n s' s'' empty over read flush_ok =
    let keyed : Encrypted = record enc { kex = n.kex; key = n.key; mac = n.names.mac } in
    let with_write : Bytes → CommonSession = λ write. record s {
      encrypted = some (record keyed { write = write; rekey = none; exchange = some n.exchange });
      cipher = n.cipher;
    } in
    let same : with_write enc.write ≡ s' = cc in
    (subst (λ write. Ensures Begun (session_flush env later (with_write write))) (sym empty)
        (flush-Begun env later (record s { cipher = n.cipher }) keyed n.exchange over)).at
      s'' (ap (session_flush env later) same ∙ flush_ok)
