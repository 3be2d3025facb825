-- ===== src/Dialogue/Signals.antt =====
-- The signals that a client sends (`signal` of src/client/session.rs), read by the server
-- (src/server/encrypted.rs).
use thrussh_mod.Base.{
  ℕ, suc, ◌^◌, ◌≤◌, ◌<◌, ◌≡◌, ap, subst, ◌∙◌, false, Option, [], ◌∷◌, ◌++◌, arith, length, Bytes,
  codes, equal,
}
use thrussh_mod.Error.{keys_index_out_of_bounds, err}
use thrussh_mod.Wire.{Wire}
use thrussh_mod.Wire.Reading.{At, At-first, reads_string, reads_u32, reads_byte}
use thrussh_mod.Codes.{Sig, name}
use thrussh_mod.ClientSession.{signal, request_message}
use thrussh_mod.ServerSession.Flush.{ServerEnv, Moment}
use thrussh_mod.ServerRead.{Session, ChannelHandler}
use thrussh_mod.ServerRead.Requests.{read_request, read_signal}
use thrussh_mod.ServerRead.Messages.{read_channel_request, read_step, server_read_authenticated}
use thrussh_mod.Msg

module _ (w : Wire) {buf : Bytes} {r : ℕ} where
  -- One byte too far, the length of the name ends in its first letter.
  misread_from :
      (n : ℕ) (text : Bytes)
      → At buf r (0 ∷ 0 ∷ 0 ∷ length text ∷ text)
      → 1 ≤ length text
      → read_signal w buf r n ≡ err keys_index_out_of_bounds
  unfolding read_signal
  misread_from n [] at more = absurd (omega arith)
  misread_from n (c ∷ text) at more =
      let (r1, e1, (pre, e, p)) = reads_byte w 0 (0 ∷ 0 ∷ suc (length text) ∷ c ∷ text) at in
      rw (e1, e, p, w.read_string-short pre 0 0 (suc (length text)) c text (omega arith))

  misread :
      (n : ℕ) (text : Bytes)
      → At buf r (w.ssh_string text)
      → 1 ≤ length text
      → length text < 256
      → read_signal w buf r n ≡ err keys_index_out_of_bounds
  misread n text at more few =
      misread_from n text
        (subst (At buf r)
          (w.ssh_string-u32_be text (omega arith)
            ∙ ap (λ u. u ++ text) (w.u32_be-byte (length text) few))
          at)
        more

module _ {H KP : Type 0} (handler : ChannelHandler H) (config : ServerEnv KP) (m : Moment) where
  -- A signal that the client sends on a channel, with a name of 1 to 255 bytes, such as every signal of
  -- RFC 4254 has. The server never reads it: whatever its state and its handler, the message fails, and
  -- with it the connection. The server takes a byte for the wish of a reply, and then one more, which
  -- is the first byte of the length of the name.
  pub server_read_authenticated-signal :
      (h : Option H) (sig : Sig) (n : ℕ) (s : Session)
      → n < 2 ^ 32
      → 1 ≤ length (name sig)
      → length (name sig) < 256
      → server_read_authenticated handler config m h
          (request_message config.wire (signal sig) false n)
          s
        ≡ err keys_index_out_of_bounds
  unfolding server_read_authenticated read_step read_channel_request read_request equal
  server_read_authenticated-signal h sig n s small more few =
      let w = config.wire in
      let (r1, e1, a1) = reads_u32 w n _ (At-first Msg.channel_request _) small in
      let (r2, e2, a2) = reads_string w (codes "signal") _ a1 (omega arith) in
      let (r3, e3, a3) = reads_byte w 0 (w.ssh_string (name sig)) a2 in
      let e4 = misread w n (name sig) a3 more few in rw (e1, e2, e3, e4)
