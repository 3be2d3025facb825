-- ===== src/Dialogue/Requests.antt =====
-- The requests that a client sends on a channel (src/client/session.rs) and what the handler of the
-- server is asked for them (src/server/encrypted.rs).
use thrussh_mod.Base.{ℕ, ◌^◌, ◌<◌, ◌≡◌, ap, Bool, Option, none, some}
use thrussh_mod.Base.Dict.{lookup, insert}
use thrussh_mod.Error.{ok, ◌>>=◌}
use thrussh_mod.Wire.Reading.{At-first, reads_string, reads_u32, reads_byte}
use thrussh_mod.ClientSession.{Request, request_kind, request_arguments, request_message, flag}
use thrussh_mod.CommonSession.{on_encrypted}
use thrussh_mod.ServerSession.Flush.{ServerEnv, Moment}
use thrussh_mod.ServerRead.{Session, ChannelHandler, calls, in_common, finish}
use thrussh_mod.ServerRead.Messages.{
  note_reply, read_channel_request, read_step, server_read_authenticated,
}
use thrussh_mod.Msg
use thrussh_mod.Dialogue.Arguments.{
  Fits, call_of, flag-not, length-request_kind, read_request-arguments,
}

module _ {H KP : Type 0} (handler : ChannelHandler H) (config : ServerEnv KP) (m : Moment) where
  -- What the message of a request leaves of the session: the channel of this number, if there is one,
  -- has the note whether a reply is wanted.
  abbrev pub noted : ℕ → Bool → Session → Session
  noted n want_reply = in_common (
      on_encrypted λ enc. elim (lookup n enc.channels) [
        | none ↦ enc
        | some c ↦ record enc {
          channels = insert n (record c { wants_reply = want_reply }) enc.channels;
        }
      ])

  reads_request :
      (h : Option H) (q : Request) (want_reply : Bool) (n : ℕ) (s : Session)
      → n < 2 ^ 32
      → Fits q
      → read_channel_request handler config m h (request_message config.wire q want_reply n) s
        ≡ ok (calls h (call_of n q) (noted n want_reply s))
  unfolding read_channel_request note_reply
  reads_request h q want_reply n s small fits =
      let w = config.wire in
      let (r1, e1, a1) = reads_u32 w n _ (At-first Msg.channel_request _) small in
      let (r2, e2, a2) = reads_string w (request_kind q) _ a1 (length-request_kind q) in
      let (r3, e3, a3) = reads_byte w (flag want_reply) (request_arguments w q) a2 in
      let e4 = read_request-arguments w n q a3 fits in rw (e1, e2, e3, e4, flag-not want_reply)

  -- A request that the client sends on a channel which the server numbers `n`, with arguments that a
  -- message can hold, of at most 130 terminal modes: the server notes whether a reply is wanted, and
  -- its handler is asked for just this request, with the arguments that the client gave. Signals are
  -- not among these requests.
  pub server_read_authenticated-request :
      (h : H) (q : Request) (want_reply : Bool) (n : ℕ) (s : Session)
      → n < 2 ^ 32
      → Fits q
      → server_read_authenticated handler config m
          (some h)
          (request_message config.wire q want_reply n)
          s
        ≡ (handler.handle h (call_of n q) (noted n want_reply s) >>= λ r. ok (some r.0, r.1))
  unfolding server_read_authenticated read_step read_channel_request finish
  server_read_authenticated-request h q want_reply n s small fits =
      ap (λ step. step >>= finish config.wire handler)
        (reads_request (some h) q want_reply n s small fits)
