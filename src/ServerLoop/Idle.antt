-- ===== src/ServerLoop/Idle.antt =====
-- What src/server/mod.rs does in `run_stream` with the end of the socket behind a message that it
-- passes over.
use thrussh_mod.Base.{
  ℕ, zero, suc, ◌≤◌, ◌≡◌, refl, false, Option, some, [], ◌∷◌, ◌==◌, ltb, le→leb, arith, length,
  drop, replicate, Bytes,
}
use thrussh_mod.Error.{ok}
use thrussh_mod.SshBuffer.{SshBuffer}
use thrussh_mod.Cipher.{read_exact}
use thrussh_mod.Compression.{Decompress, decompress}
use thrussh_mod.Encrypted.{Encrypted}
use thrussh_mod.ServerAuth.{Handler, PublicKeys}
use thrussh_mod.ServerSession.Flush.{ServerEnv, Moment}
use thrussh_mod.ServerRead.{Session, ChannelHandler}
use thrussh_mod.ServerLoop.{
  Running, packet, goes_on, left_by_read, serve_text, serve_buffer, round, rounds,
}
use thrussh_mod.Msg

-- A connection that is up, encrypted and not compressed
abbrev pub up : Session → Encrypted → Session
up s enc = record s {
  common = record s.common {
    encrypted = some (record enc { decompress = Decompress.none });
    disconnected = false;
  };
}

-- The loop at the end of the socket, with a packet in its buffer
abbrev pub at_end : {H : Type 0} → Option H → Session → SshBuffer → Running H
at_end h s b = record { handler = h; session = s; buffer = b; stream = []; sent = [] }

module _ {H K KP : Type 0} (auth : Handler H K) (public_keys : PublicKeys K)
    (handler : ChannelHandler H) (env : ServerEnv KP) (m : Moment) where
  passed_over :
      (h : Option H) (s : Session) (b : SshBuffer) (code : ℕ) (text : Bytes)
      → 2 ≤ code
      → code ≤ 4
      → serve_text auth public_keys handler env m h s b [] (code ∷ text)
        ≡ ok (goes_on (at_end h s b))
  unfolding serve_text
  passed_over h s b code text low high =
      let other : (code == Msg.disconnect) ≡ false = ground arith in
      rw (other, serve_text) (rw (le→leb code 4 high, serve_text) refl)

  spins_once :
      (h : Option H) (s : Session) (enc : Encrypted) (b : SshBuffer) (code : ℕ) (text : Bytes)
      → 5 ≤ length b.buffer
      → drop 5 b.buffer ≡ code ∷ text
      → 2 ≤ code
      → code ≤ 4
      → round auth public_keys handler env m packet (at_end h (up s enc) b)
        ≡ ok (goes_on (at_end h (up s enc) b))
  unfolding round left_by_read read_exact serve_buffer decompress
  spins_once h s enc b code text long e low high =
      let enough : ltb (length b.buffer) 5 ≡ false = ground arith in
      rw (enough, serve_buffer) (rw e (passed_over h (up s enc) b code text low high))

  -- The socket has ended, and the buffer still holds a message that is passed over, one of number 2 to 4,
  -- as it does when such a message came last: `cipher::read` fails before it clears the buffer, the
  -- failure is not looked at, and the message is passed over again. However many rounds find the socket
  -- ready, with no message of a handle and no timeout between them, the loop is then where it was: a
  -- round of reading never ends it.
  pub rounds-at_end :
      (n : ℕ) (h : Option H) (s : Session) (enc : Encrypted) (b : SshBuffer) (code : ℕ)
      (text : Bytes)
      → 5 ≤ length b.buffer
      → drop 5 b.buffer ≡ code ∷ text
      → 2 ≤ code
      → code ≤ 4
      → rounds auth public_keys handler env m (replicate n packet) (at_end h (up s enc) b)
        ≡ ok (goes_on (at_end h (up s enc) b))
  unfolding rounds
  rounds-at_end zero h s enc b code text long e low high = refl
  rounds-at_end (suc n) h s enc b code text long e low high =
      rw (spins_once h s enc b code text long e low high)
        (rounds-at_end n h s enc b code text long e low high)
