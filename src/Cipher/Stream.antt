-- ===== src/Cipher/Stream.antt =====
-- A run of packets: what one side writes in turn, the other side reads in turn.
use thrussh_mod.Base.{
  ℕ, zero, suc, ◌+◌, ◌%◌, ◌^◌, ◌≡◌, refl, sym, ap, subst, ◌∙◌, List, [], ◌∷◌, ◌++◌, append-nil,
  append_assoc, arith, length, drop, drop-append_of_length, Bytes,
}
use thrussh_mod.Error.{Result, ok, ◌>>=◌, >>=-eq-ok}
use thrussh_mod.Wire.{Wire}
use thrussh_mod.Sodium.{Sodium}
use thrussh_mod.SshBuffer.{SshBuffer}
use thrussh_mod.Cipher.{CipherPair, write, read}
use thrussh_mod.Cipher.Seal.{matching}
use thrussh_mod.Cipher.Framing.{sealed, write-eq-ok, read-sealed}

module _ (w : Wire) (na : Sodium) where
  -- Write one packet after another.
  unfoldable pub write_all : CipherPair → List Bytes → SshBuffer → Result SshBuffer
  write_all pair [] b = ok b
  write_all pair (p ∷ ps) b = do b' ← write w na pair p b; write_all pair ps b'

  -- Read `n` packets: their payloads, the last buffer and the stream left.
  unfoldable pub read_all :
      CipherPair → ℕ → Bytes → SshBuffer → Result (List Bytes × SshBuffer × Bytes)
  read_all pair zero stream r = ok ([], r, stream)
  read_all pair (suc n) stream r = do
    ((r', len), rest) ← read w na stream r pair
    (ps, r'', left) ← read_all pair n rest r'
    ok (drop 5 r'.buffer ∷ ps, r'', left)

  -- The bytes of the packets, from a sequence number on.
  abbrev wire : CipherPair → ℕ → List Bytes → Bytes
  wire pair seqn [] = []
  wire pair seqn (p ∷ ps) =
      sealed w na pair.local_to_remote seqn p ++ wire pair ((seqn + 1) % 2 ^ 32) ps

  wire_step :
      (pair : CipherPair) (p : Bytes) (ps : List Bytes) (b b1 : SshBuffer)
      → b1 ≡ record b {
        buffer = b.buffer ++ sealed w na pair.local_to_remote b.seqn p;
        bytes = (b.bytes + length p) % 2 ^ 64;
        seqn = (b.seqn + 1) % 2 ^ 32;
      }
      → b1.buffer ++ wire pair b1.seqn ps ≡ b.buffer ++ wire pair b.seqn (p ∷ ps)
  wire_step pair p ps b b1 made = rw made (append_assoc b.buffer _ _)

  write_all-wire :
      (pair : CipherPair) (ps : List Bytes) (b : SshBuffer) {b' : SshBuffer}
      → write_all pair ps b ≡ ok b'
      → b'.buffer ≡ b.buffer ++ wire pair b.seqn ps
  unfolding write_all
  write_all-wire pair [] b h = ground (arith, append-nil b.buffer)
  write_all-wire pair (p ∷ ps) b h =
      let (b1, e, later) = >>=-eq-ok (write w na pair p b) (λ b1. write_all pair ps b1) h in
      let (fits, made) = write-eq-ok w na pair p b e in
      write_all-wire pair ps b1 later ∙ wire_step pair p ps b b1 made

  read_step :
      (back : CipherPair) (n : ℕ) (stream rest left : Bytes) (r r' r'' : SshBuffer) (len : ℕ)
      (p : Bytes) (ps : List Bytes)
      → read w na stream r back ≡ ok ((r', len), rest)
      → drop 5 r'.buffer ≡ p
      → read_all back n rest r' ≡ ok (ps, r'', left)
      → read_all back (suc n) stream r ≡ ok (p ∷ ps, r'', left)
  unfolding read_all
  read_step back n stream rest left r r' r'' len p ps e c more = rw (e, read_all) (rw (more, c))

  read_front :
      (pair back : CipherPair) (p : Bytes) (ps : List Bytes) (rest : Bytes) (q next : ℕ)
      (r r' r'' : SshBuffer) (len : ℕ)
      → r.seqn ≡ q
      → next ≡ (q + 1) % 2 ^ 32
      → read w na
          (sealed w na pair.local_to_remote r.seqn p ++ (wire pair ((q + 1) % 2 ^ 32) ps ++ rest))
          r
          back
        ≡ ok ((r', len), wire pair ((q + 1) % 2 ^ 32) ps ++ rest)
      → drop 5 r'.buffer ≡ p
      → read_all back (length ps) (wire pair next ps ++ rest) r' ≡ ok (ps, r'', rest)
      → read_all back (suc (length ps)) (wire pair q (p ∷ ps) ++ rest) r ≡ ok (p ∷ ps, r'', rest)
  read_front pair back p ps rest q next r r' r'' len sync step got content more =
      rw
        (append_assoc (sealed w na pair.local_to_remote q p) (wire pair ((q + 1) % 2 ^ 32) ps) rest)
        (read_step back (length ps) _ (wire pair ((q + 1) % 2 ^ 32) ps ++ rest) rest r r' r'' len p
          ps
          (subst
            (λ n.
              read w na
                (sealed w na pair.local_to_remote n p ++ (wire pair ((q + 1) % 2 ^ 32) ps ++ rest))
                r back
              ≡ ok ((r', len), wire pair ((q + 1) % 2 ^ 32) ps ++ rest))
            sync got)
          content
          (subst (λ n. read_all back (length ps) (wire pair n ps ++ rest) r' ≡ ok (ps, r'', rest))
            step more))

  read_all-wire :
      (pair back : CipherPair) (ps : List Bytes) (b r : SshBuffer) (rest : Bytes) {b' : SshBuffer}
      → back.remote_to_local ≡ matching pair.local_to_remote
      → r.seqn ≡ b.seqn
      → write_all pair ps b ≡ ok b'
      → (r' : SshBuffer) × (read_all back (length ps) (wire pair b.seqn ps ++ rest) r
          ≡ ok (ps, r', rest))
        × (r'.seqn ≡ b'.seqn)
  unfolding write_all
  read_all-wire pair back [] b r rest e sync h = (r, unfold read_all in refl, ground arith)
  read_all-wire pair back (p ∷ ps) b r rest e sync h =
      let (b1, done, later) = >>=-eq-ok (write w na pair p b) (λ b1. write_all pair ps b1) h in
      let (fits, made) = write-eq-ok w na pair p b done in
      let (r', got, content, count) =
        read-sealed w na pair.local_to_remote back r p
          (wire pair ((b.seqn + 1) % 2 ^ 32) ps ++ rest) e fits in
      let sync1 : r'.seqn ≡ b1.seqn =
        count ∙ rw (sync) (sym (ap (λ (x : SshBuffer). x.seqn) made)) in
      let (r'', more, count') = read_all-wire pair back ps b1 r' rest e sync1 later in
      (
        r'',
        read_front pair back p ps rest b.seqn b1.seqn r r' r'' _ sync
            (ap (λ (x : SshBuffer). x.seqn) made) got content more,
        count',
      )

  -- Packets that one side writes in turn, the other side reads in turn: with the matching key and the
  -- same sequence number it gets the payloads in their order, no byte behind the last packet is
  -- consumed, and the sequence numbers are equal at the end.
  pub read_all-write_all :
      (pair back : CipherPair) (ps : List Bytes) (b r : SshBuffer) (rest : Bytes) {b' : SshBuffer}
      → back.remote_to_local ≡ matching pair.local_to_remote
      → r.seqn ≡ b.seqn
      → write_all pair ps b ≡ ok b'
      → (r' : SshBuffer) × (read_all back (length ps) (drop (length b.buffer) b'.buffer ++ rest) r
          ≡ ok (ps, r', rest))
        × (r'.seqn ≡ b'.seqn)
  read_all-write_all pair back ps b r rest {b'} e sync h =
      let (r', got, count) = read_all-wire pair back ps b r rest e sync h in
      (
        r',
        rw
            (
              write_all-wire pair ps b h,
              drop-append_of_length (length b.buffer) b.buffer (wire pair b.seqn ps) refl,
            )
            got,
        count,
      )
