-- ===== src/ServerLoop/Unchecked.antt =====
-- What src/server/mod.rs does in `run_stream` with a packet whose tag does not verify.
use thrussh_mod.Base.{
  ℕ, ◌+◌, ◌-◌, ◌<◌, ◌≤◌, ◌≡◌, refl, sym, ap, false, Option, some, ◌∷◌, ◌++◌, ◌==◌, ltb, leb, arith,
  length, drop, replicate, length-append, append_assoc, take-append_of_length,
  drop-append_of_length, Bytes,
}
use thrussh_mod.Error.{ok, ◌>>=◌}
use thrussh_mod.SshBuffer.{SshBuffer}
use thrussh_mod.Cipher.{
  OpeningCipher, CipherPair, make_counter, opened, chacha_tag_len, decrypt_packet_length,
  opening_tag_len,
}
use thrussh_mod.Cipher.Framing.{read_exact-append}
use thrussh_mod.Compression.{decompress}
use thrussh_mod.Encrypted.{Encrypted}
use thrussh_mod.Wire.{Wire}
use thrussh_mod.Sodium.{Sodium}
use thrussh_mod.ServerAuth.{Handler, PublicKeys}
use thrussh_mod.ServerSession.Flush.{ServerEnv, Moment}
use thrussh_mod.ServerRead.{Session, ChannelHandler}
use thrussh_mod.ServerReply.{reply}
use thrussh_mod.ServerLoop.Idle.{up}
use thrussh_mod.ServerLoop.{
  packet, left_by_packet, left_by_rest, left_by_read, end_round, serve_text, serve_buffer, round,
}
use thrussh_mod.Msg

-- A packet whose tag does not verify
pub record Forged (w : Wire) (na : Sodium) (pair : CipherPair) (r : SshBuffer) (c4 cr t : Bytes)
    : Type 0 where
  pub k1 : Bytes
  pub k2 : Bytes
  pub len : ℕ
  pub chacha : pair.remote_to_local ≡ OpeningCipher.chacha20_poly1305 k1 k2
  pub length-c4 : length c4 ≡ 4
  pub says : w.read_u32_be (na.chacha20_xor (make_counter w na r.seqn) k1 c4) ≡ some len
  pub length-cr : length cr ≡ len
  pub length-t : length t ≡ chacha_tag_len
  pub bad :
      na.poly1305_verify t
        (c4 ++ cr)
        (na.chacha20_xor (make_counter w na r.seqn) k2 (replicate 32 0))
      ≡ false

module _ (w : Wire) (na : Sodium) where
  -- A tag that does not verify leaves the packet as it came.
  kept :
      (pair : CipherPair) (r : SshBuffer) (c4 cr t : Bytes) (f : Forged w na pair r c4 cr t)
      → left_by_packet w na pair r c4 (cr ++ t) ≡ ok (record r { buffer = c4 ++ (cr ++ t) })
  unfolding left_by_packet opened
  kept pair r c4 cr t f =
      let cut : length (c4 ++ (cr ++ t)) - chacha_tag_len ≡ length (c4 ++ cr) =
        omega (
          arith,
          length-append c4 cr,
          length-append c4 (cr ++ t),
          length-append cr t,
          f.length-t,
        ) in
      rw f.chacha (
        rw (cut, ← append_assoc c4 cr t, left_by_packet)
          (rw
            (
              take-append_of_length (length (c4 ++ cr)) (c4 ++ cr) t refl,
              drop-append_of_length (length (c4 ++ cr)) (c4 ++ cr) t refl,
              left_by_packet,
            )
            (rw (f.bad, opened)
              (ap (λ x. ok (record r { buffer = x })) (sym (append_assoc c4 cr t))))))

  left_by_body :
      (pair : CipherPair) (r : SshBuffer) (c4 cr t rest : Bytes) (room : ℕ)
      → length (cr ++ t) ≡ room
      → Forged w na pair r c4 cr t
      → left_by_rest w na pair r c4 ((cr ++ t) ++ rest) room
        ≡ ok (record r { buffer = c4 ++ (cr ++ t) }, rest)
  unfolding left_by_rest
  left_by_body pair r c4 cr t rest room e f =
      rw (read_exact-append room (cr ++ t) rest e, left_by_rest)
        (rw (kept pair r c4 cr t f, left_by_rest) refl)

  left_by_forged :
      (pair : CipherPair) (r : SshBuffer) (c4 cr t rest : Bytes) (f : Forged w na pair r c4 cr t)
      → left_by_read w na (c4 ++ ((cr ++ t) ++ rest)) r pair
        ≡ ok (record r { buffer = c4 ++ (cr ++ t) }, rest)
  unfolding left_by_read
  left_by_forged pair r c4 cr t rest f =
      let key : decrypt_packet_length w na pair.remote_to_local r.seqn c4
          ≡ na.chacha20_xor (make_counter w na r.seqn) f.k1 c4 =
        rw f.chacha (unfold decrypt_packet_length in refl) in
      let room : length (cr ++ t) ≡ f.len + opening_tag_len pair.remote_to_local =
        omega (arith, length-append cr t, f.length-cr, f.length-t, ap opening_tag_len f.chacha) in
      rw (read_exact-append 4 c4 ((cr ++ t) ++ rest) f.length-c4, left_by_read)
        (rw (key, f.says, left_by_read) (left_by_body pair r c4 cr t rest _ room f))

module _ {H K KP : Type 0} (auth : Handler H K) (public_keys : PublicKeys K)
    (handler : ChannelHandler H) (env : ServerEnv KP) (m : Moment) where
  served :
      (h : Option H) (s : Session) (enc : Encrypted) (b : SshBuffer) (rest : Bytes) (code : ℕ)
      (text : Bytes)
      → 5 ≤ length b.buffer
      → drop 5 b.buffer ≡ code ∷ text
      → 4 < code
      → serve_buffer auth public_keys handler env m h (up s enc) b rest ≡ (
          reply auth public_keys handler env m h (code ∷ text) (up s enc) >>= λ (h', s').
          end_round auth public_keys handler env m h' s' b rest)
  unfolding serve_buffer serve_text decompress
  served h s enc b rest code text long et above =
      let enough : ltb (length b.buffer) 5 ≡ false = ground arith in
      let going : (code == Msg.disconnect) ≡ false = ground arith in
      let message : leb code 4 ≡ false = ground arith in
      rw (enough, serve_buffer) (rw et (rw (going, serve_text) (rw (message, serve_text) refl)))

  -- A server whose session is up reads a packet under chacha20-poly1305 whose tag does not verify, and
  -- which holds, from its sixth byte on, a text that starts with a number above 4. `cipher::read`
  -- refuses the packet, but its result is not looked at: the server takes the bytes of the packet, as
  -- they came, for a message of the client, and answers it.
  pub round-Forged :
      (h : Option H) (s : Session) (enc : Encrypted) (b : SshBuffer) (c4 cr t rest sent : Bytes)
      (code : ℕ) (text : Bytes)
      → Forged env.wire env.sodium s.common.cipher b c4 cr t
      → drop 5 (c4 ++ (cr ++ t)) ≡ code ∷ text
      → 4 < code
      → round auth public_keys handler env m packet (record {
        handler = h;
        session = up s enc;
        buffer = b;
        stream = c4 ++ ((cr ++ t) ++ rest);
        sent = sent;
      })
        ≡ (reply auth public_keys handler env m h (code ∷ text) (up s enc) >>= λ (h', s').
            end_round auth public_keys handler env m h' s'
              (record b { buffer = c4 ++ (cr ++ t) })
              rest)
  unfolding round
  round-Forged h s enc b c4 cr t rest sent code text f et above =
      rw (left_by_forged env.wire env.sodium s.common.cipher b c4 cr t rest f, round)
        (served h s enc (record b { buffer = c4 ++ (cr ++ t) }) rest code text
          (omega (arith, length-append c4 (cr ++ t), length-append cr t, f.length-c4, f.length-t))
          et above)
