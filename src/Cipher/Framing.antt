-- ===== src/Cipher/Framing.antt =====
-- `CipherPair::write` and `cipher::read`: a packet that one side writes, the other side reads.
use thrussh_mod.Base.{
  ℕ, zero, suc, ◌+◌, ◌-◌, ◌%◌, ◌^◌, ◌≤◌, ◌<◌, ◌≡◌, refl, sym, ap, ◌∙◌, Bytes, [], ◌∷◌, ◌++◌, some,
  length, take, drop, replicate, arith, append-nil, append_assoc, length-append, length-take,
  length-drop, take-append-drop, take-append_of_length, drop-append_of_length,
}
use thrussh_mod.Error.{ok, ◌>>=◌}
use thrussh_mod.Wire.{Wire}
use thrussh_mod.Sodium.{Sodium}
use thrussh_mod.SshBuffer.{SshBuffer}
use thrussh_mod.Cipher.{
  SealingCipher, CipherPair, opening_tag_len, padding_length, fill_padding, read_exact, seal,
  decrypt_packet_length, opened, write, read, finish_read, padding_length_len,
}
use thrussh_mod.Cipher.Seal.{matching, matching_tag_len, length-seal, decrypt-seal, opened-seal}

pub read_exact-append :
    (n : ℕ) (xs ys : Bytes) → length xs ≡ n → read_exact n (xs ++ ys) ≡ ok (xs, ys)
unfolding read_exact
read_exact-append n xs ys h =
    rw (take-append_of_length n xs ys h, drop-append_of_length n xs ys h)
      (ground (arith, length-append xs ys))

length-fill_padding : (n : ℕ) → length (fill_padding (replicate n 0)) ≡ n
unfolding fill_padding
length-fill_padding zero = refl
length-fill_padding (suc n) = ap suc (length-fill_padding n)

regroup : (a b c d : Bytes) → a ++ ((b ++ c) ++ d) ≡ ((a ++ b) ++ c) ++ d
regroup a b c d = simp append_assoc

module _ (w : Wire) (na : Sodium) where
  -- What `write` seals for a payload.
  abbrev pub plaintext : SealingCipher → Bytes → Bytes
  plaintext key payload =
      w.u32_be (padding_length_len + length payload + padding_length key payload)
      ++ (padding_length key payload
          ∷ (payload ++ fill_padding (replicate (padding_length key payload) 0)))

  -- The bytes of the packet.
  abbrev pub sealed : SealingCipher → ℕ → Bytes → Bytes
  sealed key seqn payload =
      (seal w na key seqn (plaintext key payload)).0
      ++ (seal w na key seqn (plaintext key payload)).1

  pub write-eq-ok :
      (pair : CipherPair) (payload : Bytes) (b : SshBuffer) {b' : SshBuffer}
      → write w na pair payload b ≡ ok b'
      → (padding_length_len + length payload + padding_length pair.local_to_remote payload < 2 ^ 32)
        × (b' ≡ record b {
          buffer = b.buffer ++ sealed pair.local_to_remote b.seqn payload;
          bytes = (b.bytes + length payload) % 2 ^ 64;
          seqn = (b.seqn + 1) % 2 ^ 32;
        })
  unfolding write
  write-eq-ok pair payload b h = ground arith

  -- `read` on a packet that is all there: it cuts the stream in four, and leaves the rest.
  pub read_split :
      (pair : CipherPair) (r : SshBuffer) (c4 cr t rest : Bytes) (len : ℕ)
      → length c4 ≡ 4
      → w.read_u32_be (decrypt_packet_length w na pair.remote_to_local r.seqn c4) ≡ some len
      → length cr ≡ len
      → length t ≡ opening_tag_len pair.remote_to_local
      → read w na (c4 ++ ((cr ++ t) ++ rest)) r pair ≡ (
          opened w na pair.remote_to_local r.seqn (c4 ++ cr) t >>= λ plaintext.
          finish_read w na r c4 t plaintext >>= λ done. ok (done, rest))
  unfolding read
  read_split pair r c4 cr t rest len h4 hl hr ht =
      let body_len : length (cr ++ t) ≡ len + opening_tag_len pair.remote_to_local =
        omega (arith, length-append cr t) in
      let cut : length (c4 ++ (cr ++ t)) - opening_tag_len pair.remote_to_local
          ≡ length (c4 ++ cr) =
        omega (arith, length-append c4 cr, length-append c4 (cr ++ t), length-append cr t) in
      rw (read_exact-append 4 c4 ((cr ++ t) ++ rest) h4, read)
        (rw (hl, read)
          (rw (read_exact-append _ (cr ++ t) rest body_len, read)
            (rw (cut, ← append_assoc c4 cr t, read)
              (rw (
                take-append_of_length (length (c4 ++ cr)) (c4 ++ cr) t refl,
                drop-append_of_length (length (c4 ++ cr)) (c4 ++ cr) t refl,
              )))))

  read_parts :
      (pair : CipherPair) (r : SshBuffer) (c4 cr t rest body : Bytes) (pad len : ℕ)
      → length c4 ≡ 4
      → w.read_u32_be (decrypt_packet_length w na pair.remote_to_local r.seqn c4) ≡ some len
      → length cr ≡ len
      → length t ≡ opening_tag_len pair.remote_to_local
      → opened w na pair.remote_to_local r.seqn (c4 ++ cr) t ≡ ok (pad ∷ body)
      → pad ≤ suc (length body)
      → read w na (c4 ++ ((cr ++ t) ++ rest)) r pair
        ≡ ok (
          (
            record r {
              buffer = take (suc (length body) - pad + 4) (c4 ++ ((pad ∷ body) ++ t));
              len = 0;
              seqn = (r.seqn + 1) % 2 ^ 32;
            },
            suc (length body) - pad + 4,
          ),
          rest,
        )
  unfolding finish_read
  read_parts pair r c4 cr t rest body pad len h4 hl hr ht ho hp =
      rw (read_split pair r c4 cr t rest len h4 hl hr ht, ho) (ground arith)

  payload_lem :
      (c4 p z t : Bytes) (pad : ℕ)
      → length c4 ≡ 4
      → length z ≡ pad
      → drop 5 (take (suc (length (p ++ z)) - pad + 4) (c4 ++ ((pad ∷ (p ++ z)) ++ t))) ≡ p
  payload_lem c4 p z t pad h4 hz =
      let front : c4 ++ ((pad ∷ (p ++ z)) ++ t) ≡ ((c4 ++ pad ∷ []) ++ p) ++ (z ++ t) =
        simp append_assoc in
      let count : length ((c4 ++ pad ∷ []) ++ p) ≡ suc (length (p ++ z)) - pad + 4 =
        omega (
          arith,
          length-append (c4 ++ pad ∷ []) p,
          length-append c4 (pad ∷ []),
          length-append p z,
        ) in
      rw (front, take-append_of_length _ ((c4 ++ pad ∷ []) ++ p) (z ++ t) count)
        (drop-append_of_length 5 (c4 ++ pad ∷ []) p (omega (arith, length-append c4 (pad ∷ []))))

  -- One packet of the wire, read by the side that has the matching key and the same sequence
  -- number.
  pub read-sealed :
      (key : SealingCipher) (back : CipherPair) (r : SshBuffer) (payload rest : Bytes)
      → back.remote_to_local ≡ matching key
      → padding_length_len + length payload + padding_length key payload < 2 ^ 32
      → (r' : SshBuffer) × (read w na (sealed key r.seqn payload ++ rest) r back
          ≡ ok ((r', length payload + 5), rest))
        × (drop 5 r'.buffer ≡ payload)
        × (r'.seqn ≡ (r.seqn + 1) % 2 ^ 32)
  read-sealed key back r payload rest e h =
      (got, rw (← whole, parts, count), payload_lem c4 payload zeros t pad four zeros_len, refl)
    where
      pad : ℕ
      pad = padding_length key payload

      zeros : Bytes
      zeros = fill_padding (replicate pad 0)

      body : Bytes
      body = payload ++ zeros

      m : Bytes
      m = plaintext key payload

      c4 : Bytes
      c4 = take 4 (seal w na key r.seqn m).0

      cr : Bytes
      cr = drop 4 (seal w na key r.seqn m).0

      t : Bytes
      t = (seal w na key r.seqn m).1

      zeros_len : length zeros ≡ pad
      zeros_len = length-fill_padding pad

      body_len : suc (length body) ≡ padding_length_len + length payload + pad
      body_len = omega (arith, length-append payload zeros, zeros_len)

      len : ℕ
      len = padding_length_len + length payload + pad

      m_len : length m ≡ 4 + len
      m_len =
          omega (arith, w.length-u32_be len, length-append (w.u32_be len) (pad ∷ body), body_len)

      four : length c4 ≡ 4
      four = omega (
        arith,
        length-take 4 (seal w na key r.seqn m).0,
        (length-seal w na key r.seqn m).0,
        m_len,
      )

      rest_len : length cr ≡ len
      rest_len = omega (
        arith,
        length-drop 4 (seal w na key r.seqn m).0,
        (length-seal w na key r.seqn m).0,
        m_len,
      )

      whole : c4 ++ ((cr ++ t) ++ rest) ≡ sealed key r.seqn payload ++ rest
      whole =
          regroup c4 cr t rest
          ∙ ap (λ z. (z ++ t) ++ rest) (take-append-drop 4 (seal w na key r.seqn m).0)

      count : suc (length body) - pad + 4 ≡ length payload + 5
      count = omega (arith, body_len)

      long : 4 ≤ length m
      long = omega (arith, m_len)

      announced :
          w.read_u32_be (decrypt_packet_length w na back.remote_to_local r.seqn c4) ≡ some len
      announced =
          rw
            (
              e,
              decrypt-seal w na key r.seqn m long,
              take-append_of_length 4 (w.u32_be len) (pad ∷ body) (w.length-u32_be len),
            )
            (ap w.read_u32_be (sym (append-nil (w.u32_be len))) ∙ w.read_u32_be-u32_be len [] h)

      content : opened w na back.remote_to_local r.seqn (c4 ++ cr) t ≡ ok (pad ∷ body)
      content = rw (
        e,
        take-append-drop 4 (seal w na key r.seqn m).0,
        opened-seal w na key r.seqn m long,
        drop-append_of_length 4 (w.u32_be len) (pad ∷ body) (w.length-u32_be len),
      )

      got : SshBuffer
      got = record r {
        buffer = take (suc (length body) - pad + 4) (c4 ++ ((pad ∷ body) ++ t));
        len = 0;
        seqn = (r.seqn + 1) % 2 ^ 32;
      }

      parts :
          read w na (c4 ++ ((cr ++ t) ++ rest)) r back
          ≡ ok ((got, suc (length body) - pad + 4), rest)
      parts =
          read_parts back r c4 cr t rest body pad len four announced rest_len
            ((length-seal w na key r.seqn m).1 ∙ sym (rw e (matching_tag_len key))) content
            (omega (arith, body_len))

  -- Whatever `write` puts behind the bytes of the buffer, the side that holds the matching key and
  -- the same sequence number reads back: the packet and no byte behind it is consumed, the number
  -- returned is the payload's length plus 5, the bytes from the fifth on are the payload, and the
  -- two sequence numbers are equal again. What stood in the buffer before is kept.
  pub read-write :
      (pair back : CipherPair) (b r : SshBuffer) (payload rest : Bytes) {b' : SshBuffer}
      → back.remote_to_local ≡ matching pair.local_to_remote
      → r.seqn ≡ b.seqn
      → write w na pair payload b ≡ ok b'
      → (r' : SshBuffer) × (read w na (drop (length b.buffer) b'.buffer ++ rest) r back
          ≡ ok ((r', length payload + 5), rest))
        × (drop 5 r'.buffer ≡ payload)
        × (r'.seqn ≡ b'.seqn)
        × (take (length b.buffer) b'.buffer ≡ b.buffer)
  read-write pair back b r payload rest {b'} e sync h =
      let (fits, made) = write-eq-ok pair payload b h in
      let (r', reads, content, count) =
        read-sealed pair.local_to_remote back r payload rest e fits in
      (
        r',
        rw
            (
              made,
              drop-append_of_length (length b.buffer) b.buffer
                  (sealed pair.local_to_remote b.seqn payload) refl,
              ← sync,
            )
            reads,
        content,
        rw (made, ← sync) count,
        rw (
          made,
          take-append_of_length (length b.buffer) b.buffer
              (sealed pair.local_to_remote b.seqn payload) refl,
        ),
      )
