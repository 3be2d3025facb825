-- ===== src/Cipher/Outcomes.antt =====
-- When `CipherPair::write` succeeds, and what `cipher::read` refuses.
use thrussh_mod.Base.{
  ℕ, ◌+◌, ◌≤◌, ◌<◌, ◌^◌, ◌≡◌, ◌⊎◌, refl, ◌%◌, ◌++◌, false, some, replicate, Bytes, length, arith,
}
use thrussh_mod.Error.{Error, ok, err, panic, thrussh}
use thrussh_mod.Wire.{Wire}
use thrussh_mod.Sodium.{Sodium}
use thrussh_mod.SshBuffer.{SshBuffer}
use thrussh_mod.Cipher.{
  decrypt_packet_length, opened, OpeningCipher, CipherPair, padding_length, write, read,
  chacha_tag_len, padding_length_len, make_counter,
}
use thrussh_mod.Cipher.Padding.{padding_length_bounds}
use thrussh_mod.Cipher.Framing.{sealed, read_split}

module _ (w : Wire) (na : Sodium) where
  -- `write` succeeds on every payload whose packet length fits 32 bits, and panics on a longer one:
  -- the assertion on the padding never fails.
  pub write_total :
      (pair : CipherPair) (payload : Bytes) (b : SshBuffer)
      → ((padding_length_len + length payload + padding_length pair.local_to_remote payload
            < 2 ^ 32)
          × (write w na pair payload b
              ≡ ok (record b {
                buffer = b.buffer ++ sealed w na pair.local_to_remote b.seqn payload;
                bytes = (b.bytes + length payload) % 2 ^ 64;
                seqn = (b.seqn + 1) % 2 ^ 32;
              })))
        ⊎ ((2 ^ 32
              ≤ padding_length_len + length payload + padding_length pair.local_to_remote payload)
            × (write w na pair payload b ≡ panic))
  unfolding write
  write_total pair payload b = ground (arith, padding_length_bounds pair.local_to_remote payload)

  -- Under chacha20-poly1305, a packet whose tag does not verify is refused, whatever it holds.
  pub read_bad_tag :
      (pair : CipherPair) (k1 k2 : Bytes) (r : SshBuffer) (c4 cr t rest : Bytes) (len : ℕ)
      → pair.remote_to_local ≡ OpeningCipher.chacha20_poly1305 k1 k2
      → length c4 ≡ 4
      → w.read_u32_be (na.chacha20_xor (make_counter w na r.seqn) k1 c4) ≡ some len
      → length cr ≡ len
      → length t ≡ chacha_tag_len
      → na.poly1305_verify t
          (c4 ++ cr)
          (na.chacha20_xor (make_counter w na r.seqn) k2 (replicate 32 0))
        ≡ false
      → read w na (c4 ++ ((cr ++ t) ++ rest)) r pair ≡ err (thrussh Error.packet_auth)
  read_bad_tag pair k1 k2 r c4 cr t rest len e h4 hl hr ht bad =
      let key : decrypt_packet_length w na pair.remote_to_local r.seqn c4
          ≡ na.chacha20_xor (make_counter w na r.seqn) k1 c4 =
        rw e (unfold decrypt_packet_length in refl) in
      rw (read_split w na pair r c4 cr t rest len h4 (rw key hl) hr (rw e ht), e)
        (unfold opened in rw bad)
