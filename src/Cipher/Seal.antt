-- ===== src/Cipher/Seal.antt =====
-- What a sealing key makes, the matching opening key takes apart.
use thrussh_mod.Base.{
  ℕ, ◌≤◌, ◌≡◌, refl, ap, ◌∙◌, Bytes, length, take, drop, arith, length-append, length-take,
  length-drop, take-append_of_length, drop-append_of_length,
}
use thrussh_mod.Error.{ok}
use thrussh_mod.Wire.{Wire}
use thrussh_mod.Sodium.{Sodium}
use thrussh_mod.Cipher.{
  SealingCipher, OpeningCipher, sealing_tag_len, opening_tag_len, seal, decrypt_packet_length,
  opened, make_counter,
}

-- The opening key with the secrets of a sealing key.
abbrev pub matching : SealingCipher → OpeningCipher
matching SealingCipher.clear = OpeningCipher.clear
matching (SealingCipher.chacha20_poly1305 k1 k2) = OpeningCipher.chacha20_poly1305 k1 k2

pub matching_tag_len : (k : SealingCipher) → opening_tag_len (matching k) ≡ sealing_tag_len k
matching_tag_len SealingCipher.clear = refl
matching_tag_len (SealingCipher.chacha20_poly1305 k1 k2) = refl

module _ (w : Wire) (na : Sodium) where
  pub length-seal :
      (k : SealingCipher) (n : ℕ) (m : Bytes)
      → (length (seal w na k n m).0 ≡ length m) × (length (seal w na k n m).1 ≡ sealing_tag_len k)
  unfolding seal
  length-seal SealingCipher.clear n m = (refl, refl)
  length-seal (SealingCipher.chacha20_poly1305 k1 k2) n m = (
    omega (
      arith,
      length-append (na.chacha20_xor (make_counter w na n) k1 (take 4 m))
          (na.chacha20_xor_ic (make_counter w na n) 1 k2 (drop 4 m)),
      na.length-chacha20_xor (make_counter w na n) k1 (take 4 m),
      na.length-chacha20_xor_ic (make_counter w na n) 1 k2 (drop 4 m),
      length-take 4 m,
      length-drop 4 m,
    ),
    na.length-poly1305_auth _ _,
  )

  length-xor_take :
      (k1 : Bytes) (n : ℕ) (m : Bytes)
      → 4 ≤ length m
      → length (na.chacha20_xor (make_counter w na n) k1 (take 4 m)) ≡ 4
  length-xor_take k1 n m h =
      omega (arith, na.length-chacha20_xor (make_counter w na n) k1 (take 4 m), length-take 4 m)

  take-seal :
      (k1 k2 : Bytes) (n : ℕ) (m : Bytes)
      → 4 ≤ length m
      → take 4 (seal w na (SealingCipher.chacha20_poly1305 k1 k2) n m).0
        ≡ na.chacha20_xor (make_counter w na n) k1 (take 4 m)
  unfolding seal
  take-seal k1 k2 n m h = take-append_of_length 4 _ _ (length-xor_take k1 n m h)

  drop-seal :
      (k1 k2 : Bytes) (n : ℕ) (m : Bytes)
      → 4 ≤ length m
      → drop 4 (seal w na (SealingCipher.chacha20_poly1305 k1 k2) n m).0
        ≡ na.chacha20_xor_ic (make_counter w na n) 1 k2 (drop 4 m)
  unfolding seal
  drop-seal k1 k2 n m h = drop-append_of_length 4 _ _ (length-xor_take k1 n m h)

  pub decrypt-seal :
      (k : SealingCipher) (n : ℕ) (m : Bytes)
      → 4 ≤ length m
      → decrypt_packet_length w na (matching k) n (take 4 (seal w na k n m).0) ≡ take 4 m
  unfolding seal decrypt_packet_length
  decrypt-seal SealingCipher.clear n m h = refl
  decrypt-seal (SealingCipher.chacha20_poly1305 k1 k2) n m h =
      ap (na.chacha20_xor (make_counter w na n) k1) (take-seal k1 k2 n m h)
      ∙ na.chacha20_xor_twice (make_counter w na n) k1 (take 4 m)

  pub opened-seal :
      (k : SealingCipher) (n : ℕ) (m : Bytes)
      → 4 ≤ length m
      → opened w na (matching k) n (seal w na k n m).0 (seal w na k n m).1 ≡ ok (drop 4 m)
  unfolding seal opened make_counter
  opened-seal SealingCipher.clear n m h = ground arith
  opened-seal (SealingCipher.chacha20_poly1305 k1 k2) n m h =
      rw (na.poly1305_verify-auth _ _, drop-seal k1 k2 n m h, na.chacha20_xor_ic_twice _ _ _ _)
        (ground (arith, (length-seal (SealingCipher.chacha20_poly1305 k1 k2) n m).0))
