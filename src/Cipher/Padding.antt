-- ===== src/Cipher/Padding.antt =====
-- The padding that `SealingKey::padding_length` computes for each cipher.
use thrussh_mod.Base.{ℕ, ◌+◌, ◌%◌, ◌≤◌, ◌≡◌, Bytes, length, arith}
use thrussh_mod.Cipher.{SealingCipher, padding_length, packet_length_len, padding_length_len}

-- The bytes of a packet that the cipher's block size must divide: clear.rs counts the length
-- field, chacha20poly1305.rs encrypts it apart.
abbrev pub aligned : SealingCipher → Bytes → ℕ
aligned SealingCipher.clear payload =
    packet_length_len
    + (padding_length_len + length payload + padding_length SealingCipher.clear payload)
aligned (SealingCipher.chacha20_poly1305 k1 k2) payload =
    padding_length_len
    + length payload
    + padding_length (SealingCipher.chacha20_poly1305 k1 k2) payload

-- For either cipher and any payload, there are at least 4 and at most 15 bytes of padding, and
-- they fill the packet up to a multiple of 8 bytes, of at least 16.
pub padding_length_bounds :
    (key : SealingCipher) (payload : Bytes)
    → (4 ≤ padding_length key payload)
      × (padding_length key payload ≤ 15)
      × (aligned key payload % 8 ≡ 0)
      × (16 ≤ aligned key payload)
unfolding padding_length
padding_length_bounds SealingCipher.clear payload = ground arith
padding_length_bounds (SealingCipher.chacha20_poly1305 k1 k2) payload = ground arith
