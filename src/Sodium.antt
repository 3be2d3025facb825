-- ===== src/Sodium.antt =====
-- The primitives of thrussh_libsodium that src/cipher/chacha20poly1305.rs calls, and what they are
-- documented to do: a stream cipher is its own inverse and keeps the length, and a tag verifies on
-- the message and the key that it was made from.
use thrussh_mod.Base.{ℕ, ◌≡◌, true, Bool, Bytes, length}

pub record Sodium : Type 0 where
  pub chacha20_xor : (nonce key message : Bytes) → Bytes
  pub chacha20_xor_ic : (nonce : Bytes) → ℕ → (key message : Bytes) → Bytes
  pub poly1305_auth : (message key : Bytes) → Bytes
  pub poly1305_verify : (tag message key : Bytes) → Bool
  pub length-chacha20_xor : (n k m : Bytes) → length (chacha20_xor n k m) ≡ length m
  pub length-chacha20_xor_ic :
      (n : Bytes) (i : ℕ) (k m : Bytes) → length (chacha20_xor_ic n i k m) ≡ length m
  pub chacha20_xor_twice : (n k m : Bytes) → chacha20_xor n k (chacha20_xor n k m) ≡ m
  pub chacha20_xor_ic_twice :
      (n : Bytes) (i : ℕ) (k m : Bytes) → chacha20_xor_ic n i k (chacha20_xor_ic n i k m) ≡ m
  pub length-poly1305_auth : (m k : Bytes) → length (poly1305_auth m k) ≡ 16
  pub poly1305_verify-auth : (m k : Bytes) → poly1305_verify (poly1305_auth m k) m k ≡ true
