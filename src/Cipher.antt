-- ===== src/Cipher.antt =====
-- src/cipher/mod.rs, clear.rs and chacha20poly1305.rs: the binary packet layer. The primitives of
-- thrussh_libsodium are an interface.
pub mod Padding
pub mod Seal
pub mod Framing
pub mod Outcomes
pub mod Stream
use thrussh_mod.Base.{
  ℕ, ◌+◌, ◌-◌, ◌*◌, ◌%◌, ◌^◌, Bool, true, false, Option, none, some, List, [], ◌∷◌, ◌++◌, Bytes,
  length, take, drop, replicate, map, ltb, leb, if◌then◌else◌,
}
use thrussh_mod.Error.{
  Error, Failure, thrussh, io_error, Result, ok, err, panic, ◌>>=◌, ◌>>◌, assert, unwrap,
}
use thrussh_mod.Wire.{Wire}
use thrussh_mod.SshBuffer.{SshBuffer}
use thrussh_mod.Sodium.{Sodium}

abbrev pub packet_length_len : ℕ
packet_length_len = 4

abbrev pub minimum_packet_len : ℕ
minimum_packet_len = 16

abbrev pub padding_length_len : ℕ
padding_length_len = 1

-- `TAG_LEN` of chacha20poly1305.rs
abbrev pub chacha_tag_len : ℕ
chacha_tag_len = 16

pub data SealingCipher : Type 0 where
  clear : SealingCipher
  chacha20_poly1305 : (k1 k2 : Bytes) → SealingCipher

pub data OpeningCipher : Type 0 where
  clear : OpeningCipher
  chacha20_poly1305 : (k1 k2 : Bytes) → OpeningCipher

pub record CipherPair : Type 0 where
  pub local_to_remote : SealingCipher
  pub remote_to_local : OpeningCipher

pub clear_pair : CipherPair
clear_pair = record { local_to_remote = SealingCipher.clear; remote_to_local = OpeningCipher.clear }

-- `clone_from_slice` into a key of 32 bytes panics on a slice of any other length; so does the
-- slicing of a shorter `k`.
unfoldable pub keys_of {ℓ} : {A : Type ℓ} → (Bytes → Bytes → A) → Bytes → Result A
keys_of make k =
    if ltb (length k) 64
    then panic
    else if ltb 64 (length k)
    then panic
    else ok (make (drop 32 k) (take 32 k))

unfoldable pub make_sealing_cipher : Bytes → Result SealingCipher
unfolding keys_of
make_sealing_cipher = keys_of SealingCipher.chacha20_poly1305

unfoldable pub make_opening_cipher : Bytes → Result OpeningCipher
unfolding keys_of
make_opening_cipher = keys_of OpeningCipher.chacha20_poly1305

-- `SealingKey::padding_length` of clear.rs
unfoldable pub clear_padding_length : Bytes → ℕ
clear_padding_length payload =
    let padding_len = 8 - (5 + length payload) % 8 in
    if ltb padding_len 4 then padding_len + 8 else padding_len

-- `SealingKey::padding_length` of chacha20poly1305.rs
unfoldable pub chacha_padding_length : Bytes → ℕ
chacha_padding_length payload =
    let extra_len = packet_length_len + padding_length_len in
    let padding_len =
      if leb (length payload + extra_len) minimum_packet_len
      then minimum_packet_len - length payload - padding_length_len
      else 8 - (padding_length_len + length payload) % 8 in
    if ltb padding_len packet_length_len then padding_len + 8 else padding_len

unfoldable pub padding_length : SealingCipher → Bytes → ℕ
unfolding clear_padding_length chacha_padding_length
padding_length SealingCipher.clear payload = clear_padding_length payload
padding_length (SealingCipher.chacha20_poly1305 k1 k2) payload = chacha_padding_length payload

-- `fill_padding` is the same in both files.
unfoldable pub fill_padding : Bytes → Bytes
fill_padding padding_out = map (λ _. 0) padding_out

abbrev pub sealing_tag_len : SealingCipher → ℕ
sealing_tag_len SealingCipher.clear = 0
sealing_tag_len (SealingCipher.chacha20_poly1305 k1 k2) = chacha_tag_len

abbrev pub opening_tag_len : OpeningCipher → ℕ
opening_tag_len OpeningCipher.clear = 0
opening_tag_len (OpeningCipher.chacha20_poly1305 k1 k2) = chacha_tag_len

-- `AsyncReadExt::read_exact` on the bytes that are still to come.
unfoldable pub read_exact : ℕ → Bytes → Result (Bytes × Bytes)
read_exact n stream =
    if ltb (length stream) n then err io_error else ok (take n stream, drop n stream)

-- `nonce.0[0] = 0`
abbrev zero_first : Bytes → Bytes
zero_first [] = []
zero_first (b ∷ bs) = 0 ∷ bs

module _ (w : Wire) (na : Sodium) where
  -- Eight bytes, the last four of them the sequence number.
  unfoldable pub make_counter : ℕ → Bytes
  make_counter sequence_number = replicate 4 0 ++ w.u32_be sequence_number

  -- The ciphertext and the tag, for a plaintext that begins with its length.
  unfoldable pub seal : SealingCipher → ℕ → Bytes → Bytes × Bytes
  seal SealingCipher.clear seqn plaintext = (plaintext, [])
  seal (SealingCipher.chacha20_poly1305 k1 k2) seqn plaintext =
      let nonce = make_counter seqn in
      let a = na.chacha20_xor nonce k1 (take 4 plaintext) in
      let b = na.chacha20_xor_ic nonce 1 k2 (drop 4 plaintext) in
      let poly_key = na.chacha20_xor (zero_first nonce) k2 (replicate 32 0) in
      (a ++ b, na.poly1305_auth (a ++ b) poly_key)

  unfoldable pub decrypt_packet_length : OpeningCipher → ℕ → Bytes → Bytes
  decrypt_packet_length OpeningCipher.clear seqn len = len
  decrypt_packet_length (OpeningCipher.chacha20_poly1305 k1 k2) seqn len =
      na.chacha20_xor (make_counter seqn) k1 len

  -- The plaintext behind the length. It is decrypted in place, at the same offset.
  unfoldable pub opened : OpeningCipher → ℕ → Bytes → Bytes → Result Bytes
  opened OpeningCipher.clear seqn ciphertext tag =
      if ltb (length ciphertext) 4 then panic else ok (drop 4 ciphertext)
  opened (OpeningCipher.chacha20_poly1305 k1 k2) seqn ciphertext tag =
      let nonce = make_counter seqn in
      let poly_key = na.chacha20_xor nonce k2 (replicate 32 0) in
      if na.poly1305_verify tag ciphertext poly_key
      then (if ltb (length ciphertext) 4
          then panic
          else ok (na.chacha20_xor_ic nonce 1 k2 (drop 4 ciphertext)))
      else err (thrussh Error.packet_auth)

  -- `CipherPair::write`
  unfoldable pub write : CipherPair → Bytes → SshBuffer → Result SshBuffer
  write pair payload b = do
    let key = pair.local_to_remote
    let padding = padding_length key payload
    let packet_length = padding_length_len + length payload + padding
    assert (leb packet_length (2 ^ 32 - 1))
    assert (leb padding 255)
    let plaintext =
        w.u32_be packet_length ++ (padding ∷ (payload ++ fill_padding (replicate padding 0)))
    let (ciphertext, tag) = seal key b.seqn plaintext
    ok (record b {
      buffer = b.buffer ++ (ciphertext ++ tag);
      bytes = (b.bytes + length payload) % 2 ^ 64;
      seqn = (b.seqn + 1) % 2 ^ 32;
    })

  -- The tail of `read`: strip the padding and count the packet.
  unfoldable pub finish_read : SshBuffer → Bytes → Bytes → Bytes → Result (SshBuffer × ℕ)
  finish_read b len tag [] = panic
  finish_read b len tag (padding ∷ rest) =
      let plaintext = padding ∷ rest in
      if ltb (length plaintext) padding
      then err (thrussh Error.index_out_of_bounds)
      else (let plaintext_end = length plaintext - padding in
          ok (
            record b {
              buffer = take (plaintext_end + 4) (len ++ (plaintext ++ tag));
              len = 0;
              seqn = (b.seqn + 1) % 2 ^ 32;
            },
            plaintext_end + 4,
          ))

  -- `cipher::read`: the new buffer, the number returned, and the bytes of the stream left.
  unfoldable pub read : Bytes → SshBuffer → CipherPair → Result ((SshBuffer × ℕ) × Bytes)
  unfolding finish_read
  read stream b pair = do
    let key = pair.remote_to_local
    (len, stream1) ← read_exact 4 stream
    clear_len ← unwrap (w.read_u32_be (decrypt_packet_length key b.seqn len))
    (body, stream2) ← read_exact (clear_len + opening_tag_len key) stream1
    let buffer = len ++ body
    let ciphertext_len = length buffer - opening_tag_len key
    let tag = drop ciphertext_len buffer
    plaintext ← opened key b.seqn (take ciphertext_len buffer) tag
    done ← finish_read b len tag plaintext
    ok (done, stream2)
