-- ===== src/Tests/CipherTests.antt =====
-- src/cipher: packets of the two ciphers.
use thrussh_mod.Base.{
  ◌+◌, ◌%◌, ◌^◌, ◌≤◌, ◌<◌, ◌≡◌, refl, ◌⊎◌, [], ◌∷◌, ◌++◌, length, take, drop, Bytes,
}
use thrussh_mod.Error.{ok, panic}
use thrussh_mod.SshBuffer.{SshBuffer}
use thrussh_mod.Samples.Bytewise.{bytewise}
use thrussh_mod.Samples.Toggle.{toggling}
use thrussh_mod.Cipher.{
  SealingCipher, OpeningCipher, CipherPair, write, read, seal, padding_length, fill_padding,
  make_counter,
}
use thrussh_mod.Cipher.Padding.{aligned, padding_length_bounds}
use thrussh_mod.Cipher.Framing.{read-write, sealed}
use thrussh_mod.Cipher.Outcomes.{write_total}

abbrev keys : CipherPair
keys = record {
  local_to_remote = SealingCipher.chacha20_poly1305 (1 ∷ []) (2 ∷ []);
  remote_to_local = OpeningCipher.chacha20_poly1305 (1 ∷ []) (2 ∷ []);
}

abbrev clear_keys : CipherPair
clear_keys = record { local_to_remote = SealingCipher.clear; remote_to_local = OpeningCipher.clear }

abbrev sender : SshBuffer
sender = record { buffer = 7 ∷ []; len = 0; bytes = 5; seqn = 3 }

abbrev receiver : SshBuffer
receiver = record { buffer = 9 ∷ 9 ∷ []; len = 2; bytes = 0; seqn = 3 }

abbrev payload : Bytes
payload = 94 ∷ 0 ∷ 1 ∷ []

abbrev sent : SshBuffer
sent = record {
  buffer = 7 ∷ sealed bytewise toggling keys.local_to_remote 3 payload;
  bytes = 8;
  seqn = 4;
  len = 0;
}

write-payload : write bytewise toggling keys payload sender ≡ ok sent
unfolding write seal padding_length fill_padding make_counter
write-payload = refl

write-clear :
    write bytewise toggling clear_keys payload sender
    ≡ ok (record {
      buffer = 7 ∷ 0 ∷ 0 ∷ 0 ∷ 12 ∷ 8 ∷ 94 ∷ 0 ∷ 1 ∷ 0 ∷ 0 ∷ 0 ∷ 0 ∷ 0 ∷ 0 ∷ 0 ∷ 0 ∷ [];
      len = 0;
      bytes = 8;
      seqn = 4;
    })
unfolding write seal padding_length fill_padding
write-clear = refl

read-write_example :
    (r' : SshBuffer) × (read bytewise toggling
        (drop (length sender.buffer) sent.buffer ++ payload)
        receiver
        keys
      ≡ ok ((r', length payload + 5), payload))
    × (drop 5 r'.buffer ≡ payload)
    × (r'.seqn ≡ sent.seqn)
    × (take (length sender.buffer) sent.buffer ≡ sender.buffer)
read-write_example =
    read-write bytewise toggling keys keys sender receiver payload payload refl refl write-payload

padding_length_bounds_example :
    (4 ≤ padding_length SealingCipher.clear payload)
    × (padding_length SealingCipher.clear payload ≤ 15)
    × (aligned SealingCipher.clear payload % 8 ≡ 0)
    × (16 ≤ aligned SealingCipher.clear payload)
padding_length_bounds_example = padding_length_bounds SealingCipher.clear payload

write_total_example :
    ((1 + length payload + padding_length keys.local_to_remote payload < 2 ^ 32)
      × (write bytewise toggling keys payload sender
          ≡ ok (record sender {
            buffer = sender.buffer ++ sealed bytewise toggling keys.local_to_remote 3 payload;
            bytes = (5 + length payload) % 2 ^ 64;
            seqn = (3 + 1) % 2 ^ 32;
          })))
    ⊎ ((2 ^ 32 ≤ 1 + length payload + padding_length keys.local_to_remote payload)
        × (write bytewise toggling keys payload sender ≡ panic))
write_total_example = write_total bytewise toggling keys payload sender
