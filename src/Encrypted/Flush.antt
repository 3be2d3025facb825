-- ===== src/Encrypted/Flush.antt =====
-- `flush`: the packets that wait go through the cipher to the buffer of the socket.
use thrussh_mod.Base.{
  ℕ, zero, suc, ◌+◌, ◌-◌, Bool, true, false, ◌||◌, [], ltb, leb, if◌then◌else◌, length, drop, Bytes,
}
use thrussh_mod.Error.{Result, ok, no_fuel, ◌>>=◌, unwrap, unwrap_result}
use thrussh_mod.Wire.{Wire}
use thrussh_mod.Sodium.{Sodium}
use thrussh_mod.SshBuffer.{SshBuffer}
use thrussh_mod.Cipher.{CipherPair}
use thrussh_mod.Cipher
use thrussh_mod.Compression.{Compress, Flate, compress}
use thrussh_mod.Encrypted.{Encrypted, Limits, slice}

-- The end of `flush`, behind its loop.
unfoldable pub finish_flush :
    Encrypted → Limits → ℕ → Compress → SshBuffer → ℕ → Encrypted × SshBuffer × Bool
finish_flush enc limits now z out cursor =
    let done = leb (length enc.write) cursor in
    (
      record enc {
        compress = z;
        write = if done then [] else enc.write;
        write_cursor = if done then 0 else cursor;
      },
      out,
      leb limits.rekey_write_limit out.bytes || leb limits.rekey_time_limit (now - enc.last_rekey),
    )

module _ (w : Wire) where
  module _ (na : Sodium) (flate : Flate) (pair : CipherPair) where
    -- The loop of `flush`: one packet of `write` is compressed, encrypted and appended to the
    -- buffer of the socket. Every round moves the cursor by four bytes at least. `rounds` bounds the
    -- loop in `compress`.
    unfoldable pub flush_loop :
        ℕ → ℕ → Bytes → ℕ → Compress → SshBuffer → Result (Compress × SshBuffer × ℕ)
    flush_loop rounds zero write cursor z out =
        if ltb cursor (length write) then no_fuel else ok (z, out, cursor)
    flush_loop rounds (suc fuel) write cursor z out = elim (ltb cursor (length write)) [
      | false ↦ ok (z, out, cursor)
      | true ↦ do
        len ← unwrap (w.read_u32_be (drop cursor write))
        body ← slice write (cursor + 4) (cursor + 4 + len)
        (z', packet) ← unwrap_result (compress flate rounds z body)
        out' ← Cipher.write w na pair packet out
        flush_loop rounds fuel write (cursor + 4 + len) z' out'
    ]

    -- `flush`: the new state and socket buffer, and whether keys are to be exchanged again.
    unfoldable pub flush :
        ℕ → Encrypted → Limits → SshBuffer → ℕ → Result (Encrypted × SshBuffer × Bool)
    unfolding flush_loop finish_flush
    flush rounds enc limits write_buffer now = do
      (z, out, cursor) ←
          flush_loop rounds (length enc.write) enc.write enc.write_cursor enc.compress write_buffer
      ok (finish_flush enc limits now z out cursor)
