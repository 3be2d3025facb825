-- ===== src/Compression.antt =====
-- src/compression.rs, with the feature `flate2` (the default). The streams of the `flate2` crate
-- are an interface: a stream is known by the calls made on it since it was made or reset.
use thrussh_mod.Base.{
  ℕ, zero, suc, ◌+◌, ◌-◌, ◌*◌, Bool, true, false, ◌||◌, List, [], ◌∷◌, ◌++◌, Option, Bytes, length,
  drop, codes, equal, if◌then◌else◌,
}
use thrussh_mod.Error.{Result, zlib_error, ◌>>=◌}

pub data Compression : Type 0 where
  none zlib : Compression

-- The calls on a stream: the input offered and the room given for the output.
abbrev pub Stream : Type 0
Stream = List (Bytes × ℕ)

pub data Compress : Type 0 where
  none : Compress
  zlib : Stream → Compress

pub data Decompress : Type 0 where
  none : Decompress
  zlib : Stream → Decompress

pub data Status : Type 0 where
  ok buf_error stream_end : Status

-- One call: `none` is an error of the library, otherwise the status, the bytes of input used and
-- the output made. Its room bounds the output, and it uses no more than it is offered.
pub record Flate : Type 0 where
  pub compress : Stream → Bytes → ℕ → Option (Status × ℕ × Bytes)
  pub decompress : Stream → Bytes → ℕ → Option (Status × ℕ × Bytes)

unfoldable pub from_string : Bytes → Compression
unfolding equal
from_string s =
    if equal s (codes "zlib") || equal s (codes "zlib@openssh.com")
    then Compression.zlib
    else Compression.none

-- A stream that is made anew and one that is reset have no call behind them.
pub init_compress : Compression → Compress → Compress
init_compress Compression.zlib comp = Compress.zlib []
init_compress Compression.none comp = Compress.none

pub init_decompress : Compression → Decompress → Decompress
init_decompress Compression.zlib comp = Decompress.zlib []
init_decompress Compression.none comp = Decompress.none

module _ (call : Stream → Bytes → ℕ → Option (Status × ℕ × Bytes)) (again : Status → Bool) where
  -- The loops of `compress` and `decompress`: call the stream on what is left of the input and of
  -- the output buffer of size `room`, and double the buffer while the status asks for it.
  unfoldable pub pump : ℕ → Stream → Bytes → ℕ → Bytes → Result (Stream × Bytes)
  pump zero z input room output = Result.no_fuel
  pump (suc fuel) z input room output = elim (call z input (room - length output)) [
    | Option.none ↦ Result.err zlib_error
    | Option.some (status, used, made) ↦
        let z' = (input, room - length output) ∷ z in
        let more = pump fuel z' (drop used input) (room * 2) (output ++ made) in
        if again status then more else Result.ok (z', output ++ made)
  ]

abbrev pub is_buf_error : Status → Bool
is_buf_error Status.buf_error = true
is_buf_error _ = false

abbrev pub is_ok : Status → Bool
is_ok Status.ok = true
is_ok _ = false

module _ (flate : Flate) where
  -- `Compress::compress` and `Decompress::decompress`, with the rounds that the loop may take.
  unfoldable pub compress : ℕ → Compress → Bytes → Result (Compress × Bytes)
  unfolding pump
  compress fuel Compress.none input = Result.ok (Compress.none, input)
  compress fuel (Compress.zlib z) input = do
    (z', output) ← pump flate.compress is_buf_error fuel z input (length input + 10) []
    Result.ok (Compress.zlib z', output)

  unfoldable pub decompress : ℕ → Decompress → Bytes → Result (Decompress × Bytes)
  unfolding pump
  decompress fuel Decompress.none input = Result.ok (Decompress.none, input)
  decompress fuel (Decompress.zlib z) input = do
    (z', output) ← pump flate.decompress is_ok fuel z input (length input) []
    Result.ok (Decompress.zlib z', output)
