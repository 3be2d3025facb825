-- ===== src/SshRead.antt =====
-- src/ssh_read.rs: the identification line at the beginning of a connection. The stream is the list
-- of the chunks that its reads deliver, the empty one at its end.
pub mod Lines
pub mod Identification
pub mod Preliminary
use thrussh_mod.Base.{
  ℕ, zero, suc, ◌+◌, ◌-◌, ◌*◌, ◌/◌, ◌%◌, ◌^◌, ◌≤◌, ◌<◌, min, max, ◌≡◌, refl, sym, ap, ap₂, subst,
  ◌∙◌, ◌≢◌, ◌↔◌, ◌⊎◌, inl, inr, Bool, true, false, not, ◌&&◌, ◌||◌, Option, none, some, List, [],
  ◌∷◌, ◌++◌, map, append-nil, append_assoc, arith, ltb, leb, ◌==◌, if◌then◌else◌, ltb→lt, lt→ltb,
  leb→le, le→leb, ==_iff, ==_self, Bool-cases, Option-cases, length, take, drop, replicate,
  get_elem?, is_empty, length-append, length-take, length-drop, length-replicate, take-append-drop,
  take-append_of_length, drop-append_of_length, take-all, Bytes, codes, equal, equal_iff,
  equal_self,
}
use thrussh_mod.Error.{Error, thrussh, Result, ok, err, panic, no_fuel, ◌>>=◌}

-- The bytes of `buf` up to `total`; its length is 256, and what stands behind `total` is never read.
pub record ReadSshIdBuffer : Type 0 where
  pub buf : Bytes
  pub sshid_len : ℕ
  pub bytes_read : ℕ

abbrev pub new_buffer : ReadSshIdBuffer
new_buffer = record { buf = []; sshid_len = 0; bytes_read = 0 }

-- `id`
abbrev pub id : ReadSshIdBuffer → Bytes
id b = take b.sshid_len b.buf

-- The inner loop over `i`: the end of the line and the number of bytes up to the next one, both 0
-- on the left of `none`. It looks for `\r\n`, or `\n` behind any other byte.
unfoldable pub find_line : ℕ → Bytes → ℕ × ℕ
find_line i (a ∷ b ∷ rest) =
    let further = find_line (suc i) (b ∷ rest) in
    if (a == b'\r') && (b == b'\n')
    then (i, i + 2)
    else if b == b'\n'
    then (i + 1, i + 2)
    else further
find_line i (a ∷ []) = (i, 0)
find_line i [] = (i, 0)

-- What the loop of `read_ssh_id` does with the bytes it has: a line that begins with `SSH-2.0-` is the
-- identification; any other line is dropped, with all bytes behind it.
unfoldable pub handle_line : ReadSshIdBuffer → ReadSshIdBuffer × Bool
unfolding find_line
handle_line b =
    let (i, bytes_read) = find_line 0 b.buf in
    if bytes_read == 0
    then (b, false)
    else if leb 8 i && equal (take 8 b.buf) (codes "SSH-2.0-")
    then (record { buf = b.buf; sshid_len = i; bytes_read = bytes_read }, true)
    else (record b { buf = []; bytes_read = 0 }, false)

-- `read_ssh_id`: the buffer, which holds the line, and the chunks of the stream left. A read takes no
-- more than the room in the buffer; the rest of the chunk stays in the stream. Every round but the
-- last reads a byte.
unfoldable pub read_ssh_id :
    ℕ → ReadSshIdBuffer → List Bytes → Result (ReadSshIdBuffer × List Bytes)
unfolding handle_line
read_ssh_id zero b chunks = no_fuel
read_ssh_id (suc fuel) b [] = err (thrussh Error.disconnect)
read_ssh_id (suc fuel) b (chunk ∷ chunks) =
    let n = min (length chunk) (256 - length b.buf) in
    let rest = if ltb n (length chunk) then drop n chunk ∷ chunks else chunks in
    let handled = handle_line (record b { buf = b.buf ++ take n chunk }) in
    let more = read_ssh_id fuel handled.0 rest in
    if n == 0
    then err (thrussh Error.disconnect)
    else if handled.1
    then ok (handled.0, rest)
    else more

-- A read of the stream itself, with room for `room` bytes.
unfoldable pub poll_stream : ℕ → List Bytes → Bytes × List Bytes
poll_stream room [] = ([], [])
poll_stream room (chunk ∷ chunks) =
    (take room chunk, if ltb room (length chunk) then drop room chunk ∷ chunks else chunks)

-- `poll_read` of `SshRead`: what is left in the buffer behind the line, which `put_slice` panics on
-- without the room for it, and then the stream.
unfoldable pub poll_read :
    ℕ → Option ReadSshIdBuffer → List Bytes → Result (Bytes × Option ReadSshIdBuffer × List Bytes)
unfolding poll_stream
poll_read room (some b) chunks =
    if ltb b.bytes_read (length b.buf)
    then (if ltb room (length b.buf - b.bytes_read)
        then panic
        else ok (drop b.bytes_read b.buf, some (record b { bytes_read = length b.buf }), chunks))
    else ok ((poll_stream room chunks).0, none, (poll_stream room chunks).1)
poll_read room none chunks = ok ((poll_stream room chunks).0, none, (poll_stream room chunks).1)
