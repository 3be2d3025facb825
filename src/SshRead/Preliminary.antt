-- ===== src/SshRead/Preliminary.antt =====
-- `read_ssh_id` on a line that comes before the identification.
use thrussh_mod.Base.{
  ℕ, suc, ◌+◌, ◌≤◌, min, ◌≡◌, refl, ◌∙◌, ◌≢◌, false, List, ◌∷◌, ◌++◌, arith, ltb, ◌==◌, length,
  take, length-append, take-all, Bytes, codes, equal_iff,
}
use thrussh_mod.SshRead.{ReadSshIdBuffer, new_buffer, find_line, handle_line, read_ssh_id}
use thrussh_mod.SshRead.Lines.{OneLine, find_line-crlf}

abbrev holding : Bytes → ReadSshIdBuffer
holding chunk = record new_buffer { buf = chunk }

dropped :
    (chunk : Bytes) (i n : ℕ)
    → find_line 0 chunk ≡ (i, n)
    → n ≢ 0
    → take 8 chunk ≢ codes "SSH-2.0-"
    → handle_line (holding chunk) ≡ (new_buffer, false)
unfolding handle_line
dropped chunk i n found ne other =
    ground (arith, found, equal_iff (take 8 chunk) (codes "SSH-2.0-"))

-- A chunk that fits the buffer is read whole.
read_all_of :
    (fuel : ℕ) (chunk : Bytes) (chunks : List Bytes)
    → 1 ≤ length chunk
    → length chunk ≤ 256
    → handle_line (holding chunk) ≡ (new_buffer, false)
    → read_ssh_id (suc fuel) new_buffer (chunk ∷ chunks) ≡ read_ssh_id fuel new_buffer chunks
unfolding read_ssh_id
read_all_of fuel chunk chunks some_bytes fits e =
    let size : min (length chunk) 256 ≡ length chunk = omega arith in
    let nothing_left : ltb (length chunk) (length chunk) ≡ false = ground arith in
    let something : (length chunk == 0) ≡ false = ground arith in
    rw (size, nothing_left, something, take-all (length chunk) chunk (omega arith), e) refl

-- A line before the identification takes what was read with it: whatever other bytes came in the
-- same chunk, though they hold the identification, are dropped.
pub read_ssh_id_drops :
    (fuel : ℕ) (line more : Bytes) (chunks : List Bytes)
    → OneLine line
    → take 8 (line ++ (b'\r' ∷ b'\n' ∷ more)) ≢ codes "SSH-2.0-"
    → length line + 2 + length more ≤ 256
    → read_ssh_id (suc fuel) new_buffer ((line ++ (b'\r' ∷ b'\n' ∷ more)) ∷ chunks)
      ≡ read_ssh_id fuel new_buffer chunks
read_ssh_id_drops fuel line more chunks one other short =
    let chunk : Bytes = line ++ (b'\r' ∷ b'\n' ∷ more) in
    let size : length chunk ≡ length line + 2 + length more =
      omega (arith, length-append line (b'\r' ∷ b'\n' ∷ more)) in
    let found : find_line 0 chunk ≡ (length line, length line + 2) =
      find_line-crlf 0 line more one ∙ ground arith in
    read_all_of fuel chunk chunks (omega (arith, size)) (omega (arith, size))
      (dropped chunk (length line) (length line + 2) found (omega arith) other)
