-- ===== src/Tests/SshReadTests.antt =====
-- src/ssh_read.rs: a stream that is cut into chunks.
use thrussh_mod.Base.{
  ◌≡◌, refl, some, List, [], ◌∷◌, ◌++◌, arith, length, drop, Bytes, codes, equal,
}
use thrussh_mod.Error.{ok}
use thrussh_mod.SshRead.{
  ReadSshIdBuffer, new_buffer, id, read_ssh_id, find_line, handle_line, poll_read,
}
use thrussh_mod.SshRead.Lines.{OneLine, concat}
use thrussh_mod.SshRead.Identification.{read_ssh_id-Identified}
use thrussh_mod.SshRead.Preliminary.{read_ssh_id_drops}

abbrev line : Bytes
line = codes "SSH-2.0-x"

abbrev chunks : List Bytes
chunks = codes "SSH-2" ∷ (codes ".0-x" ++ b'\r' ∷ []) ∷ (b'\n' ∷ 1 ∷ 2 ∷ []) ∷ (3 ∷ []) ∷ []

read_ssh_id-Identified_example :
    (b : ReadSshIdBuffer) × (left : List Bytes) × (read_ssh_id
        (length (concat chunks))
        new_buffer
        chunks
      ≡ ok (b, left))
    × (id b ≡ line)
    × (drop b.bytes_read b.buf ++ concat left ≡ 1 ∷ 2 ∷ 3 ∷ [])
read_ssh_id-Identified_example =
    read_ssh_id-Identified line (1 ∷ 2 ∷ 3 ∷ []) chunks line-OneLine (omega arith) refl
      (omega arith) (omega arith, (omega arith, (omega arith, (omega arith, tt)))) refl
  where
    line-OneLine : OneLine line
    line-OneLine = ground arith

abbrev identified : ReadSshIdBuffer
identified = record { buf = line ++ b'\r' ∷ b'\n' ∷ 1 ∷ 2 ∷ []; sshid_len = 9; bytes_read = 11 }

reads : read_ssh_id 9 new_buffer chunks ≡ ok (identified, (3 ∷ []) ∷ [])
unfolding read_ssh_id handle_line find_line equal
reads = refl

-- Then come the two bytes of the buffer, and then the stream.
polls :
    poll_read 8 (some identified) ((3 ∷ []) ∷ [])
    ≡ ok (1 ∷ 2 ∷ [], some (record identified { bytes_read = 13 }), (3 ∷ []) ∷ [])
unfolding poll_read
polls = refl

read_ssh_id_drops_example :
    read_ssh_id 4 new_buffer ((codes "hi" ++ (b'\r' ∷ b'\n' ∷ line)) ∷ chunks)
    ≡ read_ssh_id 3 new_buffer chunks
read_ssh_id_drops_example =
    read_ssh_id_drops 3 (codes "hi") line chunks
      ((λ e. absurd (omega arith)), ((λ e. absurd (omega arith)), tt)) (ground arith) (omega arith)
