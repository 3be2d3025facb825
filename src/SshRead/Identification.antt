-- ===== src/SshRead/Identification.antt =====
-- `read_ssh_id` on the stream of a peer that sends its identification first.
use thrussh_mod.Base.{
  ℕ, zero, suc, ◌+◌, ◌-◌, ◌≤◌, min, ◌≡◌, refl, sym, ap, subst, ◌∙◌, ◌≢◌, inl, inr, true, false,
  List, [], ◌∷◌, ◌++◌, append_assoc, arith, ltb, leb, if◌then◌else◌, leb→le, Bool-cases, length,
  take, drop, length-append, length-take, length-drop, take-append-drop, take-append_of_length,
  drop-append_of_length, take-all, Bytes, codes,
}
use thrussh_mod.Error.{Result, ok}
use thrussh_mod.SshRead.{ReadSshIdBuffer, new_buffer, id, handle_line, read_ssh_id}
use thrussh_mod.SshRead.Lines.{
  concat, NonEmpty, OneLine, crlf, handle_line-short, handle_line-long, short-OneLine, split_at,
}

-- The stream behind the first `n` bytes of a chunk.
abbrev pub rest_of : ℕ → Bytes → List Bytes → List Bytes
rest_of n chunk chunks = if ltb n (length chunk) then drop n chunk ∷ chunks else chunks

rest_of-concat :
    (n : ℕ) (chunk : Bytes) (chunks : List Bytes)
    → take n chunk ++ concat (rest_of n chunk chunks) ≡ chunk ++ concat chunks
rest_of-concat n chunk chunks = elim (Bool-cases (ltb n (length chunk))) [
  | inl part ↦ rw part (
      sym (append_assoc (take n chunk) (drop n chunk) (concat chunks))
      ∙ ap (λ x. x ++ concat chunks) (take-append-drop n chunk))
  | inr whole ↦ rw whole (ap (λ x. x ++ concat chunks) (take-all n chunk (ground arith)))
]

rest_of-NonEmpty :
    (n : ℕ) (chunk : Bytes) (chunks : List Bytes)
    → NonEmpty chunks
    → NonEmpty (rest_of n chunk chunks)
rest_of-NonEmpty n chunk chunks h = elim (Bool-cases (ltb n (length chunk))) [
  | inl part ↦ rw part (ground (arith, length-drop n chunk), h)
  | inr whole ↦ rw whole h
]

-- The bytes of one read, and the buffer with them.
abbrev amount : ReadSshIdBuffer → Bytes → ℕ
amount b chunk = min (length chunk) (256 - length b.buf)

abbrev filled : ReadSshIdBuffer → Bytes → ReadSshIdBuffer
filled b chunk = record b { buf = b.buf ++ take (amount b chunk) chunk }

read_found :
    (fuel : ℕ) (b h : ReadSshIdBuffer) (chunk : Bytes) (chunks : List Bytes)
    → amount b chunk ≢ 0
    → handle_line (filled b chunk) ≡ (h, true)
    → read_ssh_id (suc fuel) b (chunk ∷ chunks) ≡ ok (h, rest_of (amount b chunk) chunk chunks)
unfolding read_ssh_id
read_found fuel b h chunk chunks ne e = ground arith

read_on :
    (fuel : ℕ) (b : ReadSshIdBuffer) (chunk : Bytes) (chunks : List Bytes)
    → amount b chunk ≢ 0
    → handle_line (filled b chunk) ≡ (filled b chunk, false)
    → read_ssh_id (suc fuel) b (chunk ∷ chunks)
      ≡ read_ssh_id fuel (filled b chunk) (rest_of (amount b chunk) chunk chunks)
unfolding read_ssh_id
read_on fuel b chunk chunks ne e = ground arith

fewer :
    (b : ReadSshIdBuffer) (chunk : Bytes) (chunks : List Bytes) (fuel : ℕ)
    → amount b chunk ≢ 0
    → length (concat (chunk ∷ chunks)) ≤ suc fuel
    → length (concat (rest_of (amount b chunk) chunk chunks)) ≤ fuel
fewer b chunk chunks fuel ne f = omega (
  arith,
  ne,
  ap length (rest_of-concat (amount b chunk) chunk chunks),
  length-append (take (amount b chunk) chunk) (concat (rest_of (amount b chunk) chunk chunks)),
  length-take (amount b chunk) chunk,
)

module _ (line more : Bytes) (one : OneLine line) (long : 8 ≤ length line)
    (ssh : take 8 line ≡ codes "SSH-2.0-") (short : length line + 2 ≤ 256) where
  -- What the peer sends.
  abbrev whole : Bytes
  whole = line ++ (b'\r' ∷ b'\n' ∷ more)

  length-whole : length whole ≡ length line + 2 + length more
  length-whole = omega (arith, length-append line (b'\r' ∷ b'\n' ∷ more))

  -- The line, and that no byte behind it is lost.
  abbrev Identified : Result (ReadSshIdBuffer × List Bytes) → Type 0
  Identified r =
      (b : ReadSshIdBuffer) × (left : List Bytes) × (r ≡ ok (b, left))
      × (id b ≡ line)
      × (drop b.bytes_read b.buf ++ concat left ≡ more)

  found-Identified :
      (fuel : ℕ) (b : ReadSshIdBuffer) (chunk : Bytes) (chunks : List Bytes)
      → amount b chunk ≢ 0
      → (filled b chunk).buf ++ concat (rest_of (amount b chunk) chunk chunks) ≡ whole
      → length line + 2 ≤ length (filled b chunk).buf
      → Identified (read_ssh_id (suc fuel) b (chunk ∷ chunks))
  found-Identified fuel b chunk chunks ne e h =
      let (behind, e1, e2) =
        split_at (filled b chunk).buf (concat (rest_of (amount b chunk) chunk chunks))
          (line ++ crlf) more (e ∙ sym (append_assoc line crlf more))
          (omega (arith, length-append line crlf)) in
      let parts : (filled b chunk).buf ≡ line ++ (b'\r' ∷ b'\n' ∷ behind) =
        e1 ∙ append_assoc line crlf behind in
      (
        _,
        _,
        read_found fuel b _ chunk chunks ne
            (handle_line-long (filled b chunk) line behind one long ssh parts),
        ap (take (length line)) parts
            ∙ take-append_of_length (length line) line (b'\r' ∷ b'\n' ∷ behind) refl,
        ap (λ x. x ++ concat (rest_of (amount b chunk) chunk chunks))
              (ap (drop (length line + 2)) e1
                ∙ drop-append_of_length (length line + 2) (line ++ crlf) behind
                    (omega (arith, length-append line crlf)))
            ∙ e2,
      )

  read_on-Identified :
      (fuel : ℕ) (b : ReadSshIdBuffer) (chunks : List Bytes)
      → NonEmpty chunks
      → b.buf ++ concat chunks ≡ whole
      → length b.buf ≤ suc (length line)
      → length (concat chunks) ≤ fuel
      → Identified (read_ssh_id fuel b chunks)
  read_on-Identified zero b chunks ne e h f =
      absurd (omega (arith, length-append b.buf (concat chunks), ap length e, length-whole))
  read_on-Identified (suc fuel) b [] ne e h f =
      absurd (omega (arith, length-append b.buf [], ap length e, length-whole))
  read_on-Identified (suc fuel) b (chunk ∷ chunks) ne e h f =
      let some_bytes : amount b chunk ≢ 0 = omega (arith, ne.0) in
      let kept : (filled b chunk).buf ++ concat (rest_of (amount b chunk) chunk chunks) ≡ whole =
        append_assoc b.buf (take (amount b chunk) chunk)
          (concat (rest_of (amount b chunk) chunk chunks))
        ∙ ap (◌++◌ b.buf) (rest_of-concat (amount b chunk) chunk chunks)
        ∙ e in
      elim (Bool-cases (leb (length line + 2) (length (filled b chunk).buf))) [
        | inl enough ↦ found-Identified fuel b chunk chunks some_bytes kept (leb→le _ _ enough)
        | inr few ↦
            let fits : length (filled b chunk).buf ≤ suc (length line) = ground (arith, few) in
            subst Identified
              (sym (
                read_on fuel b chunk chunks some_bytes (
                  handle_line-short (filled b chunk) (
                    short-OneLine (filled b chunk).buf
                      (concat (rest_of (amount b chunk) chunk chunks)) line more kept fits one))))
              (read_on-Identified fuel (filled b chunk) (rest_of (amount b chunk) chunk chunks)
                (rest_of-NonEmpty (amount b chunk) chunk chunks ne.1) kept fits
                (fewer b chunk chunks fuel some_bytes f))
      ]

-- A peer that begins with a line `SSH-2.0-..` of at most 254 bytes and `\r\n`: however its stream is cut
-- into chunks, `read_ssh_id` returns, the line is the identification, and what stands in the buffer
-- behind the line and then in the stream is all that the peer sent after it.
pub read_ssh_id-Identified :
    (line more : Bytes) (chunks : List Bytes)
    → OneLine line
    → 8 ≤ length line
    → take 8 line ≡ codes "SSH-2.0-"
    → length line + 2 ≤ 256
    → NonEmpty chunks
    → concat chunks ≡ line ++ (b'\r' ∷ b'\n' ∷ more)
    → (b : ReadSshIdBuffer) × (left : List Bytes) × (read_ssh_id
          (length (concat chunks))
          new_buffer
          chunks
        ≡ ok (b, left))
      × (id b ≡ line)
      × (drop b.bytes_read b.buf ++ concat left ≡ more)
read_ssh_id-Identified line more chunks one long ssh short ne e =
    read_on-Identified line more one long ssh short (length (concat chunks)) new_buffer chunks ne e
      (omega arith) (omega arith)
