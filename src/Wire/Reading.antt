-- ===== src/Wire/Reading.antt =====
-- Reads of a message whose text is known: each finds its value, and goes on behind it.
use thrussh_mod.Base.{
  ℕ, suc, ◌+◌, ◌^◌, ◌<◌, ◌≡◌, refl, sym, subst, ◌∙◌, [], ◌∷◌, ◌++◌, append-nil, append_assoc, arith,
  length, length-append, Bytes,
}
use thrussh_mod.Error.{ok}
use thrussh_mod.Wire.{Wire, read_string?, read_u32?, read_byte?}

-- At position `pos` the buffer goes on with `rest`.
abbrev pub At : Bytes → ℕ → Bytes → Type 0
At buf pos rest = (pre : Bytes) × (buf ≡ pre ++ rest) × (pos ≡ length pre)

pub At-first : (b : ℕ) (rest : Bytes) → At (b ∷ rest) 1 rest
At-first b rest = (b ∷ [], refl, refl)

module _ (w : Wire) {buf : Bytes} {pos : ℕ} where
  pub reads_string :
      (s rest : Bytes)
      → At buf pos (w.ssh_string s ++ rest)
      → length s < 2 ^ 32
      → (next : ℕ) × (read_string? w buf pos ≡ ok (s, next)) × At buf next rest
  reads_string s rest (pre, e, p) fits = (
    length pre + length (w.ssh_string s),
    rw (e, p, w.read_string-ssh_string pre s rest fits),
    (
      pre ++ w.ssh_string s,
      e ∙ sym (append_assoc pre (w.ssh_string s) rest),
      sym (length-append pre (w.ssh_string s)),
    ),
  )

  pub reads_u32 :
      (n : ℕ) (rest : Bytes)
      → At buf pos (w.u32_be n ++ rest)
      → n < 2 ^ 32
      → (next : ℕ) × (read_u32? w buf pos ≡ ok (n, next)) × At buf next rest
  reads_u32 n rest (pre, e, p) fits = (
    length pre + 4,
    rw (e, p, w.read_u32-u32_be pre n rest fits),
    (
      pre ++ w.u32_be n,
      e ∙ sym (append_assoc pre (w.u32_be n) rest),
      omega (arith, length-append pre (w.u32_be n), w.length-u32_be n),
    ),
  )

  pub reads_byte :
      (b : ℕ) (rest : Bytes)
      → At buf pos (b ∷ rest)
      → (next : ℕ) × (read_byte? w buf pos ≡ ok (b, next)) × At buf next rest
  reads_byte b rest (pre, e, p) = (
    suc (length pre),
    rw (e, p, w.read_byte-cons pre b rest),
    (
      pre ++ (b ∷ []),
      e ∙ sym (append_assoc pre (b ∷ []) rest),
      omega (arith, length-append pre (b ∷ [])),
    ),
  )

  -- The last value of a message
  pub reads_string_last :
      (s : Bytes)
      → At buf pos (w.ssh_string s)
      → length s < 2 ^ 32
      → (next : ℕ) × (read_string? w buf pos ≡ ok (s, next))
  reads_string_last s at fits =
      let (next, e, further) =
        reads_string s [] (subst (At buf pos) (sym (append-nil (w.ssh_string s))) at) fits in
      (next, e)

  pub reads_u32_last :
      (n : ℕ)
      → At buf pos (w.u32_be n)
      → n < 2 ^ 32
      → (next : ℕ) × (read_u32? w buf pos ≡ ok (n, next))
  reads_u32_last n at fits =
      let (next, e, further) =
        reads_u32 n [] (subst (At buf pos) (sym (append-nil (w.u32_be n))) at) fits in
      (next, e)
