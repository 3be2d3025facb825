-- ===== src/Wire.antt =====
-- The byte encodings that the crate takes from elsewhere: `byteorder::BigEndian` and the
-- `Encoding` and `Reader` traits of `thrussh_keys::encoding`, as one interface with the laws that
-- the crate relies on. `push_packet!` is the macro of src/lib.rs.
pub mod Reading
use thrussh_mod.Base.{
  ℕ, suc, ◌+◌, ◌*◌, ◌%◌, ◌^◌, ◌<◌, ◌≡◌, Option, none, some, List, [], ◌∷◌, ◌++◌, Bytes, length,
}
use thrussh_mod.Error.{Result, ok_or, keys_index_out_of_bounds}

-- The text of a name list: the names, with a comma between each two.
abbrev pub join : List Bytes → Bytes
join [] = []
join (x ∷ []) = x
join (x ∷ y ∷ ys) = x ++ (b',' ∷ join (y ∷ ys))

-- A read returns the value and the position behind it; it fails past the end of the buffer.
pub record Wire : Type 0 where
  -- `write_u32`, `push_u32_be`, and `BigEndian::read_u32`, which panics on less than four bytes
  pub u32_be : ℕ → Bytes
  pub read_u32_be : Bytes → Option ℕ
  -- what `extend_ssh_string`, `extend_list` and `write_empty_list` append
  pub ssh_string : Bytes → Bytes
  pub name_list : List Bytes → Bytes
  pub empty_list : Bytes
  -- `Position::read_string`, `read_u32` and `read_byte`
  pub read_string : Bytes → ℕ → Option (Bytes × ℕ)
  pub read_u32 : Bytes → ℕ → Option (ℕ × ℕ)
  pub read_byte : Bytes → ℕ → Option (ℕ × ℕ)
  pub length-u32_be : (n : ℕ) → length (u32_be n) ≡ 4
  pub read_u32_be-u32_be :
      (n : ℕ) (rest : Bytes) → n < 2 ^ 32 → read_u32_be (u32_be n ++ rest) ≡ some n
  pub ssh_string-u32_be : (s : Bytes) → length s < 2 ^ 32 → ssh_string s ≡ u32_be (length s) ++ s
  pub read_string-ssh_string :
      (pre s post : Bytes)
      → length s < 2 ^ 32
      → read_string (pre ++ (ssh_string s ++ post)) (length pre)
        ≡ some (s, length pre + length (ssh_string s))
  pub read_string-name_list :
      (pre : Bytes) (names : List Bytes) (post : Bytes)
      → length (join names) < 2 ^ 32
      → read_string (pre ++ (name_list names ++ post)) (length pre)
        ≡ some (join names, length pre + length (name_list names))
  pub read_string-empty_list :
      (pre post : Bytes)
      → read_string (pre ++ (empty_list ++ post)) (length pre)
        ≡ some ([], length pre + length empty_list)
  pub read_u32-u32_be :
      (pre : Bytes) (n : ℕ) (post : Bytes)
      → n < 2 ^ 32
      → read_u32 (pre ++ (u32_be n ++ post)) (length pre) ≡ some (n, length pre + 4)
  pub read_byte-cons :
      (pre : Bytes) (b : ℕ) (post : Bytes)
      → read_byte (pre ++ (b ∷ post)) (length pre) ≡ some (b, suc (length pre))
  -- the highest byte of a number comes first
  pub u32_be-byte : (n : ℕ) → n < 256 → u32_be n ≡ 0 ∷ 0 ∷ 0 ∷ n ∷ []
  -- a string whose length says more than there is
  pub read_string-short :
      (pre : Bytes) (a b c d : ℕ) (rest : Bytes)
      → length rest < a * 2 ^ 24 + b * 2 ^ 16 + c * 2 ^ 8 + d
      → read_string (pre ++ (a ∷ b ∷ c ∷ d ∷ rest)) (length pre) ≡ none

-- The bytes that `push_packet!` appends for a body: its length, as a `u32`, and the body.
abbrev pub packet : Wire → Bytes → Bytes
packet w body = w.u32_be (length body % 2 ^ 32) ++ body

-- `push_packet!(buffer, body)`
unfoldable pub push_packet : Wire → Bytes → Bytes → Bytes
push_packet w buffer body = buffer ++ packet w body

-- A read with `?`, whose error is that of thrussh_keys.
abbrev pub read_string? : Wire → Bytes → ℕ → Result (Bytes × ℕ)
read_string? w buf pos = ok_or (w.read_string buf pos) keys_index_out_of_bounds

abbrev pub read_u32? : Wire → Bytes → ℕ → Result (ℕ × ℕ)
read_u32? w buf pos = ok_or (w.read_u32 buf pos) keys_index_out_of_bounds

abbrev pub read_byte? : Wire → Bytes → ℕ → Result (ℕ × ℕ)
read_byte? w buf pos = ok_or (w.read_byte buf pos) keys_index_out_of_bounds
