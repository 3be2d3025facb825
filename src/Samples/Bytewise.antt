-- ===== src/Samples/Bytewise.antt =====
-- The encodings of RFC 4251: numbers in four bytes, the highest first; a string behind its length; a
-- list of names as the string of the names with commas.
use thrussh_mod.Base.{
  ℕ, suc, ◌+◌, ◌*◌, ◌/◌, ◌%◌, ◌^◌, ◌<◌, ◌≡◌, refl, ap, ◌∙◌, Option, none, some, [], ◌∷◌, ◌++◌,
  arith, leb, if◌then◌else◌, length, take, drop, length-append, take-append_of_length,
  drop-append_of_length, Bytes,
}
use thrussh_mod.Wire.{Wire, join}

abbrev bytes4 : ℕ → Bytes
bytes4 n = (n / 2 ^ 24 % 256) ∷ (n / 2 ^ 16 % 256) ∷ (n / 2 ^ 8 % 256) ∷ (n % 256) ∷ []

abbrev number : Bytes → Option ℕ
number (a ∷ b ∷ c ∷ d ∷ rest) = some (a * 2 ^ 24 + b * 2 ^ 16 + c * 2 ^ 8 + d)
number _ = none

pub number-bytes4 : (n : ℕ) (rest : Bytes) → n < 2 ^ 32 → number (bytes4 n ++ rest) ≡ some n
number-bytes4 n rest h = ap some (omega arith)

abbrev text : Bytes → Bytes
text s = bytes4 (length s) ++ s

abbrev cut : Bytes → ℕ → Option ℕ → Option (Bytes × ℕ)
cut body pos none = none
cut body pos (some n) = if leb n (length body) then some (take n body, pos + (4 + n)) else none

abbrev text_at : Bytes → ℕ → Option (Bytes × ℕ)
text_at buf pos = cut (drop 4 (drop pos buf)) pos (number (drop pos buf))

cut-append :
    (s post : Bytes) (pos m : ℕ)
    → m ≡ length s
    → cut (s ++ post) pos (some m) ≡ some (s, pos + length (text s))
cut-append s post pos m e =
    rw (e, take-append_of_length (length s) s post refl) (ground (arith, length-append s post))

pub text_at-text :
    (pre s post : Bytes)
    → length s < 2 ^ 32
    → text_at (pre ++ (text s ++ post)) (length pre) ≡ some (s, length pre + length (text s))
text_at-text pre s post h =
    rw (drop-append_of_length (length pre) pre (text s ++ post) refl)
      (cut-append s post (length pre) _ (omega arith))

abbrev and_after : Option ℕ → ℕ → Option (ℕ × ℕ)
and_after none pos = none
and_after (some n) pos = some (n, pos)

abbrev number_at : Bytes → ℕ → Option (ℕ × ℕ)
number_at buf pos = and_after (number (drop pos buf)) (pos + 4)

pub number_at-bytes4 :
    (pre : Bytes) (n : ℕ) (post : Bytes)
    → n < 2 ^ 32
    → number_at (pre ++ (bytes4 n ++ post)) (length pre) ≡ some (n, length pre + 4)
number_at-bytes4 pre n post h =
    ap (λ b. and_after (number b) (length pre + 4))
      (drop-append_of_length (length pre) pre (bytes4 n ++ post) refl)
    ∙ ap (λ m. and_after m (length pre + 4)) (number-bytes4 n post h)

abbrev first : Bytes → Option ℕ
first [] = none
first (b ∷ bs) = some b

abbrev byte_at : Bytes → ℕ → Option (ℕ × ℕ)
byte_at buf pos = and_after (first (drop pos buf)) (suc pos)

pub byte_at-cons :
    (pre : Bytes) (b : ℕ) (post : Bytes)
    → byte_at (pre ++ (b ∷ post)) (length pre) ≡ some (b, suc (length pre))
byte_at-cons pre b post =
    ap (λ m. and_after (first m) (suc (length pre)))
      (drop-append_of_length (length pre) pre (b ∷ post) refl)

pub bytes4-byte : (n : ℕ) → n < 256 → bytes4 n ≡ 0 ∷ 0 ∷ 0 ∷ n ∷ []
bytes4-byte n h = ground arith

cut-short : (body : Bytes) (pos n : ℕ) → length body < n → cut body pos (some n) ≡ none
cut-short body pos n h = ground arith

pub text_at-short :
    (pre : Bytes) (a b c d : ℕ) (rest : Bytes)
    → length rest < a * 2 ^ 24 + b * 2 ^ 16 + c * 2 ^ 8 + d
    → text_at (pre ++ (a ∷ b ∷ c ∷ d ∷ rest)) (length pre) ≡ none
text_at-short pre a b c d rest h =
    rw (drop-append_of_length (length pre) pre (a ∷ b ∷ c ∷ d ∷ rest) refl)
      (cut-short rest (length pre) _ h)

abbrev pub bytewise : Wire
bytewise = record {
  u32_be = bytes4;
  read_u32_be = number;
  ssh_string = text;
  name_list = λ names. text (join names);
  empty_list = text [];
  read_string = text_at;
  read_u32 = number_at;
  read_byte = byte_at;
  length-u32_be = λ n. refl;
  read_u32_be-u32_be = number-bytes4;
  ssh_string-u32_be = λ s h. refl;
  read_string-ssh_string = text_at-text;
  read_string-name_list = λ pre names post. text_at-text pre (join names) post;
  read_string-empty_list = λ pre post. text_at-text pre [] post (omega arith);
  read_u32-u32_be = number_at-bytes4;
  read_byte-cons = byte_at-cons;
  u32_be-byte = bytes4-byte;
  read_string-short = text_at-short;
}
