-- ===== src/Utf8.antt =====
-- `std::str::from_utf8` of the Rust standard library: which bytes are a text.
use thrussh_mod.Base.{
  ℕ, Bool, true, false, ◌&&◌, Option, none, some, List, [], ◌∷◌, ltb, leb, ◌==◌, if◌then◌else◌,
  Bytes,
}

-- The ranges of the bytes that must follow a first byte.
abbrev pub following : ℕ → Option (List (ℕ × ℕ))
following b =
    if ltb b 128
    then some []
    else if ltb b 194
    then none
    else if ltb b 224
    then some ((128, 191) ∷ [])
    else if b == 224
    then some ((160, 191) ∷ (128, 191) ∷ [])
    else if b == 237
    then some ((128, 159) ∷ (128, 191) ∷ [])
    else if ltb b 240
    then some ((128, 191) ∷ (128, 191) ∷ [])
    else if b == 240
    then some ((144, 191) ∷ (128, 191) ∷ (128, 191) ∷ [])
    else if ltb b 244
    then some ((128, 191) ∷ (128, 191) ∷ (128, 191) ∷ [])
    else if b == 244
    then some ((128, 143) ∷ (128, 191) ∷ (128, 191) ∷ [])
    else none

-- `due` are the ranges of the bytes that the last character still needs.
unfoldable pub utf8_from : List (ℕ × ℕ) → Bytes → Bool
utf8_from [] [] = true
utf8_from (range ∷ due) [] = false
utf8_from ((low, high) ∷ due) (b ∷ bs) =
    let more = utf8_from due bs in leb low b && (leb b high && more)
utf8_from [] (b ∷ bs) = elim (following b) [ none ↦ false | some due ↦ utf8_from due bs ]

unfoldable pub is_utf8 : Bytes → Bool
unfolding utf8_from
is_utf8 bs = utf8_from [] bs
