-- ===== src/SshRead/Lines.antt =====
-- Where a line of the stream ends.
use thrussh_mod.Base.{
  ℕ, zero, suc, ◌+◌, ◌≤◌, ◌≡◌, refl, sym, ap, ap₂, subst, ◌∙◌, ◌≢◌, true, false, List, [], ◌∷◌,
  ◌++◌, append_assoc, arith, length, take, length-append, take-append_of_length, Bytes, codes,
  equal_iff,
}
use thrussh_mod.SshRead.{ReadSshIdBuffer, find_line, handle_line}

abbrev pub concat : List Bytes → Bytes
concat [] = []
concat (c ∷ cs) = c ++ concat cs

abbrev pub NonEmpty : List Bytes → Type 0
NonEmpty [] = Unit
NonEmpty (c ∷ cs) = (1 ≤ length c) × NonEmpty cs

-- No byte of a text is the end of a line.
abbrev pub OneLine : Bytes → Type 0
OneLine [] = Unit
OneLine (b ∷ bs) = (b ≢ b'\n') × OneLine bs

abbrev pub crlf : Bytes
crlf = b'\r' ∷ b'\n' ∷ []

OneLine-take : (n : ℕ) (xs : Bytes) → OneLine xs → OneLine (take n xs)
OneLine-take zero xs h = tt
OneLine-take (suc n) [] h = tt
OneLine-take (suc n) (x ∷ xs) h = (h.0, OneLine-take n xs h.1)

OneLine-snoc : (xs : Bytes) → OneLine xs → OneLine (xs ++ b'\r' ∷ [])
OneLine-snoc [] h = ((λ e. cc), tt)
OneLine-snoc (x ∷ xs) h = (h.0, OneLine-snoc xs h.1)

find_line-OneLine : (i : ℕ) (xs : Bytes) → OneLine xs → (find_line i xs).1 ≡ 0
unfolding find_line
find_line-OneLine i [] h = refl
find_line-OneLine i (a ∷ []) h = refl
find_line-OneLine i (a ∷ b ∷ rest) h =
    ground (arith, h.1.0, find_line-OneLine (suc i) (b ∷ rest) h.1)

pub find_line-crlf :
    (i : ℕ) (line more : Bytes)
    → OneLine line
    → find_line i (line ++ b'\r' ∷ b'\n' ∷ more) ≡ (i + length line, i + length line + 2)
unfolding find_line
find_line-crlf i [] more h = ground arith
find_line-crlf i (a ∷ []) more h = ground (arith, find_line-crlf (suc i) [] more tt)
find_line-crlf i (a ∷ b ∷ line) more h =
    ground (arith, h.1.0, find_line-crlf (suc i) (b ∷ line) more h.1)

take-append_le : (n : ℕ) (xs ys : Bytes) → n ≤ length xs → take n (xs ++ ys) ≡ take n xs
take-append_le zero xs ys h = refl
take-append_le (suc n) [] ys h = absurd (omega arith)
take-append_le (suc n) (x ∷ xs) ys h = ap (◌∷◌ x) (take-append_le n xs ys (omega arith))

pub split_at :
    (xs ys zs ws : Bytes)
    → xs ++ ys ≡ zs ++ ws
    → length zs ≤ length xs
    → (more : Bytes) × (xs ≡ zs ++ more) × (more ++ ys ≡ ws)
split_at xs ys [] ws e h = (xs, refl, e)
split_at [] ys (z ∷ zs) ws e h = absurd (omega arith)
split_at (x ∷ xs) ys (z ∷ zs) ws e h =
    let tails : xs ++ ys ≡ zs ++ ws = cc in
    let (more, e1, e2) = split_at xs ys zs ws tails (omega arith) in
    (more, ap₂ ◌∷◌ (unit_eq x z e) e1, e2)
  where
    unit_eq : (a b : ℕ) → a ∷ (xs ++ ys) ≡ b ∷ (zs ++ ws) → a ≡ b
    unit_eq a b e = cc

-- A part of a stream that does not reach the end of its first line.
pub short-OneLine :
    (got left line more : Bytes)
    → got ++ left ≡ line ++ (b'\r' ∷ b'\n' ∷ more)
    → length got ≤ suc (length line)
    → OneLine line
    → OneLine got
short-OneLine got left line more e h one =
    subst OneLine
      (sym (
        sym (take-append_of_length (length got) got left refl)
        ∙ ap (take (length got)) (e ∙ sym (append_assoc line (b'\r' ∷ []) (b'\n' ∷ more)))
        ∙ take-append_le (length got) (line ++ b'\r' ∷ []) (b'\n' ∷ more)
            (omega (arith, length-append line (b'\r' ∷ [])))))
      (OneLine-take (length got) (line ++ b'\r' ∷ []) (OneLine-snoc line one))

pub handle_line-short : (b : ReadSshIdBuffer) → OneLine b.buf → handle_line b ≡ (b, false)
unfolding handle_line
handle_line-short b h = ground (arith, find_line-OneLine 0 b.buf h)

pub handle_line-long :
    (b : ReadSshIdBuffer) (line more : Bytes)
    → OneLine line
    → 8 ≤ length line
    → take 8 line ≡ codes "SSH-2.0-"
    → b.buf ≡ line ++ (b'\r' ∷ b'\n' ∷ more)
    → handle_line b
      ≡ (record { buf = b.buf; sshid_len = length line; bytes_read = length line + 2 }, true)
unfolding handle_line
handle_line-long b line more one long ssh e =
    let found : find_line 0 b.buf ≡ (length line, length line + 2) =
      rw e (find_line-crlf 0 line more one ∙ ground arith) in
    let begins : take 8 b.buf ≡ codes "SSH-2.0-" =
      rw e (take-append_le 8 line (b'\r' ∷ b'\n' ∷ more) long ∙ ssh) in
    ground (arith, found, begins, equal_iff (take 8 b.buf) (codes "SSH-2.0-"))
