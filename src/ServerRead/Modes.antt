-- ===== src/ServerRead/Modes.antt =====
-- The terminal modes of a `pty-req`.
use thrussh_mod.Base.{
  ℕ, zero, suc, ◌+◌, ◌*◌, ◌^◌, ◌≤◌, ◌<◌, ◌≡◌, refl, sym, ap, ◌∙◌, true, false, some, List, [], ◌∷◌,
  ◌++◌, append_assoc, append-nil, arith, ◌==◌, ltb, leb, if◌then◌else◌, length, drop, replicate,
  get_elem?, length-append, drop-append_of_length, take-append_of_length, Bytes,
}
use thrussh_mod.Error.{ok, panic, ◌>>=◌}
use thrussh_mod.Wire.{Wire}
use thrussh_mod.Pty.{Pty, tty_op_end, to_u8, from_u8}
use thrussh_mod.Codes.RoundTrips.{from_u8-to_u8}
use thrussh_mod.ClientSession.{modes_bytes}
use thrussh_mod.ServerRead.Requests.{set_elem, slice_to, store_mode, modes_loop, read_modes}

-- A mode that may stand in a list: not the end of one, and with a value of 32 bits
abbrev pub IsMode : Pty × ℕ → Type 0
IsMode (p, num) = ((to_u8 p == 0) ≡ false) × (num < 2 ^ 32)

abbrev pub AllModes : List (Pty × ℕ) → Type 0
AllModes [] = Unit {0}
AllModes (x ∷ xs) = IsMode x × AllModes xs

get_elem?-append {ℓ} :
    {A : Type ℓ} (pre : List A) (a : A) (post : List A) (n : ℕ)
    → length pre ≡ n
    → get_elem? (pre ++ (a ∷ post)) n ≡ some a
get_elem?-append [] a post n h = rw (← h) refl
get_elem?-append (x ∷ xs) a post zero h = absurd (omega arith)
get_elem?-append (x ∷ xs) a post (suc n) h = get_elem?-append xs a post n (omega arith)

set_elem-append {ℓ} :
    {A : Type ℓ} (pre : List A) (a b : A) (post : List A) (n : ℕ)
    → length pre ≡ n
    → set_elem (pre ++ (a ∷ post)) n b ≡ ok (pre ++ (b ∷ post))
unfolding set_elem
set_elem-append [] a b post n h = rw (← h) refl
set_elem-append (x ∷ xs) a b post zero h = absurd (omega arith)
set_elem-append (x ∷ xs) a b post (suc n) h = rw (set_elem-append xs a b post n (omega arith))

set_elem_end {ℓ} :
    {A : Type ℓ} (xs : List A) (n : ℕ) (b : A) → length xs ≤ n → set_elem xs n b ≡ panic
unfolding set_elem
set_elem_end [] n b h = refl
set_elem_end (x ∷ xs) zero b h = absurd (omega arith)
set_elem_end (x ∷ xs) (suc n) b h = rw (set_elem_end xs n b (omega arith))

module _ (w : Wire) where
  pub length-modes_bytes :
      (modes : List (Pty × ℕ)) → length (modes_bytes w modes) ≡ 5 * length modes
  length-modes_bytes [] = omega arith
  length-modes_bytes ((p, num) ∷ modes) = omega (
    arith,
    length-append (w.u32_be num) (modes_bytes w modes),
    w.length-u32_be num,
    length-modes_bytes modes,
  )

  loop_ends :
      (fuel : ℕ) (s : Bytes) (i : ℕ) (modes : List (Pty × ℕ))
      → ltb (5 * i) (length s) ≡ true
      → get_elem? s (5 * i) ≡ some 0
      → modes_loop w (suc fuel) s i modes ≡ slice_to modes i
  unfolding modes_loop
  loop_ends fuel s i modes more code = ground arith

  loop_stores :
      (fuel : ℕ) (s : Bytes) (i : ℕ) (modes : List (Pty × ℕ)) (p : Pty) (num : ℕ)
      → ltb (5 * i) (length s) ≡ true
      → get_elem? s (5 * i) ≡ some (to_u8 p)
      → (to_u8 p == 0) ≡ false
      → w.read_u32_be (drop (5 * i + 1) s) ≡ some num
      → modes_loop w (suc fuel) s i modes
        ≡ (set_elem modes i (p, num) >>= λ modes'. modes_loop w fuel s (suc i) modes')
  unfolding modes_loop store_mode
  loop_stores fuel s i modes p num more code known value =
      let read : from_u8 (to_u8 p) ≡ some p = from_u8-to_u8 p ∙ rw known in ground (arith, read)

  -- The text of the modes that are left, behind what was read
  abbrev ahead : Bytes → List (Pty × ℕ) → Bytes → Bytes
  ahead before modes rest = before ++ (modes_bytes w modes ++ (0 ∷ rest))

  ahead-next :
      (before : Bytes) (p : Pty) (num : ℕ) (modes : List (Pty × ℕ)) (rest : Bytes)
      → ahead before ((p, num) ∷ modes) rest ≡ ahead (before ++ (to_u8 p ∷ w.u32_be num)) modes rest
  ahead-next before p num modes rest = simp append_assoc

  -- The slice at the end of the loop, of an array with room for `room` more
  slice_done :
      (done : List (Pty × ℕ)) (i room : ℕ)
      → length done ≡ i
      → slice_to (done ++ replicate room (tty_op_end, 0)) i ≡ ok (done ++ [])
  slice_done done i room hd =
      let kept = take-append_of_length i done (replicate room (tty_op_end, 0)) hd in
      ground (arith, kept, append-nil done, length-append done (replicate room (tty_op_end, 0)))

  read_value :
      (before : Bytes) (p : Pty) (num : ℕ) (modes : List (Pty × ℕ)) (i : ℕ) (rest : Bytes)
      → length before ≡ 5 * i
      → num < 2 ^ 32
      → w.read_u32_be (drop (5 * i + 1) (ahead before ((p, num) ∷ modes) rest)) ≡ some num
  read_value before p num modes i rest hb small =
      ap w.read_u32_be (
        ap (drop (5 * i + 1))
          (regroup before (to_u8 p) (w.u32_be num) (modes_bytes w modes) (0 ∷ rest))
        ∙ drop-append_of_length (5 * i + 1) (before ++ (to_u8 p ∷ [])) _
            (omega (arith, length-append before (to_u8 p ∷ []))))
      ∙ w.read_u32_be-u32_be num (modes_bytes w modes ++ (0 ∷ rest)) small
    where
      regroup :
          (a : Bytes) (c : ℕ) (n b d : Bytes)
          → a ++ ((c ∷ (n ++ b)) ++ d) ≡ (a ++ (c ∷ [])) ++ (n ++ (b ++ d))
      regroup a c n b d = simp append_assoc

  -- The loop stands behind the modes `done`, in an array with room for `room` more.
  loop-modes_bytes :
      (fuel : ℕ) (before : Bytes) (done modes : List (Pty × ℕ)) (i room : ℕ) (rest : Bytes)
      → length before ≡ 5 * i
      → length done ≡ i
      → length modes < fuel
      → AllModes modes
      → modes_loop w fuel (ahead before modes rest) i (done ++ replicate room (tty_op_end, 0))
        ≡ (if leb (length modes) room then ok (done ++ modes) else panic)
  loop-modes_bytes zero before done modes i room rest hb hd hf all = absurd (omega arith)
  loop-modes_bytes (suc fuel) before done [] i room rest hb hd hf all =
      loop_ends fuel _ i _ (ground (arith, length-append before (0 ∷ rest)))
        (get_elem?-append before 0 rest (5 * i) hb)
      ∙ (slice_done done i room hd ∙ ground arith)
  loop-modes_bytes (suc fuel) before done ((p, num) ∷ modes) i room rest hb hd hf (mode, all) =
      loop_stores fuel (ahead before ((p, num) ∷ modes) rest) i _ p num
        (ground (arith, length-append before (modes_bytes w ((p, num) ∷ modes) ++ (0 ∷ rest))))
        (get_elem?-append before (to_u8 p) _ (5 * i) hb) mode.0
        (read_value before p num modes i rest hb mode.1)
      ∙ stored room (λ r.
        loop-modes_bytes fuel (before ++ (to_u8 p ∷ w.u32_be num)) (done ++ ((p, num) ∷ [])) modes
          (suc i) r rest
          (omega (arith, length-append before (to_u8 p ∷ w.u32_be num), w.length-u32_be num))
          (omega (arith, length-append done ((p, num) ∷ []))) (omega arith) all)
    where
      stored :
          (room : ℕ)
          → ((r : ℕ)
              → modes_loop w fuel
                  (ahead (before ++ (to_u8 p ∷ w.u32_be num)) modes rest)
                  (suc i)
                  ((done ++ ((p, num) ∷ [])) ++ replicate r (tty_op_end, 0))
                ≡ (if leb (length modes) r then ok ((done ++ ((p, num) ∷ [])) ++ modes) else panic))
          → (set_elem (done ++ replicate room (tty_op_end, 0)) i (p, num) >>= λ modes'.
              modes_loop w fuel (ahead before ((p, num) ∷ modes) rest) (suc i) modes')
            ≡ (if leb (suc (length modes)) room then ok (done ++ ((p, num) ∷ modes)) else panic)
      stored zero ih =
          rw (append-nil done, set_elem_end done i (p, num) (omega arith)) (ground arith)
      stored (suc r) ih =
          let array : List (Pty × ℕ) = replicate r (tty_op_end, 0) in
          rw
            (
              set_elem-append done (tty_op_end, 0) (p, num) array i hd,
              ahead-next before p num modes rest,
            )
            (ap (modes_loop w fuel (ahead (before ++ (to_u8 p ∷ w.u32_be num)) modes rest) (suc i))
                (sym (append_assoc done ((p, num) ∷ []) array))
              ∙ (ih r ∙ ground (arith, append_assoc done ((p, num) ∷ []) modes)))

  -- A list of modes, none of which is the end of a list, followed by that end: 130 modes or fewer are
  -- all read, in order and with their values; with more of them the server panics, whoever sends them.
  pub read_modes-modes_bytes :
      (modes : List (Pty × ℕ)) (rest : Bytes)
      → AllModes modes
      → read_modes w (modes_bytes w modes ++ (0 ∷ rest))
        ≡ (if leb (length modes) 130 then ok modes else panic)
  unfolding read_modes
  read_modes-modes_bytes modes rest all =
      loop-modes_bytes (suc (length (modes_bytes w modes ++ (0 ∷ rest)))) [] [] modes 0 130 rest
        (omega arith) (omega arith)
        (omega (arith, length-append (modes_bytes w modes) (0 ∷ rest), length-modes_bytes modes))
        all
