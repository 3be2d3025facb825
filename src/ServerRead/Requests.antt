-- ===== src/ServerRead/Requests.antt =====
-- `server_read_authenticated`, the requests on a channel.
use thrussh_mod.Base.{
  ℕ, zero, suc, ◌+◌, ◌*◌, true, false, not, Option, none, some, List, [], ◌∷◌, ◌==◌, ltb,
  if◌then◌else◌, length, take, drop, replicate, get_elem?, Bytes, codes, equal,
}
use thrussh_mod.Error.{Result, ok, panic, no_fuel, ◌>>=◌, ◌>>◌, unwrap}
use thrussh_mod.Wire.{Wire, read_string?, read_u32?, read_byte?}
use thrussh_mod.Codes.{from_name}
use thrussh_mod.Pty.{Pty, tty_op_end, from_u8}
use thrussh_mod.ServerAuth.{text?}
use thrussh_mod.ServerRead.{Call}

-- A write into an array, and the slice before an index; either panics past the end.
unfoldable pub set_elem {ℓ} : {A : Type ℓ} → List A → ℕ → A → Result (List A)
set_elem [] i a = panic
set_elem (x ∷ xs) zero a = ok (a ∷ xs)
set_elem (x ∷ xs) (suc i) a = do xs' ← set_elem xs i a; ok (x ∷ xs')

abbrev pub slice_to {ℓ} : {A : Type ℓ} → List A → ℕ → Result (List A)
slice_to xs i = if ltb (length xs) i then panic else ok (take i xs)

module _ (w : Wire) where
  -- A mode that is known is stored at `i`; for any other the array keeps its first value.
  unfoldable pub store_mode : List (Pty × ℕ) → ℕ → ℕ → Option Pty → Result (List (Pty × ℕ))
  unfolding set_elem
  store_mode modes i num none = ok modes
  store_mode modes i num (some p) = set_elem modes i (p, num)

  -- The loop over `mode_string`, from the mode of number `i` on; a mode takes five bytes.
  unfoldable pub modes_loop : ℕ → Bytes → ℕ → List (Pty × ℕ) → Result (List (Pty × ℕ))
  unfolding store_mode
  modes_loop zero mode_string i modes = no_fuel
  modes_loop (suc fuel) mode_string i modes = elim (ltb (5 * i) (length mode_string)) [
    | false ↦ slice_to modes i
    | true ↦ do
      code ← unwrap (get_elem? mode_string (5 * i))
      elim (code == 0) [
        | true ↦ slice_to modes i
        | false ↦ do
          num ← unwrap (w.read_u32_be (drop (5 * i + 1) mode_string))
          modes' ← store_mode modes i num (from_u8 code)
          modes_loop fuel mode_string (suc i) modes'
      ]
  ]

  -- The modes of a request, in an array of 130
  unfoldable pub read_modes : Bytes → Result (List (Pty × ℕ))
  unfolding modes_loop
  read_modes mode_string =
      modes_loop (suc (length mode_string)) mode_string 0 (replicate 130 (tty_op_end, 0))

  unfoldable pub read_pty_request : Bytes → ℕ → ℕ → Result Call
  unfolding read_modes
  read_pty_request buf r channel = do
    (term, r1) ← read_string? w buf r
    text? term
    (col_width, r2) ← read_u32? w buf r1
    (row_height, r3) ← read_u32? w buf r2
    (pix_width, r4) ← read_u32? w buf r3
    (pix_height, r5) ← read_u32? w buf r4
    (mode_string, r6) ← read_string? w buf r5
    modes ← read_modes mode_string
    ok (Call.pty_request channel term col_width row_height pix_width pix_height modes)

  unfoldable pub read_x11_request : Bytes → ℕ → ℕ → Result Call
  read_x11_request buf r channel = do
    (single, r1) ← read_byte? w buf r
    (x11_auth_protocol, r2) ← read_string? w buf r1
    text? x11_auth_protocol
    (x11_auth_cookie, r3) ← read_string? w buf r2
    text? x11_auth_cookie
    (x11_screen_number, r4) ← read_u32? w buf r3
    ok (
        Call.x11_request channel (not (single == 0)) x11_auth_protocol x11_auth_cookie
          x11_screen_number)

  unfoldable pub read_env_request : Bytes → ℕ → ℕ → Result Call
  read_env_request buf r channel = do
    (env_variable, r1) ← read_string? w buf r
    text? env_variable
    (env_value, r2) ← read_string? w buf r1
    text? env_value
    ok (Call.env_request channel env_variable env_value)

  unfoldable pub read_window_change : Bytes → ℕ → ℕ → Result Call
  read_window_change buf r channel = do
    (col_width, r1) ← read_u32? w buf r
    (row_height, r2) ← read_u32? w buf r1
    (pix_width, r3) ← read_u32? w buf r2
    (pix_height, r4) ← read_u32? w buf r3
    ok (Call.window_change_request channel col_width row_height pix_width pix_height)

  unfoldable pub read_signal : Bytes → ℕ → ℕ → Result Call
  read_signal buf r channel = do
    (zero_byte, r1) ← read_byte? w buf r
    (signal_name, r2) ← read_string? w buf r1
    sig ← from_name signal_name
    ok (Call.signal channel sig)

  -- The match on `req_type`: the call that the request asks for, or none for any other type.
  unfoldable pub read_request : (req_type buf : Bytes) → ℕ → ℕ → Result (Option Call)
  unfolding read_pty_request read_x11_request read_env_request read_window_change read_signal
  read_request req_type buf r channel =
      if equal req_type (codes "pty-req")
      then (do c ← read_pty_request buf r channel; ok (some c))
      else if equal req_type (codes "x11-req")
      then (do c ← read_x11_request buf r channel; ok (some c))
      else if equal req_type (codes "env")
      then (do c ← read_env_request buf r channel; ok (some c))
      else if equal req_type (codes "shell")
      then ok (some (Call.shell_request channel))
      else if equal req_type (codes "exec")
      then (do (req, r1) ← read_string? w buf r; ok (some (Call.exec_request channel req)))
      else if equal req_type (codes "subsystem")
      then (do
        (name, r1) ← read_string? w buf r
        text? name
        ok (some (Call.subsystem_request channel name)))
      else if equal req_type (codes "window-change")
      then (do c ← read_window_change buf r channel; ok (some c))
      else if equal req_type (codes "signal")
      then (do c ← read_signal buf r channel; ok (some c))
      else ok none
