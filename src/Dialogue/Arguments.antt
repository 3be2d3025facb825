-- ===== src/Dialogue/Arguments.antt =====
-- The arguments of a client's request (src/client/session.rs), read by the server.
use thrussh_mod.Base.{
  ℕ, ◌+◌, ◌*◌, ◌%◌, ◌^◌, ◌≤◌, ◌<◌, ◌≡◌, refl, sym, ap, subst, ◌∙◌, Bool, true, false, not, some,
  List, [], ◌∷◌, ◌++◌, arith, ◌==◌, length, length-append, Bytes, codes, equal,
}
use thrussh_mod.Error.{ok}
use thrussh_mod.Wire.{Wire}
use thrussh_mod.Wire.Reading.{
  At, reads_string, reads_u32, reads_byte, reads_string_last, reads_u32_last,
}
use thrussh_mod.Utf8.{is_utf8}
use thrussh_mod.Pty.{Pty}
use thrussh_mod.ServerAuth.{text?}
use thrussh_mod.ClientSession.{
  Request, shell, pty, x11_forwarding, env, exec, subsystem, window_change, signal, request_kind,
  request_arguments, flag, modes_bytes,
}
use thrussh_mod.ServerRead.{Call}
use thrussh_mod.ServerRead.Requests.{
  read_request, read_pty_request, read_x11_request, read_env_request, read_window_change,
}
use thrussh_mod.ServerRead.Modes.{AllModes, read_modes-modes_bytes, length-modes_bytes}

-- A text that a message can hold
abbrev pub IsText : Bytes → Type 0
IsText s = (length s < 2 ^ 32) × (is_utf8 s ≡ true)

-- The requests whose arguments are read as they are sent. The arguments of a signal are not.
abbrev pub Fits : Request → Type 0
Fits shell = Unit {0}
Fits (pty term col_width row_height pix_width pix_height modes) =
    IsText term
    × (col_width < 2 ^ 32)
    × (row_height < 2 ^ 32)
    × (pix_width < 2 ^ 32)
    × (pix_height < 2 ^ 32)
    × AllModes modes
    × (length modes ≤ 130)
Fits (x11_forwarding single protocol cookie screen) =
    IsText protocol × IsText cookie × (screen < 2 ^ 32)
Fits (env variable_name variable_value) = IsText variable_name × IsText variable_value
Fits (exec command) = length command < 2 ^ 32
Fits (subsystem name) = IsText name
Fits (window_change col_width row_height pix_width pix_height) =
    (col_width < 2 ^ 32) × (row_height < 2 ^ 32) × (pix_width < 2 ^ 32) × (pix_height < 2 ^ 32)
Fits (signal sig) = ⊥

-- What the handler is asked about the channel `n`
abbrev pub call_of : ℕ → Request → Call
call_of n shell = Call.shell_request n
call_of n (pty term a b c d modes) = Call.pty_request n term a b c d modes
call_of n (x11_forwarding single protocol cookie screen) =
    Call.x11_request n single protocol cookie screen
call_of n (env variable_name variable_value) = Call.env_request n variable_name variable_value
call_of n (exec command) = Call.exec_request n command
call_of n (subsystem name) = Call.subsystem_request n name
call_of n (window_change a b c d) = Call.window_change_request n a b c d
call_of n (signal sig) = Call.signal n sig

pub is_text : (s : Bytes) → IsText s → text? s ≡ ok tt
is_text s (fits, utf8) = rw utf8

pub flag-not : (b : Bool) → not (flag b == 0) ≡ b
flag-not true = refl
flag-not false = refl

pub length-request_kind : (q : Request) → length (request_kind q) < 2 ^ 32
length-request_kind shell = omega arith
length-request_kind (pty a b c d e f) = omega arith
length-request_kind (x11_forwarding a b c d) = omega arith
length-request_kind (env a b) = omega arith
length-request_kind (exec a) = omega arith
length-request_kind (subsystem a) = omega arith
length-request_kind (window_change a b c d) = omega arith
length-request_kind (signal a) = omega arith

module _ (w : Wire) where
  -- The list of modes is written as a string is.
  modes_string :
      (modes : List (Pty × ℕ))
      → length modes ≤ 130
      → (length (modes_bytes w modes ++ (0 ∷ [])) < 2 ^ 32)
        × (w.u32_be ((1 + 5 * length modes) % 2 ^ 32) ++ (modes_bytes w modes ++ (0 ∷ []))
            ≡ w.ssh_string (modes_bytes w modes ++ (0 ∷ [])))
  modes_string modes few =
      let size : length (modes_bytes w modes ++ (0 ∷ [])) ≡ 1 + 5 * length modes =
        omega (arith, length-append (modes_bytes w modes) (0 ∷ []), length-modes_bytes w modes) in
      let small : length (modes_bytes w modes ++ (0 ∷ [])) < 2 ^ 32 = omega (arith, size) in
      (
        small,
        ap (λ k. w.u32_be k ++ (modes_bytes w modes ++ (0 ∷ []))) (omega (arith, size))
            ∙ sym (w.ssh_string-u32_be (modes_bytes w modes ++ (0 ∷ [])) small),
      )

module _ (w : Wire) {buf : Bytes} {r : ℕ} (n : ℕ) where
  reads_exec :
      (command : Bytes)
      → At buf r (request_arguments w (exec command))
      → length command < 2 ^ 32
      → read_request w (codes "exec") buf r n ≡ ok (some (Call.exec_request n command))
  unfolding read_request equal
  reads_exec command at fits = let (r1, e1) = reads_string_last w command at fits in rw e1

  reads_env :
      (a b : Bytes)
      → At buf r (request_arguments w (env a b))
      → Fits (env a b)
      → read_request w (codes "env") buf r n ≡ ok (some (Call.env_request n a b))
  unfolding read_request read_env_request equal
  reads_env a b at (fa, fb) =
      let (r1, e1, a1) = reads_string w a (w.ssh_string b) at fa.0 in
      let (r2, e2) = reads_string_last w b a1 fb.0 in rw (e1, is_text a fa, e2, is_text b fb)

  reads_subsystem :
      (name : Bytes)
      → At buf r (request_arguments w (subsystem name))
      → IsText name
      → read_request w (codes "subsystem") buf r n ≡ ok (some (Call.subsystem_request n name))
  unfolding read_request equal
  reads_subsystem name at fits =
      let (r1, e1) = reads_string_last w name at fits.0 in rw (e1, is_text name fits)

  reads_x11 :
      (single : Bool) (a b : Bytes) (screen : ℕ)
      → At buf r (request_arguments w (x11_forwarding single a b screen))
      → Fits (x11_forwarding single a b screen)
      → read_request w (codes "x11-req") buf r n ≡ ok (some (Call.x11_request n single a b screen))
  unfolding read_request read_x11_request equal
  reads_x11 single a b screen at (fa, fb, fits) =
      let (r1, e1, a1) =
        reads_byte w (flag single) (w.ssh_string a ++ (w.ssh_string b ++ w.u32_be screen)) at in
      let (r2, e2, a2) = reads_string w a (w.ssh_string b ++ w.u32_be screen) a1 fa.0 in
      let (r3, e3, a3) = reads_string w b (w.u32_be screen) a2 fb.0 in
      let (r4, e4) = reads_u32_last w screen a3 fits in
      rw (e1, e2, is_text a fa, e3, is_text b fb, e4, flag-not single)

  reads_window_change :
      (a b c d : ℕ)
      → At buf r (request_arguments w (window_change a b c d))
      → Fits (window_change a b c d)
      → read_request w (codes "window-change") buf r n
        ≡ ok (some (Call.window_change_request n a b c d))
  unfolding read_request read_window_change equal
  reads_window_change a b c d at (fa, fb, fc, fd) =
      let (r1, e1, a1) = reads_u32 w a (w.u32_be b ++ (w.u32_be c ++ w.u32_be d)) at fa in
      let (r2, e2, a2) = reads_u32 w b (w.u32_be c ++ w.u32_be d) a1 fb in
      let (r3, e3, a3) = reads_u32 w c (w.u32_be d) a2 fc in
      let (r4, e4) = reads_u32_last w d a3 fd in rw (e1, e2, e3, e4)

  reads_pty :
      (term : Bytes) (a b c d : ℕ) (modes : List (Pty × ℕ))
      → At buf r (request_arguments w (pty term a b c d modes))
      → Fits (pty term a b c d modes)
      → read_request w (codes "pty-req") buf r n ≡ ok (some (Call.pty_request n term a b c d modes))
  unfolding read_request read_pty_request equal
  reads_pty term a b c d modes at (ft, fa, fb, fc, fd, all, few) =
      let (small, same) = modes_string w modes few in
      let (r0, e0, a0) = reads_string w term _ at ft.0 in
      let (r1, e1, a1) = reads_u32 w a _ a0 fa in
      let (r2, e2, a2) = reads_u32 w b _ a1 fb in
      let (r3, e3, a3) = reads_u32 w c _ a2 fc in
      let (r4, e4, a4) = reads_u32 w d _ a3 fd in
      let (r5, e5) = reads_string_last w _ (subst (At buf r4) same a4) small in
      let modes_read = read_modes-modes_bytes w modes [] all in
      rw (e0, is_text term ft, e1, e2, e3, e4, e5, modes_read) (ground arith)

  -- The arguments of a request are read back.
  pub read_request-arguments :
      (q : Request)
      → At buf r (request_arguments w q)
      → Fits q
      → read_request w (request_kind q) buf r n ≡ ok (some (call_of n q))
  unfolding read_request equal
  read_request-arguments shell at fits = refl
  read_request-arguments (pty term a b c d modes) at fits = reads_pty term a b c d modes at fits
  read_request-arguments (x11_forwarding single a b c) at fits = reads_x11 single a b c at fits
  read_request-arguments (env a b) at fits = reads_env a b at fits
  read_request-arguments (exec a) at fits = reads_exec a at fits
  read_request-arguments (subsystem a) at fits = reads_subsystem a at fits
  read_request-arguments (window_change a b c d) at fits = reads_window_change a b c d at fits
  read_request-arguments (signal a) at fits = elim fits [ ]
