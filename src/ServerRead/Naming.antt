-- ===== src/ServerRead/Naming.antt =====
-- The call that a request asks for is about the channel of the request.
use thrussh_mod.Base.{ℕ, ◌≡◌, refl, Option, none, some, Bytes, codes, equal}
use thrussh_mod.Error.{Result, ok, ◌>>=◌}
use thrussh_mod.Error.Ensures.{Ensures, Ensures-if, Ensures-ok, Ensures-bind, ensures_rules}
use thrussh_mod.Wire.{Wire, read_string?}
use thrussh_mod.ServerAuth.{text?}
use thrussh_mod.ServerRead.{Call}
use thrussh_mod.ServerRead.Requests.{
  read_request, read_pty_request, read_x11_request, read_env_request, read_window_change,
  read_signal,
}

-- The channel that a call is about
abbrev pub channel_of : Call → ℕ
channel_of (Call.channel_close channel) = channel
channel_of (Call.channel_eof channel) = channel
channel_of (Call.shell_request channel) = channel
channel_of (Call.channel_data channel content) = channel
channel_of (Call.extended_data channel code content) = channel
channel_of (Call.window_adjusted channel new_size) = channel
channel_of (Call.pty_request channel term a b c d modes) = channel
channel_of (Call.x11_request channel single a b c) = channel
channel_of (Call.env_request channel a b) = channel
channel_of (Call.exec_request channel a) = channel
channel_of (Call.subsystem_request channel a) = channel
channel_of (Call.window_change_request channel a b c d) = channel
channel_of (Call.signal channel a) = channel
channel_of (Call.channel_open_session channel) = channel
channel_of (Call.channel_open_x11 channel a b) = channel
channel_of (Call.channel_open_direct_tcpip channel a b c d) = channel

abbrev pub IsAbout : ℕ → Option Call → Type 0
IsAbout n none = Unit
IsAbout n (some c) = channel_of c ≡ n

module _ (w : Wire) where
  requested :
      (n : ℕ) (c : Result Call)
      → Ensures (λ c. channel_of c ≡ n) c
      → Ensures (IsAbout n) (c >>= λ c. ok (some c))
  requested n c h = Ensures-bind c _ λ c e. Ensures-ok _ (h.at c e)

  read_pty_request-about :
      (buf : Bytes) (r n : ℕ) → Ensures (λ c. channel_of c ≡ n) (read_pty_request w buf r n)
  unfolding read_pty_request
  read_pty_request-about buf r n = search ensures_rules depth 16

  read_x11_request-about :
      (buf : Bytes) (r n : ℕ) → Ensures (λ c. channel_of c ≡ n) (read_x11_request w buf r n)
  unfolding read_x11_request
  read_x11_request-about buf r n = search ensures_rules depth 16

  read_env_request-about :
      (buf : Bytes) (r n : ℕ) → Ensures (λ c. channel_of c ≡ n) (read_env_request w buf r n)
  unfolding read_env_request
  read_env_request-about buf r n = search ensures_rules

  read_window_change-about :
      (buf : Bytes) (r n : ℕ) → Ensures (λ c. channel_of c ≡ n) (read_window_change w buf r n)
  unfolding read_window_change
  read_window_change-about buf r n = search ensures_rules

  read_signal-about :
      (buf : Bytes) (r n : ℕ) → Ensures (λ c. channel_of c ≡ n) (read_signal w buf r n)
  unfolding read_signal
  read_signal-about buf r n = search ensures_rules

  pub read_request-IsAbout :
      (req_type buf : Bytes) (r n : ℕ) → Ensures (IsAbout n) (read_request w req_type buf r n)
  unfolding read_request
  read_request-IsAbout req_type buf r n =
      Ensures-if (equal req_type (codes "pty-req")) _ _
        (λ e. requested n _ (read_pty_request-about buf r n))
        λ e.
          Ensures-if (equal req_type (codes "x11-req")) _ _
            (λ e. requested n _ (read_x11_request-about buf r n))
            λ e.
              Ensures-if (equal req_type (codes "env")) _ _
                (λ e. requested n _ (read_env_request-about buf r n))
                λ e.
                  Ensures-if (equal req_type (codes "shell")) _ _ (λ e. Ensures-ok _ refl)
                    λ e.
                      Ensures-if (equal req_type (codes "exec")) _ _
                        (λ e. Ensures-bind (read_string? w buf r) _ λ x e. Ensures-ok _ refl)
                        λ e.
                          Ensures-if (equal req_type (codes "subsystem")) _ _
                            (λ e.
                              Ensures-bind (read_string? w buf r) _
                                λ x e. Ensures-bind (text? x.0) _ λ t e. Ensures-ok _ refl)
                            λ e.
                              Ensures-if (equal req_type (codes "window-change")) _ _
                                (λ e. requested n _ (read_window_change-about buf r n))
                                λ e.
                                  Ensures-if (equal req_type (codes "signal")) _ _
                                    (λ e. requested n _ (read_signal-about buf r n))
                                    λ e. Ensures-ok _ tt
