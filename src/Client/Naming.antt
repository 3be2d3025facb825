-- ===== src/Client/Naming.antt =====
-- The call that a request of the server asks for is about the channel of the request.
use thrussh_mod.Base.{ℕ, ◌≡◌, refl, Option, none, some, Bytes, codes, equal}
use thrussh_mod.Error.Ensures.{Ensures, Ensures-ok, Ensures-bind, Ensures-if, ensures_rules}
use thrussh_mod.Wire.{Wire, read_u32?, read_byte?}
use thrussh_mod.ClientSession.{ClientConfig}
use thrussh_mod.Client.{ClientHandler, Call}
use thrussh_mod.Client.Channels.{read_forwarded, read_exit_signal, read_request_kind}

-- A call about the channel `n` of this side. A channel that the server wants to open has no number of
-- this side yet, and a banner belongs to none.
abbrev pub Concerns : ℕ → Call → Type 0
Concerns n (Call.auth_banner banner) = ⊥
Concerns n (Call.channel_open_confirmation k a b) = k ≡ n
Concerns n (Call.channel_close k) = k ≡ n
Concerns n (Call.channel_eof k) = k ≡ n
Concerns n (Call.channel_success k) = k ≡ n
Concerns n (Call.channel_open_failure k a b c) = k ≡ n
Concerns n (Call.channel_data k a) = k ≡ n
Concerns n (Call.extended_data k a b) = k ≡ n
Concerns n (Call.channel_open_forwarded_tcpip k a b c d) = k ≡ n
Concerns n (Call.channel_open_forwarded_tcpip_client k a b c d e f) = ⊥
Concerns n (Call.xon_xoff k a) = k ≡ n
Concerns n (Call.exit_status k a) = k ≡ n
Concerns n (Call.exit_signal k a b c d) = k ≡ n
Concerns n (Call.window_adjusted k a) = k ≡ n

abbrev pub IsOpening : Call → Type 0
IsOpening (Call.channel_open_forwarded_tcpip_client k a b c d e f) = Unit {0}
IsOpening _ = ⊥

abbrev pub ConcernsIf : ℕ → Option Call → Type 0
ConcernsIf n none = Unit {0}
ConcernsIf n (some c) = Concerns n c

module _ {H KP K : Type 0} (handler : ClientHandler H KP K) (w : Wire) (config : ClientConfig)
    (buf : Bytes) where
  forwarded-about : (r n : ℕ) → Ensures (Concerns n) (read_forwarded handler w config buf r n)
  unfolding read_forwarded
  forwarded-about r n = search ensures_rules depth 16

  exit_signal-about : (r n : ℕ) → Ensures (Concerns n) (read_exit_signal handler w config buf r n)
  unfolding read_exit_signal
  exit_signal-about r n = search ensures_rules depth 20

  pub request_kind-about :
      (req : Bytes) (r n : ℕ)
      → Ensures (ConcernsIf n) (read_request_kind handler w config req buf r n)
  unfolding read_request_kind
  request_kind-about req r n =
      Ensures-if (equal req (codes "forwarded_tcpip")) _ _
        (λ e.
          Ensures-bind (read_forwarded handler w config buf r n) _
            λ c e1. Ensures-ok _ ((forwarded-about r n).at c e1))
        λ e.
          Ensures-if (equal req (codes "xon-xoff")) _ _
            (λ e.
              Ensures-bind (read_byte? w buf r) _
                λ x e1. Ensures-bind (read_byte? w buf x.1) _ λ y e2. Ensures-ok _ refl)
            λ e.
              Ensures-if (equal req (codes "exit-status")) _ _
                (λ e.
                  Ensures-bind (read_byte? w buf r) _
                    λ x e1. Ensures-bind (read_u32? w buf x.1) _ λ y e2. Ensures-ok _ refl)
                λ e.
                  Ensures-if (equal req (codes "exit-signal")) _ _
                    (λ e.
                      Ensures-bind (read_exit_signal handler w config buf r n) _
                        λ c e1. Ensures-ok _ ((exit_signal-about r n).at c e1))
                    λ e. Ensures-ok _ tt
