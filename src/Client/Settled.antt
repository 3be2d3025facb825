-- ===== src/Client/Settled.antt =====
-- The state of a client's session between the rounds of its loop (src/client/mod.rs, `run`).
use thrussh_mod.Base.{
  ◌≡◌, refl, sym, ap, ◌∙◌, Bool, true, false, Option, none, some, List, [], ◌∷◌, ◌==◌, ltb, leb,
  length, drop, Bytes,
}
use thrussh_mod.Error.{Result, ok, err, panic, no_fuel}
use thrussh_mod.Error.Ensures.{
  Ensures, Ensures-ok, Ensures-panic, Ensures-no_fuel, Ensures-bind, Ensures-elim, Ensures-option,
}
use thrussh_mod.SshBuffer.{SshBuffer}
use thrussh_mod.Cipher
use thrussh_mod.Compression.{decompress}
use thrussh_mod.Encrypted.{
  EncryptedState, Encrypted, waiting_service_request, waiting_auth_request, init_compression,
  authenticated,
}
use thrussh_mod.CommonSession.{CommonSession, on_encrypted}
use thrussh_mod.ServerSession.{is_rekeying}
use thrussh_mod.ServerSession.Flush.{Moment}
use thrussh_mod.Client.{Session}
use thrussh_mod.Client.Commands.{serve_command}
use thrussh_mod.Client.Packets.{ClientEnv, client_flush, client_reply}
use thrussh_mod.Client.Loop.{
  ClientEvent, packet, command, ClientRunning, ClientRound, stops, goes_on, start_compress,
  client_end_round, client_serve_text, client_serve_buffer, client_round, client_rounds,
}
use thrussh_mod.Msg

-- The state in which compression is set up, where `client_read_encrypted` has `unreachable!()`
abbrev pub sets_up : EncryptedState → Bool
sets_up init_compression = true
sets_up (waiting_service_request sent accepted) = false
sets_up (waiting_auth_request a) = false
sets_up authenticated = false

abbrev pub setting_up : Option Encrypted → Bool
setting_up none = false
setting_up (some enc) = sets_up enc.state

abbrev pub Settled : CommonSession → Type 0
Settled s = setting_up s.encrypted ≡ false

abbrev SettledRound : {H KP K : Type 0} → ClientRound H KP K → Type 0
SettledRound stops = Unit {0}
SettledRound (goes_on r) = Settled r.session.common

started :
    (enc : Encrypted) (state : EncryptedState)
    → enc.state ≡ state
    → sets_up (start_compress enc state).state ≡ false
unfolding start_compress
started enc init_compression e = refl
started enc (waiting_service_request sent accepted) e = ap sets_up e
started enc (waiting_auth_request a) e = ap sets_up e
started enc authenticated e = ap sets_up e

all_started :
    (s : CommonSession) (o : Option Encrypted)
    → Settled (on_encrypted (λ enc. start_compress enc enc.state) (record s { encrypted = o }))
all_started s none = refl
all_started s (some enc) = started enc enc.state refl

module _ {H KP K : Type 0} (e : ClientEnv H KP K) (m : Moment) where
  end_round-Settled :
      (h : Option H) (s : Session KP K) (b : SshBuffer) (stream : Bytes)
      → Ensures SettledRound (client_end_round e m h s b stream)
  unfolding client_end_round
  end_round-Settled h s b stream = Ensures-bind (client_flush e m s.common) _ λ common ec.
      Ensures-ok _ (
        all_started (record common { write_buffer = record common.write_buffer { buffer = [] } })
          common.encrypted)

  serve_text-Settled :
      (h : Option H) (s : Session KP K) (b : SshBuffer) (stream text : Bytes)
      → Settled s.common
      → Ensures SettledRound (client_serve_text e m h s b stream text)
  unfolding client_serve_text
  serve_text-Settled h s b stream [] settled = Ensures-ok _ settled
  serve_text-Settled h s b stream (c ∷ text) settled =
      Ensures-elim (c == Msg.disconnect) _ _ (λ ed. Ensures-ok _ tt)
        λ ed.
          Ensures-elim (leb c 4) _ _ (λ el. Ensures-ok _ settled)
            λ el.
              Ensures-bind (client_reply e m h s (c ∷ text)) _
                λ (h', s') er. end_round-Settled h' s' b stream

  -- A case on a result, whose failures end the loop
  on_result :
      {A : Type 0} (r : Result A) (f : A → Result (ClientRound H KP K))
      → ((a : A) → r ≡ ok a → Ensures SettledRound (f a))
      → Ensures SettledRound
          (elim r [ ok a ↦ f a | err x ↦ ok stops | panic ↦ panic | no_fuel ↦ no_fuel ])
  on_result (ok a) f h = h a refl
  on_result (err x) f h = Ensures-ok _ tt
  on_result panic f h = Ensures-panic
  on_result no_fuel f h = Ensures-no_fuel

  serve_buffer-Settled :
      (h : Option H) (s : Session KP K) (b : SshBuffer) (stream : Bytes)
      → Settled s.common
      → Ensures SettledRound (client_serve_buffer e m h s b stream)
  unfolding client_serve_buffer
  serve_buffer-Settled h s b stream settled =
      Ensures-elim (ltb (length b.buffer) 5) _ _ (λ el. Ensures-ok _ tt)
        λ el.
          Ensures-option s.common.encrypted _ _
            (λ absent. serve_text-Settled h s b stream (drop 5 b.buffer) settled)
            λ enc present.
              on_result (decompress e.flate m.rounds enc.decompress (drop 5 b.buffer)) _
                λ r er. serve_text-Settled h _ b stream r.1 (sym (ap setting_up present) ∙ settled)

  round-Settled :
      (event : ClientEvent KP K) (r : ClientRunning H KP K)
      → Settled r.session.common
      → Ensures SettledRound (client_round e m event r)
  unfolding client_round
  round-Settled packet r settled =
      Ensures-elim r.session.common.disconnected _ _ (λ ed. Ensures-ok _ tt)
        λ ed.
          on_result (Cipher.read e.wire e.sodium r.stream r.buffer r.session.common.cipher) _
            λ x ex. serve_buffer-Settled r.handler r.session x.0.0 x.1 settled
  round-Settled (command o) r settled =
      Ensures-elim r.session.common.disconnected _ _ (λ ed. Ensures-ok _ tt)
        λ ed.
          Ensures-elim (is_rekeying r.session.common) _ _ (λ er. Ensures-ok _ settled)
            λ er.
              Ensures-option o _ _ (λ none_left. Ensures-ok _ tt)
                λ c ec.
                  Ensures-bind (serve_command e.wire e.sodium e.config e.keys c r.session) _
                    λ s es. end_round-Settled r.handler s r.buffer r.stream

  onwards :
      (next : ClientRound H KP K) (f : ClientRunning H KP K → Result (ClientRound H KP K))
      → SettledRound next
      → ((r' : ClientRunning H KP K) → Settled r'.session.common → Ensures SettledRound (f r'))
      → Ensures SettledRound (elim next [ stops ↦ ok stops | goes_on r' ↦ f r' ])
  onwards stops f settled h = Ensures-ok _ tt
  onwards (goes_on r') f settled h = h r' settled

  rounds-Settled :
      (events : List (ClientEvent KP K)) (r : ClientRunning H KP K)
      → Settled r.session.common
      → Ensures SettledRound (client_rounds e m events r)
  unfolding client_rounds
  rounds-Settled [] r settled = Ensures-ok _ settled
  rounds-Settled (event ∷ events) r settled = Ensures-bind (client_round e m event r) _ λ next en.
      onwards next (client_rounds e m events) ((round-Settled event r settled).at next en)
        (rounds-Settled events)

  -- The loop of a client, whatever packets and commands come, and whatever its handler does with the
  -- session: when it begins in a state other than the one in which compression is set up, then it is
  -- in another state after any number of rounds. A packet never meets the state for which the
  -- reading of packets has `unreachable!()`.
  pub client_rounds-Settled :
      (events : List (ClientEvent KP K)) (r r' : ClientRunning H KP K)
      → Settled r.session.common
      → client_rounds e m events r ≡ ok (goes_on r')
      → Settled r'.session.common
  client_rounds-Settled events r r' settled run =
      (rounds-Settled events r settled).at (goes_on r') run
