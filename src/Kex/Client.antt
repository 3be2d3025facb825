-- ===== src/Kex/Client.antt =====
-- src/client/kex.rs: the step of a key exchange on the client, and what it does.
use thrussh_mod.Base.{
  ◌≡◌, refl, sym, ap, subst, ◌⊎◌, inl, inr, true, false, Option, none, some, [], ◌++◌, length, take,
  drop, take-append_of_length, drop-append_of_length, Bytes,
}
use thrussh_mod.Error.{
  Error, Failure, thrussh, Result, ok, err, ◌>>=◌, AllOk, AllOk-ok, AllOk-err, AllOk-bind,
  AllOk-elim,
}
use thrussh_mod.Wire.{Wire}
use thrussh_mod.Sodium.{Sodium}
use thrussh_mod.SshBuffer.{SshBuffer}
use thrussh_mod.Cipher.{CipherPair}
use thrussh_mod.Cipher
use thrussh_mod.Negotiation.{Names, Preferred, read_kex, write_kex, client_select}
use thrussh_mod.Kex.{KexInit, KexDhDone}
use thrussh_mod.Kex.Derivation.{Primitives, client_dh}

module _ (w : Wire) (na : Sodium) (pr : Primitives) (preferred : Preferred)
    (cipher : CipherPair) where
  -- `KexInit::client_write`; `cookie` is what `rand_bytes` gives.
  unfoldable pub client_write : KexInit → Option Bytes → SshBuffer → Result (KexInit × SshBuffer)
  client_write self cookie out = do
    client_kex_init ← write_kex w preferred cookie []
    out' ← Cipher.write w na cipher client_kex_init out
    ok (
      record self {
        exchange = record self.exchange { client_kex_init = client_kex_init };
        sent = true;
      },
      out',
    )

  -- The KEXINIT of the client, if it has sent none.
  unfoldable pub send_init : KexInit → Option Bytes → SshBuffer → Result (KexInit × SshBuffer)
  unfolding client_write
  send_init self cookie out = elim self.sent [
    | true ↦ ok (self, out)
    | false ↦ client_write self cookie out
  ]

  -- The key of the client, built behind its KEXINIT and cut off there again.
  unfoldable pub send_dh :
      Names → KexInit → (random : Option Bytes) → SshBuffer → Result (KexDhDone × SshBuffer)
  send_dh algo self random out = do
    let i0 = length self.exchange.client_kex_init
    (kex, client_ephemeral, buffer) ← client_dh w pr random self.exchange.client_kex_init
    out' ← Cipher.write w na cipher (drop i0 buffer) out
    ok (
      record {
        exchange = record self.exchange {
          client_ephemeral = client_ephemeral;
          client_kex_init = take i0 buffer;
        };
        names = algo;
        kex = kex;
        key = 0;
        session_id = self.session_id;
      },
      out',
    )

  -- `KexInit::client_parse`; `random` is what `rand_bytes` gives for the secret.
  unfoldable pub client_parse :
      KexInit → (cookie random : Option Bytes) → Bytes → SshBuffer → Result (KexDhDone × SshBuffer)
  unfolding send_init send_dh
  client_parse self cookie random buf out = elim self.algo [
    | some algo ↦ err (thrussh Error.kex)
    | none ↦ do
      algo ← read_kex w client_select buf preferred
      (self', out1) ←
          send_init
            (record self {
              exchange = record self.exchange {
                server_kex_init = self.exchange.server_kex_init ++ buf;
              };
            })
            cookie out
      send_dh algo self' random out1
  ]

  -- The KEXINIT of the client: the one it has sent, or a new one that it sends first.
  abbrev pub Sent : KexInit → Option Bytes → SshBuffer → Bytes → SshBuffer → Type 0
  Sent self cookie out client_kex_init mid =
      ((self.sent ≡ true) × (client_kex_init ≡ self.exchange.client_kex_init) × (mid ≡ out))
      ⊎ ((self.sent ≡ false)
          × (write_kex w preferred cookie [] ≡ ok client_kex_init)
          × (Cipher.write w na cipher client_kex_init out ≡ ok mid))

  -- The state and the packets after the KEXINIT of the server.
  abbrev pub Answered :
      KexInit → (cookie random : Option Bytes) → Bytes → SshBuffer → KexDhDone × SshBuffer → Type 0
  Answered self cookie random buf out (d, out') =
      (mid : SshBuffer) × (message : Bytes) × (self.algo ≡ none)
      × (read_kex w client_select buf preferred ≡ ok d.names)
      × (d.exchange.server_kex_init ≡ self.exchange.server_kex_init ++ buf)
      × (d.session_id ≡ self.session_id)
      × Sent self cookie out d.exchange.client_kex_init mid
      × (client_dh w pr random [] ≡ ok (d.kex, d.exchange.client_ephemeral, message))
      × (Cipher.write w na cipher message mid ≡ ok out')

  client_dh-behind :
      (random : Option Bytes) (start : Bytes)
      → AllOk
          (λ r.
            (client_dh w pr random [] ≡ ok (r.0, r.1, drop (length start) r.2))
            × (take (length start) r.2 ≡ start))
          (client_dh w pr random start)
  unfolding client_dh
  client_dh-behind none start = AllOk-err _ _
  client_dh-behind (some s) start = AllOk-ok _ _ (
    ap (λ m. ok (record { local_secret = some s; shared_secret = none }, pr.scalarmult_base s, m))
        (sym (drop-append_of_length _ start _ refl)),
    take-append_of_length _ start _ refl,
  )

  AllOk-absent :
      {A : Type 0} (P : A → Type 0) (o : Option Names) (x : Failure) (m : Result A)
      → ((o ≡ none) → AllOk P m)
      → AllOk P (elim o [ some algo ↦ err x | none ↦ m ])
  AllOk-absent P none x m h = h refl
  AllOk-absent P (some algo) x m h = AllOk-err _ _

  send_init-kept :
      (self : KexInit) (cookie : Option Bytes) (out : SshBuffer)
      → AllOk
          (λ r.
            Sent self cookie out r.0.exchange.client_kex_init r.1
            × (r.0.exchange.server_kex_init ≡ self.exchange.server_kex_init)
            × (r.0.session_id ≡ self.session_id))
          (send_init self cookie out)
  unfolding send_init client_write
  send_init-kept self cookie out =
      AllOk-elim _ self.sent _ _ (λ e. AllOk-ok _ _ (inl (e, refl, refl), refl, refl))
        λ e. AllOk-bind _ (write_kex w preferred cookie []) _ λ x e1.
          AllOk-bind _ (Cipher.write w na cipher x out) _
            λ out' e2. AllOk-ok _ _ (inr (e, e1, e2), refl, refl)

  parsed-Answered :
      (self : KexInit) (cookie random : Option Bytes) (buf : Bytes) (out : SshBuffer)
      → AllOk (Answered self cookie random buf out) (client_parse self cookie random buf out)
  unfolding client_parse send_dh
  parsed-Answered self cookie random buf out = AllOk-absent _ self.algo _ _ λ fresh.
      AllOk-bind _ (read_kex w client_select buf preferred) _ λ algo e1.
        AllOk-bind _
          (send_init
            (record self {
              exchange = record self.exchange {
                server_kex_init = self.exchange.server_kex_init ++ buf;
              };
            })
            cookie out)
          _
          λ r e2.
            let (sent, server, session) = send_init-kept _ cookie out r e2 in
            AllOk-bind _ (client_dh w pr random r.0.exchange.client_kex_init) _ λ x e3.
              let (dh, before) = client_dh-behind random _ x e3 in
              AllOk-bind _
                (Cipher.write w na cipher (drop (length r.0.exchange.client_kex_init) x.2) r.1) _
                λ out' e4. AllOk-ok _ _ (
                  r.1,
                  drop (length r.0.exchange.client_kex_init) x.2,
                  fresh,
                  e1,
                  server,
                  session,
                  subst (λ c. Sent self cookie out c r.1) (sym before) sent,
                  dh,
                  e4,
                )

  -- The answer of the client to the KEXINIT of the server, where it succeeds: this side had not begun
  -- from a message of the server before; the names are those that `read_kex` chose, the message is
  -- recorded behind what was recorded, and the session is the same. The KEXINIT of the client is the
  -- one it had sent, or else a new one, which is sent first; behind it goes the message that
  -- `client_dh` makes, of which nothing is left in the record of the client's KEXINIT.
  pub client_parse-Answered :
      (self : KexInit) (cookie random : Option Bytes) (buf : Bytes) (out : SshBuffer)
      (d : KexDhDone) (out' : SshBuffer)
      → client_parse self cookie random buf out ≡ ok (d, out')
      → Answered self cookie random buf out (d, out')
  client_parse-Answered self cookie random buf out d out' =
      parsed-Answered self cookie random buf out (d, out')
