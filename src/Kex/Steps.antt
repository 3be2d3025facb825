-- ===== src/Kex/Steps.antt =====
-- The first step of the server's key exchange, `KexInit::server_parse` of src/server/kex.rs.
use thrussh_mod.Base.{
  ℕ, suc, ◌+◌, ◌≡◌, ◌≢◌, refl, sym, subst, ◌∙◌, inl, inr, true, false, Option, none, some, List, [],
  ◌∷◌, ◌++◌, arith, ◌==◌, Bool-cases, get_elem?, Bytes, equal, equal_iff,
}
use thrussh_mod.Error.{
  Result, ok, err, panic, no_fuel, AllOk, AllOk-ok, AllOk-bind, AllOk-elim, ok_or, Error, Failure,
  thrussh,
}
use thrussh_mod.Wire.{Wire}
use thrussh_mod.Sodium.{Sodium}
use thrussh_mod.SshBuffer.{SshBuffer}
use thrussh_mod.Cipher.{CipherPair}
use thrussh_mod.Cipher
use thrussh_mod.Negotiation.{read_kex, write_kex, server_select}
use thrussh_mod.ServerConfig.{ServerConfig}
use thrussh_mod.Kex.{Kex, kex_init, kex_dh, kex_dh_done, new_keys, KexInit, KexDh}
use thrussh_mod.Kex.Derivation.{Primitives}
use thrussh_mod.Kex.Server.{HostKeys, find_key, server_write, answer_init, server_parse}
use thrussh_mod.Msg

ok_or-eq-ok {ℓ} : {A : Type ℓ} (o : Option A) (x : Failure) (a : A) → ok_or o x ≡ ok a → o ≡ some a
ok_or-eq-ok none x a e = cc
ok_or-eq-ok (some b) x a e = cc

module _ {KP : Type 0} (host : HostKeys KP) where
  -- The key of number `i`, counted from `from`, has the name.
  abbrev pub HasName : Bytes → List KP → ℕ → Type 0
  HasName name keys i = (k : KP) × (get_elem? keys i ≡ some k) × (host.name k ≡ name)

  find_key-HasName :
      (name : Bytes) (from : ℕ) (keys : List KP) (i : ℕ)
      → find_key host name from keys ≡ some i
      → (n : ℕ) × (i ≡ from + n) × HasName name keys n
  unfolding find_key
  find_key-HasName name from [] i e = cc
  find_key-HasName name from (k ∷ ks) i e = elim (Bool-cases (equal (host.name k) name)) [
    | inl same ↦ (0, ground arith, (k, refl, (equal_iff (host.name k) name).0 same))
    | inr other ↦
        let further : find_key host name (suc from) ks ≡ some i = ground arith in
        let (n, e1, (k', e2, e3)) = find_key-HasName name (suc from) ks i further in
        (suc n, omega (arith, e1), (k', e2, e3))
  ]

  module _ (w : Wire) (na : Sodium) (pr : Primitives) (config : ServerConfig) (keys : List KP)
      (cipher : CipherPair) where
    -- After a KEXINIT of the client: the names are those that `read_kex` chose, the host key is one of
    -- the chosen name, the client's message is recorded behind what was recorded before, and the session
    -- is still the same.
    abbrev pub Chosen : KexInit → Bytes → KexDh → Type 0
    Chosen self buf d =
        (read_kex w server_select buf config.preferred ≡ ok d.names)
        × HasName d.names.key keys d.key
        × (d.exchange.client_kex_init ≡ self.exchange.client_kex_init ++ buf)
        × (d.session_id ≡ self.session_id)

    -- What comes of a message with the first byte `b`: only a KEXINIT changes anything, leads to the
    -- second state or fails.
    abbrev pub Parsed :
        KexInit → (b : ℕ) → (payload : Bytes) → SshBuffer → Result (Kex × SshBuffer) → Type 0
    Parsed self b payload out (ok (kex_dh d, out')) =
        (b ≡ Msg.kexinit) × Chosen self (b ∷ payload) d
    Parsed self b payload out (ok (kex_init self', out')) =
        (b ≢ Msg.kexinit) × (self' ≡ self) × (out' ≡ out)
    Parsed self b payload out (ok _) = ⊥
    Parsed self b payload out _ = b ≡ Msg.kexinit

    -- A result of the first state on a KEXINIT
    abbrev Begun : KexInit → Bytes → Kex × SshBuffer → Type 0
    Begun self buf (kex_dh d, out) = Chosen self buf d
    Begun self buf _ = ⊥

    answer_init-kept :
        (self : KexInit) (cookie : Option Bytes) (out : SshBuffer)
        → AllOk
            (λ r.
              (r.0.exchange.client_kex_init ≡ self.exchange.client_kex_init)
              × (r.0.session_id ≡ self.session_id))
            (answer_init host w na pr config keys cipher self cookie out)
    unfolding answer_init server_write
    answer_init-kept self cookie out =
        AllOk-elim _ self.sent _ _ (λ e. AllOk-ok _ _ (refl, refl))
          λ e. AllOk-bind _ (write_kex w config.preferred cookie []) _ λ x e1.
            AllOk-bind _ (Cipher.write w na cipher x out) _ λ out' e2. AllOk-ok _ _ (refl, refl)

    named : (name : Bytes) (key : ℕ) → find_key host name 0 keys ≡ some key → HasName name keys key
    named name key e =
        let (n, e1, has) = find_key-HasName name 0 keys key e in
        subst (HasName name keys) (sym (e1 ∙ ground arith)) has

    init-Begun :
        (self : KexInit) (cookie : Option Bytes) (b : ℕ) (payload : Bytes) (out : SshBuffer)
        → (b == Msg.kexinit) ≡ true
        → AllOk
            (Begun self (b ∷ payload))
            (server_parse host w na pr config keys cipher self cookie (b ∷ payload) out)
    unfolding server_parse
    init-Begun self cookie b payload out init =
        AllOk-elim _ (b == Msg.kexinit) _ _
          (λ init.
            AllOk-bind _ (read_kex w server_select (b ∷ payload) config.preferred) _ λ algo e1.
              AllOk-bind _
                (answer_init host w na pr config keys cipher
                  (record self {
                    exchange = record self.exchange {
                      client_kex_init = self.exchange.client_kex_init ++ (b ∷ payload);
                    };
                  })
                  cookie out)
                _
                λ r e2.
                  AllOk-bind _ (ok_or (find_key host algo.key 0 keys) (thrussh Error.unknown_key)) _
                    λ key e3. AllOk-ok _ _ (
                      e1,
                      named algo.key key (ok_or-eq-ok _ _ key e3),
                      (answer_init-kept _ cookie out r e2).0,
                      (answer_init-kept _ cookie out r e2).1,
                    ))
          λ other. cc

    other_kept :
        (self : KexInit) (cookie : Option Bytes) (b : ℕ) (payload : Bytes) (out : SshBuffer)
        → (b == Msg.kexinit) ≡ false
        → server_parse host w na pr config keys cipher self cookie (b ∷ payload) out
          ≡ ok (kex_init self, out)
    unfolding server_parse
    other_kept self cookie b payload out other = rw (server_parse, other) refl

    Begun-Parsed :
        (self : KexInit) (b : ℕ) (payload : Bytes) (out : SshBuffer) (r : Result (Kex × SshBuffer))
        → b ≡ Msg.kexinit
        → AllOk (Begun self (b ∷ payload)) r
        → Parsed self b payload out r
    Begun-Parsed self b payload out (ok (kex_dh d, out')) init h = (init, h _ refl)
    Begun-Parsed self b payload out (ok (kex_init self', out')) init h = absurd (h _ refl)
    Begun-Parsed self b payload out (ok (kex_dh_done d, out')) init h = h _ refl
    Begun-Parsed self b payload out (ok (new_keys n, out')) init h = h _ refl
    Begun-Parsed self b payload out (err e) init h = init
    Begun-Parsed self b payload out panic init h = init
    Begun-Parsed self b payload out no_fuel init h = init

    -- The answer of the server to a message in the first state. On a KEXINIT, if it does not fail, it
    -- goes to the second state, with the names that `read_kex` chose from this message, the number of a
    -- host key of the chosen name, the message recorded behind what was recorded, and the session it
    -- had. On any other message it does not fail, stays as it was and sends nothing.
    pub server_parse-Parsed :
        (self : KexInit) (cookie : Option Bytes) (b : ℕ) (payload : Bytes) (out : SshBuffer)
        → Parsed self b payload out
            (server_parse host w na pr config keys cipher self cookie (b ∷ payload) out)
    server_parse-Parsed self cookie b payload out = elim (Bool-cases (b == Msg.kexinit)) [
      | inl init ↦
          Begun-Parsed self b payload out _ (ground (arith, init))
            (init-Begun self cookie b payload out init)
      | inr other ↦
          subst (Parsed self b payload out) (sym (other_kept self cookie b payload out other))
            (ground (arith, other), refl, refl)
    ]
