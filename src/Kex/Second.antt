-- ===== src/Kex/Second.antt =====
-- The second step of the server's key exchange, `KexDh::parse` of src/server/kex.rs.
use thrussh_mod.Base.{
  ℕ, ◌≡◌, refl, ◌⊎◌, inl, inr, true, false, Option, none, some, List, [], ◌∷◌, ◌++◌, arith, ◌==◌,
  Bool-cases, get_elem?, Bytes,
}
use thrussh_mod.Error.{
  Result, ok, err, panic, no_fuel, AllOk, AllOk-ok, AllOk-bind, AllOk-elim, AllOk-panic, assert,
  unwrap,
}
use thrussh_mod.Wire.{Wire, read_string?}
use thrussh_mod.Sodium.{Sodium}
use thrussh_mod.SshBuffer.{SshBuffer}
use thrussh_mod.Cipher.{CipherPair}
use thrussh_mod.Cipher
use thrussh_mod.ServerConfig.{ServerConfig}
use thrussh_mod.Kex.{Kex, kex_dh, new_keys, KexDh, KexDhDone}
use thrussh_mod.Kex.Derivation.{
  Primitives, server_dh, compute_exchange_hash, compute_keys, done_keys,
}
use thrussh_mod.Kex.Server.{HostKeys, process_dh, parse_dh}
use thrussh_mod.Msg

session_of :
    (o : Option Bytes) (hash : Bytes)
    → (o ≡ some (elim o [ some id ↦ id | none ↦ hash ])) ⊎ (o ≡ none)
session_of none hash = inr refl
session_of (some id) hash = inl refl

-- What is held to hold of a result, unless it is a failure
abbrev pub UnlessFails : (Kex → Type 0) → Result (Kex × SshBuffer) → Type 0
UnlessFails P (ok r) = P r.0
UnlessFails P _ = Unit {0}

module _ {KP : Type 0} (host : HostKeys KP) where
  module _ (w : Wire) (na : Sodium) (pr : Primitives) (config : ServerConfig) (keys : List KP)
      (cipher : CipherPair) where
    -- The keys of the names and the host key of the second state, for the session that was there or,
    -- if there was none, a new one
    abbrev pub Keys : KexDh → Bytes → Kex → Type 0
    Keys self buf (new_keys n) =
        (payload : Bytes) × (buf ≡ Msg.kex_ecdh_init ∷ payload)
        × (n.names ≡ self.names)
        × (n.key ≡ self.key)
        × ((self.session_id ≡ some n.session_id) ⊎ (self.session_id ≡ none))
    Keys self buf _ = ⊥

    -- The second state, behind the packet that was guessed wrongly
    abbrev pub guess_passed : KexDh → KexDh
    guess_passed self = record self { names = record self.names { ignore_guessed = false } }

    -- What comes of a message in the second state: it is passed over if a wrong guess is expected, and
    -- else leads to the keys or fails.
    abbrev pub Derived : KexDh → Bytes → SshBuffer → Result (Kex × SshBuffer) → Type 0
    Derived self buf out r =
        ((self.names.ignore_guessed ≡ true) × (r ≡ ok (kex_dh (guess_passed self), out)))
        ⊎ ((self.names.ignore_guessed ≡ false) × UnlessFails (Keys self buf) r)

    done_keys-session :
        (d : KexDhDone) (hash : Bytes)
        → AllOk
            (λ n.
              (n.names ≡ d.names)
              × (n.key ≡ d.key)
              × ((d.session_id ≡ some n.session_id) ⊎ (d.session_id ≡ none)))
            (done_keys w pr d hash true)
    unfolding done_keys
    done_keys-session d hash =
        AllOk-bind _
          (compute_keys w pr d.kex (elim d.session_id [ some id ↦ id | none ↦ hash ]) hash
            d.names.cipher true)
          _ λ c e. AllOk-ok _ _ (refl, refl, session_of d.session_id hash)

    process_dh-Keys :
        (self : KexDh) (random : Option Bytes) (buf payload : Bytes) (out : SshBuffer)
        → buf ≡ Msg.kex_ecdh_init ∷ payload
        → AllOk
            (λ r. Keys self buf r.0)
            (process_dh host w na pr config keys cipher self random buf out)
    unfolding process_dh
    process_dh-Keys self random buf payload out is = AllOk-bind _ (read_string? w buf 1) _ λ x e1.
        AllOk-bind _
          (server_dh w pr random
            (record self.exchange { client_ephemeral = self.exchange.client_ephemeral ++ x.0 }) buf)
          _
          λ x2 e2. AllOk-bind _ (unwrap (get_elem? keys self.key)) _ λ k e3.
            AllOk-bind _ (compute_exchange_hash w pr x2.0 (host.push_to k) x2.1) _ λ hash e4.
              AllOk-bind _ (host.add_signature k hash) _ λ signature e5.
                AllOk-bind _
                  (Cipher.write w na cipher
                    (Msg.kex_ecdh_reply
                      ∷ (host.push_to k ++ (w.ssh_string x2.1.server_ephemeral ++ signature)))
                    out)
                  _
                  λ out1 e6.
                    AllOk-bind _ (Cipher.write w na cipher (Msg.newkeys ∷ []) out1) _ λ out2 e7.
                      AllOk-bind _
                        (done_keys w pr
                          (record {
                            exchange = x2.1;
                            kex = x2.0;
                            key = self.key;
                            names = self.names;
                            session_id = self.session_id;
                          })
                          hash true)
                        _
                        λ n e8. AllOk-ok _ _ (
                          payload,
                          is,
                          (done_keys-session _ hash n e8).0,
                          (done_keys-session _ hash n e8).1,
                          (done_keys-session _ hash n e8).2,
                        )

    asserted :
        (b : ℕ) (payload : Bytes)
        → AllOk (λ x. b ∷ payload ≡ Msg.kex_ecdh_init ∷ payload) (assert (b == Msg.kex_ecdh_init))
    asserted b payload x e = ground (arith, e)

    parse_dh-Keys :
        (self : KexDh) (random : Option Bytes) (buf : Bytes) (out : SshBuffer)
        → self.names.ignore_guessed ≡ false
        → AllOk
            (λ r. Keys self buf r.0)
            (parse_dh host w na pr config keys cipher self random buf out)
    unfolding parse_dh
    parse_dh-Keys self random [] out expected =
        AllOk-elim _ self.names.ignore_guessed _ _ (λ guess. cc) λ guess. AllOk-panic _
    parse_dh-Keys self random (b ∷ payload) out expected =
        AllOk-elim _ self.names.ignore_guessed _ _ (λ guess. cc)
          λ guess.
            AllOk-bind _ (assert (b == Msg.kex_ecdh_init)) _
              λ x e. process_dh-Keys self random (b ∷ payload) payload out (asserted b payload x e)

    passed_over :
        (self : KexDh) (random : Option Bytes) (buf : Bytes) (out : SshBuffer)
        → self.names.ignore_guessed ≡ true
        → parse_dh host w na pr config keys cipher self random buf out
          ≡ ok (kex_dh (guess_passed self), out)
    unfolding parse_dh
    passed_over self random [] out guess = rw (parse_dh, guess) refl
    passed_over self random (b ∷ payload) out guess = rw (parse_dh, guess) refl

    Keys-UnlessFails :
        (self : KexDh) (buf : Bytes) (r : Result (Kex × SshBuffer))
        → AllOk (λ r. Keys self buf r.0) r
        → UnlessFails (Keys self buf) r
    Keys-UnlessFails self buf (ok r) h = h r refl
    Keys-UnlessFails self buf (err e) h = tt
    Keys-UnlessFails self buf panic h = tt
    Keys-UnlessFails self buf no_fuel h = tt

    -- The answer of the server to a message in the second state. When the client's guess was wrong, the
    -- message is passed over, whatever it holds: nothing is sent, and the next message is
    -- not passed over. Otherwise, if it does not fail, the message is a KEX_ECDH_INIT and the server makes
    -- new keys, for the names and the host key that were chosen, and the session identifier of a session
    -- that has one stays the same when keys are exchanged again.
    pub parse_dh-Derived :
        (self : KexDh) (random : Option Bytes) (buf : Bytes) (out : SshBuffer)
        → Derived self buf out (parse_dh host w na pr config keys cipher self random buf out)
    parse_dh-Derived self random buf out = elim (Bool-cases self.names.ignore_guessed) [
      | inl guess ↦ inl (guess, passed_over self random buf out guess)
      | inr expected ↦
          inr (expected, Keys-UnlessFails self buf _ (parse_dh-Keys self random buf out expected))
    ]
