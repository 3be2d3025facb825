-- ===== src/Kex/Check.antt =====
-- src/client/mod.rs, `KexDhDone::server_key_check`: the client's check of the server's key.
use thrussh_mod.Base.{
  ℕ, ◌≡◌, refl, sym, ap, subst, ◌∙◌, ◌⊎◌, inl, inr, Bool, true, false, Option, none, some, ◌++◌,
  Bytes,
}
use thrussh_mod.Error.{
  Error, thrussh, Result, ok, err, ◌>>=◌, unwrap, AllOk, AllOk-ok, AllOk-err, AllOk-bind,
  AllOk-elim,
}
use thrussh_mod.Wire.{Wire, read_string?}
use thrussh_mod.Kex.{Algorithm, KexDhDone, NewKeys}
use thrussh_mod.Kex.Derivation.{
  Primitives, compute_shared_secret, compute_exchange_hash, compute_keys, done_keys,
}

-- `key::PublicKey` of thrussh_keys, and what `push_to` writes for it.
pub record ServerKeys (K : Type 0) : Type 0 where
  pub parse_public_key : Bytes → Result K
  pub push_to : K → Bytes
  pub verify_server_auth : K → (buffer sig : Bytes) → Bool

-- `client::Handler::check_server_key`, on the state of the handler
abbrev pub Checker : Type 0 → Type 0 → Type 0
Checker H K = H → K → Result (H × Bool)

unwrap-eq-ok : {A : Type 0} (o : Option A) (a : A) → unwrap o ≡ ok a → o ≡ some a
unwrap-eq-ok none a e = cc
unwrap-eq-ok (some b) a e = cc

module _ {H K : Type 0} (w : Wire) (pr : Primitives) (keys : ServerKeys K)
    (check_server_key : Checker H K) where
  -- The question to the handler, in the first key exchange of a connection
  unfoldable pub check_key : (rekey : Bool) → Option H → K → Result (Option H)
  check_key rekey handler pubkey = elim rekey [
    | true ↦ ok handler
    | false ↦ do
      h ← unwrap handler
      (h', check) ← check_server_key h pubkey
      elim check [ true ↦ ok (some h') | false ↦ err (thrussh Error.unknown_key) ]
  ]

  -- The check of the signature, and the new keys
  unfoldable pub check_signature :
      KexDhDone → K → (hash signature : Bytes) → Option H → Result (NewKeys × Option H)
  check_signature self pubkey hash signature handler = do
    (sig_type, s1) ← read_string? w signature 0
    (sig, s2) ← read_string? w signature s1
    elim (keys.verify_server_auth pubkey hash sig) [
      | false ↦ err (thrussh Error.wrong_server_sig)
      | true ↦ do
        newkeys ← done_keys w pr self hash false
        ok (record newkeys { sent = true }, handler)
    ]

  -- `KexDhDone::server_key_check`, with the handler's next state
  unfoldable pub server_key_check :
      KexDhDone → (rekey : Bool) → Option H → Bytes → Result (NewKeys × Option H)
  unfolding check_key check_signature
  server_key_check self rekey handler buf = do
    (pubkey_string, r1) ← read_string? w buf 1
    pubkey ← keys.parse_public_key pubkey_string
    handler' ← check_key rekey handler pubkey
    (server_ephemeral, r2) ← read_string? w buf r1
    (signature, r3) ← read_string? w buf r2
    let exchange = record self.exchange {
      server_ephemeral = self.exchange.server_ephemeral ++ server_ephemeral;
    }
    kex ← compute_shared_secret w pr self.kex exchange.server_ephemeral
    hash ← compute_exchange_hash w pr kex (keys.push_to pubkey) exchange
    check_signature (record self { exchange = exchange; kex = kex }) pubkey hash signature handler'

  -- The handler has taken the key; it is not asked again when keys are exchanged anew.
  abbrev pub Taken : (rekey : Bool) → Option H → K → Option H → Type 0
  Taken rekey handler pubkey handler' =
      ((rekey ≡ true) × (handler' ≡ handler))
      ⊎ ((h : H) × (h' : H) × (rekey ≡ false)
          × (handler ≡ some h)
          × (check_server_key h pubkey ≡ ok (h', true))
          × (handler' ≡ some h'))

  -- The keys are those of the hash, which the key has signed.
  abbrev pub Signed : KexDhDone → K → (hash : Bytes) → NewKeys → Type 0
  Signed self pubkey hash n =
      (sig : Bytes) × (keys.verify_server_auth pubkey hash sig ≡ true)
      × (n.exchange ≡ self.exchange)
      × (n.kex ≡ self.kex)
      × (n.names ≡ self.names)
      × (n.sent ≡ true)
      × (n.session_id ≡ elim self.session_id [ some id ↦ id | none ↦ hash ])
      × (compute_keys w pr n.kex n.session_id hash n.names.cipher false ≡ ok n.cipher)

  -- The state with the ephemeral key of the server and the shared secret
  abbrev pub completed : KexDhDone → Bytes → Algorithm → KexDhDone
  completed self server_ephemeral kex = record self {
    exchange = record self.exchange {
      server_ephemeral = self.exchange.server_ephemeral ++ server_ephemeral;
    };
    kex = kex;
  }

  -- What the client knows when it has new keys: the message holds the key and the ephemeral key.
  abbrev pub Checked : KexDhDone → Bool → Option H → Bytes → NewKeys × Option H → Type 0
  Checked self rekey handler buf (n, handler') =
      (pubkey : K) × (hash : Bytes) × (s : Bytes × ℕ) × (x : Bytes × ℕ) × (kex : Algorithm)
      × (read_string? w buf 1 ≡ ok s)
      × (keys.parse_public_key s.0 ≡ ok pubkey)
      × Taken rekey handler pubkey handler'
      × (read_string? w buf s.1 ≡ ok x)
      × (compute_shared_secret w pr self.kex (self.exchange.server_ephemeral ++ x.0) ≡ ok kex)
      × (compute_exchange_hash w pr kex (keys.push_to pubkey) (completed self x.0 kex).exchange
          ≡ ok hash)
      × Signed (completed self x.0 kex) pubkey hash n

  check_key-Taken :
      (rekey : Bool) (handler : Option H) (pubkey : K)
      → AllOk (Taken rekey handler pubkey) (check_key rekey handler pubkey)
  unfolding check_key
  check_key-Taken rekey handler pubkey =
      AllOk-elim _ rekey _ _ (λ e. AllOk-ok _ _ (inl (e, refl)))
        λ e. AllOk-bind _ (unwrap handler) _ λ h e1.
          AllOk-bind _ (check_server_key h pubkey) _ λ r e2.
            AllOk-elim _ r.1 _ _
              (λ e3.
                AllOk-ok _ _
                  (inr (h, r.0, e, unwrap-eq-ok handler h e1, e2 ∙ ap (λ c. ok (r.0, c)) e3, refl)))
              λ e3. AllOk-err _ _

  done_keys-of :
      (self : KexDhDone) (hash : Bytes)
      → AllOk
          (λ n.
            (n.exchange ≡ self.exchange)
            × (n.kex ≡ self.kex)
            × (n.names ≡ self.names)
            × (n.session_id ≡ elim self.session_id [ some id ↦ id | none ↦ hash ])
            × (compute_keys w pr n.kex n.session_id hash n.names.cipher false ≡ ok n.cipher))
          (done_keys w pr self hash false)
  unfolding done_keys
  done_keys-of self hash =
      AllOk-bind _
        (compute_keys w pr self.kex (elim self.session_id [ some id ↦ id | none ↦ hash ]) hash
          self.names.cipher false)
        _ λ c e. AllOk-ok _ _ (refl, refl, refl, refl, e)

  check_signature-Signed :
      (self : KexDhDone) (pubkey : K) (hash signature : Bytes) (handler : Option H)
      → AllOk
          (λ r. Signed self pubkey hash r.0 × (r.1 ≡ handler))
          (check_signature self pubkey hash signature handler)
  unfolding check_signature
  check_signature-Signed self pubkey hash signature handler =
      AllOk-bind _ (read_string? w signature 0) _ λ x e1.
        AllOk-bind _ (read_string? w signature x.1) _ λ y e2.
          AllOk-elim _ (keys.verify_server_auth pubkey hash y.0) _ _
            (λ good. AllOk-bind _ (done_keys w pr self hash false) _ λ n e3.
              let (exchange, kex, names, session, cipher) = done_keys-of self hash n e3 in
              AllOk-ok _ _ ((y.0, good, exchange, kex, names, refl, session, cipher), refl))
            λ bad. AllOk-err _ _

  server_key_check-AllOk :
      (self : KexDhDone) (rekey : Bool) (handler : Option H) (buf : Bytes)
      → AllOk (Checked self rekey handler buf) (server_key_check self rekey handler buf)
  unfolding server_key_check
  server_key_check-AllOk self rekey handler buf = AllOk-bind _ (read_string? w buf 1) _ λ s e1.
      AllOk-bind _ (keys.parse_public_key s.0) _ λ pubkey e2.
        AllOk-bind _ (check_key rekey handler pubkey) _ λ handler' e3.
          AllOk-bind _ (read_string? w buf s.1) _ λ x e4.
            AllOk-bind _ (read_string? w buf x.1) _ λ y e5.
              AllOk-bind _
                (compute_shared_secret w pr self.kex (self.exchange.server_ephemeral ++ x.0)) _
                λ kex e6.
                  AllOk-bind _
                    (compute_exchange_hash w pr kex (keys.push_to pubkey) (record self.exchange {
                      server_ephemeral = self.exchange.server_ephemeral ++ x.0;
                    }))
                    _
                    λ hash e7. λ r e8.
                      let (by_key, same) = check_signature-Signed _ pubkey hash y.0 handler' r e8 in
                      let taken = check_key-Taken rekey handler pubkey handler' e3 in
                      (
                        pubkey,
                        hash,
                        s,
                        x,
                        kex,
                        e1,
                        e2,
                        subst (Taken rekey handler pubkey) (sym same) taken,
                        e4,
                        e6,
                        e7,
                        by_key,
                      )

  -- When the client has new keys after the answer of the server, then the answer starts with a key that
  -- the handler of the client has accepted, or keys are exchanged anew, in which case the handler is
  -- not asked; the exchange hash is that of this key and the recorded exchange, and this key has signed
  -- it; the session is the same, or is named by the hash where there was none; and the keys are those
  -- of the shared secret, the session and the hash.
  pub server_key_check-Checked :
      (self : KexDhDone) (rekey : Bool) (handler : Option H) (buf : Bytes) (n : NewKeys)
      (handler' : Option H)
      → server_key_check self rekey handler buf ≡ ok (n, handler')
      → Checked self rekey handler buf (n, handler')
  server_key_check-Checked self rekey handler buf n handler' =
      server_key_check-AllOk self rekey handler buf (n, handler')
