-- ===== src/Kex/Derivation.antt =====
-- src/kex.rs, `impl Algorithm`, and `KexDhDone::compute_keys` of src/session.rs: the shared secret of
-- Curve25519, the exchange hash and the keys of the ciphers. The curve, the hash and the encoding of
-- large numbers come from other crates.
use thrussh_mod.Base.{
  ℕ, zero, suc, ◌+◌, ◌≡◌, Bool, true, false, Option, none, some, [], ◌∷◌, ◌++◌, ltb, ◌==◌,
  if◌then◌else◌, length, Bytes, codes, equal,
}
use thrussh_mod.Error.{
  Result, ok, panic, no_fuel, openssl_error, ◌>>=◌, ◌>>◌, assert, ok_or, unwrap,
}
use thrussh_mod.Wire.{Wire}
use thrussh_mod.Cipher.{CipherPair, make_sealing_cipher, make_opening_cipher}
use thrussh_mod.Encrypted.{slice}
use thrussh_mod.Kex.{Algorithm, Exchange, KexDhDone, NewKeys}
use thrussh_mod.Msg

-- `scalarmult` and `scalarmult_base` of thrussh_libsodium, SHA-256 of openssl, which may fail, and
-- what `extend_ssh_mpint` appends: points and hashes have 32 bytes, and the two sides of a
-- Diffie-Hellman exchange arrive at one point.
pub record Primitives : Type 0 where
  pub scalarmult_base : (secret : Bytes) → Bytes
  pub scalarmult : (secret point : Bytes) → Bytes
  pub sha256 : Bytes → Option Bytes
  pub mpint : Bytes → Bytes
  pub length-scalarmult_base : (a : Bytes) → length (scalarmult_base a) ≡ 32
  pub scalarmult_comm :
      (a b : Bytes) → scalarmult a (scalarmult_base b) ≡ scalarmult b (scalarmult_base a)
  pub length-sha256 : (m h : Bytes) → sha256 m ≡ some h → length h ≡ 32

-- `clone_from_slice` into a point of 32 bytes
abbrev pub point : Bytes → Result Bytes
point bs = if length bs == 32 then ok bs else panic

-- `chacha20poly1305::NAME`, and the `key_len` of its `CIPHER`
abbrev pub chacha_name : Bytes
chacha_name = codes "chacha20-poly1305@openssh.com"

abbrev pub key_len : ℕ
key_len = 64

module _ (w : Wire) (pr : Primitives) where
  -- `client_dh`: the new state, the ephemeral key and what is appended to the buffer. `random` is what
  -- `rand_bytes` gives.
  unfoldable pub client_dh : Option Bytes → Bytes → Result (Algorithm × Bytes × Bytes)
  client_dh random buf = do
    client_secret ← ok_or random openssl_error
    let client_pubkey = pr.scalarmult_base client_secret
    ok (
      record { local_secret = some client_secret; shared_secret = none },
      client_pubkey,
      buf ++ (Msg.kex_ecdh_init ∷ w.ssh_string client_pubkey),
    )

  -- `server_dh`, which also fills in the exchange
  unfoldable pub server_dh : Option Bytes → Exchange → Bytes → Result (Algorithm × Exchange)
  server_dh random exchange [] = panic
  server_dh random exchange (b ∷ payload) = do
    assert (b == Msg.kex_ecdh_init)
    pubkey_len ← unwrap (w.read_u32_be payload)
    bytes ← slice (b ∷ payload) 5 (5 + pubkey_len)
    client_pubkey ← point bytes
    server_secret ← ok_or random openssl_error
    ok (
      record {
        local_secret = none;
        shared_secret = some (pr.scalarmult server_secret client_pubkey);
      },
      record exchange { server_ephemeral = pr.scalarmult_base server_secret },
    )

  -- `compute_shared_secret`
  unfoldable pub compute_shared_secret : Algorithm → Bytes → Result Algorithm
  compute_shared_secret kex remote_pubkey = do
    local_secret ← unwrap kex.local_secret
    remote ← point remote_pubkey
    ok (record { local_secret = none; shared_secret = some (pr.scalarmult local_secret remote) })

  -- What the shared secret adds to a text that is hashed.
  abbrev pub shared_text : Algorithm → Bytes
  shared_text kex = elim kex.shared_secret [ none ↦ [] | some shared ↦ pr.mpint shared ]

  -- `compute_exchange_hash`, for the bytes that `push_to` writes for the host key
  unfoldable pub compute_exchange_hash : Algorithm → Bytes → Exchange → Result Bytes
  compute_exchange_hash kex host_key ex =
      ok_or
        (pr.sha256 (
          w.ssh_string ex.client_id
          ++ (w.ssh_string ex.server_id
              ++ (w.ssh_string ex.client_kex_init
                  ++ (w.ssh_string ex.server_kex_init
                      ++ (host_key
                          ++ (w.ssh_string ex.client_ephemeral
                              ++ (w.ssh_string ex.server_ephemeral ++ shared_text kex))))))))
        openssl_error

  -- The loop of `compute_key`, which hashes on until the key is long enough.
  unfoldable pub extend_key : ℕ → Algorithm → Bytes → ℕ → Bytes → Result Bytes
  extend_key zero kex exchange_hash len key = if ltb (length key) len then no_fuel else ok key
  extend_key (suc rounds) kex exchange_hash len key = elim (ltb (length key) len) [
    | false ↦ ok key
    | true ↦ do
      hash ← ok_or (pr.sha256 (shared_text kex ++ (exchange_hash ++ key))) openssl_error
      extend_key rounds kex exchange_hash len (key ++ hash)
  ]

  -- `compute_key`; every round adds 32 bytes, so `len` rounds are enough.
  unfoldable pub compute_key : Algorithm → Bytes → Bytes → ℕ → ℕ → Result Bytes
  unfolding extend_key
  compute_key kex session_id exchange_hash c len = do
    hash ← ok_or (pr.sha256 (shared_text kex ++ (exchange_hash ++ (c ∷ session_id)))) openssl_error
    extend_key len kex exchange_hash len hash

  -- `compute_keys`, for the only cipher there is
  unfoldable pub compute_keys : Algorithm → Bytes → Bytes → Bytes → Bool → Result CipherPair
  compute_keys kex session_id exchange_hash cipher is_server =
      if equal cipher chacha_name
      then (compute_key kex session_id exchange_hash (if is_server then b'D' else b'C') key_len
          >>= λ key1. make_sealing_cipher key1 >>= λ local_to_remote.
              compute_key kex session_id exchange_hash (if is_server then b'C' else b'D') key_len
              >>= λ key2. make_opening_cipher key2 >>= λ remote_to_local.
                  ok (record {
                    local_to_remote = local_to_remote;
                    remote_to_local = remote_to_local;
                  }))
      else panic

  -- `KexDhDone::compute_keys`
  unfoldable pub done_keys : KexDhDone → Bytes → Bool → Result NewKeys
  unfolding compute_keys
  done_keys d hash is_server = do
    let session_id : Bytes = elim d.session_id [ some id ↦ id | none ↦ hash ]
    c ← compute_keys d.kex session_id hash d.names.cipher is_server
    ok (record {
      exchange = d.exchange;
      names = d.names;
      kex = d.kex;
      key = d.key;
      cipher = c;
      session_id = session_id;
      received = false;
      sent = false;
    })
