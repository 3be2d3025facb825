-- ===== src/Kex/Matching.antt =====
-- The two sides of a key exchange: one secret, and ciphers that fit each other.
use thrussh_mod.Base.{
  ℕ, suc, ◌≤◌, ◌<◌, ◌≡◌, refl, ap, ◌∙◌, Bool, true, false, none, some, [], ◌∷◌, ◌++◌, arith,
  if◌then◌else◌, length, take, drop, length-append, drop-append_of_length, take-all, Bytes, equal,
}
use thrussh_mod.Error.{ok}
use thrussh_mod.Wire.{Wire}
use thrussh_mod.Cipher.{
  SealingCipher, OpeningCipher, CipherPair, make_sealing_cipher, make_opening_cipher, keys_of,
}
use thrussh_mod.Cipher.Seal.{matching}
use thrussh_mod.Encrypted.{slice}
use thrussh_mod.Kex.{Algorithm, Exchange}
use thrussh_mod.Kex.Derivation.{
  Primitives, client_dh, server_dh, compute_shared_secret, shared_text, extend_key, compute_key,
  compute_keys, chacha_name, key_len,
}
use thrussh_mod.Msg

-- The hash always gives a value.
abbrev pub Hashes : Primitives → Type 0
Hashes pr = (m : Bytes) → (h : Bytes) × (pr.sha256 m ≡ some h)

point_of :
    (u p : Bytes) → length u ≡ 4 → length p ≡ 32 → slice (Msg.kex_ecdh_init ∷ (u ++ p)) 5 37 ≡ ok p
point_of u p hu hp =
    let size : length (u ++ p) ≡ 36 = omega (arith, length-append u p) in
    let all : take 36 (u ++ p) ≡ u ++ p = take-all 36 (u ++ p) (omega (arith, size)) in
    let behind : drop 4 (u ++ p) ≡ p = drop-append_of_length 4 u p hu in
    ground (arith, size, all, behind)

module _ (w : Wire) (pr : Primitives) where
  extend_step :
      (rounds : ℕ) (kex : Algorithm) (hash : Bytes) (len : ℕ) (key h : Bytes)
      → length key < len
      → pr.sha256 (shared_text w pr kex ++ (hash ++ key)) ≡ some h
      → extend_key w pr (suc rounds) kex hash len key
        ≡ extend_key w pr rounds kex hash len (key ++ h)
  unfolding extend_key
  extend_step rounds kex hash len key h low e = ground arith

  extend_stop :
      (rounds : ℕ) (kex : Algorithm) (hash : Bytes) (len : ℕ) (key : Bytes)
      → len ≤ length key
      → extend_key w pr (suc rounds) kex hash len key ≡ ok key
  unfolding extend_key
  extend_stop rounds kex hash len key high = ground arith

  -- Two hashes make a key of 64 bytes.
  two_rounds :
      (kex : Algorithm) (session_id hash : Bytes) (c : ℕ) (h1 h2 : Bytes)
      → pr.sha256 (shared_text w pr kex ++ (hash ++ (c ∷ session_id))) ≡ some h1
      → pr.sha256 (shared_text w pr kex ++ (hash ++ h1)) ≡ some h2
      → compute_key w pr kex session_id hash c key_len ≡ ok (h1 ++ h2)
  unfolding compute_key
  two_rounds kex session_id hash c h1 h2 e1 e2 = rw e1 (
      extend_step 63 kex hash 64 h1 h2 (omega (arith, pr.length-sha256 _ h1 e1)) e2
      ∙ extend_stop 62 kex hash 64 (h1 ++ h2)
          (omega (arith, length-append h1 h2, pr.length-sha256 _ h1 e1, pr.length-sha256 _ h2 e2)))

  make_sealing :
      (k : Bytes)
      → length k ≡ 64
      → make_sealing_cipher k ≡ ok (SealingCipher.chacha20_poly1305 (drop 32 k) (take 32 k))
  unfolding make_sealing_cipher keys_of
  make_sealing k h = ground arith

  make_opening :
      (k : Bytes)
      → length k ≡ 64
      → make_opening_cipher k ≡ ok (OpeningCipher.chacha20_poly1305 (drop 32 k) (take 32 k))
  unfolding make_opening_cipher keys_of
  make_opening k h = ground arith

  pair_of : (c s : Bytes) → CipherPair
  pair_of k1 k2 = record {
    local_to_remote = SealingCipher.chacha20_poly1305 (drop 32 k1) (take 32 k1);
    remote_to_local = OpeningCipher.chacha20_poly1305 (drop 32 k2) (take 32 k2);
  }

  compute_keys-pair :
      (kex : Algorithm) (session_id hash : Bytes) (is_server : Bool) (k1 k2 : Bytes)
      → compute_key w pr kex session_id hash (if is_server then b'D' else b'C') key_len ≡ ok k1
      → compute_key w pr kex session_id hash (if is_server then b'C' else b'D') key_len ≡ ok k2
      → length k1 ≡ 64
      → length k2 ≡ 64
      → compute_keys w pr kex session_id hash chacha_name is_server ≡ ok (pair_of k1 k2)
  unfolding compute_keys pair_of equal
  compute_keys-pair kex session_id hash is_server k1 k2 e1 e2 l1 l2 =
      rw (e1, make_sealing k1 l1, e2, make_opening k2 l2) refl

  module _ (hashes : Hashes pr) where
    compute_key_total :
        (kex : Algorithm) (session_id hash : Bytes) (c : ℕ)
        → (key : Bytes) × (compute_key w pr kex session_id hash c key_len ≡ ok key)
          × (length key ≡ 64)
    compute_key_total kex session_id hash c =
        let (h1, e1) = hashes (shared_text w pr kex ++ (hash ++ (c ∷ session_id))) in
        let (h2, e2) = hashes (shared_text w pr kex ++ (hash ++ h1)) in
        (
          h1 ++ h2,
          two_rounds kex session_id hash c h1 h2 e1 e2,
          omega (arith, length-append h1 h2, pr.length-sha256 _ h1 e1, pr.length-sha256 _ h2 e2),
        )

    -- From one state of the key exchange, one session and one exchange hash, the server and the client
    -- compute ciphers that fit each other: what either seals, the other opens. With a hash function
    -- that always answers, neither computation fails or panics, and the loop over hashes ends.
    pub compute_keys-matching :
        (kex : Algorithm) (session_id hash : Bytes)
        → (server : CipherPair) × (client : CipherPair) × (compute_keys w pr kex session_id hash
              chacha_name true
            ≡ ok server)
          × (compute_keys w pr kex session_id hash chacha_name false ≡ ok client)
          × (client.remote_to_local ≡ matching server.local_to_remote)
          × (server.remote_to_local ≡ matching client.local_to_remote)
    unfolding pair_of
    compute_keys-matching kex session_id hash =
        let (kd, ed, ld) = compute_key_total kex session_id hash b'D' in
        let (kc, ec, lc) = compute_key_total kex session_id hash b'C' in
        (
          pair_of kd kc,
          pair_of kc kd,
          compute_keys-pair kex session_id hash true kd kc ed ec ld lc,
          compute_keys-pair kex session_id hash false kc kd ec ed lc ld,
          refl,
          refl,
        )

  ephemeral_size : (secret : Bytes) → length (pr.scalarmult_base secret) ≡ 32
  ephemeral_size secret = pr.length-scalarmult_base secret

  client_secret :
      (secret remote : Bytes)
      → length remote ≡ 32
      → compute_shared_secret w pr
          (record { local_secret = some secret; shared_secret = none })
          remote
        ≡ ok (record { local_secret = none; shared_secret = some (pr.scalarmult secret remote) })
  unfolding compute_shared_secret
  client_secret secret remote h = ground arith

  read_length : (p : Bytes) → length p ≡ 32 → w.read_u32_be (w.ssh_string p) ≡ some 32
  read_length p h =
      rw (w.ssh_string-u32_be p (omega arith), h) (w.read_u32_be-u32_be 32 p (omega arith))

  read_point : (p : Bytes) → length p ≡ 32 → slice (Msg.kex_ecdh_init ∷ w.ssh_string p) 5 37 ≡ ok p
  read_point p h =
      rw (w.ssh_string-u32_be p (omega arith), h) (point_of (w.u32_be 32) p (w.length-u32_be 32) h)

  server_secret :
      (secret p : Bytes) (ex : Exchange)
      → length p ≡ 32
      → server_dh w pr (some secret) ex (Msg.kex_ecdh_init ∷ w.ssh_string p)
        ≡ ok (
          record { local_secret = none; shared_secret = some (pr.scalarmult secret p) },
          record ex { server_ephemeral = pr.scalarmult_base secret },
        )
  unfolding server_dh
  server_secret secret p ex h = rw (read_length p h, read_point p h, h) refl

  -- When the message that the client's `client_dh` makes reaches `server_dh`, and the ephemeral key that
  -- `server_dh` then fills in reaches the client's `compute_shared_secret`, all three succeed; the server
  -- has filled in nothing else, and the two sides hold the same state: no secret of their own, and as
  -- the shared secret the product of the server's secret and the client's point.
  pub dh_agree :
      (client_random server_random : Bytes) (ex : Exchange)
      → let shared : Algorithm = record {
        local_secret = none;
        shared_secret = some (pr.scalarmult server_random (pr.scalarmult_base client_random));
      } in
        let point : Bytes = pr.scalarmult_base server_random in
        (start : Algorithm) × (message : Bytes) × (client_dh w pr (some client_random) []
          ≡ ok (start, pr.scalarmult_base client_random, message))
        × (server_dh w pr (some server_random) ex message
            ≡ ok (shared, record ex { server_ephemeral = point }))
        × (compute_shared_secret w pr start point ≡ ok shared)
  unfolding client_dh
  dh_agree client_random server_random ex =
      let p : Bytes = pr.scalarmult_base client_random in
      let q : Bytes = pr.scalarmult_base server_random in
      (
        _,
        _,
        refl,
        server_secret server_random p ex (ephemeral_size client_random),
        client_secret client_random q (ephemeral_size server_random)
            ∙ ap (λ x. ok (record { local_secret = none; shared_secret = some x }))
                (pr.scalarmult_comm client_random server_random),
      )
