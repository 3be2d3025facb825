-- ===== src/Dialogue/PublicKey.antt =====
-- The authentication of a client with its key: the messages of src/client/encrypted.rs, read by
-- src/server/encrypted.rs.
use thrussh_mod.Base.{
  ℕ, ◌^◌, ◌<◌, ◌≡◌, refl, sym, ap, subst, ◌∙◌, true, some, [], ◌∷◌, ◌++◌, append-nil, append_assoc,
  arith, length, take, drop, length-append, take-append_of_length, drop-append_of_length, Bytes,
  codes, equal, equal_self,
}
use thrussh_mod.Error.{ok}
use thrussh_mod.Wire.{Wire, push_packet, read_string?}
use thrussh_mod.Wire.Reading.{At, At-first, reads_string, reads_byte, reads_string_last}
use thrussh_mod.Auth.{AuthRequest, CurrentRequest}
use thrussh_mod.Encrypted.{Encrypted, waiting_auth_request}
use thrussh_mod.ServerAuth.{Handler, PublicKeys, AuthSession, accept, waiting, sent_pk_ok, succeed}
use thrussh_mod.ServerAuth.PublicKey.{
  server_read_auth_request_pk, with_key, signed, offered, is_valid,
}
use thrussh_mod.ServerAuth.Requests.{server_read_auth_request}
use thrussh_mod.Client.{ClientKeys, public_key}
use thrussh_mod.Client.Auth.{key_request, auth_message, client_send_signature, client_make_to_sign}
use thrussh_mod.Msg
use thrussh_mod.Dialogue.Arguments.{IsText, is_text}

-- A pair of keys, as the two sides know it: the client writes the public key as a string, which the
-- server reads as `pub_key`, and what the client signs the server verifies.
pub record Pair {KP K PK : Type 0} (w : Wire) (keys : ClientKeys KP K) (server : PublicKeys PK)
    (key : KP) (pub_key : PK) : Type 0 where
  pub blob : Bytes
  pub push_to-blob : keys.push_to key ≡ w.ssh_string blob
  pub short_blob : length blob < 2 ^ 32
  pub short_name : length (keys.name key) < 2 ^ 32
  pub parse-blob : server.parse (keys.name key) blob ≡ ok pub_key
  pub signature : Bytes → Bytes
  pub self_signature-signature :
      (buffer : Bytes)
      → keys.self_signature key buffer
        ≡ ok (w.ssh_string (w.ssh_string (keys.name key) ++ w.ssh_string (signature buffer)))
  pub short_signature : (buffer : Bytes) → length (signature buffer) < 2 ^ 32
  pub short_text :
      (buffer : Bytes)
      → length (w.ssh_string (keys.name key) ++ w.ssh_string (signature buffer)) < 2 ^ 32
  pub verify-signature :
      (buffer : Bytes) → server.verify_client_auth pub_key buffer (signature buffer) ≡ true

-- The position of the rest of a text is behind what stands before it.
At-behind : (xs rest : Bytes) {pos : ℕ} → At (xs ++ rest) pos rest → pos ≡ length xs
At-behind xs rest (pre, e, p) =
    let l = ap length e in omega (arith, length-append xs rest, length-append pre rest)

module _ {H KP K PK : Type 0} (w : Wire) (handler : Handler H PK) (server : PublicKeys PK)
    (keys : ClientKeys KP K) where
  key_request-append :
      (user name pushed rest : Bytes) (real : ℕ)
      → key_request w user real name pushed ++ rest ≡ key_request w user real name (pushed ++ rest)
  key_request-append user name pushed rest real = simp (append_assoc)

  -- A request with a key, which has come to the key and what follows it
  reads_key_request :
      (user name blob rest : Bytes) (real : ℕ) (s : AuthSession H) (a : AuthRequest)
      → s.enc.state ≡ waiting_auth_request a
      → IsText user
      → length name < 2 ^ 32
      → length blob < 2 ^ 32
      → (pos0 : ℕ) × (server_read_auth_request w handler server s
            (key_request w user real name (w.ssh_string blob ++ rest))
          ≡ with_key w handler server s a
              (key_request w user real name (w.ssh_string blob ++ rest))
              user
              real
              name
              blob
              pos0
              (server.parse name blob))
        × At (key_request w user real name (w.ssh_string blob ++ rest)) pos0 rest
  unfolding server_read_auth_request server_read_auth_request_pk equal
  reads_key_request user name blob rest real s a waits is short_name short_blob =
      let (r1, e1, a1) = reads_string w user _ (At-first Msg.userauth_request _) is.0 in
      let (r2, e2, a2) = reads_string w (codes "ssh-connection") _ a1 (omega arith) in
      let (r3, e3, a3) = reads_string w (codes "publickey") _ a2 (omega arith) in
      let (r4, e4, a4) = reads_byte w real _ a3 in
      let (r5, e5, a5) = reads_string w name _ a4 short_name in
      let (r6, e6, a6) = reads_string w blob rest a5 short_blob in
      (r6, rw (e1, is_text user is, e2, e3, ap waiting waits, e4, e5, e6) refl, a6)

  -- The session in which a key has been approved
  abbrev pub approved : AuthSession H → AuthRequest → H → (user algo blob : Bytes) → AuthSession H
  approved s a h user algo blob = record {
    enc = record s.enc {
      write =
          push_packet w s.enc.write (Msg.userauth_pk_ok ∷ (w.ssh_string algo ++ w.ssh_string blob));
      state =
          waiting_auth_request
            (record a { current = some (CurrentRequest.public_key blob algo true) });
    };
    handler = some h;
    auth_user = user;
  }

  module _ (key : KP) (pub_key : PK) (p : Pair w keys server key pub_key) (user : Bytes)
      (is : IsText user) (s : AuthSession H) (a : AuthRequest) where
    probe :
        (h h' : H)
        → s.enc.state ≡ waiting_auth_request a
        → s.handler ≡ some h
        → handler.auth_publickey h user pub_key ≡ ok (h', accept)
        → server_read_auth_request w handler server s (auth_message w keys user (public_key key))
          ≡ ok (approved s a h' user (keys.name key) p.blob)
    unfolding with_key offered
    probe h h' waits held accepts =
        let (pos0, e, at) =
          reads_key_request user (keys.name key) p.blob [] 0 s a waits is p.short_name
            p.short_blob in
        ap
          (λ t.
            server_read_auth_request w handler server s (key_request w user 0 (keys.name key) t))
          (p.push_to-blob ∙ sym (append-nil (w.ssh_string p.blob)))
        ∙ (e ∙ rw (p.parse-blob, held, accepts) refl)

    valid_mine :
        sent_pk_ok a.current ≡ true
        → s.auth_user ≡ user
        → is_valid w handler server s a user pub_key ≡ ok (true, s.handler, user)
    unfolding is_valid
    valid_mine approval mine = ground (arith, approval, mine, equal_self user)

    -- A signature that verifies, of the user whose key was approved
    accepts_signed :
        (buf inner algo sig : Bytes) (pos0 r r1 r2 : ℕ)
        → read_string? w buf pos0 ≡ ok (inner, r)
        → read_string? w inner 0 ≡ ok (algo, r1)
        → read_string? w inner r1 ≡ ok (sig, r2)
        → sent_pk_ok a.current ≡ true
        → s.auth_user ≡ user
        → server.verify_client_auth pub_key (w.ssh_string s.enc.session_id ++ take pos0 buf) sig
          ≡ true
        → signed w handler server s a buf user pos0 pub_key ≡ ok (succeed w s s.handler user)
    unfolding signed
    accepts_signed buf inner algo sig pos0 r r1 r2 e1 e2 e3 approval mine verifies =
        rw (e1, e2, e3, valid_mine approval mine, verifies) refl

    -- What the client signs, and the message that it sends
    abbrev to_sign : Bytes
    to_sign =
        w.ssh_string s.enc.session_id ++ key_request w user 1 (keys.name key) (w.ssh_string p.blob)

    abbrev pub signed_request : Bytes
    signed_request = key_request w user 1 (keys.name key) (
        w.ssh_string p.blob
        ++ w.ssh_string (w.ssh_string (keys.name key) ++ w.ssh_string (p.signature to_sign)))

    server_accepts :
        s.enc.state ≡ waiting_auth_request a
        → sent_pk_ok a.current ≡ true
        → s.auth_user ≡ user
        → server_read_auth_request w handler server s signed_request
          ≡ ok (succeed w s s.handler user)
    unfolding with_key
    server_accepts waits approval mine =
        let inner = w.ssh_string (keys.name key) ++ w.ssh_string (p.signature to_sign) in
        let request = key_request w user 1 (keys.name key) (w.ssh_string p.blob) in
        let (pos0, e, at) =
          reads_key_request user (keys.name key) p.blob (w.ssh_string inner) 1 s a waits is
            p.short_name p.short_blob in
        let (r1, e1) = reads_string_last w inner at (p.short_text to_sign) in
        let (r2, e2, a2) =
          reads_string w (keys.name key) (w.ssh_string (p.signature to_sign)) ([], refl, refl)
            p.short_name in
        let (r3, e3) = reads_string_last w (p.signature to_sign) a2 (p.short_signature to_sign) in
        let whole =
          key_request-append user (keys.name key) (w.ssh_string p.blob) (w.ssh_string inner) 1 in
        let before : take pos0 signed_request ≡ request =
          ap (take pos0) (sym whole)
          ∙ take-append_of_length pos0 request (w.ssh_string inner) (
              sym (
                At-behind request (w.ssh_string inner)
                  (subst (λ b. At b pos0 (w.ssh_string inner)) (sym whole) at))) in
        e
        ∙ (rw p.parse-blob (
            accepts_signed signed_request inner (keys.name key) (p.signature to_sign) pos0 r1 r2 r3
              e1 e2 e3 approval mine
              (ap
                  (λ t.
                    server.verify_client_auth pub_key (w.ssh_string s.enc.session_id ++ t)
                      (p.signature to_sign))
                  before
                ∙ p.verify-signature to_sign)))

    client_sends :
        (enc : Encrypted) (buffer : Bytes)
        → enc.session_id ≡ s.enc.session_id
        → (signed_text : Bytes) × (client_send_signature w keys enc user (public_key key) buffer
            ≡ ok (record enc { write = push_packet w enc.write signed_request }, signed_text))
    unfolding client_send_signature client_make_to_sign
    client_sends enc buffer same =
        let before = w.ssh_string s.enc.session_id in
        let request = key_request w user 1 (keys.name key) (w.ssh_string p.blob) in
        let sig =
          w.ssh_string (w.ssh_string (keys.name key) ++ w.ssh_string (p.signature to_sign)) in
        (
          to_sign
              ++ w.ssh_string (w.ssh_string (keys.name key) ++ w.ssh_string (p.signature to_sign)),
          rw (same, p.push_to-blob, p.self_signature-signature to_sign)
              (ap
                (λ body. ok (
                  record enc {
                    session_id = s.enc.session_id;
                    write = push_packet w enc.write body;
                  },
                  to_sign ++ sig,
                ))
                (ap (drop (length before)) (append_assoc before request sig)
                  ∙ (drop-append_of_length (length before) before (request ++ sig) refl
                      ∙ key_request-append user (keys.name key) (w.ssh_string p.blob) sig 1))),
        )

  -- A client with a pair of keys and a server with a request waiting, which are in one session: its
  -- handler accepts the key when the client offers it. Then the server approves the key, the client
  -- sends one signed request in answer, whatever its buffer holds, and the server accepts that
  -- request without asking the handler again: what the client signs is what the server verifies.
  pub public_key_login :
      (key : KP) (pub_key : PK) (p : Pair w keys server key pub_key) (user : Bytes)
      (s : AuthSession H) (a : AuthRequest) (h h' : H) (enc : Encrypted) (buffer : Bytes)
      → IsText user
      → s.enc.state ≡ waiting_auth_request a
      → s.handler ≡ some h
      → handler.auth_publickey h user pub_key ≡ ok (h', accept)
      → enc.session_id ≡ s.enc.session_id
      → let s' = approved s a h' user (keys.name key) p.blob in
        (body : Bytes) × (signed_text : Bytes) × (server_read_auth_request w handler server s
            (auth_message w keys user (public_key key))
          ≡ ok s')
        × (client_send_signature w keys enc user (public_key key) buffer
            ≡ ok (record enc { write = push_packet w enc.write body }, signed_text))
        × (server_read_auth_request w handler server s' body ≡ ok (succeed w s' (some h') user))
  public_key_login key pub_key p user s a h h' enc buffer is waits held accepts same =
      let s' = approved s a h' user (keys.name key) p.blob in
      let a' : AuthRequest = record a {
        current = some (CurrentRequest.public_key p.blob (keys.name key) true);
      } in
      let (signed_text, sent) = client_sends key pub_key p user is s' a' enc buffer same in
      (
        signed_request key pub_key p user is s' a',
        signed_text,
        probe key pub_key p user is s a h h' waits held accepts,
        sent,
        server_accepts key pub_key p user is s' a' refl refl refl,
      )
