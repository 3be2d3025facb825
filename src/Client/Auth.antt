-- ===== src/Client/Auth.antt =====
-- src/client/encrypted.rs, `impl Encrypted` and `write_auth_request_if_needed`: what a client sends to
-- authenticate itself.
use thrussh_mod.Base.{ℕ, Bool, true, false, none, some, ◌∷◌, ◌++◌, length, drop, Bytes, codes}
use thrussh_mod.Error.{Result, ok, ◌>>=◌}
use thrussh_mod.Wire.{Wire, push_packet}
use thrussh_mod.Sodium.{Sodium}
use thrussh_mod.SshBuffer.{SshBuffer}
use thrussh_mod.Cipher.{CipherPair}
use thrussh_mod.Cipher
use thrussh_mod.Encrypted.{
  Encrypted, waiting_service_request, waiting_auth_request, init_compression, authenticated,
}
use thrussh_mod.Client.{Method, password, public_key, future_public_key, ClientKeys, Session}
use thrussh_mod.Msg

-- `b"\x05\0\0\0\x0Cssh-userauth"`
abbrev pub service_request : Bytes
service_request = 5 ∷ 0 ∷ 0 ∷ 0 ∷ 12 ∷ codes "ssh-userauth"

module _ (w : Wire) where
  -- A request with a public key, up to the key: `real` says whether a signature follows.
  abbrev pub key_request : (user : Bytes) → (real : ℕ) → (name pushed : Bytes) → Bytes
  key_request user real name pushed =
      Msg.userauth_request
      ∷ (w.ssh_string user
          ++ (w.ssh_string (codes "ssh-connection")
              ++ (w.ssh_string (codes "publickey") ++ (real ∷ (w.ssh_string name ++ pushed)))))

  -- `client_make_to_sign`: the new buffer, and where the request starts in it
  unfoldable pub client_make_to_sign : Encrypted → (user name pushed : Bytes) → Bytes × ℕ
  client_make_to_sign enc user name pushed =
      let before = w.ssh_string enc.session_id in
      (before ++ key_request user 1 name pushed, length before)

module _ {KP K : Type 0} (w : Wire) (keys : ClientKeys KP K) where
  -- The message of `write_auth_request`
  abbrev pub auth_message : (user : Bytes) → Method KP K → Bytes
  auth_message user (password text) =
      Msg.userauth_request
      ∷ (w.ssh_string user
          ++ (w.ssh_string (codes "ssh-connection")
              ++ (w.ssh_string (codes "password") ++ (1 ∷ w.ssh_string text))))
  auth_message user (public_key key) = key_request w user 0 (keys.name key) (keys.push_to key)
  auth_message user (future_public_key key) =
      key_request w user 0 (keys.public_name key) (keys.public_push_to key)

  -- `write_auth_request`, which always returns true
  unfoldable pub write_auth_request : Encrypted → (user : Bytes) → Method KP K → Encrypted × Bool
  write_auth_request enc user method =
      (record enc { write = push_packet w enc.write (auth_message user method) }, true)

  -- `client_send_signature`: the new session and buffer
  unfoldable pub client_send_signature :
      Encrypted → (user : Bytes) → Method KP K → Bytes → Result (Encrypted × Bytes)
  unfolding client_make_to_sign
  client_send_signature enc user (public_key key) buffer = do
    let (to_sign, i0) = client_make_to_sign w enc user (keys.name key) (keys.push_to key)
    signature ← keys.self_signature key to_sign
    let signed = to_sign ++ signature
    ok (record enc { write = push_packet w enc.write (drop i0 signed) }, signed)
  client_send_signature enc user method buffer = ok (enc, buffer)

  -- Whether the server waits for a request; the service is asked for, if it has not been.
  unfoldable pub ask_service :
      Sodium → CipherPair → Encrypted → SshBuffer → Result (Encrypted × SshBuffer × Bool)
  ask_service na cipher enc out = elim enc.state [
    | waiting_auth_request a ↦ ok (enc, out, true)
    | waiting_service_request sent accepted ↦ elim sent [
      | true ↦ ok (enc, out, accepted)
      | false ↦ do
        out' ← Cipher.write w na cipher service_request out
        ok (record enc { state = waiting_service_request true accepted }, out', accepted)
    ]
    | init_compression ↦ ok (enc, out, false)
    | authenticated ↦ ok (enc, out, false)
  ]

  -- `write_auth_request_if_needed`
  unfoldable pub write_auth_request_if_needed :
      Sodium → Session KP K → (user : Bytes) → Method KP K → Result (Session KP K × Bool)
  unfolding ask_service write_auth_request
  write_auth_request_if_needed na s user method = elim s.common.encrypted [
    | none ↦ ok (
      record s { common = record s.common { auth_user = user }; auth_method = some method },
      false,
    )
    | some enc ↦ do
      (enc', out, is_waiting) ← ask_service na s.common.cipher enc s.common.write_buffer
      let sent : Encrypted = elim is_waiting [
        | true ↦ (write_auth_request enc' user method).0
        | false ↦ enc'
      ]
      ok (
        record s {
          common = record s.common { auth_user = user; encrypted = some sent; write_buffer = out };
          auth_method = some method;
        },
        is_waiting,
      )
  ]
