-- ===== src/Client/Answers.antt =====
-- src/client/encrypted.rs, `client_read_encrypted`: the answers of the server while the client
-- authenticates itself.
use thrussh_mod.Base.{
  ℕ, Bool, true, false, ◌||◌, Option, none, some, List, [], ◌∷◌, ◌==◌, length, Bytes, codes, equal,
}
use thrussh_mod.Error.{Error, thrussh, Result, ok, err, no_fuel, ◌>>=◌}
use thrussh_mod.Wire.{Wire, push_packet, read_string?}
use thrussh_mod.Utf8.{is_utf8}
use thrussh_mod.Auth.{MethodSet, empty, from_bytes, next, CurrentRequest, AuthRequest}
use thrussh_mod.Compression.{init_decompress}
use thrussh_mod.Negotiation.{split}
use thrussh_mod.Encrypted.{
  slice_from, Encrypted, waiting_service_request, waiting_auth_request, init_compression,
}
use thrussh_mod.Client.{
  Method, password, public_key, future_public_key, ClientKeys, Reply, auth_success, auth_failure,
  sign_request, Session, Call, Step, done, calls,
}
use thrussh_mod.Client.Auth.{write_auth_request, client_make_to_sign, client_send_signature}
use thrussh_mod.Msg

-- `MethodSet::all()`, `|`, and `is_empty`
abbrev pub all : MethodSet
all = record {
  none_method = true;
  password = true;
  publickey = true;
  hostbased = true;
  keyboard_interactive = true;
}

abbrev pub union : MethodSet → MethodSet → MethodSet
union a b = record {
  none_method = a.none_method || b.none_method;
  password = a.password || b.password;
  publickey = a.publickey || b.publickey;
  hostbased = a.hostbased || b.hostbased;
  keyboard_interactive = a.keyboard_interactive || b.keyboard_interactive;
}

abbrev pub is_empty_set : MethodSet → Bool
is_empty_set m = elim (next m) [ none ↦ true | some r ↦ false ]

-- The methods among some names
unfoldable pub methods_of : List Bytes → MethodSet → MethodSet
methods_of [] acc = acc
methods_of (name ∷ names) acc =
    methods_of names (elim (from_bytes name) [ none ↦ acc | some m ↦ union acc m ])

-- The mark that the server has taken a key
abbrev pub mark_pk_ok : Option CurrentRequest → Option CurrentRequest
mark_pk_ok (some (CurrentRequest.public_key key algo sent)) =
    some (CurrentRequest.public_key key algo true)
mark_pk_ok other = other

-- The loop that waits for a signature: every other message is dropped, and while none comes it goes
-- on.
unfoldable pub wait_signed : List (Option Bytes) → Result (Bytes × List (Option Bytes))
wait_signed [] = no_fuel
wait_signed (some signed ∷ rest) = ok (signed, rest)
wait_signed (none ∷ rest) = wait_signed rest

module _ {KP K : Type 0} where
  abbrev pub with_enc : Session KP K → Encrypted → Session KP K
  with_enc s enc = record s { common = record s.common { encrypted = some enc } }

  -- `self.sender.send(reply)`
  unfoldable pub send_reply : Session KP K → Reply K → Result (Session KP K)
  send_reply s reply = elim s.listening [
    | true ↦ ok (record s { replies = reply ∷ s.replies })
    | false ↦ err (thrussh Error.send_error)
  ]

  module _ (w : Wire) (keys : ClientKeys KP K) where
    -- The request for which the client has a method, when its service was accepted
    unfoldable pub first_request : Session KP K → Encrypted → (sent : Bool) → Session KP K
    unfolding write_auth_request
    first_request s enc sent = elim s.auth_method [
      | none ↦ with_enc s (record enc { state = waiting_service_request sent true })
      | some meth ↦
          let (enc', written) = write_auth_request w keys enc s.common.auth_user meth in
          with_enc s (record enc' {
            state = waiting_auth_request (record {
              methods = all;
              partial_success = false;
              current = none;
              rejection_count = 0;
            });
          })
    ]

    unfoldable pub read_service_accept :
        Session KP K → Encrypted → Bytes → ℕ → (sent : Bool) → Result (Session KP K)
    unfolding first_request
    read_service_accept s enc buf b sent = elim (b == Msg.service_accept) [
      | false ↦ err (thrussh Error.inconsistent)
      | true ↦ do
        (service, r) ← read_string? w buf 1
        elim (equal service (codes "ssh-userauth")) [
          | true ↦ ok (first_request s enc sent)
          | false ↦ ok s
        ]
    ]

    unfoldable pub read_success : Session KP K → Encrypted → Result (Session KP K)
    unfolding send_reply
    read_success s enc = do
      s' ← send_reply s auth_success
      ok (
          with_enc s' (record enc {
            state = init_compression;
            decompress = init_decompress enc.server_compression enc.decompress;
          }))

    unfoldable pub read_banner :
        {H : Type 0} → Option H → Session KP K → Bytes → Result (Step H KP K)
    read_banner h s buf = do
      (banner, r) ← read_string? w buf 1
      elim (is_utf8 banner) [
        | true ↦ ok (calls h (Call.auth_banner banner) s)
        | false ↦ ok (done h s)
      ]

    unfoldable pub read_failure :
        Session KP K → Encrypted → AuthRequest → Bytes → Result (Session KP K)
    unfolding send_reply
    read_failure s enc a buf = do
      (remaining_methods, r) ← read_string? w buf 1
      let methods = methods_of (split remaining_methods) empty
      s' ← send_reply (record s { auth_method = none }) auth_failure
      elim (is_empty_set methods) [
        | true ↦ err (thrussh Error.no_auth_method)
        | false ↦ ok (
            with_enc s'
              (record enc { state = waiting_auth_request (record a { methods = methods }) }))
      ]

    -- The signature of a key that is elsewhere: what is to be signed goes out, and comes back with
    -- the signature behind it.
    unfoldable pub sign_elsewhere : Session KP K → Encrypted → K → Result (Session KP K)
    unfolding client_make_to_sign send_reply wait_signed
    sign_elsewhere s enc key = do
      let (to_sign, i) =
          client_make_to_sign w enc s.common.auth_user (keys.public_name key)
            (keys.public_push_to key)
      s' ← send_reply s (sign_request key to_sign)
      (signed, rest) ← wait_signed s'.received
      let s'' = record s' { buffer = signed; received = rest }
      elim (length signed == length to_sign) [
        | true ↦ ok (with_enc s'' enc)
        | false ↦ do
          body ← slice_from signed i
          ok (with_enc s'' (record enc { write = push_packet w enc.write body }))
      ]

    -- The signature, with the method that the client has
    unfoldable pub answer_pk_ok :
        Session KP K → Encrypted → Option (Method KP K) → Result (Session KP K)
    unfolding client_send_signature sign_elsewhere
    answer_pk_ok s enc (some (public_key key)) = do
      (enc', buffer) ← client_send_signature w keys enc s.common.auth_user (public_key key) []
      ok (with_enc (record s { buffer = buffer }) enc')
    answer_pk_ok s enc (some (future_public_key key)) = sign_elsewhere s enc key
    answer_pk_ok s enc (some (password text)) = ok (with_enc s enc)
    answer_pk_ok s enc none = ok (with_enc s enc)

    unfoldable pub read_pk_ok : Session KP K → Encrypted → AuthRequest → Result (Session KP K)
    unfolding answer_pk_ok
    read_pk_ok s enc a =
        answer_pk_ok (record s { auth_method = none })
          (record enc {
            state = waiting_auth_request (record a { current = mark_pk_ok a.current });
          })
          s.auth_method

    -- A message while a request waits for its answer
    unfoldable pub read_auth_answer :
        {H : Type 0}
        → Option H
        → Session KP K
        → Encrypted
        → AuthRequest
        → Bytes
        → ℕ
        → Result (Step H KP K)
    unfolding read_success read_banner read_failure read_pk_ok
    read_auth_answer h s enc a buf b = elim (b == Msg.userauth_success) [
      | true ↦ do s' ← read_success s enc; ok (done h s')
      | false ↦ elim (b == Msg.userauth_banner) [
        | true ↦ read_banner h s buf
        | false ↦ elim (b == Msg.userauth_failure) [
          | true ↦ do s' ← read_failure s enc a buf; ok (done h s')
          | false ↦ elim (b == Msg.userauth_pk_ok) [
            | true ↦ do s' ← read_pk_ok s enc a; ok (done h s')
            | false ↦ err (thrussh Error.inconsistent)
          ]
        ]
      ]
    ]
