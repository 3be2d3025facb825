-- ===== src/ServerAuth.antt =====
-- src/server/encrypted.rs, the authentication of a client by the server, with `Auth` and `Response`
-- of src/server/mod.rs. The time that a rejection takes is left out.
pub mod PublicKey
pub mod Requests
pub mod Messages
pub mod Outcomes
pub mod Acceptance
pub mod History
pub mod Phases
pub mod Flaws
use thrussh_mod.Base.{
  ℕ, zero, suc, ◌+◌, ◌-◌, ◌*◌, ◌/◌, ◌%◌, ◌^◌, ◌≤◌, ◌<◌, min, max, ◌≡◌, refl, sym, ap, ap₂, subst,
  ◌∙◌, ◌≢◌, ◌↔◌, ◌⊎◌, inl, inr, Bool, true, false, not, ◌&&◌, ◌||◌, Option, none, some, List, [],
  ◌∷◌, ◌++◌, map, append-nil, append_assoc, arith, ltb, leb, ◌==◌, if◌then◌else◌, ltb→lt, lt→ltb,
  leb→le, le→leb, ==_iff, ==_self, Bool-cases, Option-cases, length, take, drop, replicate,
  get_elem?, is_empty, length-append, length-take, length-drop, length-replicate, take-append-drop,
  take-append_of_length, drop-append_of_length, take-all, Bytes, codes, equal, equal_iff,
  equal_self,
}
use thrussh_mod.Error.{
  Error, Failure, thrussh, keys_could_not_read_key, utf8_error, Result, ok, err, panic, no_fuel,
  ◌>>=◌, ◌>>◌, unwrap,
}
use thrussh_mod.Wire.{Wire, push_packet, read_string?, read_u32?, read_byte?}
use thrussh_mod.Utf8.{is_utf8}
use thrussh_mod.Auth.{
  MethodSet, password_set, difference, collect, CurrentRequest, AuthRequest, bytes as method_name,
}
use thrussh_mod.Compression.{init_compress, init_decompress}
use thrussh_mod.Encrypted.{
  EncryptedState, Encrypted, waiting_service_request, waiting_auth_request, init_compression,
  authenticated,
}
use thrussh_mod.ServerConfig.{ServerConfig}
use thrussh_mod.Msg

pub data Auth : Type 0 where
  reject accept unsupported_method : Auth
  partial : (name instructions : Bytes) (prompts : List (Bytes × Bool)) → Auth

-- The answers of the client: a position in its message, and how many there are to be.
pub record Response : Type 0 where
  pub message : Bytes
  pub pos : ℕ
  pub n : ℕ

-- The handler of the server, with its state `H`: what it answers, or the error that it fails with.
pub record Handler (H K : Type 0) : Type 0 where
  pub auth_password : H → (user password : Bytes) → Result (H × Auth)
  pub auth_publickey : H → (user : Bytes) → K → Result (H × Auth)
  pub auth_keyboard_interactive :
      H → (user submethods : Bytes) → Option Response → Result (H × Auth)

-- `key::PublicKey` of thrussh_keys.
pub record PublicKeys (K : Type 0) : Type 0 where
  pub parse : (algo key : Bytes) → Result K
  pub verify_client_auth : K → (buffer sig : Bytes) → Bool

-- What a message of the client may change: the session, the handler and the user's name.
pub record AuthSession (H : Type 0) : Type 0 where
  pub enc : Encrypted
  pub handler : Option H
  pub auth_user : Bytes

abbrev pub is_accept : Auth → Bool
is_accept accept = true
is_accept _ = false

-- `std::str::from_utf8(text)?`
abbrev pub text? : Bytes → Result (Unit {0})
text? bs = if is_utf8 bs then ok tt else err utf8_error

-- The request that waits, or `unreachable!()`.
abbrev pub waiting : EncryptedState → Result AuthRequest
waiting (waiting_auth_request a) = ok a
waiting _ = panic

abbrev pub sent_pk_ok : Option CurrentRequest → Bool
sent_pk_ok (some (CurrentRequest.public_key key algo sent)) = sent
sent_pk_ok _ = false

module _ (w : Wire) where
  -- `server_accept_service`
  unfoldable pub server_accept_service : Option Bytes → MethodSet → Bytes → Bytes × AuthRequest
  server_accept_service banner methods buffer =
      let accepted =
        push_packet w buffer (Msg.service_accept ∷ w.ssh_string (codes "ssh-userauth")) in
      (
        elim banner [
          | none ↦ accepted
          | some text ↦
              push_packet w accepted (Msg.userauth_banner ∷ (w.ssh_string text ++ w.ssh_string []))
        ],
        record { methods = methods; partial_success = false; current = none; rejection_count = 0 },
      )

  -- `reject_auth_request`; a `MethodSet` has five flags at most.
  unfoldable pub reject_auth_request : Bytes → AuthRequest → Bytes × AuthRequest
  reject_auth_request write a = (
    push_packet w write (
        Msg.userauth_failure
        ∷ (w.name_list (map method_name (collect 5 a.methods))
            ++ (if a.partial_success then 1 else 0) ∷ [])),
    record a { current = none; rejection_count = a.rejection_count + 1 },
  )

  -- `server_auth_request_success`
  unfoldable pub server_auth_request_success : Bytes → Bytes
  server_auth_request_success buffer = push_packet w buffer (Msg.userauth_success ∷ [])

  abbrev pub prompts_text : List (Bytes × Bool) → Bytes
  prompts_text [] = []
  prompts_text ((a, b) ∷ prompts) = w.ssh_string a ++ ((if b then 1 else 0) ∷ prompts_text prompts)

  -- `reply_userauth_info_response`: the new `write` and request, and whether it is accepted.
  unfoldable pub reply_userauth_info_response :
      AuthRequest → Bytes → Auth → Result (Bytes × AuthRequest × Bool)
  unfolding server_auth_request_success reject_auth_request
  reply_userauth_info_response a write accept = ok (server_auth_request_success write, a, true)
  reply_userauth_info_response a write reject =
      let (write', a') = reject_auth_request write (record a { partial_success = false }) in
      ok (write', a', false)
  reply_userauth_info_response a write (partial name instructions prompts) = ok (
    push_packet w write (
        Msg.userauth_info_request
        ∷ (w.ssh_string name
            ++ (w.ssh_string instructions
                ++ (w.ssh_string []
                    ++ (w.u32_be (length prompts % 2 ^ 32) ++ prompts_text prompts))))),
    a,
    false,
  )
  reply_userauth_info_response a write unsupported_method = panic

  module _ {H : Type 0} where
    -- The session after a request that was accepted, or turned down.
    abbrev pub succeed : AuthSession H → Option H → Bytes → AuthSession H
    succeed s h user = record {
      enc = record s.enc {
        write = server_auth_request_success s.enc.write;
        state = EncryptedState.init_compression;
      };
      handler = h;
      auth_user = user;
    }

    abbrev pub turn_down : AuthSession H → AuthRequest → Option H → Bytes → AuthSession H
    turn_down s a h user =
        let (write', a') = reject_auth_request s.enc.write a in
        record {
          enc = record s.enc { write = write'; state = waiting_auth_request a' };
          handler = h;
          auth_user = user;
        }

    -- What a reply leaves behind: the session goes on to `after` when it was accepted.
    abbrev pub replied :
        AuthSession H → H → Bytes → EncryptedState → Bytes × AuthRequest × Bool → AuthSession H
    replied s h user after (write, a, accepted) = record {
      enc = record s.enc {
        write = write;
        state = if accepted then after else waiting_auth_request a;
      };
      handler = some h;
      auth_user = user;
    }
