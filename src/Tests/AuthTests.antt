-- ===== src/Tests/AuthTests.antt =====
-- src/auth.rs and src/server/encrypted.rs: the sets of methods, and clients that authenticate.
use thrussh_mod.Base.{
  ℕ, suc, ◌≡◌, refl, Bool, true, false, none, some, [], ◌∷◌, ◌++◌, arith, if◌then◌else◌, Bytes,
  codes, equal,
}
use Prim.Native.String.{String}
use thrussh_mod.Error.{ok}
use thrussh_mod.Wire.{packet, push_packet}
use thrussh_mod.Samples.Bytewise.{bytewise}
use thrussh_mod.Samples.Sessions.{session}
use thrussh_mod.Auth.{MethodSet, CurrentRequest, AuthRequest, empty}
use thrussh_mod.Encrypted.{EncryptedState, waiting_service_request, waiting_auth_request}
use thrussh_mod.Utf8.{is_utf8, utf8_from}
use thrussh_mod.ServerAuth.{
  accept, reject, Handler, PublicKeys, AuthSession, succeed, server_auth_request_success,
  server_accept_service,
}
use thrussh_mod.ServerAuth.PublicKey.{with_key}
use thrussh_mod.ServerAuth.Requests.{server_read_auth_request, request_password}
use thrussh_mod.ServerAuth.Messages.{
  start_decompress, read_packet, read_message, read_service_request,
}
use thrussh_mod.ServerAuth.Outcomes.{Outcome}
use thrussh_mod.ServerAuth.Acceptance.{server_read_auth_request-Outcome}
use thrussh_mod.ServerAuth.History.{Run, start, step, Proof, Run-Proof}
use thrussh_mod.ServerAuth.Phases.{Phase, Moves, read_packet-Moves}
use thrussh_mod.ServerAuth.Flaws.{with_key-other, answers_accepted}
use thrussh_mod.ServerConfig.{ServerConfig}
use thrussh_mod.Negotiation.{default_preferred}
use thrussh_mod.Msg

abbrev two : MethodSet
two = record empty { publickey = true; password = true }

-- A handler that counts its calls: it takes one password, every key, and every answer.
abbrev guard : Handler ℕ Bytes
guard = record {
  auth_password =
      λ h user password. ok (suc h, if equal password (codes "pw") then accept else reject);
  auth_publickey = λ h user key. ok (suc h, accept);
  auth_keyboard_interactive = λ h user submethods response. ok (suc h, accept);
}

-- A key signs by its own name.
abbrev toy_keys : PublicKeys Bytes
toy_keys = record {
  parse = λ algo key. ok key;
  verify_client_auth = λ key buffer sig. equal sig key;
}

abbrev config : ServerConfig
config = record {
  methods = two;
  auth_banner = none;
  limits = record { rekey_write_limit = 1; rekey_read_limit = 1; rekey_time_limit = 1 };
  window_size = 100;
  maximum_packet_size = 10;
  preferred = default_preferred;
}

abbrev fresh : AuthSession ℕ
fresh = record {
  enc = record session { state = waiting_service_request false false };
  handler = some 0;
  auth_user = [];
}

abbrev text : String → Bytes
text s = bytewise.ssh_string (codes s)

abbrev service_message : Bytes
service_message = Msg.service_request ∷ text "ssh-userauth"

abbrev first_request : AuthRequest
first_request = record {
  methods = two;
  partial_success = false;
  current = none;
  rejection_count = 0;
}

abbrev asked : AuthSession ℕ
asked = record fresh {
  enc = record fresh.enc {
    write = [] ++ packet bytewise (Msg.service_accept ∷ text "ssh-userauth");
    state = waiting_auth_request first_request;
  };
}

abbrev password_message : Bytes
password_message =
    Msg.userauth_request
    ∷ (text "me" ++ (text "ssh-connection" ++ (text "password" ++ (0 ∷ text "pw"))))

abbrev entered : AuthSession ℕ
entered = record {
  enc = record asked.enc {
    write = asked.enc.write ++ packet bytewise (Msg.userauth_success ∷ []);
    state = EncryptedState.init_compression;
  };
  handler = some 1;
  auth_user = codes "me";
}

asks : read_packet bytewise guard toy_keys config fresh service_message ≡ ok (asked, false)
unfolding read_packet read_message read_service_request server_accept_service push_packet equal
asks = refl

reads_password :
    server_read_auth_request bytewise guard toy_keys asked password_message ≡ ok entered
unfolding server_read_auth_request request_password server_auth_request_success push_packet is_utf8
    utf8_from equal
reads_password = refl

server_read_auth_request-Outcome_example :
    Outcome bytewise guard toy_keys asked first_request password_message entered
server_read_auth_request-Outcome_example =
    server_read_auth_request-Outcome bytewise guard toy_keys asked first_request password_message
      entered refl reads_password

abbrev opened : AuthSession ℕ
opened = record entered { enc = start_decompress entered.enc entered.enc.state }

asks_again :
    read_packet bytewise guard toy_keys config asked password_message
    ≡ ok (record entered { enc = start_decompress entered.enc entered.enc.state }, false)
unfolding read_packet read_message
asks_again = rw reads_password refl

read_packet-Moves_example : Moves Msg.userauth_request Phase.request Phase.opening false
read_packet-Moves_example =
    read_packet-Moves bytewise guard toy_keys config asked opened Msg.userauth_request
      (text "me" ++ (text "ssh-connection" ++ (text "password" ++ (0 ∷ text "pw")))) false
      asks_again

-- The two messages, one after the other.
run : Run bytewise guard toy_keys config fresh opened
run = step password_message false (step service_message false start asks) asks_again

Run-Proof_example :
    (s1 : AuthSession ℕ) × (message : Bytes) × (more : Bool) × (s2 : AuthSession ℕ) × Run bytewise
      guard toy_keys config fresh s1
    × (read_packet bytewise guard toy_keys config s1 message ≡ ok (s2, more))
    × Run bytewise guard toy_keys config s2 opened
    × (p : Proof bytewise guard toy_keys config s1 message s2) × (codes "me" ≡ p.user)
Run-Proof_example = Run-Proof bytewise guard toy_keys config fresh opened run refl refl

abbrev told : AuthRequest
told = record first_request {
  current = some (CurrentRequest.public_key (codes "known") (codes "a") true);
}

-- A message that ends with the signature of the other key.
abbrev signed_message : Bytes
signed_message = Msg.userauth_request ∷ bytewise.ssh_string (text "a" ++ text "other")

with_key-other_example :
    with_key bytewise guard toy_keys
      (record asked { auth_user = codes "me" })
      told
      signed_message
      (codes "me")
      1
      (codes "a")
      (codes "other")
      1
      (ok (codes "other"))
    ≡ ok (succeed bytewise (record asked { auth_user = codes "me" }) (some 0) (codes "me"))
unfolding equal
with_key-other_example =
    with_key-other bytewise guard toy_keys (record asked { auth_user = codes "me" }) told
      (codes "known") (codes "a") signed_message (codes "me") 1 (codes "a") (codes "other") 1
      (codes "other") (text "a" ++ text "other") (codes "a") (codes "other") 19 5 14 refl refl
      (λ e. absurd (omega arith)) refl refl refl refl

abbrev in_dialogue : AuthRequest
in_dialogue = record first_request { current = some (CurrentRequest.keyboard_interactive []) }

abbrev talking : AuthSession ℕ
talking = record asked { enc = record asked.enc { state = waiting_auth_request in_dialogue } }

answers_accepted_example :
    read_packet bytewise guard toy_keys config talking
      (Msg.userauth_info_response ∷ bytewise.u32_be 0)
    ≡ ok (
      record {
        enc = record talking.enc {
          write = asked.enc.write ++ packet bytewise (Msg.userauth_success ∷ []);
          state = waiting_auth_request in_dialogue;
        };
        handler = some 1;
        auth_user = [];
      },
      false,
    )
answers_accepted_example =
    answers_accepted bytewise guard toy_keys config talking in_dialogue [] (bytewise.u32_be 0) 0 1 0
      5 refl refl refl refl refl
