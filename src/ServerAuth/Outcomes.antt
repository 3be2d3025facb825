-- ===== src/ServerAuth/Outcomes.antt =====
-- What a request of a client may come to, and when it is accepted.
use thrussh_mod.Base.{
  ℕ, ◌≡◌, refl, ap, ◌∙◌, ◌⊎◌, Bool, true, false, ◌&&◌, Option, none, some, [], ◌∷◌, ◌++◌, arith,
  take, Bytes, ◌≢◌, is_empty, codes,
}
use thrussh_mod.Error.{Result, ok, unwrap}
use thrussh_mod.Wire.{Wire, packet, read_string?, read_byte?}
use thrussh_mod.Auth.{MethodSet, empty, difference, AuthRequest}
use thrussh_mod.Encrypted.{EncryptedState, waiting_auth_request}
use thrussh_mod.ServerAuth.{
  Auth, accept, reject, unsupported_method, partial, Handler, PublicKeys, AuthSession, is_accept,
  sent_pk_ok,
}
use thrussh_mod.Msg

-- No method is in `m` that is not in `n`.
abbrev pub Subset : MethodSet → MethodSet → Type 0
Subset m n = difference m n ≡ empty

pub Subset-refl : (m : MethodSet) → Subset m m
Subset-refl m = ground arith

pub Subset-difference : (m n : MethodSet) → Subset (difference m n) m
Subset-difference m n = ground arith

pub is_accept-eq : (a : Auth) → is_accept a ≡ true → a ≡ accept
is_accept-eq accept h = refl
is_accept-eq reject h = cc
is_accept-eq unsupported_method h = cc
is_accept-eq (partial n i p) h = cc

pub both : (a b : Bool) → (a && b) ≡ true → (a ≡ true) × (b ≡ true)
both true true h = (refl, refl)
both true false h = cc
both false b h = cc

pub same_ok {ℓ} : {A : Type ℓ} (a b : A) → ok a ≡ ok b → a ≡ b
same_ok a b e = cc

pub unwrap-eq-ok {ℓ} : {A : Type ℓ} (o : Option A) (a : A) → unwrap o ≡ ok a → o ≡ some a
unwrap-eq-ok none a e = cc
unwrap-eq-ok (some b) a e = cc

pub accepts {ℓ} :
    {H : Type ℓ} (r : Result (H × Auth)) (answer : H × Auth)
    → r ≡ ok answer
    → is_accept answer.1 ≡ true
    → r ≡ ok (answer.0, accept)
accepts r (h, auth) e agreed = e ∙ ap (λ x. ok (h, x)) (is_accept-eq auth agreed)

module _ (w : Wire) {H K : Type 0} (handler : Handler H K) (keys : PublicKeys K) where
  -- The message names the user and the method, and `r` is behind them.
  abbrev pub Names : (buf user method : Bytes) → ℕ → Type 0
  Names buf user method r =
      (r1 : ℕ) × (r2 : ℕ) × (read_string? w buf 1 ≡ ok (user, r1))
      × (read_string? w buf r1 ≡ ok (codes "ssh-connection", r2))
      × (read_string? w buf r2 ≡ ok (method, r))

  -- Behind `r` the message holds the password.
  abbrev pub HoldsPassword : Bytes → ℕ → (password : Bytes) → Type 0
  HoldsPassword buf r password =
      (skipped : ℕ × ℕ) × (r' : ℕ) × (read_byte? w buf r ≡ ok skipped)
      × (read_string? w buf skipped.1 ≡ ok (password, r'))

  -- Behind `r` and a language tag the message holds the submethods of a dialogue.
  abbrev pub HoldsSubmethods : Bytes → ℕ → (submethods : Bytes) → Type 0
  HoldsSubmethods buf r submethods =
      (tag : Bytes × ℕ) × (r' : ℕ) × (read_string? w buf r ≡ ok tag)
      × (read_string? w buf tag.1 ≡ ok (submethods, r'))

  -- Behind `pos` the message holds a signature, as a name and the bytes `sig`, that is right under the
  -- key for the identifier of the session with the message before `pos`.
  abbrev pub IsSigned : AuthSession H → Bytes → (pos : ℕ) → K → Type 0
  IsSigned s buf pos pubkey =
      (signature : Bytes × ℕ) × (name : Bytes × ℕ) × (sig : Bytes × ℕ) × (read_string? w buf pos
        ≡ ok signature)
      × (read_string? w signature.0 0 ≡ ok name)
      × (read_string? w signature.0 name.1 ≡ ok sig)
      × (keys.verify_client_auth pubkey (w.ssh_string s.enc.session_id ++ take pos buf) sig.0
          ≡ true)

  -- Behind `r` the message holds the key, up to `pos`, with the flag that a signature follows.
  abbrev pub HoldsKey : Bytes → (r pos : ℕ) → K → Type 0
  HoldsKey buf r pos pubkey =
      (real : ℕ × ℕ) × (algo : Bytes × ℕ) × (key : Bytes) × (read_byte? w buf r ≡ ok real)
      × (real.0 ≢ 0)
      × (read_string? w buf real.1 ≡ ok algo)
      × (read_string? w buf algo.1 ≡ ok (key, pos))
      × (keys.parse algo.0 key ≡ ok pubkey)

  -- The message names the user, and the handler, asked about this user, accepted the password of the
  -- message or a dialogue; or the message holds a key and a right signature, and the handler, asked
  -- about this user when no user was known, accepted the key, or the server had answered to a key and
  -- the user is the one it knew. `after` is the handler then.
  pub data Accepted (s : AuthSession H) (a : AuthRequest) (buf user : Bytes) (after : Option H)
      : Type 0 where
    by_password :
        (h h' : H) (password : Bytes) (r : ℕ)
        → Names buf user (codes "password") r
        → HoldsPassword buf r password
        → s.handler ≡ some h
        → handler.auth_password h user password ≡ ok (h', accept)
        → after ≡ some h'
        → Accepted s a buf user after
    by_dialogue :
        (h h' : H) (submethods : Bytes) (r : ℕ)
        → Names buf user (codes "keyboard-interactive") r
        → HoldsSubmethods buf r submethods
        → s.handler ≡ some h
        → handler.auth_keyboard_interactive h user submethods none ≡ ok (h', accept)
        → after ≡ some h'
        → Accepted s a buf user after
    by_new_key :
        (h h' : H) (r pos : ℕ) (pubkey : K)
        → Names buf user (codes "publickey") r
        → HoldsKey buf r pos pubkey
        → IsSigned s buf pos pubkey
        → is_empty s.auth_user ≡ true
        → s.handler ≡ some h
        → handler.auth_publickey h user pubkey ≡ ok (h', accept)
        → after ≡ some h'
        → Accepted s a buf user after
    by_told_key :
        (r pos : ℕ) (pubkey : K)
        → Names buf user (codes "publickey") r
        → HoldsKey buf r pos pubkey
        → IsSigned s buf pos pubkey
        → sent_pk_ok a.current ≡ true
        → user ≡ s.auth_user
        → after ≡ s.handler
        → Accepted s a buf user after

  -- The answer to a request: the success message and the next state, with the reason, and the user
  -- that the message names as the user of the session; or a failure,
  -- an information request or a USERAUTH_PK_OK, and a request that waits on, with no method more.
  pub data Outcome (s : AuthSession H) (a : AuthRequest) (buf : Bytes) (s' : AuthSession H)
      : Type 0 where
    accepted :
        (user : Bytes)
        → Accepted s a buf user s'.handler
        → s'.auth_user ≡ user
        → s'.enc ≡ record s.enc {
          write = s.enc.write ++ packet w (Msg.userauth_success ∷ []);
          state = EncryptedState.init_compression;
        }
        → Outcome s a buf s'
    waits :
        (a' : AuthRequest) (b : ℕ) (rest : Bytes)
        → s'.enc ≡ record s.enc {
          write = s.enc.write ++ packet w (b ∷ rest);
          state = waiting_auth_request a';
        }
        → (b ≡ Msg.userauth_failure) ⊎ (b ≡ Msg.userauth_info_request)
        → Subset a'.methods a.methods
        → Outcome s a buf s'
