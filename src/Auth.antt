-- ===== src/Auth.antt =====
-- src/auth.rs: authentication methods and the state of a request.
pub mod Methods
use thrussh_mod.Base.{
  ℕ, zero, suc, Bool, true, false, not, ◌&&◌, ◌||◌, Option, none, some, List, [], ◌∷◌, Bytes, codes,
  equal, if◌then◌else◌,
}

-- `MethodSet`, its five bits one by one.
pub record MethodSet : Type 0 where
  pub none_method : Bool
  pub password : Bool
  pub publickey : Bool
  pub hostbased : Bool
  pub keyboard_interactive : Bool

abbrev pub empty : MethodSet
empty = record {
  none_method = false;
  password = false;
  publickey = false;
  hostbased = false;
  keyboard_interactive = false;
}

abbrev pub none_set : MethodSet
none_set = record empty { none_method = true }

abbrev pub password_set : MethodSet
password_set = record empty { password = true }

abbrev pub publickey_set : MethodSet
publickey_set = record empty { publickey = true }

abbrev pub hostbased_set : MethodSet
hostbased_set = record empty { hostbased = true }

abbrev pub keyboard_interactive_set : MethodSet
keyboard_interactive_set = record empty { keyboard_interactive = true }

-- `a - b` of bitflags: the flags of `a` that are not in `b`.
abbrev pub difference : MethodSet → MethodSet → MethodSet
difference a b = record {
  none_method = a.none_method && not b.none_method;
  password = a.password && not b.password;
  publickey = a.publickey && not b.publickey;
  hostbased = a.hostbased && not b.hostbased;
  keyboard_interactive = a.keyboard_interactive && not b.keyboard_interactive;
}

-- `Iterator::next`: the first flag of the set in the order of the macro's calls, and the set
-- without it.
unfoldable pub next : MethodSet → Option (MethodSet × MethodSet)
next m =
    if m.none_method
    then some (none_set, record m { none_method = false })
    else if m.password
    then some (password_set, record m { password = false })
    else if m.publickey
    then some (publickey_set, record m { publickey = false })
    else if m.hostbased
    then some (hostbased_set, record m { hostbased = false })
    else if m.keyboard_interactive
    then some (keyboard_interactive_set, record m { keyboard_interactive = false })
    else none

-- The items of the iterator, in at most `rounds` calls.
unfoldable pub collect : ℕ → MethodSet → List MethodSet
unfolding next
collect zero m = []
collect (suc rounds) m = elim (next m) [
  | none ↦ []
  | some (item, rest) ↦ item ∷ collect rounds rest
]

pub same : Bool → Bool → Bool
same true b = b
same false b = not b

-- Equality of two sets.
pub set_equal : MethodSet → MethodSet → Bool
unfolding same
set_equal a b =
    same a.none_method b.none_method
    && (same a.password b.password
        && (same a.publickey b.publickey
            && (same a.hostbased b.hostbased
                && same a.keyboard_interactive b.keyboard_interactive)))

-- `encoding::Bytes::bytes`
unfoldable pub bytes : MethodSet → Bytes
unfolding set_equal
bytes m =
    if set_equal m none_set
    then codes "none"
    else if set_equal m password_set
    then codes "password"
    else if set_equal m publickey_set
    then codes "publickey"
    else if set_equal m hostbased_set
    then codes "hostbased"
    else if set_equal m keyboard_interactive_set
    then codes "keyboard-interactive"
    else []

unfoldable pub from_bytes : Bytes → Option MethodSet
unfolding equal
from_bytes b =
    if equal b (codes "none")
    then some none_set
    else if equal b (codes "password")
    then some password_set
    else if equal b (codes "publickey")
    then some publickey_set
    else if equal b (codes "hostbased")
    then some hostbased_set
    else if equal b (codes "keyboard-interactive")
    then some keyboard_interactive_set
    else none

pub data CurrentRequest : Type 0 where
  public_key : (key algo : Bytes) → (sent_pk_ok : Bool) → CurrentRequest
  keyboard_interactive : (submethods : Bytes) → CurrentRequest

pub record AuthRequest : Type 0 where
  pub methods : MethodSet
  pub partial_success : Bool
  pub current : Option CurrentRequest
  pub rejection_count : ℕ
