-- ===== src/Auth/Methods.antt =====
-- src/auth.rs: the iterator over a set of methods, and the names of methods.
use thrussh_mod.Base.{
  ℕ, zero, suc, ◌+◌, ◌≡◌, refl, Bool, true, false, some, List, [], ◌∷◌, arith, Bytes, codes,
  equal_iff,
}
use thrussh_mod.Auth.{
  MethodSet, empty, none_set, password_set, publickey_set, hostbased_set, keyboard_interactive_set,
  next, collect, bytes, from_bytes, set_equal,
}

abbrev pub flag : Bool → MethodSet → List MethodSet → List MethodSet
flag true item rest = item ∷ rest
flag false item rest = rest

-- The flags of a set one by one, in the order in which the crate declares them.
abbrev pub flags : MethodSet → List MethodSet
flags m = flag m.none_method none_set (
    flag m.password password_set (
      flag m.publickey publickey_set
        (flag m.hostbased hostbased_set (flag m.keyboard_interactive keyboard_interactive_set []))))

collect_end : (rounds : ℕ) → collect rounds empty ≡ []
unfolding collect next
collect_end zero = refl
collect_end (suc rounds) = refl

-- The iterator yields just the flags of the set, each once and in the order of the declaration, and
-- then ends: five rounds are enough for any set.
pub collect-flags : (m : MethodSet) (rounds : ℕ) → collect (5 + rounds) m ≡ flags m
unfolding collect next
collect-flags m rounds = ground (arith, collect_end rounds)

-- A name that is read as a set is the name that the set is written with.
pub from_bytes-bytes : (b : Bytes) (m : MethodSet) → from_bytes b ≡ some m → bytes m ≡ b
unfolding from_bytes bytes set_equal
from_bytes-bytes b m h = ground (
  arith,
  equal_iff b (codes "none"),
  equal_iff b (codes "password"),
  equal_iff b (codes "publickey"),
  equal_iff b (codes "hostbased"),
  equal_iff b (codes "keyboard-interactive"),
)
