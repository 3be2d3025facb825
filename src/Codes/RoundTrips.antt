-- ===== src/Codes/RoundTrips.antt =====
-- Codes of src/lib.rs and src/pty.rs that are written and read again.
use thrussh_mod.Base.{
  ℕ, ◌≡◌, refl, ◌↔◌, none, some, arith, ◌==◌, if◌then◌else◌, Bytes, codes, equal_iff,
}
use thrussh_mod.Error.{ok}
use thrussh_mod.Codes.{
  Sig, name, from_name, ChannelOpenFailure, resource_shortage, failure_code, from_u32,
}
use thrussh_mod.Pty.{Pty, tty_op_end, to_u8, from_u8}

-- A name that is read as a signal is the name that the signal is written with, so that `from_name`
-- neither loses nor changes one.
pub name-from_name : (s : Bytes) (sig : Sig) → from_name s ≡ ok sig → name sig ≡ s
unfolding from_name name
name-from_name s sig e = ground (
  arith,
  equal_iff s (codes "ABRT"),
  equal_iff s (codes "ALRM"),
  equal_iff s (codes "FPE"),
  equal_iff s (codes "HUP"),
  equal_iff s (codes "ILL"),
  equal_iff s (codes "INT"),
  equal_iff s (codes "KILL"),
  equal_iff s (codes "PIPE"),
  equal_iff s (codes "QUIT"),
  equal_iff s (codes "SEGV"),
  equal_iff s (codes "TERM"),
  equal_iff s (codes "USR1"),
)

-- The numbers of the reasons are read as the reasons, and no other number is.
pub from_u32-failure_code :
    (x : ℕ) (reason : ChannelOpenFailure) → (from_u32 x ≡ some reason) ↔ (x ≡ failure_code reason)
unfolding from_u32 failure_code
from_u32-failure_code x resource_shortage = ground arith
from_u32-failure_code x _ = ground arith

-- The code of a terminal mode is read as that mode, so no two modes share one; only the code 0, the
-- end of the list of modes, is read as none.
pub from_u8-to_u8 : (p : Pty) → from_u8 (to_u8 p) ≡ (if to_u8 p == 0 then none else some p)
unfolding from_u8 to_u8
from_u8-to_u8 tty_op_end = refl
from_u8-to_u8 _ = refl
