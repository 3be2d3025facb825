-- ===== src/Tests/CodesTests.antt =====
-- src/lib.rs and src/pty.rs: codes that are read.
use thrussh_mod.Base.{◌^◌, ◌≡◌, refl}
use thrussh_mod.Error.{panic}
use thrussh_mod.Codes.{new_limits}

too_high : new_limits (2 ^ 31) 0 0 ≡ panic
unfolding new_limits
too_high = refl
