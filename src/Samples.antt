-- ===== src/Samples.antt =====
-- Values of the interfaces, which show that their laws can be met, and data for the tests.
pub mod Bytewise
pub mod Clients
pub mod Toggle
pub mod Sessions
pub mod Exchanges
pub mod Servers
use thrussh_mod.Base.{
  ℕ, zero, suc, ◌+◌, ◌-◌, ◌*◌, ◌/◌, ◌%◌, ◌^◌, ◌≤◌, ◌<◌, min, max, ◌≡◌, refl, sym, ap, ap₂, subst,
  ◌∙◌, ◌≢◌, ◌↔◌, ◌⊎◌, inl, inr, Bool, true, false, not, ◌&&◌, ◌||◌, Option, none, some, List, [],
  ◌∷◌, ◌++◌, map, append-nil, append_assoc, arith, ltb, leb, ◌==◌, if◌then◌else◌, ltb→lt, lt→ltb,
  leb→le, le→leb, ==_iff, ==_self, Bool-cases, Option-cases, length, take, drop, replicate,
  get_elem?, is_empty, length-append, length-take, length-drop, length-replicate, take-append-drop,
  take-append_of_length, drop-append_of_length, take-all, Bytes, codes, equal, equal_iff,
  equal_self,
}
