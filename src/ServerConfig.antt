-- ===== src/ServerConfig.antt =====
-- src/server/mod.rs, `struct Config`: the fields that the model reads.
use thrussh_mod.Base.{ℕ, Option, Bytes}
use thrussh_mod.Auth.{MethodSet}
use thrussh_mod.Encrypted.{Limits}
use thrussh_mod.Negotiation.{Preferred}

pub record ServerConfig : Type 0 where
  pub methods : MethodSet
  pub auth_banner : Option Bytes
  pub limits : Limits
  pub window_size : ℕ
  pub maximum_packet_size : ℕ
  pub preferred : Preferred
