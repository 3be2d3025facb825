-- ===== src/Kex.antt =====
-- The states of a key exchange, of src/session.rs, and `Algorithm` of src/kex.rs.
pub mod Check
pub mod Client
pub mod Derivation
pub mod Matching
pub mod Server
pub mod Steps
pub mod Second
use thrussh_mod.Base.{ℕ, Bool, true, false, Option, none, some, Bytes, []}
use thrussh_mod.Cipher.{CipherPair}
use thrussh_mod.Negotiation.{Names}

pub record Algorithm : Type 0 where
  pub local_secret : Option Bytes
  pub shared_secret : Option Bytes

pub record Exchange : Type 0 where
  pub client_id : Bytes
  pub server_id : Bytes
  pub client_kex_init : Bytes
  pub server_kex_init : Bytes
  pub client_ephemeral : Bytes
  pub server_ephemeral : Bytes

pub record KexInit : Type 0 where
  pub algo : Option Names
  pub exchange : Exchange
  pub session_id : Option Bytes
  pub sent : Bool

pub record KexDh : Type 0 where
  pub exchange : Exchange
  pub names : Names
  pub key : ℕ
  pub session_id : Option Bytes

pub record KexDhDone : Type 0 where
  pub exchange : Exchange
  pub kex : Algorithm
  pub key : ℕ
  pub session_id : Option Bytes
  pub names : Names

pub record NewKeys : Type 0 where
  pub exchange : Exchange
  pub names : Names
  pub kex : Algorithm
  pub key : ℕ
  pub cipher : CipherPair
  pub session_id : Bytes
  pub received : Bool
  pub sent : Bool

pub data Kex : Type 0 where
  kex_init : KexInit → Kex
  kex_dh : KexDh → Kex
  kex_dh_done : KexDhDone → Kex
  new_keys : NewKeys → Kex

-- The exchange with all but the two identification strings cleared.
cleared : Exchange → Exchange
cleared ex = record ex {
  client_kex_init = [];
  server_kex_init = [];
  client_ephemeral = [];
  server_ephemeral = [];
}

pub received_rekey : Exchange → Names → Bytes → KexInit
unfolding cleared
received_rekey ex algo session_id = record {
  exchange = cleared ex;
  algo = some algo;
  sent = false;
  session_id = some session_id;
}

pub initiate_rekey : Exchange → Bytes → KexInit
unfolding cleared
initiate_rekey ex session_id = record {
  exchange = cleared ex;
  algo = none;
  sent = true;
  session_id = some session_id;
}
