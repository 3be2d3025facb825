-- ===== src/Client.antt =====
-- src/client/mod.rs and src/client/encrypted.rs: the session of a client with what its messages and
-- those of the server change in it; `Method` of src/auth.rs, and the calls of `client::Handler`.
pub mod Auth
pub mod Answers
pub mod Channels
pub mod Commands
pub mod Loop
pub mod Frame
pub mod Naming
pub mod Opened
pub mod Read
pub mod Settled
pub mod Packets
use thrussh_mod.Base.{ℕ, Bool, true, false, Option, none, some, List, Bytes}
use thrussh_mod.Error.{Result, ok, ◌>>=◌, unwrap}
use thrussh_mod.Codes.{Sig, ChannelOpenFailure}
use thrussh_mod.CommonSession.{CommonSession}

-- `auth::Method`, with a key pair in `KP` or a public key in `K`, whose secret key is elsewhere
pub data Method (KP K : Type 0) : Type 0 where
  password : (password_text : Bytes) → Method KP K
  public_key : (key : KP) → Method KP K
  future_public_key : (key : K) → Method KP K

-- The keys of thrussh_keys: the names and the texts of public keys, and `add_self_signature`, of which
-- `self_signature` is what it appends.
pub record ClientKeys (KP K : Type 0) : Type 0 where
  pub name : KP → Bytes
  pub push_to : KP → Bytes
  pub public_name : K → Bytes
  pub public_push_to : K → Bytes
  pub self_signature : KP → (buffer : Bytes) → Result Bytes

-- What the session tells the task that holds the connection; of the four replies, a client that reads
-- sends these three.
pub data Reply (K : Type 0) : Type 0 where
  auth_success auth_failure : Reply K
  sign_request : (key : K) → (content : Bytes) → Reply K

-- `client::Session`. `replies` are those that went out, the last one in front; `listening` says that
-- the receiver of the replies has not been dropped, and `received` are the messages that wait: the
-- content of a `Msg::Signed`, or none for any other.
pub record Session (KP K : Type 0) : Type 0 where
  pub common : CommonSession
  pub auth_method : Option (Method KP K)
  pub buffer : Bytes
  pub replies : List (Reply K)
  pub listening : Bool
  pub received : List (Option Bytes)
  pub target_window_size : ℕ

-- The methods of `client::Handler` that a message of the server calls, with their arguments. The two
-- addresses of a forwarded channel go through `String::from_utf8_lossy`.
pub data Call : Type 0 where
  auth_banner : (banner : Bytes) → Call
  channel_open_confirmation : (channel max_packet_size window_size : ℕ) → Call
  channel_close channel_eof channel_success : (channel : ℕ) → Call
  channel_open_failure :
      (channel : ℕ) → (reason : ChannelOpenFailure) → (description language : Bytes) → Call
  channel_data : (channel : ℕ) → (content : Bytes) → Call
  extended_data : (channel code : ℕ) → (content : Bytes) → Call
  channel_open_forwarded_tcpip :
      (channel : ℕ)
      → (connected_address : Bytes) → (connected_port : ℕ) → (originator_address : Bytes)
      → (originator_port : ℕ) → Call
  channel_open_forwarded_tcpip_client :
      (channel : ℕ)
      → (connected_address : Bytes) → (connected_port : ℕ) → (originator_address : Bytes)
      → (originator_port window_size max_packet_size : ℕ) → Call
  xon_xoff : (channel : ℕ) → (client_can_do : Bool) → Call
  exit_status : (channel status : ℕ) → Call
  exit_signal : (channel : ℕ) → Sig → (core_dumped : Bool) → (error_message lang_tag : Bytes) → Call
  window_adjusted : (channel new_size : ℕ) → Call

-- `client::Handler`, with its state `H`
pub record ClientHandler (H KP K : Type 0) : Type 0 where
  pub handle : H → Call → Session KP K → Result (H × Session KP K)
  pub adjust_window : H → (channel target : ℕ) → H × ℕ

-- What is left to do when a message has been read.
pub data Step (H KP K : Type 0) : Type 0 where
  done : Option H → Session KP K → Step H KP K
  calls : Option H → Call → Session KP K → Step H KP K

module _ {H KP K : Type 0} (handler : ClientHandler H KP K) where
  -- The call of the handler, if there is one
  unfoldable pub finish : Step H KP K → Result (Option H × Session KP K)
  finish (done h s) = ok (h, s)
  finish (calls h c s) = do taken ← unwrap h; (h', s') ← handler.handle taken c s; ok (some h', s')
