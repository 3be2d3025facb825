-- ===== src/Codes.antt =====
-- src/lib.rs: the reasons for a disconnection and for a channel that is not opened, the signals, and
-- the limits behind which keys are exchanged again.
pub mod RoundTrips
use thrussh_mod.Base.{
  ℕ, zero, suc, ◌+◌, ◌-◌, ◌*◌, ◌/◌, ◌%◌, ◌^◌, ◌≤◌, ◌<◌, min, max, ◌≡◌, refl, sym, ap, ap₂, subst,
  ◌∙◌, ◌≢◌, ◌↔◌, ◌⊎◌, inl, inr, Bool, true, false, not, ◌&&◌, ◌||◌, Option, none, some, List, [],
  ◌∷◌, ◌++◌, map, append-nil, append_assoc, arith, ltb, leb, ◌==◌, if◌then◌else◌, ltb→lt, lt→ltb,
  leb→le, le→leb, ==_iff, ==_self, Bool-cases, Option-cases, length, take, drop, replicate,
  get_elem?, is_empty, length-append, length-take, length-drop, length-replicate, take-append-drop,
  take-append_of_length, drop-append_of_length, take-all, Bytes, codes, equal, equal_iff,
  equal_self,
}
use thrussh_mod.Error.{Result, ok, err, panic, utf8_error, ◌>>◌, assert}
use thrussh_mod.Utf8.{is_utf8}
use thrussh_mod.Encrypted.{Limits}

pub data Disconnect : Type 0 where
  host_not_allowed_to_connect protocol_error key_exchange_failed reserved mac_error : Disconnect
  compression_error service_not_available protocol_version_not_supported : Disconnect
  host_key_not_verifiable connection_lost by_application too_many_connections : Disconnect
  auth_cancelled_by_user no_more_auth_methods_available illegal_user_name : Disconnect

-- `reason as u32`
unfoldable pub disconnect_code : Disconnect → ℕ
disconnect_code host_not_allowed_to_connect = 1
disconnect_code protocol_error = 2
disconnect_code key_exchange_failed = 3
disconnect_code reserved = 4
disconnect_code mac_error = 5
disconnect_code compression_error = 6
disconnect_code service_not_available = 7
disconnect_code protocol_version_not_supported = 8
disconnect_code host_key_not_verifiable = 9
disconnect_code connection_lost = 10
disconnect_code by_application = 11
disconnect_code too_many_connections = 12
disconnect_code auth_cancelled_by_user = 13
disconnect_code no_more_auth_methods_available = 14
disconnect_code illegal_user_name = 15

pub data Sig : Type 0 where
  abrt alrm fpe hup ill int kill pipe quit segv term usr1 : Sig
  custom : Bytes → Sig

-- `Sig::name`
unfoldable pub name : Sig → Bytes
name abrt = codes "ABRT"
name alrm = codes "ALRM"
name fpe = codes "FPE"
name hup = codes "HUP"
name ill = codes "ILL"
name int = codes "INT"
name kill = codes "KILL"
name pipe = codes "PIPE"
name quit = codes "QUIT"
name segv = codes "SEGV"
name term = codes "TERM"
name usr1 = codes "USR1"
name (custom c) = c

-- `Sig::from_name`
unfoldable pub from_name : Bytes → Result Sig
from_name s =
    if equal s (codes "ABRT")
    then ok abrt
    else if equal s (codes "ALRM")
    then ok alrm
    else if equal s (codes "FPE")
    then ok fpe
    else if equal s (codes "HUP")
    then ok hup
    else if equal s (codes "ILL")
    then ok ill
    else if equal s (codes "INT")
    then ok int
    else if equal s (codes "KILL")
    then ok kill
    else if equal s (codes "PIPE")
    then ok pipe
    else if equal s (codes "QUIT")
    then ok quit
    else if equal s (codes "SEGV")
    then ok segv
    else if equal s (codes "TERM")
    then ok term
    else if equal s (codes "USR1")
    then ok usr1
    else if is_utf8 s
    then ok (custom s)
    else err utf8_error

pub data ChannelOpenFailure : Type 0 where
  administratively_prohibited connect_failed unknown_channel_type resource_shortage :
      ChannelOpenFailure

-- `reason as u32`
unfoldable pub failure_code : ChannelOpenFailure → ℕ
failure_code administratively_prohibited = 1
failure_code connect_failed = 2
failure_code unknown_channel_type = 3
failure_code resource_shortage = 4

-- `ChannelOpenFailure::from_u32`
unfoldable pub from_u32 : ℕ → Option ChannelOpenFailure
from_u32 x =
    if x == 1
    then some administratively_prohibited
    else if x == 2
    then some connect_failed
    else if x == 3
    then some unknown_channel_type
    else if x == 4
    then some resource_shortage
    else none

-- `Limits::new`
unfoldable pub new_limits : ℕ → ℕ → ℕ → Result Limits
new_limits write_limit read_limit time_limit = do
  assert (leb write_limit (2 ^ 30) && leb read_limit (2 ^ 30))
  ok (record {
    rekey_write_limit = write_limit;
    rekey_read_limit = read_limit;
    rekey_time_limit = time_limit;
  })
