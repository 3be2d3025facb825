-- ===== src/Tests/NegotiationTests.antt =====
-- src/negotiation.rs: the choice of algorithms.
use thrussh_mod.Base.{◌≡◌, refl, false, some, ◌∷◌, ◌++◌, arith, replicate, Bytes, codes}
use thrussh_mod.Samples.Bytewise.{bytewise}
use thrussh_mod.Negotiation.{
  Preferred, default_preferred, compressed_preferred, kex_lists, write_kex, read_kex, server_select,
  client_select, split,
}
use thrussh_mod.Msg
use thrussh_mod.Negotiation.Select.{choice, server_select-choice}
use thrussh_mod.Negotiation.Agreement.{IsSendable, read_kex_agree}

abbrev cookie : Bytes
cookie = replicate 16 7

abbrev message : Preferred → Bytes
message p = (Msg.kexinit ∷ cookie) ++ kex_lists bytewise p

default-IsSendable : IsSendable default_preferred
default-IsSendable = omega arith

compressed-IsSendable : IsSendable compressed_preferred
compressed-IsSendable = omega arith

server_select-choice_example :
    server_select default_preferred.compression (codes "zlib,none")
    ≡ choice (split (codes "zlib,none")) default_preferred.compression
server_select-choice_example =
    server_select-choice default_preferred.compression (codes "zlib,none")

select_runs :
    server_select default_preferred.compression (codes "zlib,none") ≡ some (false, codes "zlib")
unfolding server_select
select_runs = refl

read_kex_agree_example :
    read_kex bytewise server_select (message default_preferred) compressed_preferred
    ≡ read_kex bytewise client_select (message compressed_preferred) default_preferred
unfolding write_kex
read_kex_agree_example =
    read_kex_agree bytewise default_preferred compressed_preferred cookie cookie default-IsSendable
      compressed-IsSendable refl refl refl refl
