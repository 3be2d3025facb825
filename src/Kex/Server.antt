-- ===== src/Kex/Server.antt =====
-- src/server/kex.rs: the steps of a key exchange on the server.
use thrussh_mod.Base.{
  ℕ, suc, true, false, Option, none, some, List, [], ◌∷◌, ◌++◌, ◌==◌, if◌then◌else◌, get_elem?,
  Bytes, equal,
}
use thrussh_mod.Error.{Error, thrussh, Result, ok, panic, ◌>>=◌, ◌>>◌, assert, ok_or, unwrap}
use thrussh_mod.Wire.{Wire, read_string?}
use thrussh_mod.Sodium.{Sodium}
use thrussh_mod.SshBuffer.{SshBuffer}
use thrussh_mod.Cipher.{CipherPair}
use thrussh_mod.Cipher
use thrussh_mod.Negotiation.{read_kex, write_kex, server_select}
use thrussh_mod.ServerConfig.{ServerConfig}
use thrussh_mod.Kex.{Kex, kex_init, kex_dh, new_keys, KexInit, KexDh, KexDhDone}
use thrussh_mod.Kex.Derivation.{Primitives, server_dh, compute_exchange_hash, done_keys}
use thrussh_mod.Msg

-- `key::KeyPair` of thrussh_keys: its name, what `push_to` writes, and what `add_signature` appends.
pub record HostKeys (KP : Type 0) : Type 0 where
  pub name : KP → Bytes
  pub push_to : KP → Bytes
  pub add_signature : KP → (hash : Bytes) → Result Bytes

module _ {KP : Type 0} (host : HostKeys KP) where
  -- The loop over `config.keys`: the number of the first key of this name.
  unfoldable pub find_key : Bytes → ℕ → List KP → Option ℕ
  find_key name i [] = none
  find_key name i (k ∷ ks) =
      let further = find_key name (suc i) ks in if equal (host.name k) name then some i else further

  module _ (w : Wire) (na : Sodium) (pr : Primitives) (config : ServerConfig) (keys : List KP)
      (cipher : CipherPair) where
    -- `KexInit::server_write`; `cookie` is what `rand_bytes` gives.
    unfoldable pub server_write : KexInit → Option Bytes → SshBuffer → Result (KexInit × SshBuffer)
    server_write self cookie out = do
      server_kex_init ← write_kex w config.preferred cookie []
      out' ← Cipher.write w na cipher server_kex_init out
      ok (
        record self {
          exchange = record self.exchange { server_kex_init = server_kex_init };
          sent = true;
        },
        out',
      )

    -- The answer to a KEXINIT, if this side has sent none.
    unfoldable pub answer_init : KexInit → Option Bytes → SshBuffer → Result (KexInit × SshBuffer)
    unfolding server_write
    answer_init self cookie out = elim self.sent [
      | true ↦ ok (self, out)
      | false ↦ server_write self cookie out
    ]

    -- `KexInit::server_parse`
    unfoldable pub server_parse :
        KexInit → Option Bytes → Bytes → SshBuffer → Result (Kex × SshBuffer)
    unfolding answer_init
    server_parse self cookie [] out = panic
    server_parse self cookie (b ∷ payload) out = elim (b == Msg.kexinit) [
      | false ↦ ok (kex_init self, out)
      | true ↦ do
        let buf = b ∷ payload
        algo ← read_kex w server_select buf config.preferred
        (self', out') ←
            answer_init
              (record self {
                exchange = record self.exchange {
                  client_kex_init = self.exchange.client_kex_init ++ buf;
                };
              })
              cookie out
        key ← ok_or (find_key algo.key 0 keys) (thrussh Error.unknown_key)
        ok (
          kex_dh (record {
            exchange = self'.exchange;
            key = key;
            names = algo;
            session_id = self'.session_id;
          }),
          out',
        )
    ]

    -- `KexDh::parse` of a packet that is not to be ignored
    unfoldable pub process_dh : KexDh → Option Bytes → Bytes → SshBuffer → Result (Kex × SshBuffer)
    process_dh self random buf out = do
      (client_ephemeral, r) ← read_string? w buf 1
      (kex, exchange) ←
          server_dh w pr random
            (record self.exchange {
              client_ephemeral = self.exchange.client_ephemeral ++ client_ephemeral;
            })
            buf
      host_key ← unwrap (get_elem? keys self.key)
      hash ← compute_exchange_hash w pr kex (host.push_to host_key) exchange
      signature ← host.add_signature host_key hash
      out1 ←
          Cipher.write w na cipher
            (Msg.kex_ecdh_reply
              ∷ (host.push_to host_key ++ (w.ssh_string exchange.server_ephemeral ++ signature)))
            out
      out2 ← Cipher.write w na cipher (Msg.newkeys ∷ []) out1
      let done : KexDhDone = record {
        exchange = exchange;
        kex = kex;
        key = self.key;
        names = self.names;
        session_id = self.session_id;
      }
      keys' ← done_keys w pr done hash true
      ok (new_keys keys', out2)

    -- `KexDh::parse`; a packet that the client guessed wrongly is passed over once.
    unfoldable pub parse_dh : KexDh → Option Bytes → Bytes → SshBuffer → Result (Kex × SshBuffer)
    unfolding process_dh
    parse_dh self random [] out = elim self.names.ignore_guessed [
      | true ↦
          ok (kex_dh (record self { names = record self.names { ignore_guessed = false } }), out)
      | false ↦ panic
    ]
    parse_dh self random (b ∷ payload) out = elim self.names.ignore_guessed [
      | true ↦
          ok (kex_dh (record self { names = record self.names { ignore_guessed = false } }), out)
      | false ↦ do assert (b == Msg.kex_ecdh_init); process_dh self random (b ∷ payload) out
    ]
