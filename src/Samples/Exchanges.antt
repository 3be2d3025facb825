-- ===== src/Samples/Exchanges.antt =====
-- A toy curve and a toy hash, and states of a key exchange for the tests.
use thrussh_mod.Base.{
  ℕ, ◌+◌, ◌≡◌, refl, ap, subst, false, some, [], ◌∷◌, ◌++◌, arith, length, replicate, Bytes, codes,
}
use thrussh_mod.Samples.Bytewise.{bytewise}
use thrussh_mod.SshBuffer.{SshBuffer}
use thrussh_mod.Compression.{Compression}
use thrussh_mod.Negotiation.{default_preferred, kex_lists}
use thrussh_mod.Msg
use thrussh_mod.Cipher.{CipherPair, SealingCipher, OpeningCipher}
use thrussh_mod.Kex.{Exchange, KexDh}
use thrussh_mod.Kex.Derivation.{Primitives, chacha_name}

abbrev pub first : Bytes → ℕ
first [] = 0
first (b ∷ bs) = b

abbrev pub block : ℕ → Bytes
block n = replicate 32 n

pub same_block : (m h : Bytes) → some (block (length m)) ≡ some h → length h ≡ 32
same_block m h e = subst (λ x. length x ≡ 32) (inside (block (length m)) h e) refl
  where
    inside : (a b : Bytes) → some a ≡ some b → a ≡ b
    inside a b e = cc

-- A point is the number of its secret's bytes, and two such numbers are added; so is a text hashed.
abbrev pub toy : Primitives
toy = record {
  scalarmult_base = λ a. block (length a);
  scalarmult = λ a p. block (length a + first p);
  sha256 = λ m. some (block (length m));
  mpint = λ p. p;
  length-scalarmult_base = λ a. refl;
  scalarmult_comm = λ a b. ap block (omega arith);
  length-sha256 = same_block;
}

abbrev pub exchange : Exchange
exchange = record {
  client_id = codes "c";
  server_id = codes "s";
  client_kex_init = [];
  server_kex_init = [];
  client_ephemeral = [];
  server_ephemeral = [];
}

abbrev pub clear_keys : CipherPair
clear_keys = record { local_to_remote = SealingCipher.clear; remote_to_local = OpeningCipher.clear }

abbrev pub client_message : Bytes
client_message = (Msg.kexinit ∷ replicate 16 7) ++ kex_lists bytewise default_preferred

abbrev pub second_state : KexDh
second_state = record {
  exchange = record exchange { client_kex_init = client_message };
  key = 1;
  names = record {
    kex = codes "curve25519-sha256@libssh.org";
    key = codes "ssh-ed25519";
    cipher = chacha_name;
    mac = some (codes "none");
    server_compression = Compression.none;
    client_compression = Compression.none;
    ignore_guessed = false;
  };
  session_id = some (4 ∷ []);
}

abbrev pub empty_buffer : SshBuffer
empty_buffer = record { buffer = []; len = 0; bytes = 0; seqn = 0 }
