-- ===== src/Negotiation.antt =====
-- src/negotiation.rs: the choice of algorithms. `Preferred` holds the names as byte strings.
pub mod Select
pub mod Agreement
use thrussh_mod.Base.{
  ℕ, Bool, true, false, not, ◌&&◌, Option, none, some, List, [], ◌∷◌, ◌++◌, Bytes, replicate, codes,
  equal, ◌==◌, if◌then◌else◌,
}
use thrussh_mod.Error.{Error, Result, ok, err, thrussh, openssl_error, ok_or, ◌>>=◌}
use thrussh_mod.Wire.{Wire, read_string?, read_byte?}
use thrussh_mod.Compression.{Compression, from_string}
use thrussh_mod.Msg

pub record Names : Type 0 where
  pub kex : Bytes
  pub key : Bytes
  pub cipher : Bytes
  pub mac : Option Bytes
  pub server_compression : Compression
  pub client_compression : Compression
  pub ignore_guessed : Bool

pub record Preferred : Type 0 where
  pub kex : List Bytes
  pub key : List Bytes
  pub cipher : List Bytes
  pub mac : List Bytes
  pub compression : List Bytes

-- `Preferred::DEFAULT` and `Preferred::COMPRESSED`; the key names are those of thrussh_keys.
abbrev pub default_preferred : Preferred
default_preferred = record {
  kex = codes "curve25519-sha256@libssh.org" ∷ [];
  key = codes "ssh-ed25519" ∷ codes "rsa-sha2-256" ∷ codes "rsa-sha2-512" ∷ [];
  cipher = codes "chacha20-poly1305@openssh.com" ∷ [];
  mac = codes "none" ∷ [];
  compression = codes "none" ∷ codes "zlib" ∷ codes "zlib@openssh.com" ∷ [];
}

abbrev pub compressed_preferred : Preferred
compressed_preferred = record default_preferred {
  compression = codes "zlib" ∷ codes "zlib@openssh.com" ∷ codes "none" ∷ [];
}

-- `slice::split` at the commas: a text with no comma is one piece, the empty text too.
unfoldable pub extend_first : ℕ → List Bytes → List Bytes
extend_first c [] = (c ∷ []) ∷ []
extend_first c (p ∷ ps) = (c ∷ p) ∷ ps

unfoldable pub split : Bytes → List Bytes
unfolding extend_first
split [] = [] ∷ []
split (c ∷ cs) = let pieces = split cs in if c == b',' then [] ∷ pieces else extend_first c pieces

-- The inner loop over `ys` returns, or leaves the flag `both_first_choice`.
pub data Scan : Type 0 where
  found : Bool → Bytes → Scan
  go_on : Bool → Scan

module _ (pick : Bytes → Bytes → Bytes) where
  unfoldable pub scan : Bool → Bytes → List Bytes → Scan
  unfolding equal
  scan both x [] = go_on both
  scan both x (y ∷ ys) = if equal x y then found both (pick x y) else scan false x ys

  unfoldable pub select_loop : Bool → List Bytes → List Bytes → Option (Bool × Bytes)
  unfolding scan
  select_loop both [] ys = none
  select_loop both (x ∷ xs) ys = elim (scan both x ys) [
    | found b name ↦ some (b, name)
    | go_on b ↦ select_loop b xs ys
  ]

-- `Server::select(server_list, client_list)`: the client's names are in the outer loop.
unfoldable pub server_select : List Bytes → Bytes → Option (Bool × Bytes)
unfolding select_loop split
server_select server_list client_list = select_loop (λ c s. s) true (split client_list) server_list

-- `Client::select(client_list, server_list)`
unfoldable pub client_select : List Bytes → Bytes → Option (Bool × Bytes)
unfolding select_loop split
client_select client_list server_list = select_loop (λ c s. c) true client_list (split server_list)

abbrev pub Selector : Type 0
Selector = List Bytes → Bytes → Option (Bool × Bytes)

-- `Option::and_then(|(_, x)| Some(x))`
abbrev pub chosen : Option (Bool × Bytes) → Option Bytes
chosen none = none
chosen (some (b, x)) = some x

-- `Select::read_kex`, for either `select`
unfoldable pub read_kex : Wire → Selector → Bytes → Preferred → Result Names
read_kex w select buffer pref = do
  (kex_string, r1) ← read_string? w buffer 17
  (kex_both_first, kex_algorithm) ←
      ok_or (select pref.kex kex_string) (thrussh Error.no_common_kex_algo)
  (key_string, r2) ← read_string? w buffer r1
  (key_both_first, key_algorithm) ←
      ok_or (select pref.key key_string) (thrussh Error.no_common_key_algo)
  (cipher_string, r3) ← read_string? w buffer r2
  (cipher_first, cipher) ← ok_or (select pref.cipher cipher_string) (thrussh Error.no_common_cipher)
  (cipher_back, r4) ← read_string? w buffer r3
  (mac_string, r5) ← read_string? w buffer r4
  let mac = chosen (select pref.mac mac_string)
  (mac_back, r6) ← read_string? w buffer r5
  (client_string, r7) ← read_string? w buffer r6
  (client_first, c) ←
      ok_or (select pref.compression client_string) (thrussh Error.no_common_compression)
  (server_string, r8) ← read_string? w buffer r7
  (server_first, s) ←
      ok_or (select pref.compression server_string) (thrussh Error.no_common_compression)
  (languages, r9) ← read_string? w buffer r8
  (languages_back, r10) ← read_string? w buffer r9
  (follows, r11) ← read_byte? w buffer r10
  ok (record {
    kex = kex_algorithm;
    key = key_algorithm;
    cipher = cipher;
    mac = mac;
    server_compression = from_string s;
    client_compression = from_string c;
    ignore_guessed = not (follows == 0) && not (kex_both_first && key_both_first);
  })

-- What `write_kex` appends behind the cookie.
unfoldable pub kex_lists : Wire → Preferred → Bytes
kex_lists w prefs =
    w.name_list prefs.kex
    ++ (w.name_list prefs.key
        ++ (w.name_list prefs.cipher
            ++ (w.name_list prefs.cipher
                ++ (w.name_list prefs.mac
                    ++ (w.name_list prefs.mac
                        ++ (w.name_list prefs.compression
                            ++ (w.name_list prefs.compression
                                ++ (w.empty_list ++ (w.empty_list ++ (0 ∷ replicate 4 0))))))))))

-- `write_kex`; the cookie is what `rand_bytes` fills in, or `none` where it fails.
unfoldable pub write_kex : Wire → Preferred → Option Bytes → Bytes → Result Bytes
unfolding kex_lists
write_kex w prefs cookie buf = do
  random ← ok_or cookie openssl_error
  ok (buf ++ ((Msg.kexinit ∷ random) ++ kex_lists w prefs))
