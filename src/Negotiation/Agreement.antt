-- ===== src/Negotiation/Agreement.antt =====
-- `read_kex` on the message of `write_kex`: the two sides of a connection come to one result.
use thrussh_mod.Base.{
  ℕ, suc, ◌+◌, ◌<◌, ◌^◌, false, some, List, [], ◌∷◌, ◌++◌, Bytes, length, replicate, ◌≡◌, refl, sym,
  ◌∙◌, arith, length-append, append_assoc,
}
use thrussh_mod.Error.{Error, Result, ok, thrussh, ok_or, ◌>>=◌}
use thrussh_mod.Wire.{Wire, join, read_string?, read_byte?}
use thrussh_mod.Compression.{from_string}
use thrussh_mod.Negotiation.{
  Names, Preferred, Selector, chosen, read_kex, kex_lists, write_kex, server_select, client_select,
}
use thrussh_mod.Negotiation.Select.{IsNameList, client_select-server_select}
use thrussh_mod.Msg

-- What `read_kex` answers to the preferences `peer` of the other side.
abbrev pub answer : Selector → Preferred → Preferred → Result Names
answer select pref peer = do
  (kex_first, kex) ← ok_or (select pref.kex (join peer.kex)) (thrussh Error.no_common_kex_algo)
  (key_first, key) ← ok_or (select pref.key (join peer.key)) (thrussh Error.no_common_key_algo)
  (cipher_first, cipher) ←
      ok_or (select pref.cipher (join peer.cipher)) (thrussh Error.no_common_cipher)
  (client_first, c) ←
      ok_or (select pref.compression (join peer.compression)) (thrussh Error.no_common_compression)
  (server_first, s) ←
      ok_or (select pref.compression (join peer.compression)) (thrussh Error.no_common_compression)
  ok (record {
    kex = kex;
    key = key;
    cipher = cipher;
    mac = chosen (select pref.mac (join peer.mac));
    server_compression = from_string s;
    client_compression = from_string c;
    ignore_guessed = false;
  })

-- Each list of the preferences is one that the wire can carry.
pub record IsSendable (p : Preferred) : Type 0 where
  pub kex : IsNameList p.kex
  pub key : IsNameList p.key
  pub cipher : IsNameList p.cipher
  pub mac : IsNameList p.mac
  pub compression : IsNameList p.compression
  pub kex_fits : length (join p.kex) < 2 ^ 32
  pub key_fits : length (join p.key) < 2 ^ 32
  pub cipher_fits : length (join p.cipher) < 2 ^ 32
  pub mac_fits : length (join p.mac) < 2 ^ 32
  pub compression_fits : length (join p.compression) < 2 ^ 32

answers_agree :
    (client server : Preferred)
    → IsSendable client
    → IsSendable server
    → answer server_select server client ≡ answer client_select client server
answers_agree client server hc hs = rw (
  client_select-server_select client.kex server.kex hc.kex hs.kex,
  client_select-server_select client.key server.key hc.key hs.key,
  client_select-server_select client.cipher server.cipher hc.cipher hs.cipher,
  client_select-server_select client.mac server.mac hc.mac hs.mac,
  client_select-server_select client.compression server.compression hc.compression hs.compression,
)

module _ (w : Wire) (buf : Bytes) where
  -- At position `pos` the buffer goes on with `rest`.
  abbrev At : ℕ → Bytes → Type 0
  At pos rest = (pre : Bytes) × (buf ≡ pre ++ rest) × (pos ≡ length pre)

  advance :
      (pre a rest : Bytes) (pos : ℕ)
      → buf ≡ pre ++ (a ++ rest)
      → pos ≡ length pre
      → At (length pre + length a) rest
  advance pre a rest pos e p =
      (pre ++ a, e ∙ sym (append_assoc pre a rest), sym (length-append pre a))

  read_name_list :
      (names : List Bytes) (rest : Bytes) (pos : ℕ)
      → length (join names) < 2 ^ 32
      → At pos (w.name_list names ++ rest)
      → (next : ℕ) × (read_string? w buf pos ≡ ok (join names, next)) × At next rest
  read_name_list names rest pos fits (pre, e, p) = (
    length pre + length (w.name_list names),
    rw (e, p, w.read_string-name_list pre names rest fits),
    advance pre (w.name_list names) rest pos e p,
  )

  read_empty_list :
      (rest : Bytes) (pos : ℕ)
      → At pos (w.empty_list ++ rest)
      → (next : ℕ) × (read_string? w buf pos ≡ ok ([], next)) × At next rest
  read_empty_list rest pos (pre, e, p) = (
    length pre + length w.empty_list,
    rw (e, p, w.read_string-empty_list pre rest),
    advance pre w.empty_list rest pos e p,
  )

  read_last : (rest : Bytes) (pos : ℕ) → At pos (0 ∷ rest) → read_byte? w buf pos ≡ ok (0, suc pos)
  read_last rest pos (pre, e, p) = rw (e, p, w.read_byte-cons pre 0 rest)

  -- The reads of one message, in their order.
  record Reads (peer : Preferred) : Type 0 where
    p1 : ℕ
    p2 : ℕ
    p3 : ℕ
    p4 : ℕ
    p5 : ℕ
    p6 : ℕ
    p7 : ℕ
    p8 : ℕ
    p9 : ℕ
    p10 : ℕ
    p11 : ℕ
    kex : read_string? w buf 17 ≡ ok (join peer.kex, p1)
    key : read_string? w buf p1 ≡ ok (join peer.key, p2)
    cipher : read_string? w buf p2 ≡ ok (join peer.cipher, p3)
    cipher_back : read_string? w buf p3 ≡ ok (join peer.cipher, p4)
    mac : read_string? w buf p4 ≡ ok (join peer.mac, p5)
    mac_back : read_string? w buf p5 ≡ ok (join peer.mac, p6)
    client_compression : read_string? w buf p6 ≡ ok (join peer.compression, p7)
    server_compression : read_string? w buf p7 ≡ ok (join peer.compression, p8)
    languages : read_string? w buf p8 ≡ ok ([], p9)
    languages_back : read_string? w buf p9 ≡ ok ([], p10)
    follows : read_byte? w buf p10 ≡ ok (0, p11)

  read_kex-Reads :
      (select : Selector) (pref peer : Preferred)
      → Reads peer
      → read_kex w select buf pref ≡ answer select pref peer
  unfolding read_kex
  read_kex-Reads select pref peer r =
      simp
        (
          r.kex, r.key, r.cipher, r.cipher_back, r.mac, r.mac_back, r.client_compression,
          r.server_compression, r.languages, r.languages_back, r.follows,
        )
        refl

  At-Reads : (peer : Preferred) → IsSendable peer → At 17 (kex_lists w peer) → Reads peer
  unfolding kex_lists
  At-Reads peer h a0 =
      let (p1, e1, a1) = read_name_list peer.kex _ 17 h.kex_fits a0 in
      let (p2, e2, a2) = read_name_list peer.key _ p1 h.key_fits a1 in
      let (p3, e3, a3) = read_name_list peer.cipher _ p2 h.cipher_fits a2 in
      let (p4, e4, a4) = read_name_list peer.cipher _ p3 h.cipher_fits a3 in
      let (p5, e5, a5) = read_name_list peer.mac _ p4 h.mac_fits a4 in
      let (p6, e6, a6) = read_name_list peer.mac _ p5 h.mac_fits a5 in
      let (p7, e7, a7) = read_name_list peer.compression _ p6 h.compression_fits a6 in
      let (p8, e8, a8) = read_name_list peer.compression _ p7 h.compression_fits a7 in
      let (p9, e9, a9) = read_empty_list _ p8 a8 in
      let (p10, e10, a10) = read_empty_list _ p9 a9 in
      record {
        p1 = p1;
        p2 = p2;
        p3 = p3;
        p4 = p4;
        p5 = p5;
        p6 = p6;
        p7 = p7;
        p8 = p8;
        p9 = p9;
        p10 = p10;
        p11 = suc p10;
        kex = e1;
        key = e2;
        cipher = e3;
        cipher_back = e4;
        mac = e5;
        mac_back = e6;
        client_compression = e7;
        server_compression = e8;
        languages = e9;
        languages_back = e10;
        follows = read_last (replicate 4 0) p10 a10;
      }

module _ (w : Wire) where
  -- The reader sees the sender's lists, whatever the cookie.
  pub read_kex-write_kex :
      (select : Selector) (pref peer : Preferred) (cookie : Bytes) {m : Bytes}
      → IsSendable peer
      → length cookie ≡ 16
      → write_kex w peer (some cookie) [] ≡ ok m
      → read_kex w select m pref ≡ answer select pref peer
  unfolding write_kex
  read_kex-write_kex select pref peer cookie {m} h long e =
      read_kex-Reads w m select pref peer
        (At-Reads w m peer h (Msg.kexinit ∷ cookie, ground arith, omega arith))

  -- After the two sides have exchanged the messages that `write_kex` makes from their preferences,
  -- `read_kex` gives the server and the client one and the same result: the same algorithms, or the
  -- same error when they share none of some kind. Each list holds a name, no name holds a comma, and
  -- the lists fit the wire; the cookies are any 16 bytes.
  pub read_kex_agree :
      (client server : Preferred) (client_cookie server_cookie : Bytes)
      {from_client from_server : Bytes}
      → IsSendable client
      → IsSendable server
      → length client_cookie ≡ 16
      → length server_cookie ≡ 16
      → write_kex w client (some client_cookie) [] ≡ ok from_client
      → write_kex w server (some server_cookie) [] ≡ ok from_server
      → read_kex w server_select from_client server ≡ read_kex w client_select from_server client
  read_kex_agree client server cc sc hc hs lc ls ec es =
      read_kex-write_kex server_select server client cc hc lc ec
      ∙ answers_agree client server hc hs
      ∙ sym (read_kex-write_kex client_select client server sc hs ls es)
