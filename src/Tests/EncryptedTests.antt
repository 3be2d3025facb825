-- ===== src/Tests/EncryptedTests.antt =====
-- src/session.rs: a session with two channels.
use thrussh_mod.Base.{
  ◌<◌, ◌-◌, true, ℕ, ◌+◌, ◌-◌, ◌/◌, ◌^◌, ◌≤◌, ◌<◌, ◌≡◌, refl, ◌≢◌, false, ◌||◌, none, some, List,
  [], ◌∷◌, ◌++◌, arith, leb, if◌then◌else◌, take, Bytes,
}
use thrussh_mod.Base.Dict.{lookup, insert}
use thrussh_mod.Error.{ok}
use thrussh_mod.SshBuffer.{SshBuffer}
use thrussh_mod.Samples.Bytewise.{bytewise}
use thrussh_mod.Samples.Toggle.{toggling}
use thrussh_mod.Samples.Sessions.{narrow, waiting, session}
use thrussh_mod.Compression.{Flate}
use thrussh_mod.Channel.{Pending}
use thrussh_mod.Cipher.{CipherPair, SealingCipher, OpeningCipher}
use thrussh_mod.Cipher
use thrussh_mod.Cipher.Framing.{sealed}
use thrussh_mod.Cipher.Stream.{write_all, read_all}
use thrussh_mod.Encrypted.{Encrypted, Limits, adjust_window_size, new_channel_id, next_vacant}
use thrussh_mod.Encrypted.Data.{send_data, flush_queue, data_header}
use thrussh_mod.Encrypted.Flush.{flush}
use thrussh_mod.Encrypted.Sending.{packets, AllWithin, concat}
use thrussh_mod.Encrypted.Queue
use thrussh_mod.Encrypted.PendingData
use thrussh_mod.Encrypted.Window
use thrussh_mod.Encrypted.Ids
use thrussh_mod.Encrypted.Flushing

abbrev block : Bytes
block = 11 ∷ 12 ∷ 13 ∷ 14 ∷ 15 ∷ 16 ∷ 17 ∷ []

send_data-direct_example :
    (pieces : List Bytes) × (send_data bytewise session 1 block
      ≡ ok (record session {
        write = [] ++ packets bytewise (data_header bytewise narrow) pieces;
        channels =
            insert 1
              (record narrow {
                recipient_window_size = 5 - 5;
                pending_data = (block, none, 5) ∷ [];
              })
              session.channels;
      }))
    × (concat pieces ≡ take 5 block)
    × AllWithin 2 pieces
unfolding lookup insert
send_data-direct_example =
    Queue.send_data-direct bytewise session 1 narrow block refl refl refl (omega arith)
      (omega arith) (omega arith)

abbrev fresh : List Pending
fresh = (1 ∷ 2 ∷ [], none, 0) ∷ (3 ∷ [], some 1, 0) ∷ []

flush_queue-fresh_example :
    (pieces : List Bytes) × (flush_queue bytewise [] waiting 0 fresh
      ≡ ok (
        [] ++ packets bytewise (data_header bytewise waiting) pieces,
        record waiting { recipient_window_size = 5 - 3; pending_data = [] },
        0 + 3,
      ))
    × (concat pieces ≡ 1 ∷ 2 ∷ 3 ∷ [])
    × AllWithin 2 pieces
flush_queue-fresh_example =
    PendingData.flush_queue-fresh bytewise fresh [] waiting 0
      (refl, omega arith, (refl, omega arith, tt)) (omega arith) (omega arith) (omega arith)

flush_queue_resends_example :
    (pieces : List Bytes) × (flush_queue bytewise [] waiting 0 ((1 ∷ 2 ∷ 3 ∷ [], none, 2) ∷ fresh)
      ≡ ok (
        [] ++ packets bytewise (data_header bytewise waiting) pieces,
        record waiting {
          recipient_window_size = 5 - 1;
          pending_data = (1 ∷ 2 ∷ 3 ∷ [], none, 1) ∷ fresh;
        },
        0 + 1,
      ))
    × (concat pieces ≡ 3 ∷ [])
flush_queue_resends_example =
    PendingData.flush_queue_resends bytewise [] waiting 0 (1 ∷ 2 ∷ 3 ∷ []) none 2 fresh
      (omega arith) (omega arith) (omega arith) (omega arith) (omega arith)

adjust_window_size_lem_example :
    let r = adjust_window_size bytewise session 1 block 20 in
    (size : ℕ) × (granted : ℕ) × (lookup 1 r.0.channels
      ≡ some (record narrow { sender_window_size = size }))
    × (size + Window.counted narrow block ≡ 10 + granted)
    × (20 / 2 ≤ size)
    × (r.0.write ≡ (if r.1 then [] ++ Window.adjust_packet bytewise narrow granted else []))
    × ((r.1 ≡ false) → granted ≡ 0)
    × ((r.1 ≡ true)
        → (size ≡ 20)
          × (10 - Window.counted narrow block < 20 / 2)
          × (granted ≡ 20 - (10 - Window.counted narrow block)))
    × ((j : ℕ) → j ≢ 1 → lookup j r.0.channels ≡ lookup j session.channels)
unfolding lookup insert
adjust_window_size_lem_example =
    Window.adjust_window_size_lem bytewise session 1 narrow block 20 refl

new_channel_id_fresh_example :
    (id : ℕ) × (new_channel_id session ≡ ok (record session { last_channel_id = id }, id))
    × (lookup id session.channels ≡ none)
    × (id < 2 ^ 32)
unfolding lookup insert
new_channel_id_fresh_example = Ids.new_channel_id_fresh session (omega arith)

-- The search steps over the two numbers that are taken.
new_channel_run : new_channel_id session ≡ ok (record session { last_channel_id = 3 }, 3)
unfolding new_channel_id next_vacant lookup insert
new_channel_run = refl

-- No stream of zlib is opened in these runs.
abbrev no_flate : Flate
no_flate = record { compress = λ z input room. none; decompress = λ z input room. none }

abbrev keys : CipherPair
keys = record {
  local_to_remote = SealingCipher.chacha20_poly1305 (1 ∷ []) (2 ∷ []);
  remote_to_local = OpeningCipher.chacha20_poly1305 (1 ∷ []) (2 ∷ []);
}

abbrev messages : List Bytes
messages = (94 ∷ 1 ∷ []) ∷ (96 ∷ []) ∷ []

abbrev ready : Encrypted
ready = record session { write = Flushing.queued bytewise messages }

abbrev limits : Limits
limits = record { rekey_write_limit = 100; rekey_read_limit = 100; rekey_time_limit = 100 }

abbrev socket : SshBuffer
socket = record { buffer = []; len = 0; bytes = 0; seqn = 0 }

abbrev sent1 : SshBuffer
sent1 = record {
  buffer = sealed bytewise toggling keys.local_to_remote 0 (94 ∷ 1 ∷ []);
  len = 0;
  bytes = 2;
  seqn = 1;
}

abbrev sent2 : SshBuffer
sent2 = record {
  buffer = sent1.buffer ++ sealed bytewise toggling keys.local_to_remote 1 (96 ∷ []);
  len = 0;
  bytes = 3;
  seqn = 2;
}

sends_messages : write_all bytewise toggling keys messages socket ≡ ok sent2
unfolding write_all Cipher.write Cipher.seal Cipher.padding_length Cipher.fill_padding
    Cipher.make_counter
sends_messages = refl

flush-read_all_example :
    (flush bytewise toggling no_flate keys 1 ready limits socket 50
      ≡ ok (record ready { write = []; write_cursor = 0 }, sent2, leb 100 3 || leb 100 (50 - 0)))
    × ((r' : SshBuffer) × (read_all bytewise toggling keys 2 (sent2.buffer ++ []) socket
          ≡ ok (messages, r', []))
        × (r'.seqn ≡ 2))
flush-read_all_example =
    Flushing.flush-read_all bytewise toggling no_flate keys 1 ready limits socket 50 messages keys
      socket [] refl refl refl ((omega arith), ((omega arith), tt)) sends_messages refl refl
