-- ===== src/Encrypted/Queue.antt =====
-- `data` and `extended_data` on a channel with an empty queue and with one that holds blocks.
use thrussh_mod.Base.{
  ℕ, ◌-◌, ◌^◌, ◌<◌, min, ◌≡◌, refl, true, Option, none, some, List, [], ◌∷◌, ◌++◌, arith, ltb,
  if◌then◌else◌, length, take, Bytes,
}
use thrussh_mod.Base.Dict.{lookup, insert}
use thrussh_mod.Error.{ok}
use thrussh_mod.Wire.{Wire}
use thrussh_mod.Channel.{Channel, Pending}
use thrussh_mod.Encrypted.Data.{
  extended_header, extended_data, send_now, data_header, enqueue, send_data,
}
use thrussh_mod.Encrypted.{Encrypted}
use thrussh_mod.Encrypted.Sending.{concat, AllWithin, packets, send_now-Sends}

-- What is left of a block behind the `n` bytes that were sent.
abbrev pub left_over : Bytes → Option ℕ → ℕ → List Pending
left_over buf code n = if ltb n (length buf) then (buf, code, n) ∷ [] else []

module _ (w : Wire) where
  enqueue_direct :
      (header : Channel → Bytes) (code : Option ℕ) (enc : Encrypted) (channel : ℕ) (c c' : Channel)
      (buf write' : Bytes) (n : ℕ)
      → lookup channel enc.channels ≡ some c
      → c.confirmed ≡ true
      → c.pending_data ≡ []
      → send_now w header enc.write c buf 0 ≡ ok (write', c', n)
      → c'.pending_data ≡ []
      → enqueue w header code enc channel buf
        ≡ ok (record enc {
          write = write';
          channels =
              insert channel (record c' { pending_data = left_over buf code n }) enc.channels;
        })
  unfolding enqueue
  enqueue_direct header code enc channel c c' buf write' n found conf empty sent e = ground arith

  -- On a confirmed channel with nothing queued, `data` sends what the window has room for at once,
  -- in pieces within the packet size, shrinks the window by as much, and queues the block with the
  -- offset of its first byte not sent, if there is one. Nothing else of the session changes.
  pub send_data-direct :
      (enc : Encrypted) (channel : ℕ) (c : Channel) (buf : Bytes)
      → lookup channel enc.channels ≡ some c
      → c.confirmed ≡ true
      → c.pending_data ≡ []
      → length buf < 2 ^ 32
      → c.recipient_window_size < 2 ^ 32
      → 0 < c.recipient_maximum_packet_size
      → let n = min (length buf) c.recipient_window_size in
        (pieces : List Bytes) × (send_data w enc channel buf
          ≡ ok (record enc {
            write = enc.write ++ packets w (data_header w c) pieces;
            channels =
                insert channel
                  (record c {
                    recipient_window_size = c.recipient_window_size - n;
                    pending_data = left_over buf none n;
                  })
                  enc.channels;
          }))
        × (concat pieces ≡ take n buf)
        × AllWithin c.recipient_maximum_packet_size pieces
  unfolding send_data
  send_data-direct enc channel c buf found conf empty hb hw hm =
      let (pieces, sent, whole, sizes) =
        send_now-Sends w (data_header w) (λ c n. refl) enc.write c buf hb hw hm in
      (
        pieces,
        enqueue_direct (data_header w) none enc channel c _ buf _ _ found conf empty sent empty,
        whole,
        sizes,
      )

  -- The same for `extended_data`, whose packets and queued block carry the code.
  pub extended_data-direct :
      (enc : Encrypted) (channel ext : ℕ) (c : Channel) (buf : Bytes)
      → lookup channel enc.channels ≡ some c
      → c.confirmed ≡ true
      → c.pending_data ≡ []
      → length buf < 2 ^ 32
      → c.recipient_window_size < 2 ^ 32
      → 0 < c.recipient_maximum_packet_size
      → let n = min (length buf) c.recipient_window_size in
        (pieces : List Bytes) × (extended_data w enc channel ext buf
          ≡ ok (record enc {
            write = enc.write ++ packets w (extended_header w ext c) pieces;
            channels =
                insert channel
                  (record c {
                    recipient_window_size = c.recipient_window_size - n;
                    pending_data = left_over buf (some ext) n;
                  })
                  enc.channels;
          }))
        × (concat pieces ≡ take n buf)
        × AllWithin c.recipient_maximum_packet_size pieces
  unfolding extended_data
  extended_data-direct enc channel ext c buf found conf empty hb hw hm =
      let (pieces, sent, whole, sizes) =
        send_now-Sends w (extended_header w ext) (λ c n. refl) enc.write c buf hb hw hm in
      (
        pieces,
        enqueue_direct (extended_header w ext) (some ext) enc channel c _ buf _ _ found conf empty
            sent empty,
        whole,
        sizes,
      )

  -- While blocks are queued, a new one goes behind them, from its first byte, and nothing is sent:
  -- neither the packets nor the window change.
  pub send_data-queued :
      (enc : Encrypted) (channel : ℕ) (c : Channel) (p : Pending) (ps : List Pending) (buf : Bytes)
      → lookup channel enc.channels ≡ some c
      → c.confirmed ≡ true
      → c.pending_data ≡ p ∷ ps
      → send_data w enc channel buf
        ≡ ok (record enc {
          channels =
              insert channel
                (record c { pending_data = c.pending_data ++ (buf, none, 0) ∷ [] })
                enc.channels;
        })
  unfolding send_data enqueue
  send_data-queued enc channel c p ps buf found conf queued = ground arith
