-- ===== src/Encrypted/Data.antt =====
-- `data`, `extended_data` and `flush_pending`: data on its way to the other side of a channel.
use thrussh_mod.Base.{
  ℕ, zero, suc, ◌+◌, min, true, false, Option, none, some, List, [], ◌∷◌, ◌++◌, ltb, if◌then◌else◌,
  length, take, drop, is_empty, Bytes,
}
use thrussh_mod.Base.Dict.{lookup, insert}
use thrussh_mod.Error.{Result, ok, no_fuel, ◌>>=◌, ◌>>◌, assert}
use thrussh_mod.Wire.{Wire, push_packet}
use thrussh_mod.Channel.{Channel, Pending}
use thrussh_mod.Msg
use thrussh_mod.Encrypted.{Encrypted, u32, sub32, window_slice}

module _ (w : Wire) where
  -- What stands before the data in a packet of `data` and of `extended_data`.
  abbrev pub data_header : Channel → Bytes
  data_header c = Msg.channel_data ∷ w.u32_be c.recipient_channel

  abbrev pub extended_header : ℕ → Channel → Bytes
  extended_header ext c = Msg.channel_extended_data ∷ (w.u32_be c.recipient_channel ++ w.u32_be ext)

  -- The `while buf.len() > 0` loop of `data_noqueue` and of `extended_data`.
  unfoldable pub send_loop :
      (Channel → Bytes) → ℕ → Bytes → Channel → Bytes → Result (Bytes × Channel)
  send_loop header fuel write c [] = ok (write, c)
  send_loop header zero write c (x ∷ xs) = no_fuel
  send_loop header (suc fuel) write c (x ∷ xs) =
      let buf = x ∷ xs in
      let off = min (length buf) c.recipient_maximum_packet_size in
      send_loop header fuel (push_packet w write (header c ++ w.ssh_string (take off buf)))
        (record c { recipient_window_size = sub32 c.recipient_window_size (u32 off) })
        (drop off buf)

  -- `data_noqueue`, and the same code in `extended_data`: the new `write` and channel, and the
  -- number of bytes sent. Every round sends a byte, unless the packet size is 0.
  unfoldable pub send_now :
      (Channel → Bytes) → Bytes → Channel → Bytes → ℕ → Result (Bytes × Channel × ℕ)
  unfolding window_slice
  send_now header write c buf0 from = do
    buf ← window_slice c buf0 from
    (write', c') ← send_loop header (length buf) write c buf
    ok (write', c', length buf)

  unfoldable pub data_noqueue : Bytes → Channel → Bytes → ℕ → Result (Bytes × Channel × ℕ)
  unfolding send_now
  data_noqueue = send_now data_header

  -- `data` (here `send_data`, with `code` none) and `extended_data`: the block is queued behind pending data; what the
  -- window does not let through is queued.
  unfoldable pub enqueue : (Channel → Bytes) → Option ℕ → Encrypted → ℕ → Bytes → Result Encrypted
  enqueue header code enc channel buf0 = elim (lookup channel enc.channels) [
    | none ↦ ok enc
    | some c ↦ do
      assert c.confirmed
      elim (is_empty c.pending_data) [
        | true ↦ do
          (write', c', sent) ← send_now header enc.write c buf0 0
          let queue = if ltb sent (length buf0) then (buf0, code, sent) ∷ [] else []
          let c'' = record c' { pending_data = c'.pending_data ++ queue }
          ok (record enc { write = write'; channels = insert channel c'' enc.channels })
        | false ↦
            let c' = record c { pending_data = c.pending_data ++ (buf0, code, 0) ∷ [] } in
            ok (record enc { channels = insert channel c' enc.channels })
      ]
  ]

  unfoldable pub send_data : Encrypted → ℕ → Bytes → Result Encrypted
  unfolding enqueue
  send_data = enqueue data_header none

  unfoldable pub extended_data : Encrypted → ℕ → ℕ → Bytes → Result Encrypted
  unfolding enqueue
  extended_data enc channel ext buf0 = enqueue (extended_header ext) (some ext) enc channel buf0

  -- The loop of `flush_pending` over the queue: `data_noqueue` on the front block; what it did not
  -- send is put back, and the loop ends.
  unfoldable pub flush_queue : Bytes → Channel → ℕ → List Pending → Result (Bytes × Channel × ℕ)
  unfolding data_noqueue
  flush_queue write c total [] = ok (write, record c { pending_data = [] }, total)
  flush_queue write c total ((buf, a, size) ∷ rest) = do
    (write', c', sent) ← data_noqueue write c buf size
    elim (ltb sent (length buf)) [
      | true ↦ ok (write', record c' { pending_data = (buf, a, sent) ∷ rest }, total + sent)
      | false ↦ flush_queue write' c' (total + sent) rest
    ]

  -- `flush_pending`
  unfoldable pub flush_pending : Encrypted → ℕ → Result (Encrypted × ℕ)
  unfolding flush_queue
  flush_pending enc channel = elim (lookup channel enc.channels) [
    | none ↦ ok (enc, 0)
    | some c ↦ do
      (write', c', total) ← flush_queue enc.write c 0 c.pending_data
      ok (record enc { write = write'; channels = insert channel c' enc.channels }, total)
  ]
