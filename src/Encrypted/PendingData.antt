-- ===== src/Encrypted/PendingData.antt =====
-- `flush_pending`: the queue of a channel.
use thrussh_mod.Base.{
  ℕ, ◌+◌, ◌-◌, ◌^◌, ◌≤◌, ◌<◌, ◌≡◌, refl, ap₂, ◌∙◌, false, Option, List, [], ◌∷◌, ◌++◌, append-nil,
  append_assoc, arith, ltb, if◌then◌else◌, lt→ltb, length, drop, length-drop, Bytes,
}
use thrussh_mod.Error.{Result, panic, ok}
use thrussh_mod.Wire.{Wire}
use thrussh_mod.Channel.{Channel, Pending}
use thrussh_mod.Encrypted.{window_slice}
use thrussh_mod.Encrypted.Data.{flush_queue, data_noqueue, send_now, data_header}
use thrussh_mod.Encrypted.Sending.{
  send_loop-Sends, send_now_slice, concat-append, AllWithin-append, packets-append, concat,
  AllWithin, packets,
}

ltb_self : (n : ℕ) → ltb n n ≡ false
ltb_self n = ground arith

no_offset :
    (write : Bytes) (c : Channel) (n : ℕ)
    → ◌≡◌ {A = Result (Bytes × Channel × ℕ)}
        (ok (write, record c { recipient_window_size = c.recipient_window_size - (n - 0) }, n - 0))
        (ok (write, record c { recipient_window_size = c.recipient_window_size - n }, n))
no_offset write c n = ground arith

-- The blocks of a queue, all of them still to be sent from their first byte.
abbrev pub AllFresh : List Pending → Type 0
AllFresh [] = Unit
AllFresh ((buf, a, size) ∷ ps) = (size ≡ 0) × (length buf < 2 ^ 32) × AllFresh ps

abbrev pub blocks : List Pending → List Bytes
blocks [] = []
blocks ((buf, a, size) ∷ ps) = buf ∷ blocks ps

abbrev pub total : List Pending → ℕ
total [] = 0
total ((buf, a, size) ∷ ps) = length buf + total ps

module _ (w : Wire) where
  flush_cons :
      (write : Bytes) (c : Channel) (sum : ℕ) (buf : Bytes) (a : Option ℕ) (size sent : ℕ)
      (rest : List Pending) (write' : Bytes) (c' : Channel)
      → send_now w (data_header w) write c buf size ≡ ok (write', c', sent)
      → flush_queue w write c sum ((buf, a, size) ∷ rest) ≡ (
          if ltb sent (length buf)
          then ok (write', record c' { pending_data = (buf, a, sent) ∷ rest }, sum + sent)
          else flush_queue w write' c' (sum + sent) rest)
  unfolding flush_queue data_noqueue
  flush_cons write c sum buf a size sent rest write' c' e = ground arith

  -- A block whose rest fits the window goes out whole, from its offset on.
  send_rest :
      (write : Bytes) (c : Channel) (buf : Bytes) (from : ℕ)
      → from ≤ length buf
      → length buf ≤ c.recipient_window_size
      → c.recipient_window_size < 2 ^ 32
      → 0 < c.recipient_maximum_packet_size
      → (pieces : List Bytes) × (send_now w (data_header w) write c buf from
          ≡ ok (
            write ++ packets w (data_header w c) pieces,
            record c { recipient_window_size = c.recipient_window_size - (length buf - from) },
            length buf - from,
          ))
        × (concat pieces ≡ drop from buf)
        × AllWithin c.recipient_maximum_packet_size pieces
  send_rest write c buf from hf hl hw hm =
      let len : length (drop from buf) ≡ length buf - from = length-drop from buf in
      send_now_slice w (data_header w) (λ c n. refl) write c buf (drop from buf) from
        (length buf - from) (unfold window_slice in ground arith) len
        (send_loop-Sends w (data_header w) (λ c n. refl) (length (drop from buf)) write c
          (drop from buf) (omega arith) (omega (arith, len)) hw hm)

  send_whole :
      (write : Bytes) (c : Channel) (buf : Bytes)
      → length buf ≤ c.recipient_window_size
      → c.recipient_window_size < 2 ^ 32
      → 0 < c.recipient_maximum_packet_size
      → (pieces : List Bytes) × (send_now w (data_header w) write c buf 0
          ≡ ok (
            write ++ packets w (data_header w c) pieces,
            record c { recipient_window_size = c.recipient_window_size - length buf },
            length buf,
          ))
        × (concat pieces ≡ buf)
        × AllWithin c.recipient_maximum_packet_size pieces
  send_whole write c buf hl hw hm =
      let (pieces, sent, whole, sizes) = send_rest write c buf 0 (omega arith) hl hw hm in
      (pieces, sent ∙ no_offset _ c (length buf), whole, sizes)

  flush_whole :
      (write : Bytes) (c : Channel) (sum : ℕ) (buf : Bytes) (a : Option ℕ) (rest : List Pending)
      (first : List Bytes)
      → send_now w (data_header w) write c buf 0
        ≡ ok (
          write ++ packets w (data_header w c) first,
          record c { recipient_window_size = c.recipient_window_size - length buf },
          length buf,
        )
      → flush_queue w write c sum ((buf, a, 0) ∷ rest)
        ≡ flush_queue w
            (write ++ packets w (data_header w c) first)
            (record c { recipient_window_size = c.recipient_window_size - length buf })
            (sum + length buf)
            rest
  flush_whole write c sum buf a rest first sent =
      flush_cons write c sum buf a 0 (length buf) rest _ _ sent ∙ rw (ltb_self (length buf))

  flush_step :
      (write : Bytes) (c : Channel) (sum : ℕ) (buf : Bytes) (a : Option ℕ) (rest : List Pending)
      (first second : List Bytes)
      → flush_queue w write c sum ((buf, a, 0) ∷ rest)
        ≡ flush_queue w
            (write ++ packets w (data_header w c) first)
            (record c { recipient_window_size = c.recipient_window_size - length buf })
            (sum + length buf)
            rest
      → flush_queue w
          (write ++ packets w (data_header w c) first)
          (record c { recipient_window_size = c.recipient_window_size - length buf })
          (sum + length buf)
          rest
        ≡ ok (
          (write ++ packets w (data_header w c) first) ++ packets w (data_header w c) second,
          record c {
            recipient_window_size = c.recipient_window_size - length buf - total rest;
            pending_data = [];
          },
          sum + length buf + total rest,
        )
      → flush_queue w write c sum ((buf, a, 0) ∷ rest)
        ≡ ok (
          write ++ packets w (data_header w c) (first ++ second),
          record c {
            recipient_window_size = c.recipient_window_size - total ((buf, a, 0) ∷ rest);
            pending_data = [];
          },
          sum + total ((buf, a, 0) ∷ rest),
        )
  flush_step write c sum buf a rest first second e e' =
      e
      ∙ e'
      ∙ rw (packets-append w (data_header w c) first second) (
          ground (
            arith,
            append_assoc write (packets w (data_header w c) first)
                (packets w (data_header w c) second),
          ))

  -- A queue of blocks that are all still to be sent from their first byte, and that the window has
  -- room for: `flush_pending` sends every byte, in the order of the queue, in pieces within the
  -- packet size; it empties the queue, and the window shrinks by the bytes sent, whose number it adds
  -- up.
  pub flush_queue-fresh :
      (ps : List Pending) (write : Bytes) (c : Channel) (sum : ℕ)
      → AllFresh ps
      → total ps ≤ c.recipient_window_size
      → c.recipient_window_size < 2 ^ 32
      → 0 < c.recipient_maximum_packet_size
      → (pieces : List Bytes) × (flush_queue w write c sum ps
          ≡ ok (
            write ++ packets w (data_header w c) pieces,
            record c {
              recipient_window_size = c.recipient_window_size - total ps;
              pending_data = [];
            },
            sum + total ps,
          ))
        × (concat pieces ≡ concat (blocks ps))
        × AllWithin c.recipient_maximum_packet_size pieces
  flush_queue-fresh [] write c sum f ht hw hm =
      ([], unfold flush_queue in ground (arith, append-nil write), refl, tt)
  flush_queue-fresh ((buf, a, size) ∷ ps) write c sum f ht hw hm =
      let (first, sent, whole1, sizes1) = send_whole write c buf (omega arith) hw hm in
      let (second, flushed, whole2, sizes2) =
        flush_queue-fresh ps (write ++ packets w (data_header w c) first)
          (record c { recipient_window_size = c.recipient_window_size - length buf })
          (sum + length buf) f.2 (omega arith) (omega arith) hm in
      (
        first ++ second,
        rw f.0 (
            flush_step write c sum buf a ps first second
              (flush_whole write c sum buf a ps first sent) flushed),
        concat-append first second ∙ ap₂ ◌++◌ whole1 whole2,
        AllWithin-append c.recipient_maximum_packet_size first second sizes1 sizes2,
      )

  -- A block of which some bytes went out before stays in the queue although the flush sends all the
  -- rest of it: the block is put back with the number of bytes sent last as its offset, so bytes that
  -- were sent are to be sent again. The blocks behind it are not reached.
  pub flush_queue_resends :
      (write : Bytes) (c : Channel) (sum : ℕ) (buf : Bytes) (a : Option ℕ) (size : ℕ)
      (rest : List Pending)
      → 0 < size
      → size ≤ length buf
      → length buf ≤ c.recipient_window_size
      → c.recipient_window_size < 2 ^ 32
      → 0 < c.recipient_maximum_packet_size
      → let sent = length buf - size in
        (pieces : List Bytes) × (flush_queue w write c sum ((buf, a, size) ∷ rest)
          ≡ ok (
            write ++ packets w (data_header w c) pieces,
            record c {
              recipient_window_size = c.recipient_window_size - sent;
              pending_data = (buf, a, sent) ∷ rest;
            },
            sum + sent,
          ))
        × (concat pieces ≡ drop size buf)
  flush_queue_resends write c sum buf a size rest hs hl hw h32 hm =
      let (pieces, sent, whole, sizes) = send_rest write c buf size hl hw h32 hm in
      (
        pieces,
        flush_cons write c sum buf a size (length buf - size) rest _ _ sent
            ∙ rw (lt→ltb (length buf - size) (length buf) (omega arith)),
        whole,
      )

  -- With the window between, the flush panics: the slice it takes ends before it starts.
  pub flush_queue_panics :
      (write : Bytes) (c : Channel) (sum : ℕ) (buf : Bytes) (a : Option ℕ) (size : ℕ)
      (rest : List Pending)
      → c.recipient_window_size < size
      → c.recipient_window_size < length buf
      → length buf < 2 ^ 32
      → flush_queue w write c sum ((buf, a, size) ∷ rest) ≡ panic
  unfolding flush_queue data_noqueue send_now window_slice
  flush_queue_panics write c sum buf a size rest hs hl h32 = ground arith
