-- ===== src/Encrypted/Sending.antt =====
-- What `data_noqueue` and `extended_data` put on the wire, and what they do to the window.
use thrussh_mod.Base.{
  ℕ, zero, suc, ◌-◌, ◌^◌, ◌≤◌, ◌<◌, min, ◌≡◌, refl, sym, ap, ◌∙◌, List, [], ◌∷◌, ◌++◌, append-nil,
  append_assoc, arith, length, take, drop, length-append, length-take, length-drop,
  take-append-drop, take-all, Bytes,
}
use thrussh_mod.Error.{Result, ok}
use thrussh_mod.Wire.{Wire, packet, push_packet}
use thrussh_mod.Channel.{Channel}
use thrussh_mod.Encrypted.Data.{send_loop, send_now}
use thrussh_mod.Encrypted.{window_slice}

abbrev pub concat : List Bytes → Bytes
concat [] = []
concat (c ∷ cs) = c ++ concat cs

-- Every piece holds a byte, and none more than the packet size of the other side.
abbrev pub AllWithin : ℕ → List Bytes → Type 0
AllWithin limit [] = Unit
AllWithin limit (c ∷ cs) = (1 ≤ length c) × (length c ≤ limit) × AllWithin limit cs

pub concat-append : (xs ys : List Bytes) → concat (xs ++ ys) ≡ concat xs ++ concat ys
concat-append [] ys = refl
concat-append (x ∷ xs) ys = rw (concat-append xs ys) (sym (append_assoc x (concat xs) (concat ys)))

pub AllWithin-append :
    (limit : ℕ) (xs ys : List Bytes)
    → AllWithin limit xs
    → AllWithin limit ys
    → AllWithin limit (xs ++ ys)
AllWithin-append limit [] ys h k = k
AllWithin-append limit (x ∷ xs) ys h k = (h.0, h.1, AllWithin-append limit xs ys h.2 k)

-- What stands before the data does not depend on the window.
abbrev pub Steady : (Channel → Bytes) → Type 0
Steady header = (c : Channel) (n : ℕ) → header (record c { recipient_window_size = n }) ≡ header c

drop_none : (n : ℕ) (buf : Bytes) → n ≡ 0 → drop n buf ≡ buf
drop_none n buf h = rw h

module _ (w : Wire) where
  -- One packet for each piece.
  abbrev pub packets : Bytes → List Bytes → Bytes
  packets head [] = []
  packets head (c ∷ cs) = packet w (head ++ w.ssh_string c) ++ packets head cs

  pub packets-append :
      (head : Bytes) (xs ys : List Bytes)
      → packets head (xs ++ ys) ≡ packets head xs ++ packets head ys
  packets-append head [] ys = refl
  packets-append head (x ∷ xs) ys =
      rw (packets-append head xs ys)
        (sym (append_assoc (packet w (head ++ w.ssh_string x)) (packets head xs) (packets head ys)))

  -- The pieces in which `buf` was sent on channel `c`, behind the bytes of `write`.
  pub record Sends (header : Channel → Bytes) (write : Bytes) (c : Channel) (buf : Bytes)
      (r : Result (Bytes × Channel)) : Type 0 where
    pub pieces : List Bytes
    pub result :
        r
        ≡ ok (
          write ++ packets (header c) pieces,
          record c { recipient_window_size = c.recipient_window_size - length buf },
        )
    pub whole : concat pieces ≡ buf
    pub sizes : AllWithin c.recipient_maximum_packet_size pieces

  module _ (header : Channel → Bytes) (steady : Steady header) where
    -- One round, before the others.
    Sends-cons :
        (write : Bytes) (c : Channel) (n : ℕ) (piece rest buf : Bytes)
        (r : Result (Bytes × Channel))
        → n ≡ c.recipient_window_size - length piece
        → piece ++ rest ≡ buf
        → 1 ≤ length piece
        → length piece ≤ c.recipient_maximum_packet_size
        → Sends header
            (push_packet w write (header c ++ w.ssh_string piece))
            (record c { recipient_window_size = n })
            rest
            r
        → Sends header write c buf r
    unfolding push_packet
    Sends-cons write c n piece rest buf r en eb h1 h2 s = record {
      pieces = piece ∷ s.pieces;
      result =
          s.result
          ∙ rw (steady c n, append_assoc) (ground (arith, length-append piece rest, ap length eb));
      whole = ap (◌++◌ piece) s.whole ∙ eb;
      sizes = (h1, h2, s.sizes);
    }

    pub send_loop-Sends :
        (fuel : ℕ) (write : Bytes) (c : Channel) (buf : Bytes)
        → length buf ≤ fuel
        → length buf ≤ c.recipient_window_size
        → c.recipient_window_size < 2 ^ 32
        → 0 < c.recipient_maximum_packet_size
        → Sends header write c buf (send_loop w header fuel write c buf)
    unfolding send_loop
    send_loop-Sends zero write c [] hf hw h32 hm = record {
      pieces = [];
      result = ground (arith, append-nil write);
      whole = refl;
      sizes = tt;
    }
    send_loop-Sends (suc fuel) write c [] hf hw h32 hm = record {
      pieces = [];
      result = ground (arith, append-nil write);
      whole = refl;
      sizes = tt;
    }
    send_loop-Sends zero write c (x ∷ xs) hf hw h32 hm = absurd (omega arith)
    send_loop-Sends (suc fuel) write c (x ∷ xs) hf hw h32 hm =
        let off : ℕ = min (suc (length xs)) c.recipient_maximum_packet_size in
        let taken : length (take off (x ∷ xs)) ≡ off = omega (arith, length-take off (x ∷ xs)) in
        let left : length (drop off (x ∷ xs)) ≡ suc (length xs) - off = length-drop off (x ∷ xs) in
        Sends-cons write c _ (take off (x ∷ xs)) (drop off (x ∷ xs)) (x ∷ xs) _
          (omega (arith, taken)) (take-append-drop off (x ∷ xs)) (omega (arith, taken))
          (omega (arith, taken))
          (send_loop-Sends fuel _ _ (drop off (x ∷ xs)) (omega (arith, left)) (omega (arith, left))
            (omega arith) hm)

    -- The first `n` bytes that the window lets through: with no offset, as many as it has room for.
    window_slice-zero :
        (c : Channel) (buf : Bytes)
        → length buf < 2 ^ 32
        → window_slice c buf 0 ≡ ok (take (min (length buf) c.recipient_window_size) buf)
    unfolding window_slice
    window_slice-zero c buf h =
        ground (arith, take-all (min (length buf) c.recipient_window_size) buf)

    pub send_now_slice :
        (write : Bytes) (c : Channel) (buf cut : Bytes) (from n : ℕ)
        → window_slice c buf from ≡ ok cut
        → length cut ≡ n
        → Sends header write c cut (send_loop w header (length cut) write c cut)
        → (pieces : List Bytes) × (send_now w header write c buf from
            ≡ ok (
              write ++ packets (header c) pieces,
              record c { recipient_window_size = c.recipient_window_size - n },
              n,
            ))
          × (concat pieces ≡ cut)
          × AllWithin c.recipient_maximum_packet_size pieces
    unfolding send_now
    send_now_slice write c buf cut from n e len s =
        (s.pieces, rw (e, s.result, len), s.whole, s.sizes)

    -- A block sent from its start: as much of it goes out as the window has room for, in pieces that
    -- hold at least a byte and at most what the other side takes in one packet, in order and with
    -- nothing lost, and the window shrinks by just that. The call returns, if the other side takes
    -- packets at all.
    pub send_now-Sends :
        (write : Bytes) (c : Channel) (buf : Bytes)
        → length buf < 2 ^ 32
        → c.recipient_window_size < 2 ^ 32
        → 0 < c.recipient_maximum_packet_size
        → (pieces : List Bytes) × (send_now w header write c buf 0
            ≡ ok (
              write ++ packets (header c) pieces,
              record c {
                recipient_window_size =
                    c.recipient_window_size - min (length buf) c.recipient_window_size;
              },
              min (length buf) c.recipient_window_size,
            ))
          × (concat pieces ≡ take (min (length buf) c.recipient_window_size) buf)
          × AllWithin c.recipient_maximum_packet_size pieces
    send_now-Sends write c buf hb hw hm =
        let n : ℕ = min (length buf) c.recipient_window_size in
        let len : length (take n buf) ≡ n = omega (arith, length-take n buf) in
        send_now_slice write c buf (take n buf) 0 n (window_slice-zero c buf hb) len (
          send_loop-Sends (length (take n buf)) write c (take n buf) (omega arith)
            (omega (arith, len)) hw hm)
