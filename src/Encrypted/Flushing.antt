-- ===== src/Encrypted/Flushing.antt =====
-- `flush`: the packets that `push_packet!` collected go through the cipher one by one.
use thrussh_mod.Base.{
  ℕ, zero, suc, ◌+◌, ◌-◌, ◌%◌, ◌^◌, ◌≤◌, ◌<◌, ◌≡◌, refl, ap, subst, ◌∙◌, Bool, true, ◌||◌, some,
  List, [], ◌∷◌, ◌++◌, append-nil, append_assoc, arith, ltb, leb, lt→ltb, length, take, drop,
  length-append, take-append_of_length, drop-append_of_length, Bytes,
}
use thrussh_mod.Error.{Result, ok, err, panic, no_fuel, ◌>>=◌, >>=_regroup}
use thrussh_mod.Wire.{Wire, packet}
use thrussh_mod.Sodium.{Sodium}
use thrussh_mod.SshBuffer.{SshBuffer}
use thrussh_mod.Cipher.{CipherPair}
use thrussh_mod.Cipher
use thrussh_mod.Cipher.Seal.{matching}
use thrussh_mod.Cipher.Stream.{write_all, read_all, read_all-write_all}
use thrussh_mod.Compression.{Compress, Flate, compress}
use thrussh_mod.Encrypted.{Encrypted, Limits, slice}
use thrussh_mod.Encrypted.Flush.{finish_flush, flush_loop, flush}

abbrev pub AllFit : List Bytes → Type 0
AllFit [] = Unit
AllFit (b ∷ bs) = (length b < 2 ^ 32) × AllFit bs

regroup : (a b c d : Bytes) → a ++ ((b ++ c) ++ d) ≡ (a ++ b) ++ (c ++ d)
regroup a b c d = simp append_assoc

slice_middle :
    (head b rest : Bytes) (n : ℕ)
    → length head ≡ n
    → slice (head ++ (b ++ rest)) n (n + length b) ≡ ok b
slice_middle head b rest n h =
    let cut : take (n + length b) (head ++ (b ++ rest)) ≡ head ++ b =
      rw (← append_assoc head b rest) (
        take-append_of_length (n + length b) (head ++ b) rest
          (omega (arith, length-append head b))) in
    rw (cut, drop-append_of_length n head b h)
      (ground (arith, length-append head (b ++ rest), length-append b rest))

module _ (w : Wire) where
  -- A write buffer that holds these messages.
  abbrev pub queued : List Bytes → Bytes
  queued [] = []
  queued (b ∷ bs) = packet w b ++ queued bs

  length-queued : (bs : List Bytes) → length bs ≤ length (queued bs)
  length-queued [] = omega arith
  length-queued (b ∷ bs) = omega (
    arith,
    length-append (packet w b) (queued bs),
    length-append (w.u32_be (length b % 2 ^ 32)) b,
    w.length-u32_be (length b % 2 ^ 32),
    length-queued bs,
  )

  front :
      (pre b : Bytes) (bs : List Bytes)
      → pre ++ queued (b ∷ bs) ≡ pre ++ (w.u32_be (length b % 2 ^ 32) ++ (b ++ queued bs))
  front pre b bs = ap (◌++◌ pre) (append_assoc (w.u32_be (length b % 2 ^ 32)) b (queued bs))

  read_front :
      (pre b : Bytes) (bs : List Bytes)
      → length b < 2 ^ 32
      → w.read_u32_be (drop (length pre) (pre ++ queued (b ∷ bs))) ≡ some (length b)
  read_front pre b bs h =
      rw
        (
          front pre b bs,
          drop-append_of_length (length pre) pre (w.u32_be (length b % 2 ^ 32) ++ (b ++ queued bs))
              refl,
          w.read_u32_be-u32_be (length b % 2 ^ 32) (b ++ queued bs) (omega arith),
        )
        (ground arith)

  slice_front :
      (pre b : Bytes) (bs : List Bytes)
      → slice (pre ++ queued (b ∷ bs)) (length pre + 4) (length pre + 4 + length b) ≡ ok b
  slice_front pre b bs =
      let head : Bytes = pre ++ w.u32_be (length b % 2 ^ 32) in
      let len : length head ≡ length pre + 4 = omega (
        arith,
        length-append pre (w.u32_be (length b % 2 ^ 32)),
        w.length-u32_be (length b % 2 ^ 32),
      ) in
      rw (regroup pre (w.u32_be (length b % 2 ^ 32)) b (queued bs))
        (slice_middle head b (queued bs) (length pre + 4) len)

  inside :
      (pre b : Bytes) (bs : List Bytes) → ltb (length pre) (length (pre ++ queued (b ∷ bs))) ≡ true
  inside pre b bs = lt→ltb _ _ (
      omega (
        arith,
        length-append pre (packet w b ++ queued bs),
        length-append (packet w b) (queued bs),
        length-append (w.u32_be (length b % 2 ^ 32)) b,
        w.length-u32_be (length b % 2 ^ 32),
      ))

  behind : (pre b : Bytes) → length (pre ++ packet w b) ≡ length pre + 4 + length b
  behind pre b = omega (
    arith,
    length-append pre (packet w b),
    length-append (w.u32_be (length b % 2 ^ 32)) b,
    w.length-u32_be (length b % 2 ^ 32),
  )

  module _ (na : Sodium) (flate : Flate) (pair : CipherPair) where
    flush_loop-queued :
        (rounds fuel : ℕ) (pre : Bytes) (bs : List Bytes) (out : SshBuffer)
        → length bs ≤ fuel
        → AllFit bs
        → flush_loop w na flate pair rounds fuel (pre ++ queued bs) (length pre) Compress.none out
          ≡ (write_all w na pair bs out >>= λ out'.
              ok (Compress.none, out', length (pre ++ queued bs)))
    unfolding flush_loop write_all compress
    flush_loop-queued rounds zero pre [] out hf fit = rw (append-nil pre) (ground arith)
    flush_loop-queued rounds (suc fuel) pre [] out hf fit = rw (append-nil pre) (ground arith)
    flush_loop-queued rounds zero pre (b ∷ bs) out hf fit = absurd (omega arith)
    flush_loop-queued rounds (suc fuel) pre (b ∷ bs) out hf fit =
        rw (inside pre b bs, read_front pre b bs fit.0, flush_loop)
          (rw (slice_front pre b bs, flush_loop)
            (>>=_regroup (Cipher.write w na pair b out) _ (λ out'. write_all w na pair bs out')
              (λ out'. ok (Compress.none, out', length (pre ++ queued (b ∷ bs))))
              λ out'.
                subst
                  (λ whole.
                    flush_loop w na flate pair rounds fuel whole (length pre + 4 + length b)
                      Compress.none out'
                    ≡ (write_all w na pair bs out' >>= λ out''.
                        ok (Compress.none, out'', length whole)))
                  (append_assoc pre (packet w b) (queued bs))
                  (subst
                    (λ cursor.
                      flush_loop w na flate pair rounds fuel ((pre ++ packet w b) ++ queued bs)
                        cursor Compress.none out'
                      ≡ (write_all w na pair bs out' >>= λ out''.
                          ok (Compress.none, out'', length ((pre ++ packet w b) ++ queued bs))))
                    (behind pre b)
                    (flush_loop-queued rounds fuel (pre ++ packet w b) bs out' (omega arith)
                      fit.1))))

    start :
        (rounds : ℕ) (write : Bytes) (bs : List Bytes) (cursor : ℕ) (z : Compress) (out : SshBuffer)
        → write ≡ queued bs
        → cursor ≡ 0
        → z ≡ Compress.none
        → AllFit bs
        → flush_loop w na flate pair rounds (length write) write cursor z out
          ≡ (write_all w na pair bs out >>= λ out'. ok (Compress.none, out', length write))
    start rounds write bs cursor z out hw hc hz fit =
        rw (hw, hc, hz)
          (flush_loop-queued rounds (length (queued bs)) [] bs out (length-queued bs) fit)

    flushed :
        (enc : Encrypted) (limits : Limits) (now : ℕ) (out' : SshBuffer)
        → enc.compress ≡ Compress.none
        → ◌≡◌ {A = Result (Encrypted × SshBuffer × Bool)}
            (ok (finish_flush enc limits now Compress.none out' (length enc.write)))
            (ok (
              record enc { write = []; write_cursor = 0 },
              out',
              leb limits.rekey_write_limit out'.bytes
                  || leb limits.rekey_time_limit (now - enc.last_rekey),
            ))
    unfolding finish_flush
    flushed enc limits now out' hz = ground arith

    flush_tail :
        (enc : Encrypted) (limits : Limits) (now : ℕ) (n : Result SshBuffer)
        → (◌>>=◌ {B = Compress × SshBuffer × ℕ} n
              (λ out'. ok (Compress.none, out', length enc.write))
            >>= λ r. ok (finish_flush enc limits now r.0 r.1 r.2))
          ≡ (n >>= λ out'. ok (finish_flush enc limits now Compress.none out' (length enc.write)))
    flush_tail enc limits now (ok out') = refl
    flush_tail enc limits now (err x) = refl
    flush_tail enc limits now panic = refl
    flush_tail enc limits now no_fuel = refl

    flush-queued :
        (rounds : ℕ) (enc : Encrypted) (limits : Limits) (out : SshBuffer) (now : ℕ)
        (bs : List Bytes)
        → enc.write ≡ queued bs
        → enc.write_cursor ≡ 0
        → enc.compress ≡ Compress.none
        → AllFit bs
        → flush w na flate pair rounds enc limits out now ≡ (
            write_all w na pair bs out >>= λ out'.
            ok (finish_flush enc limits now Compress.none out' (length enc.write)))
    unfolding flush
    flush-queued rounds enc limits out now bs hw hc hz fit =
        rw (start rounds enc.write bs enc.write_cursor enc.compress out hw hc hz fit, flush)
          (flush_tail enc limits now (write_all w na pair bs out))

    -- When the write buffer holds whole messages, each below 2 ^ 32 bytes, no compression is on and the
    -- cipher takes them, `flush` sends every message in order and empties the buffer, and changes
    -- nothing else of the session; whoever holds the matching key and the same sequence number reads
    -- back just these messages, in order. It asks for new keys exactly when the bytes written or the
    -- time have reached their limit.
    pub flush-read_all :
        (rounds : ℕ) (enc : Encrypted) (limits : Limits) (out : SshBuffer) (now : ℕ)
        (bs : List Bytes) (back : CipherPair) (r : SshBuffer) (rest : Bytes) {out' : SshBuffer}
        → enc.write ≡ queued bs
        → enc.write_cursor ≡ 0
        → enc.compress ≡ Compress.none
        → AllFit bs
        → write_all w na pair bs out ≡ ok out'
        → back.remote_to_local ≡ matching pair.local_to_remote
        → r.seqn ≡ out.seqn
        → (flush w na flate pair rounds enc limits out now
            ≡ ok (
              record enc { write = []; write_cursor = 0 },
              out',
              leb limits.rekey_write_limit out'.bytes
                  || leb limits.rekey_time_limit (now - enc.last_rekey),
            ))
          × ((r' : SshBuffer) × (read_all w na back
                  (length bs)
                  (drop (length out.buffer) out'.buffer ++ rest)
                  r
                ≡ ok (bs, r', rest))
              × (r'.seqn ≡ out'.seqn))
    flush-read_all rounds enc limits out now bs back r rest {out'} hw hc hz fit sent key sync = (
      flush-queued rounds enc limits out now bs hw hc hz fit
          ∙ rw sent (flushed enc limits now out' hz),
      read_all-write_all w na pair back bs out r rest key sync sent,
    )
