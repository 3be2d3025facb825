-- ===== src/Encrypted/Window.antt =====
-- `adjust_window_size`: the window that this side grants.
use thrussh_mod.Base.{
  ℕ, ◌+◌, ◌-◌, ◌/◌, ◌≤◌, ◌<◌, ◌≡◌, refl, ◌≢◌, inl, inr, true, false, some, ◌∷◌, ◌++◌, arith, ltb,
  leb, if◌then◌else◌, ==_self, Bool-cases, length, Bytes,
}
use thrussh_mod.Base.Dict.{lookup, insert, lookup-insert}
use thrussh_mod.Wire.{Wire, packet, push_packet}
use thrussh_mod.Channel.{Channel}
use thrussh_mod.Encrypted.{Encrypted, adjust_window_size, u32}
use thrussh_mod.Msg

-- The bytes of a data message that count: none, if there are more than the window allows.
abbrev pub counted : Channel → Bytes → ℕ
counted c buf = if leb (u32 (length buf)) c.sender_window_size then u32 (length buf) else 0

inserted :
    (channel : ℕ) (c : Channel) (enc : Encrypted)
    → lookup channel (insert channel c enc.channels) ≡ some c
inserted channel c enc = rw (lookup-insert channel channel c enc.channels, ==_self channel)

others :
    (channel j : ℕ) (c : Channel) (enc : Encrypted)
    → j ≢ channel
    → lookup j (insert channel c enc.channels) ≡ lookup j enc.channels
others channel j c enc h = rw (lookup-insert channel j c enc.channels) (ground arith)

module _ (w : Wire) where
  abbrev pub adjust_packet : Channel → ℕ → Bytes
  adjust_packet c granted =
      packet w (Msg.channel_window_adjust ∷ (w.u32_be c.recipient_channel ++ w.u32_be granted))

  module _ (enc : Encrypted) (channel : ℕ) (c : Channel) (buf : Bytes) (target : ℕ) where
    adjust_low :
        lookup channel enc.channels ≡ some c
        → ltb (c.sender_window_size - counted c buf) (target / 2) ≡ true
        → adjust_window_size w enc channel buf target ≡ (
          record enc {
            write = enc.write ++ adjust_packet c (target - (c.sender_window_size - counted c buf));
            channels = insert channel (record c { sender_window_size = target }) enc.channels;
          },
          true,
        )
    unfolding adjust_window_size push_packet
    adjust_low found low = ground arith

    adjust_high :
        lookup channel enc.channels ≡ some c
        → ltb (c.sender_window_size - counted c buf) (target / 2) ≡ false
        → adjust_window_size w enc channel buf target ≡ (
          record enc {
            channels =
                insert channel
                  (record c { sender_window_size = c.sender_window_size - counted c buf })
                  enc.channels;
          },
          false,
        )
    unfolding adjust_window_size
    adjust_high found high = ground arith

  -- Data received on a channel is taken off its window, unless it exceeds the window; a window that
  -- has fallen below half the target is opened up to the target again, by one message that grants
  -- the difference to the other side. Nothing is sent and `false` is returned if the window has not
  -- fallen below half the target, and `true` is returned if it was opened to the target. So the two
  -- sides' counts stay equal: the window and the bytes counted are the old window and the bytes
  -- granted. Afterwards half the target is free at least, and nothing else of the channel and no
  -- other channel has changed.
  pub adjust_window_size_lem :
      (enc : Encrypted) (channel : ℕ) (c : Channel) (buf : Bytes) (target : ℕ)
      → lookup channel enc.channels ≡ some c
      → let r = adjust_window_size w enc channel buf target in
        (size : ℕ) × (granted : ℕ) × (lookup channel r.0.channels
          ≡ some (record c { sender_window_size = size }))
        × (size + counted c buf ≡ c.sender_window_size + granted)
        × (target / 2 ≤ size)
        × (r.0.write ≡ (if r.1 then enc.write ++ adjust_packet c granted else enc.write))
        × ((r.1 ≡ false) → granted ≡ 0)
        × ((r.1 ≡ true)
            → (size ≡ target)
              × (c.sender_window_size - counted c buf < target / 2)
              × (granted ≡ target - (c.sender_window_size - counted c buf)))
        × ((j : ℕ) → j ≢ channel → lookup j r.0.channels ≡ lookup j enc.channels)
  adjust_window_size_lem enc channel c buf target found =
      elim (Bool-cases (ltb (c.sender_window_size - counted c buf) (target / 2))) [
        | inl low ↦ rw (adjust_low enc channel c buf target found low) (
          target,
          target - (c.sender_window_size - counted c buf),
          inserted channel _ enc,
          ground arith,
          omega arith,
          refl,
          (λ e. cc),
          (λ e. (refl, ground arith, refl)),
          λ j h. others channel j _ enc h,
        )
        | inr high ↦ rw (adjust_high enc channel c buf target found high) (
          c.sender_window_size - counted c buf,
          0,
          inserted channel _ enc,
          ground arith,
          ground arith,
          refl,
          (λ e. refl),
          (λ e. cc),
          λ j h. others channel j _ enc h,
        )
      ]
