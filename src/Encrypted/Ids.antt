-- ===== src/Encrypted/Ids.antt =====
-- The numbers of new channels.
use thrussh_mod.Base.{
  ℕ, zero, suc, ◌+◌, ◌%◌, ◌^◌, ◌≤◌, ◌<◌, ◌≡◌, refl, sym, ap, ◌∙◌, ◌≢◌, inl, inr, false, none, some,
  [], arith, ◌==◌, ==_self, Bool-cases, length,
}
use thrussh_mod.Base.Dict.{
  Dict, lookup, insert, remove, contains_key, is_some, lookup-insert, lookup-remove,
  length-remove-lt,
}
use thrussh_mod.Error.{ok}
use thrussh_mod.Channel.{Channel}
use thrussh_mod.Encrypted.{Encrypted, next_vacant, new_channel_id, new_channel}

-- `i` steps on from `last`, with wrap-around.
abbrev candidate : ℕ → ℕ → ℕ
candidate last i = (last + i) % 2 ^ 32

candidate_step : (last i : ℕ) → candidate (candidate last 1) i ≡ candidate last (suc i)
candidate_step last i = omega arith

candidate-ne : (id i : ℕ) → 1 ≤ i → i < 2 ^ 32 → (id % 2 ^ 32 == candidate (id % 2 ^ 32) i) ≡ false
candidate-ne id i h k = ground arith

contains-remove_ne :
    (k j : ℕ) (r : Dict Channel) → (k == j) ≡ false → contains_key j (remove k r) ≡ contains_key j r
contains-remove_ne k j r h = ap is_some (lookup-remove k j r ∙ rw h)

-- `r` stands for the channels whose numbers the search has not met: in the numbers to come it agrees
-- with the channels, and it is shorter than the rounds left.
next_vacant_lem :
    (fuel last : ℕ) (channels r : Dict Channel)
    → length r < fuel
    → fuel ≤ 2 ^ 32
    → ((i : ℕ)
        → 1 ≤ i
        → i ≤ fuel
        → contains_key (candidate last i) channels ≡ contains_key (candidate last i) r)
    → (id : ℕ) × (next_vacant fuel last channels ≡ ok id)
      × (contains_key id channels ≡ false)
      × (id < 2 ^ 32)
unfolding next_vacant
next_vacant_lem zero last channels r hl hf agree = absurd (omega arith)
next_vacant_lem (suc fuel) last channels r hl hf agree =
    elim (Bool-cases (contains_key (candidate last 1) channels)) [
      | inl taken ↦
          let (id, found, vacant, small) =
            next_vacant_lem fuel (candidate last 1) channels (remove (candidate last 1) r)
              (omega (
                arith,
                length-remove-lt (candidate last 1) r
                    (sym (agree 1 (omega arith) (omega arith)) ∙ taken),
              ))
              (omega arith)
              (λ i h1 h2. rw (candidate_step last i) (
                agree (suc i) (omega arith) (omega arith)
                ∙ sym (
                    contains-remove_ne (candidate last 1) (candidate last (suc i)) r (
                      rw (← candidate_step last i)
                        (candidate-ne (last + 1) i h1 (omega arith)))))) in
          (id, rw taken found, vacant, small)
      | inr vacant ↦ (candidate last 1, rw vacant, vacant, omega arith)
    ]

vacant_lookup :
    (id : ℕ) (channels : Dict Channel)
    → contains_key id channels ≡ false
    → lookup id channels ≡ none
vacant_lookup id channels h = ground arith

-- With fewer channels than there are numbers, the search always ends, at a number that fits 32 bits
-- and that no channel has: `new_channel_id` returns it and remembers it as the last one given out.
pub new_channel_id_fresh :
    (enc : Encrypted)
    → length enc.channels < 2 ^ 32
    → (id : ℕ) × (new_channel_id enc ≡ ok (record enc { last_channel_id = id }, id))
      × (lookup id enc.channels ≡ none)
      × (id < 2 ^ 32)
unfolding new_channel_id
new_channel_id_fresh enc h =
    let (id, found, vacant, small) =
      next_vacant_lem (suc (length enc.channels)) enc.last_channel_id enc.channels enc.channels
        (omega arith) (omega arith) (λ i h1 h2. refl) in
    (id, rw found, vacant_lookup id enc.channels vacant, small)

-- A channel that this side has asked for, and the session that knows it.
abbrev pub requested : ℕ → ℕ → ℕ → Channel
requested id window_size maxpacket = record {
  recipient_channel = 0;
  sender_channel = id;
  recipient_window_size = 0;
  sender_window_size = window_size;
  recipient_maximum_packet_size = 0;
  sender_maximum_packet_size = maxpacket;
  confirmed = false;
  wants_reply = false;
  pending_data = [];
}

abbrev pub registered : Encrypted → ℕ → Channel → Encrypted
registered enc id c = record enc { last_channel_id = id; channels = insert id c enc.channels }

-- `new_channel` registers an unconfirmed channel under such a number, with the window and the packet
-- size that this side grants and nothing yet granted by the other side, and leaves the other channels
-- as they are.
pub new_channel_registers :
    (enc : Encrypted) (window_size maxpacket : ℕ)
    → length enc.channels < 2 ^ 32
    → (id : ℕ) × (new_channel enc window_size maxpacket
        ≡ ok (registered enc id (requested id window_size maxpacket), id))
      × (lookup id enc.channels ≡ none)
      × (id < 2 ^ 32)
      × (lookup id (registered enc id (requested id window_size maxpacket)).channels
          ≡ some (requested id window_size maxpacket))
      × ((j : ℕ)
          → j ≢ id
          → lookup j (registered enc id (requested id window_size maxpacket)).channels
            ≡ lookup j enc.channels)
unfolding new_channel
new_channel_registers enc window_size maxpacket h =
    let (id, found, vacant, small) =
      next_vacant_lem (suc (length enc.channels)) enc.last_channel_id enc.channels enc.channels
        (omega arith) (omega arith) (λ i h1 h2. refl) in
    (
      id,
      rw found,
      vacant_lookup id enc.channels vacant,
      small,
      rw (lookup-insert id id (requested id window_size maxpacket) enc.channels, ==_self id),
      λ j ne.
          rw (lookup-insert id j (requested id window_size maxpacket) enc.channels) (ground arith),
    )
