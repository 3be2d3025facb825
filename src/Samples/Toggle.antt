-- ===== src/Samples/Toggle.antt =====
-- A toy cipher: it swaps the bytes 0 and 1; the tag is sixteen times the length of the message.
use thrussh_mod.Base.{
  ℕ, zero, suc, ◌≡◌, refl, ap, ap₂, [], ◌∷◌, length, replicate, Bytes, equal, equal_self,
}
use thrussh_mod.Sodium.{Sodium}

abbrev toggle : ℕ → ℕ
toggle zero = 1
toggle (suc zero) = 0
toggle (suc (suc n)) = suc (suc n)

toggle_twice : (n : ℕ) → toggle (toggle n) ≡ n
toggle_twice zero = refl
toggle_twice (suc zero) = refl
toggle_twice (suc (suc n)) = refl

abbrev toggles : Bytes → Bytes
toggles [] = []
toggles (b ∷ bs) = toggle b ∷ toggles bs

pub toggles_twice : (m : Bytes) → toggles (toggles m) ≡ m
toggles_twice [] = refl
toggles_twice (b ∷ bs) = ap₂ ◌∷◌ (toggle_twice b) (toggles_twice bs)

pub length-toggles : (m : Bytes) → length (toggles m) ≡ length m
length-toggles [] = refl
length-toggles (b ∷ bs) = ap suc (length-toggles bs)

abbrev tag : Bytes → Bytes
tag m = replicate 16 (length m)

abbrev pub toggling : Sodium
toggling = record {
  chacha20_xor = λ n k m. toggles m;
  chacha20_xor_ic = λ n i k m. toggles m;
  poly1305_auth = λ m k. tag m;
  poly1305_verify = λ t m k. equal t (tag m);
  length-chacha20_xor = λ n k m. length-toggles m;
  length-chacha20_xor_ic = λ n i k m. length-toggles m;
  chacha20_xor_twice = λ n k m. toggles_twice m;
  chacha20_xor_ic_twice = λ n i k m. toggles_twice m;
  length-poly1305_auth = λ m k. refl;
  poly1305_verify-auth = λ m k. equal_self (tag m);
}
