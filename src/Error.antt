-- ===== src/Error.antt =====
-- src/lib.rs, `enum Error`, and how the model reads `Result<_, anyhow::Error>`, a Rust panic and
-- a loop that has not ended.
pub mod Ensures
use thrussh_mod.Base.{ℕ, ◌≡◌, refl, subst, Option, none, some, Bool, true, false}

pub data Error : Type 0 where
  could_not_read_key kex_init no_common_kex_algo no_common_key_algo no_common_cipher : Error
  no_common_compression version kex packet_auth inconsistent not_authenticated : Error
  index_out_of_bounds unknown_key wrong_server_sig wrong_channel disconnect no_home_dir : Error
  key_changed : ℕ → Error
  hup connection_timeout no_auth_method send_error : Error

-- What an `anyhow::Error` holds: an error of this crate or of one that it calls.
pub data Failure : Type 0 where
  thrussh : Error → Failure
  keys_could_not_read_key keys_index_out_of_bounds keys_other : Failure
  utf8_error io_error openssl_error zlib_error : Failure

-- `panic` is a Rust panic; `no_fuel` means that a loop of the model used up its rounds.
pub data Result {ℓ} (A : Type ℓ) : Type ℓ where
  ok : A → Result A
  err : Failure → Result A
  panic : Result A
  no_fuel : Result A

abbrev pub ◌>>=◌ {ℓ κ} :
    {A : Type ℓ} → {B : Type κ} → (m : Result A) → (next : A → Result B) → Result B
panic >>= next = panic
no_fuel >>= next = no_fuel
err x >>= next = err x
ok a >>= next = next a

abbrev pub ◌>>◌ {ℓ κ} : {U : Type κ} → {B : Type ℓ} → (m : Result U) → (after : Result B) → Result B
first >> after = first >>= (λ done. after)

infixl 5 ◌>>◌ ◌>>=◌
-- `assert!`
abbrev pub assert : Bool → Result (Unit {0})
assert true = ok tt
assert false = panic

-- `Option::ok_or`, and an access that panics where there is no value.
abbrev pub ok_or {ℓ} : {A : Type ℓ} → Option A → Failure → Result A
ok_or none e = err e
ok_or (some a) e = ok a

abbrev pub unwrap {ℓ} : {A : Type ℓ} → Option A → Result A
unwrap none = panic
unwrap (some a) = ok a

-- `Result::unwrap`
abbrev pub unwrap_result {ℓ} : {A : Type ℓ} → Result A → Result A
unwrap_result (ok a) = ok a
unwrap_result no_fuel = no_fuel
unwrap_result _ = panic

-- What succeeds has succeeded in both of its steps.
pub >>=-eq-ok {ℓ κ} :
    {A : Type ℓ} {B : Type κ} (first : Result A) (next : A → Result B) {last : B}
    → (first >>= next) ≡ ok last
    → (mid : A) × (first ≡ ok mid) × (next mid ≡ ok last)
>>=-eq-ok panic next e = cc
>>=-eq-ok no_fuel next e = cc
>>=-eq-ok (err x) next e = cc
>>=-eq-ok (ok mid) next e = (mid, refl, e)

-- Binds regroup, if they do behind every value.
pub >>=_regroup {ℓ κ μ} :
    {A : Type ℓ} {B : Type κ} {C : Type μ} (m : Result A) (f : A → Result C) (g : A → Result B)
    (k : B → Result C)
    → ((a : A) → f a ≡ (g a >>= k))
    → (m >>= f) ≡ ((m >>= g) >>= k)
>>=_regroup (ok a) f g k h = h a
>>=_regroup (err e) f g k h = refl
>>=_regroup panic f g k h = refl
>>=_regroup no_fuel f g k h = refl

-- Two ways to go on agree, if they do behind every value that is returned.
pub >>=_congr {ℓ κ} :
    {A : Type ℓ} {B : Type κ} (m : Result A) (f g : A → Result B)
    → ((a : A) → m ≡ ok a → f a ≡ g a)
    → (m >>= f) ≡ (m >>= g)
>>=_congr (ok a) f g h = h a refl
>>=_congr (err e) f g h = refl
>>=_congr panic f g h = refl
>>=_congr no_fuel f g h = refl

-- Every value that a computation may return has the property.
abbrev pub AllOk {ℓ κ} : {A : Type ℓ} → (A → Type κ) → Result A → Type (ℓ ⊔ κ)
AllOk {A = A} P r = (a : A) → r ≡ ok a → P a

module _ {ℓ κ} {A : Type ℓ} (P : A → Type κ) where
  pub AllOk-ok : (a : A) → P a → AllOk P (ok a)
  AllOk-ok a p b e = subst P (unwrapped a b e) p
    where
      unwrapped : (a b : A) → ok a ≡ ok b → a ≡ b
      unwrapped a b e = cc

  pub AllOk-err : (x : Failure) → AllOk P (err x)
  AllOk-err x a e = cc

  pub AllOk-panic : AllOk P panic
  AllOk-panic a e = cc

  pub AllOk-no_fuel : AllOk P no_fuel
  AllOk-no_fuel a e = cc

  pub AllOk-bind {μ} :
      {B : Type μ} (m : Result B) (f : B → Result A)
      → ((b : B) → m ≡ ok b → AllOk P (f b))
      → AllOk P (m >>= f)
  AllOk-bind (ok b) f h a e = h b refl a e
  AllOk-bind (err x) f h a e = cc
  AllOk-bind panic f h a e = cc
  AllOk-bind no_fuel f h a e = cc

  pub AllOk-elim :
      (b : Bool) (m n : Result A)
      → ((b ≡ true) → AllOk P m)
      → ((b ≡ false) → AllOk P n)
      → AllOk P (elim b [ true ↦ m | false ↦ n ])
  AllOk-elim true m n h k = h refl
  AllOk-elim false m n h k = k refl
