-- ===== src/Error/Ensures.antt =====
-- What holds of every value that a computation returns, with one rule for each way to build it.
use thrussh_mod.Base.{◌≡◌, Bool, true, false, Option, none, some, refl, if◌then◌else◌}
use thrussh_mod.Error.{Failure, Result, ok, err, panic, no_fuel, ◌>>=◌, AllOk-ok}

pub record Ensures {ℓ κ} {A : Type ℓ} (P : A → Type κ) (m : Result A) : Type (ℓ ⊔ κ) where
  pub at : (a : A) → m ≡ ok a → P a

module _ {ℓ κ} {A : Type ℓ} {P : A → Type κ} where
  pub Ensures-ok : (a : A) → P a → Ensures P (ok a)
  Ensures-ok a p = record { at = AllOk-ok P a p }

  pub Ensures-err : (x : Failure) → Ensures P (err x)
  Ensures-err x = record { at = λ a e. cc }

  pub Ensures-panic : Ensures P panic
  Ensures-panic = record { at = λ a e. cc }

  pub Ensures-no_fuel : Ensures P no_fuel
  Ensures-no_fuel = record { at = λ a e. cc }

  pub Ensures-elim :
      (b : Bool) (m n : Result A)
      → ((b ≡ true) → Ensures P m)
      → ((b ≡ false) → Ensures P n)
      → Ensures P (elim b [ true ↦ m | false ↦ n ])
  Ensures-elim true m n h k = h refl
  Ensures-elim false m n h k = k refl

  pub Ensures-if :
      (b : Bool) (m n : Result A)
      → ((b ≡ true) → Ensures P m)
      → ((b ≡ false) → Ensures P n)
      → Ensures P (if b then m else n)
  Ensures-if true m n h k = h refl
  Ensures-if false m n h k = k refl

  pub Ensures-option {μ} :
      {B : Type μ} (o : Option B) (m : Result A) (f : B → Result A)
      → ((o ≡ none) → Ensures P m)
      → ((b : B) → (o ≡ some b) → Ensures P (f b))
      → Ensures P (elim o [ none ↦ m | some b ↦ f b ])
  Ensures-option none m f h k = h refl
  Ensures-option (some b) m f h k = k b refl

  pub Ensures-weaken {μ} :
      {Q : A → Type μ} (m : Result A) → Ensures Q m → ((a : A) → Q a → P a) → Ensures P m
  Ensures-weaken m h k = record { at = λ a e. k a (h.at a e) }

module _ {ℓ κ μ} {A : Type ℓ} {B : Type μ} {P : A → Type κ} where
  pub Ensures-bind :
      (m : Result B) (f : B → Result A)
      → ((b : B) → m ≡ ok b → Ensures P (f b))
      → Ensures P (m >>= f)
  Ensures-bind (ok b) f h = h b refl
  Ensures-bind (err x) f h = Ensures-err x
  Ensures-bind panic f h = Ensures-panic
  Ensures-bind no_fuel f h = Ensures-no_fuel

pub ruleset ensures_rules = (
  Ensures-ok, Ensures-err, Ensures-panic, Ensures-no_fuel, Ensures-elim, Ensures-if, Ensures-option,
  Ensures-bind,
)
