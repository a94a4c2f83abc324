-- ===== src/Errors.antt =====
-- What a call can end with: the exceptions that the code raises, catches or lets through, and
-- `Result`, a value or an exception.
--   schema.py      the three `raise ValueError` of `MarketEvent._basic_contract` are `Violation`
--   normalize.py   the exceptions of one record, caught or not
use tickstream_streaming_lak.Prelude.{◌≡◌, refl, Bool, true, false, if◌then◌else◌}

pub data SizeField : Type 0 where
  size best_bid best_ask best_bid_size best_ask_size : SizeField

-- Why the model `MarketEvent` refuses its arguments.
pub data Violation : Type 0 where
  price_not_positive : Violation
  negative : SizeField → Violation
  crossed_book : Violation
  symbol_not_text : Violation

pub data Exc : Type 0 where
  validation_error : Violation → Exc
  value_error key_error type_error attribute_error overflow_error : Exc
  os_error websocket_error runtime_error file_not_found_error : Exc

pub data Result {ℓ} (A : Type ℓ) : Type ℓ where
  ok : A → Result A
  err : Exc → Result A

pub ok-injective {ℓ} : {A : Type ℓ} {a b : A} → ok a ≡ ok b → a ≡ b
ok-injective h = cc

infixl 5 ◌>>=◌
abbrev pub ◌>>=◌ {ℓ κ} : {A : Type ℓ} {B : Type κ} → Result A → (A → Result B) → Result B
ok a >>= f = f a
err x >>= f = err x

pub bind-ok {ℓ} : {A : Type ℓ} (m : Result A) → (m >>= λ a. ok a) ≡ m
bind-ok (ok a) = refl
bind-ok (err x) = refl

module _ {ℓ κ} {A : Type ℓ} {B : Type κ} where
  pub bind-cong :
      (m : Result A) (f g : A → Result B) → ((a : A) → f a ≡ g a) → (m >>= f) ≡ (m >>= g)
  bind-cong (ok a) f g h = h a
  bind-cong (err x) f g h = refl

pub bind_assoc {ℓ κ μ} :
    {A : Type ℓ} {B : Type κ} {C : Type μ} (m : Result A) (f : A → Result B) (g : B → Result C)
    → (m >>= f >>= g) ≡ (m >>= λ a. f a >>= g)
bind_assoc (ok a) f g = refl
bind_assoc (err x) f g = refl

-- A property of the value, if there is one.
abbrev pub Returns {ℓ κ} : {A : Type ℓ} → (A → Type κ) → Result A → Type κ
Returns P (ok a) = P a
Returns P (err x) = Unit

module _ {ℓ κ} {A : Type ℓ} {B : Type κ} where
  pub Returns-bind :
      (P : A → Type ℓ) (Q : B → Type κ) (m : Result A) (f : A → Result B)
      → Returns P m
      → ((a : A) → P a → Returns Q (f a))
      → Returns Q (m >>= f)
  Returns-bind P Q (ok a) f h k = k a h
  Returns-bind P Q (err x) f h k = tt

  pub Returns-then :
      (Q : B → Type κ) (m : Result A) (f : A → Result B)
      → ((a : A) → Returns Q (f a))
      → Returns Q (m >>= f)
  Returns-then Q (ok a) f k = k a
  Returns-then Q (err x) f k = tt

pub Returns-and {ℓ κ μ} :
    {A : Type ℓ} (P : A → Type κ) (Q : A → Type μ) (m : Result A)
    → Returns P m
    → Returns Q m
    → Returns (λ a. P a × Q a) m
Returns-and P Q (ok a) h k = (h, k)
Returns-and P Q (err x) h k = tt

-- A result with the equation that says how it came about.
pub Returns-self {ℓ} : {A : Type ℓ} (m : Result A) → Returns (λ a. m ≡ ok a) m
Returns-self (ok a) = refl
Returns-self (err x) = tt

pub Returns-if {ℓ κ} :
    {A : Type ℓ} (P : A → Type κ) (b : Bool) (m n : Result A)
    → Returns P m
    → Returns P n
    → Returns P (if b then m else n)
Returns-if P true m n hm hn = hm
Returns-if P false m n hm hn = hn
