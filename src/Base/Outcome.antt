-- ===== src/Base/Outcome.antt =====
-- Results of operations that may throw. The message of an exception is part of the result.
use mathlib.Core.Option.{Option, none, some}
use mathlib.Core.Path.{◌≡◌, refl}
use oac_tree_server.Base.Strings.{Bytes}

-- exceptions.h: `InvalidOperationException`; every other `std::exception` comes from a library.
pub data Exception : Type 0 where
  invalid_operation : Bytes → Exception
  library_error : Exception

pub data Result {ℓ} (A : Type ℓ) : Type ℓ where
  ok : A → Result A
  throws : Exception → Result A

infixl 5 ◌>>=◌ ◌>>◌
abbrev pub ◌>>=◌ {ℓ κ} : {A : Type ℓ} {B : Type κ} → Result A → (A → Result B) → Result B
ok a >>= f = f a
throws e >>= f = throws e

abbrev pub ◌>>◌ {ℓ} : {B : Type ℓ} → Result (Unit {0}) → Result B → Result B
m >> k = m >>= λ _. k

-- A library call that throws where it has no value.
abbrev pub or_throw {ℓ} : {A : Type ℓ} → Option A → Result A
or_throw none = throws library_error
or_throw (some a) = ok a

pub >>=-congr {ℓ κ} :
    {A : Type ℓ} {B : Type κ} (m : Result A) (f g : A → Result B)
    → ((a : A) → f a ≡ g a)
    → (m >>= f) ≡ (m >>= g)
>>=-congr (ok a) f g h = h a
>>=-congr (throws e) f g h = refl

pub >>=-assoc {ℓ κ μ} :
    {A : Type ℓ} {B : Type κ} {C : Type μ} (m : Result A) (f : A → Result B) (g : B → Result C)
    → (m >>= f >>= g) ≡ (m >>= λ a. f a >>= g)
>>=-assoc (ok a) f g = refl
>>=-assoc (throws e) f g = refl

-- A chain with a result had one at its first step.
pub bind_inversion {ℓ κ} :
    {A : Type ℓ} {B : Type κ} {y : B} (r : Result A) (next : A → Result B)
    → (r >>= next) ≡ ok y
    → (x : A) × (next x ≡ ok y) × (r ≡ ok x)
bind_inversion (throws e) next h = cc
bind_inversion (ok x) next h = (x, h, refl)

pub or_throw-eq-ok {ℓ} : {A : Type ℓ} (o : Option A) {a : A} → or_throw o ≡ ok a → o ≡ some a
or_throw-eq-ok none h = cc
or_throw-eq-ok (some x) h = cc

-- What holds of the value of a result that is no exception.
abbrev pub OnOk {ℓ κ} : {A : Type ℓ} → (A → Type κ) → Result A → Type κ
OnOk P (ok a) = P a
OnOk P (throws e) = Unit

pub OnOk-ok {ℓ κ μ} :
    {A : Type ℓ} {B : Type κ} (Q : B → Type μ) (f : A → B) (r : Result A)
    → OnOk (λ a. Q (f a)) r
    → OnOk Q (r >>= λ a. ok (f a))
OnOk-ok Q f (ok a) h = h
OnOk-ok Q f (throws e) h = tt

pub OnOk-bind {ℓ κ μ ν} :
    {A : Type ℓ} {B : Type κ} (P : A → Type μ) (Q : B → Type ν) (m : Result A) (f : A → Result B)
    → OnOk P m
    → ((a : A) → P a → OnOk Q (f a))
    → OnOk Q (m >>= f)
OnOk-bind P Q (ok a) f h g = g a h
OnOk-bind P Q (throws e) f h g = tt

pub OnOk-all {ℓ κ} : {A : Type ℓ} (P : A → Type κ) (m : Result A) → ((a : A) → P a) → OnOk P m
OnOk-all P (ok a) h = h a
OnOk-all P (throws e) h = tt
