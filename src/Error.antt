-- ===== src/Error.antt =====
-- rssip/src/error.rs: the errors, and the three ways a call ends. The texts that the variants
-- `Transport`, `Dialog`, `MissingHeader`, `Io` and `Custom` carry are left out.
use rssip.Prelude.{◌≡◌, refl, ◌⊎◌, inl, inr}
use rssip.Media.Error.{MediaError}

pub data TransactionError : Type 0 where
  ack_cannot_create_transaction failed_to_send_message timeout invalid_state : TransactionError

pub data Error : Type 0 where
  parse transport dialog missing_header io channel_closed : Error
  unsupported_transport invalid_status_code fmt custom : Error
  transaction : TransactionError → Error
  media_error : MediaError → Error

-- `Ok`, `Err`, or a panic: a failed assertion or `expect`, `todo!`, `unreachable!`.
pub data Result {ℓ} (A : Type ℓ) : Type ℓ where
  ok : A → Result A
  err : Error → Result A
  panic : Result A

infixl 5 ◌>>=◌
abbrev pub ◌>>=◌ {ℓ κ} : {A : Type ℓ} {B : Type κ} → Result A → (A → Result B) → Result B
ok a >>= f = f a
err e >>= f = err e
panic >>= f = panic

-- Inversion of a chain that succeeds.
pub >>=-eq-ok {ℓ κ} :
    {A : Type ℓ} {B : Type κ} (step : Result A) (next : A → Result B) {result : B}
    → (step >>= next) ≡ ok result
    → (value : A) × (step ≡ ok value) × (next value ≡ ok result)
>>=-eq-ok panic next e = cc
>>=-eq-ok (err x) next e = cc
>>=-eq-ok (ok value) next e = (value, refl, e)

-- The result of a fallible step is a value, or it is passed on as it is.
pub Result-cases {ℓ} :
    {A : Type ℓ} (m : Result A)
    → ((a : A) × (m ≡ ok a)) ⊎ (((e : Error) × (m ≡ err e)) ⊎ (m ≡ panic))
Result-cases (ok a) = inl (a, refl)
Result-cases (err e) = inr (inl (e, refl))
Result-cases panic = inr (inr refl)

-- Inversion of a chain that panics.
pub >>=-eq-panic {ℓ κ} :
    {A : Type ℓ} {B : Type κ} (m : Result A) (f : A → Result B)
    → (m >>= f) ≡ panic
    → (m ≡ panic) ⊎ ((a : A) × (m ≡ ok a) × (f a ≡ panic))
>>=-eq-panic (ok a) f h = inr (a, refl, h)
>>=-eq-panic (err e) f h = cc
>>=-eq-panic panic f h = inl refl

-- No panic, and what is true of the value of a success.
abbrev pub Ensures {ℓ} : {A : Type ℓ} → (A → Type 0) → Result A → Type 0
Ensures P (ok a) = P a
Ensures P (err e) = Unit
Ensures P panic = ⊥

pub Ensures-bind {ℓ κ} :
    {A : Type ℓ} {B : Type κ} (P : A → Type 0) (Q : B → Type 0) (m : Result A) (f : A → Result B)
    → Ensures P m
    → ((a : A) → P a → Ensures Q (f a))
    → Ensures Q (m >>= f)
Ensures-bind P Q (ok a) f holds later = later a holds
Ensures-bind P Q (err e) f holds later = tt
Ensures-bind P Q panic f holds later = elim holds [ ]
