-- ===== src/Go.antt =====
-- Go's error values and results, and what the sources use of Go's standard library.
-- A function `f() (A, error)` returns a `Result A`: no caller reads the value beside an error. One
-- that can also panic returns an `Outcome A`.
pub mod Text
pub mod Base64
pub mod Tests
use cluster_api_provider_kub.Prelude.{
  refl, String, List, ◌<>◌, Option, none, some, ◌≡◌, ◌⊎◌, inl, inr,
}

-- The reasons that k8s.io/apimachinery's `IsNotFound` and `IsAlreadyExists` tell apart.
pub data Reason : Type 0 where
  not_found already_exists other_reason : Reason

-- An error of the API server, one made by `errors.New` or `errors.Errorf`, or a wrapped one.
pub data Error : Type 0 where
  status : Reason → String → Error
  message : String → Error
  wrapped : String → Error → Error

pub data Result {ℓ} (A : Type ℓ) : Type ℓ where
  ok : A → Result A
  err : Error → Result A

pub data Outcome {ℓ} (A : Type ℓ) : Type ℓ where
  done : A → Outcome A
  fail : Error → Outcome A
  panic : Outcome A

-- `err.Error()`
unfoldable pub error_text : Error → String
error_text (status _ text) = text
error_text (message text) = text
error_text (wrapped prefix e) = prefix <> ": " <> error_text e

-- Chaining of results and of outcomes.
infixl 5 ◌>>=◌
abbrev pub ◌>>=◌ {ℓ κ} : {A : Type ℓ} {B : Type κ} → Outcome A → (A → Outcome B) → Outcome B
done a >>= f = f a
fail e >>= f = fail e
panic >>= f = panic

abbrev pub lift {ℓ} : {A : Type ℓ} → Result A → Outcome A
lift (ok a) = done a
lift (err e) = fail e

abbrev pub check : Option Error → Outcome (Unit {0})
check none = done tt
check (some e) = fail e

pub Result-cases {ℓ} :
    {A : Type ℓ} (r : Result A) → ((e : Error) × (r ≡ err e)) ⊎ ((a : A) × (r ≡ ok a))
Result-cases (err e) = inl (e, refl)
Result-cases (ok a) = inr (a, refl)
