-- ===== src/Result.antt =====
-- Go's (value, error) pair, with a third outcome for a panic.
use Prim.Native.String.{String}
use sigsum_lib_go.Prelude.{ℕ, Bool, true, false, ◌≡◌, refl, ◌⊎◌, inl, inr}

-- pkg/monitor/alert.go: the kinds of alert
pub data AlertType : Type 0 where
  alert_other alert_log_error alert_invalid_log_signature alert_inconsistent_tree_head : AlertType

-- The errors that callers tell apart; `errorf` keeps the format string of any other.
pub data Error : Type 0 where
  eof unexpected_eof empty_line unwanted_signature : Error
  errorf : String → Error
  -- pkg/api/errors.go: the status code with the wrapped error, and errorWithOldSize
  api_error : ℕ → Error → Error
  error_with_old_size : ℕ → Error
  -- pkg/monitor/alert.go: Alert
  alert : AlertType → Error → Error

pub data Result {ℓ} (A : Type ℓ) : Type ℓ where
  ok : A → Result A
  err : Error → Result A
  panic : Result A

infixl 5 ◌>>=◌ ◌>>◌
abbrev pub ◌>>=◌ {ℓ κ} : {A : Type ℓ} {B : Type κ} → Result A → (A → Result B) → Result B
ok a >>= f = f a
err e >>= f = err e
panic >>= f = panic

abbrev pub ◌>>◌ {ℓ} : {B : Type ℓ} → Result (Unit {0}) → Result B → Result B
m >> k = m >>= λ _. k

-- `if !b { return e }`
abbrev pub require : Bool → Error → Result (Unit {0})
require true e = ok tt
require false e = err e

-- To split on a computed result and keep the equation.
pub Result-cases {ℓ} :
    {A : Type ℓ} (r : Result A)
    → ((a : A) × (r ≡ ok a)) ⊎ (((e : Error) × (r ≡ err e)) ⊎ (r ≡ panic))
Result-cases (ok a) = inl (a, refl)
Result-cases (err e) = inr (inl (e, refl))
Result-cases panic = inr (inr refl)

pub >>=-ok {ℓ κ} :
    {A : Type ℓ} {B : Type κ} (m : Result A) (f : A → Result B) (b : B)
    → (m >>= f) ≡ ok b
    → (a : A) × (m ≡ ok a) × (f a ≡ ok b)
>>=-ok (ok a) f b e = (a, refl, e)
>>=-ok (err x) f b e = absurd cc
>>=-ok panic f b e = absurd cc
