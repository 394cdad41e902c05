-- ===== src/GoError.antt =====
-- Go error values: a tree of fmt.Errorf wrappers over the values that errors.Is compares. The
-- format string and the arguments that are no errors are kept as they are passed; the text that
-- fmt makes of them is not formed.
use gridappsd_go.Common.{
  ℕ, String, Bytes, Bool, true, false, ◌||◌, List, ite, ℕ_discrete, ◌≡◌, ◌≢◌, refl, ◌⊎◌, inl, inr,
}

-- The error variables of the module and of the standard library, and the errors that other
-- packages make.
pub data ErrorId : Type 0 where
  subscription_closed handshake_timeout disconnected : ErrorId
  canceled deadline_exceeded receipt_timeout : ErrorId
  foreign : ℕ → ErrorId

unfoldable pub ErrorId-discrete : Discrete ErrorId
unfolding ℕ_discrete
ErrorId-discrete = hlevel ℕ_discrete

-- `runtime_error` is a runtime.Error out of a recovered panic, `bounded_error` the boundedError of
-- internal/auth/auth.go.
pub data GoError : Type 0 where
  value : ErrorId → GoError
  runtime_error : ℕ → GoError
  errorf : String → List Bytes → GoError
  errorf_w : String → List Bytes → GoError → GoError
  errorf_ww : String → List Bytes → GoError → GoError → GoError
  bounded_error : GoError → GoError

-- errors.Is against a value of an error variable.
unfoldable pub errors_is : ErrorId → GoError → Bool
unfolding ErrorId-discrete
errors_is t (value i) = ite (ErrorId-discrete i t) true false
errors_is t (runtime_error n) = false
errors_is t (errorf f args) = false
errors_is t (errorf_w f args e) = errors_is t e
errors_is t (errorf_ww f args e e') = errors_is t e || errors_is t e'
errors_is t (bounded_error e) = errors_is t e

-- The result of a call that may fail.
pub data Result {ℓ} (A : Type ℓ) : Type ℓ where
  ok : A → Result A
  err : GoError → Result A

pub Result-cases {ℓ} :
    {A : Type ℓ} (m : Result A) → ((e : GoError) × (m ≡ err e)) ⊎ ((a : A) × (m ≡ ok a))
Result-cases (ok a) = inr (a, refl)
Result-cases (err e) = inl (e, refl)

pub ok≢err {ℓ} : {A : Type ℓ} {a : A} {x : GoError} → ok a ≢ err x
ok≢err e = cc

pub ok_injective {ℓ} : {A : Type ℓ} {a b : A} → ok a ≡ ok b → a ≡ b
ok_injective e = cc

pub err_injective {ℓ} : {A : Type ℓ} {x y : GoError} → Path (Result A) (err x) (err y) → x ≡ y
err_injective e = cc
