-- ===== src/Domain/Error.antt =====
-- The exceptions of the program, and the result of code that may raise one.
use agentic_engineering_lab.Prelude.{true, refl, false, ◌≡◌, Bool, String}
use agentic_engineering_lab.Domain.Status.{RunStatus}

-- Each carries its message, where the program reads one. `invalid_transition` is
-- `InvalidTransitionError` of runs/service.py, with the two statuses of its message; it is a
-- subclass of `ValueError`. `integrity_error` is SQLAlchemy's, for a violated unique constraint, and
-- `validation_error` is pydantic's, also a `ValueError`. `other_error` has the name of its class.
pub data Exception : Type 0 where
  value_error permission_error runtime_error lookup_error : String → Exception
  file_not_found budget_exhausted_error model_gateway_error lease_lost : String → Exception
  integrity_error validation_error other_error : String → Exception
  invalid_transition : RunStatus → RunStatus → Exception

pub data Result {ℓ} (A : Type ℓ) : Type ℓ where
  ok : A → Result A
  raised : Exception → Result A

-- isinstance(error, ValueError)
unfoldable pub is_value_error : Exception → Bool
is_value_error (value_error message) = true
is_value_error (validation_error message) = true
is_value_error (invalid_transition s t) = true
is_value_error _ = false

-- isinstance(error, FileNotFoundError), and PermissionError
unfoldable pub is_file_not_found : Exception → Bool
is_file_not_found (file_not_found message) = true
is_file_not_found _ = false

unfoldable pub is_permission_error : Exception → Bool
is_permission_error (permission_error message) = true
is_permission_error _ = false

unfoldable pub is_integrity_error : Exception → Bool
is_integrity_error (integrity_error message) = true
is_integrity_error _ = false

-- type(error).__name__
unfoldable pub class_name : Exception → String
class_name (value_error message) = "ValueError"
class_name (permission_error message) = "PermissionError"
class_name (runtime_error message) = "RuntimeError"
class_name (lookup_error message) = "LookupError"
class_name (file_not_found message) = "FileNotFoundError"
class_name (budget_exhausted_error message) = "BudgetExhaustedError"
class_name (model_gateway_error message) = "ModelGatewayError"
class_name (lease_lost message) = "LeaseLostError"
class_name (integrity_error message) = "IntegrityError"
class_name (validation_error message) = "ValidationError"
class_name (other_error name) = name
class_name (invalid_transition s t) = "InvalidTransitionError"

module _ {ℓ κ} {A : Type ℓ} {B : Type κ} where
  -- Code that goes on with a value, unless an exception was raised before.
  infixl 10 ◌>>=◌
  abbrev pub ◌>>=◌ : Result A → (A → Result B) → Result B
  ◌>>=◌ (ok a) next = next a
  ◌>>=◌ (raised e) next = raised e

  -- What is known of both parts when the whole gave a value.
  pub bind-ok :
      (r : Result A) (next : A → Result B) (b : B)
      → (r >>= next) ≡ ok b
      → (a : A) × (r ≡ ok a) × (next a ≡ ok b)
  bind-ok (ok a) next b h = (a, refl, h)
  bind-ok (raised e) next b h = cc

-- if test: raise error, and what follows
abbrev pub unless {ℓ} : {A : Type ℓ} → Bool → Exception → Result A → Result A
unless true e next = raised e
unless false e next = next

pub unless-ok {ℓ} :
    {A : Type ℓ} (test : Bool) (e : Exception) (next : Result A) (a : A)
    → unless test e next ≡ ok a
    → (test ≡ false) × (next ≡ ok a)
unless-ok true e next a h = cc
unless-ok false e next a h = (refl, h)
