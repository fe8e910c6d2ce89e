-- ===== src/Runs/Remote.antt =====
-- Code that works on the session and on the world outside of it: the model's provider, GitHub and
-- the trace service. Each step gives both back beside its result.
pub mod Rules
use agentic_engineering_lab.Prelude.{◌||◌, none, if◌then◌else◌, Bool, ◌≡◌, some, Option}
use agentic_engineering_lab.Domain.Error.{
  is_value_error, is_permission_error, is_file_not_found, raised, Result, Exception, ok,
}
use agentic_engineering_lab.Database.{Session, Tx}

abbrev pub Remote {ℓ} : Type 0 → Type ℓ → Type ℓ
Remote W A = Session → W → Result A × Session × W

-- An action on the session alone.
unfoldable pub here {ℓ} : {W : Type 0} {A : Type ℓ} → Tx A → Remote W A
here m s w = let (r, t) = m s in (r, t, w)

-- A call of the world outside, whose outcome is a value: `try` around it, or no exception.
unfoldable pub away {ℓ} : {W : Type 0} {A : Type ℓ} → (W → A × W) → Remote W A
away call s w = let (a, v) = call w in (ok a, s, v)

unfoldable pub give {ℓ} : {W : Type 0} {A : Type ℓ} → A → Remote W A
give a s w = (ok a, s, w)

-- isinstance(error, (FileNotFoundError, PermissionError, ValueError))
unfoldable pub is_unavailable : Exception → Bool
is_unavailable e = is_file_not_found e || is_permission_error e || is_value_error e

abbrev pub or_nothing {ℓ} :
    {W : Type 0} {A : Type ℓ} → Result A × Session × W → Result (Option A) × Session × W
or_nothing (ok a, s, w) = (ok (some a), s, w)
or_nothing (raised e, s, w) = if is_unavailable e then (ok none, s, w) else (raised e, s, w)

-- try: m except (FileNotFoundError, PermissionError, ValueError): none
unfoldable pub if_available {ℓ} : {W : Type 0} {A : Type ℓ} → Remote W A → Remote W (Option A)
unfolding is_unavailable
if_available m s w = or_nothing (m s w)

module _ {ℓ κ} {W : Type 0} {A : Type ℓ} {B : Type κ} where
  abbrev pub go_on : Result A × Session × W → (A → Remote W B) → Result B × Session × W
  go_on (ok a, s, w) f = f a s w
  go_on (raised e, s, w) f = (raised e, s, w)

  infixl 10 ◌>>=◌ ◌>>◌
  unfoldable pub ◌>>=◌ : Remote W A → (A → Remote W B) → Remote W B
  unfolding here away give
  ◌>>=◌ m f s w = go_on (m s w) f

  abbrev pub ◌>>◌ : Remote W A → Remote W B → Remote W B
  m >> n = m >>= λ _. n

-- The action keeps `P` of the session, whether it returns or raises.
pub record Keeps {ℓ κ} {W : Type 0} {A : Type ℓ} (P : Session → Type κ) (m : Remote W A)
    : Type κ where
  pub step : (s : Session) (w : W) → P s → P (m s w).1

-- If the action returns, then `P` holds of the session it leaves.
pub record Ends {ℓ κ} {W : Type 0} {A : Type ℓ} (P : Session → Type κ) (m : Remote W A)
    : Type (ℓ ⊔ κ) where
  pub step : (s t : Session) (w v : W) (a : A) → m s w ≡ (ok a, t, v) → P t
