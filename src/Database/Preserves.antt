-- ===== src/Database/Preserves.antt =====
-- Invariants of transactions: one rule for each way in which an action is put together.
use agentic_engineering_lab.Prelude.Table
use agentic_engineering_lab.Domain.Error.{raised, ok, Exception, Result}
use agentic_engineering_lab.Database.{
  continue, Run, raise, ◌>>=◌, lift, raise_when, Tx, gets, the_run, pure, Session,
}
use agentic_engineering_lab.Prelude.{
  none, some, some, Option, if◌then◌else◌, ℕ, ◌≡◌, refl, Bool, true, false,
}

-- The action keeps `P`, whether it returns or raises.
pub record Preserves {ℓ κ} {A : Type ℓ} (P : Session → Type κ) (m : Tx A) : Type κ where
  pub step : (s : Session) → P s → P (m s).1

module _ {ℓ κ} {A : Type ℓ} {P : Session → Type κ} where
  pub Preserves-pure : (a : A) → Preserves P (pure a)
  unfolding pure
  Preserves-pure a = record { step = λ s p. p }

  pub Preserves-raise : (e : Exception) → Preserves P (raise {A = A} e)
  unfolding raise
  Preserves-raise e = record { step = λ s p. p }

  pub Preserves-lift : (r : Result A) → Preserves P (lift r)
  unfolding lift
  Preserves-lift r = record { step = λ s p. p }

  pub Preserves-gets : (f : Session → A) → Preserves P (gets f)
  unfolding gets
  Preserves-gets f = record { step = λ s p. p }

  pub Preserves-if :
      (b : Bool) (m n : Tx A) → Preserves P m → Preserves P n → Preserves P (if b then m else n)
  Preserves-if true m n pm pn = pm
  Preserves-if false m n pm pn = pn

module _ {κ} {P : Session → Type κ} where
  pub Preserves-raise_when : (b : Bool) (e : Exception) → Preserves P (raise_when b e)
  unfolding raise_when
  Preserves-raise_when true e = record { step = λ s p. p }
  Preserves-raise_when false e = record { step = λ s p. p }

  -- Reading a row changes nothing.
  pub Preserves-the_run : (k : ℕ) → Preserves P (the_run k)
  unfolding the_run
  Preserves-the_run k = record { step = λ s p. read s p (Table.get s.runs k) refl }
    where
      read : (s : Session) → P s → (o : Option Run) → Table.get s.runs k ≡ o → P (the_run k s).1
      read s p none e = rw (e, the_run) p
      read s p (some r) e = rw (e, the_run) p

module _ {ℓ ι κ} {A : Type ℓ} {B : Type ι} {P : Session → Type κ} where
  pub continue-step :
      (r : Result A) (f : A → Tx B)
      → ((a : A) → Preserves P (f a))
      → (s : Session) → P s
      → P (continue r f s).1
  continue-step (ok a) f pf s p = (pf a).step s p
  continue-step (raised e) f pf s p = p

  pub Preserves-bind :
      (m : Tx A) (f : A → Tx B)
      → Preserves P m
      → ((a : A) → Preserves P (f a))
      → Preserves P (m >>= f)
  unfolding ◌>>=◌
  Preserves-bind m f pm pf = record {
    step = λ s p. continue-step (m s).0 f pf (m s).1 (pm.step s p);
  }

pub ruleset preserving = (
  Preserves-pure, Preserves-raise, Preserves-lift, Preserves-gets, Preserves-if,
  Preserves-raise_when, Preserves-the_run, Preserves-bind,
)
