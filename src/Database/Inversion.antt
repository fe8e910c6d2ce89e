-- ===== src/Database/Inversion.antt =====
-- What is known of an action's parts when the whole returned.
use agentic_engineering_lab.Prelude.Table
use agentic_engineering_lab.Prelude.{
  inr, arith, inl, Option-cases, true, refl, some, false, ◌≡◌, Bool, ℕ,
}
use agentic_engineering_lab.Domain.Error.{raised, ok, Exception, Result}
use agentic_engineering_lab.Database.{
  continue, Run, Tx, Session, pure, raise_when, gets, ◌>>=◌, the_run,
}

module _ {ℓ κ} {A : Type ℓ} {B : Type κ} where
  pub continue-inv :
      (x : Result A × Session) (f : A → Tx B) (b : B) (t : Session)
      → continue x.0 f x.1 ≡ (ok b, t)
      → (a : A) × (u : Session) × (x ≡ (ok a, u)) × (f a u ≡ (ok b, t))
  continue-inv (ok a, u) f b t h = (a, u, refl, h)
  continue-inv (raised e, u) f b t h = cc

  pub bind-inv :
      (m : Tx A) (f : A → Tx B) (s : Session) (b : B) (t : Session)
      → (m >>= f) s ≡ (ok b, t)
      → (a : A) × (u : Session) × (m s ≡ (ok a, u)) × (f a u ≡ (ok b, t))
  unfolding ◌>>=◌
  bind-inv m f s b t h = continue-inv (m s) f b t h

pub raise_when-inv :
    (test : Bool) (e : Exception) (s u : Session)
    → raise_when test e s ≡ (ok tt, u)
    → (test ≡ false) × (u ≡ s)
unfolding raise_when
raise_when-inv true e s u h = cc
raise_when-inv false e s u h = (refl, cc)

pub pure-inv {ℓ} : {A : Type ℓ} (a b : A) (s t : Session) → pure a s ≡ (ok b, t) → (a ≡ b) × (t ≡ s)
unfolding pure
pure-inv a b s t h = (cc h, cc h)

pub gets-inv {ℓ} :
    {A : Type ℓ} (f : Session → A) (b : A) (s t : Session)
    → gets f s ≡ (ok b, t)
    → (f s ≡ b) × (t ≡ s)
unfolding gets
gets-inv f b s t h = (cc h, cc h)

pub the_run-inv :
    (k : ℕ) (run : Run) (s t : Session)
    → the_run k s ≡ (ok run, t)
    → (Table.get s.runs k ≡ some run) × (t ≡ s)
unfolding the_run
the_run-inv k run s t h = elim (Option-cases (Table.get s.runs k)) [
  | inl missing ↦ (ground arith, ground arith)
  | inr (r, e) ↦ (ground arith, ground arith)
]
