-- ===== src/Runs/Remote/Rules.antt =====
-- What steps keep of the session, and what they leave behind when they return: one rule for each way
-- in which a step is put together.
use agentic_engineering_lab.Database.Preserves.{Preserves}
use agentic_engineering_lab.Prelude.{inr, inl, Bool-cases, refl, subst, ◌≡◌, ap}
use agentic_engineering_lab.Domain.Error.{raised, ok, Result}
use agentic_engineering_lab.Database.{Tx, Session}
use agentic_engineering_lab.Runs.Remote.{
  Remote, ◌>>=◌, ◌>>◌, give, here, away, if_available, or_nothing, go_on, is_unavailable, Keeps,
  Ends,
}

or_nothing-step {ℓ κ} :
    {W : Type 0} {A : Type ℓ} (P : Session → Type κ) (x : Result A × Session × W)
    → P x.1
    → P (or_nothing x).1
or_nothing-step P (ok a, s, w) h = h
or_nothing-step P (raised e, s, w) h = elim (Bool-cases (is_unavailable e)) [
  | inl caught ↦ rw caught h
  | inr passed ↦ rw passed h
]

module _ {ℓ κ} {W : Type 0} {A : Type ℓ} {P : Session → Type κ} where
  pub Keeps-here : (m : Tx A) → Preserves P m → Keeps P (here {W = W} m)
  unfolding here
  Keeps-here m p = record { step = λ s w h. p.step s h }

  pub Keeps-away : (call : W → A × W) → Keeps P (away call)
  unfolding away
  Keeps-away call = record { step = λ s w h. h }

  pub Keeps-give : (a : A) → Keeps P (give {W = W} a)
  unfolding give
  Keeps-give a = record { step = λ s w h. h }

  pub Keeps-if_available : (m : Remote W A) → Keeps P m → Keeps P (if_available m)
  unfolding if_available
  Keeps-if_available m p = record { step = λ s w h. or_nothing-step P (m s w) (p.step s w h) }

  pub Ends-here :
      (m : Tx A) → ((s t : Session) (a : A) → m s ≡ (ok a, t) → P t) → Ends P (here {W = W} m)
  unfolding here
  Ends-here m e = record { step = λ s t w v a h. e s t a (cc h) }

module _ {ℓ ι κ} {W : Type 0} {A : Type ℓ} {B : Type ι} {P : Session → Type κ} where
  go_on-step :
      (x : Result A × Session × W) (f : A → Remote W B)
      → ((a : A) → Keeps P (f a))
      → P x.1
      → P (go_on x f).1
  go_on-step (ok a, s, w) f pf h = (pf a).step s w h
  go_on-step (raised e, s, w) f pf h = h

  pub Keeps-bind :
      (m : Remote W A) (f : A → Remote W B)
      → Keeps P m
      → ((a : A) → Keeps P (f a))
      → Keeps P (m >>= f)
  unfolding ◌>>=◌
  Keeps-bind m f pm pf = record { step = λ s w h. go_on-step (m s w) f pf (pm.step s w h) }

  go_on-Ends :
      (x : Result A × Session × W) (f : A → Remote W B) (b : B) (t : Session) (v : W)
      → ((a : A) → Ends P (f a))
      → go_on x f ≡ (ok b, t, v)
      → P t
  go_on-Ends (ok a, s, w) f b t v pf h = (pf a).step s t w v b h
  go_on-Ends (raised e, s, w) f b t v pf h = absurd (cc h)

  pub Ends-bind :
      (m : Remote W A) (f : A → Remote W B) → ((a : A) → Ends P (f a)) → Ends P (m >>= f)
  unfolding ◌>>=◌
  Ends-bind m f pf = record { step = λ s t w v b h. go_on-Ends (m s w) f b t v pf h }

  go_on-then :
      (x : Result A × Session × W) (n : Remote W B) (b : B) (t : Session) (v : W)
      → ((a : A) → x.0 ≡ ok a → P x.1)
      → Keeps P n
      → go_on x (λ a. n) ≡ (ok b, t, v)
      → P t
  go_on-then (ok a, s, w) n b t v p k h =
      subst (λ (y : Result B × Session × W). P y.1) h (k.step s w (p a refl))
  go_on-then (raised e, s, w) n b t v p k h = absurd (cc h)

  -- What the first step leaves, the second may keep.
  pub Ends-then : (m : Remote W A) (n : Remote W B) → Ends P m → Keeps P n → Ends P (m >> n)
  unfolding ◌>>=◌
  Ends-then m n e k = record {
    step = λ s t w v b h.
        go_on-then (m s w) n b t v
          (λ a q. e.step s (m s w).1 w (m s w).2 a (ap (λ r. (r, (m s w).1, (m s w).2)) q)) k h;
  }

pub ruleset keeping = (Keeps-here, Keeps-away, Keeps-give, Keeps-bind, Keeps-if_available)
