-- ===== src/Runs/Leases/Progress.antt =====
-- The order in which queued runs are claimed.
use agentic_engineering_lab.Runs.Leases.Ownership.{
  lease_run-accepts, first_by-test, first_by-get, leased_session,
}
use agentic_engineering_lab.Domain.Error.{ok}
use agentic_engineering_lab.Domain.Status.{may_transition, status_eq_iff, queued}
use agentic_engineering_lab.Prelude.Table.{Table}
use agentic_engineering_lab.Runs.Leases.Matching.{no_lease, LeasesMatch}
use agentic_engineering_lab.Prelude.Table
use agentic_engineering_lab.Database.{Session, Run}
use agentic_engineering_lab.Prelude.{
  refl, [], leb, inr, arith, Option-cases, inl, ◌==◌, Bool-cases, ◌∷◌, ◌≤◌, true, some, ◌≡◌, Bool,
  ℕ, String,
}
use agentic_engineering_lab.Runs.Leases.{claim, is_queued, first_by, claim_next_run}

-- The row that a query picks is least, among the rows that its test selects.
first_by-least {ℓ} :
    {V : Type ℓ} (order : V → ℕ) (test : V → Bool) (t : Table V) (j : ℕ) (w : V)
    → Table.get t j ≡ some w
    → test w ≡ true
    → (k : ℕ) × (v : V) × (first_by order test t ≡ some (k, v)) × (order v ≤ order w)
unfolding first_by Table.get
first_by-least order test [] j w h y = cc
first_by-least order test ((i, u) ∷ t) j w h y = elim (Bool-cases (i == j)) [
  | inl here ↦ elim (Option-cases (first_by order test t)) [
    | inl last ↦ (i, u, ground arith, ground arith)
    | inr (best, e) ↦ elim (Bool-cases (leb (order u) (order best.1))) [
      | inl first ↦ (i, u, ground arith, ground arith)
      | inr later ↦ (best.0, best.1, ground arith, ground arith)
    ]
  ]
  | inr there ↦
      let (k, v, e, le) = first_by-least order test t j w (rw there at h) y in
      elim (Bool-cases (test u)) [
        | inr passed ↦ (k, v, ground arith, le)
        | inl picked ↦ elim (Bool-cases (leb (order u) (order v))) [
          | inl first ↦ (i, u, ground arith, ground arith)
          | inr later ↦ (k, v, ground arith, le)
        ]
      ]
]

-- Where runs have distinct keys and leases belong to runs that were leased, a claim succeeds if some
-- run is queued: it leases a run created no later, and the session after it is written out.
pub claim_next_run-progress :
    (worker : String) (n j : ℕ) (waiting : Run) (s : Session)
    → Table.IsKeyed s.runs s.runs
    → LeasesMatch s
    → Table.get s.runs j ≡ some waiting
    → waiting.status ≡ queued
    → (k : ℕ) × (run : Run) × (Table.get s.runs k ≡ some run)
      × (run.created_at ≤ waiting.created_at)
      × (claim_next_run worker n s ≡ (ok (some k), leased_session worker n k run s))
unfolding claim_next_run
claim_next_run-progress worker n j waiting s keyed m loaded wait =
    let (k, run, e, le) =
      first_by-least (λ (r : Run). r.created_at) is_queued s.runs j waiting loaded
        ((status_eq_iff waiting.status queued).1 wait) in
    let row = first_by-get (λ (r : Run). r.created_at) is_queued s.runs s.runs k run keyed e in
    let is_waiting =
      (status_eq_iff run.status queued).0
        (first_by-test (λ (r : Run). r.created_at) is_queued s.runs k run e) in
    (
      k,
      run,
      row,
      le,
      rw (e, claim)
          (lease_run-accepts worker n k s run row (rw is_waiting (unfold may_transition in refl))
            (no_lease s k run m row is_waiting)),
    )
