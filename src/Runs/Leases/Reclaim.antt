-- ===== src/Runs/Leases/Reclaim.antt =====
-- The order in which expired leases are tried, and the lease that blocks it.
use agentic_engineering_lab.Prelude.Table
use agentic_engineering_lab.Runs.Leases.Ownership.{first_by-test}
use agentic_engineering_lab.Domain.Error.{ok}
use agentic_engineering_lab.Domain.Status.{leased, status_eq}
use agentic_engineering_lab.Database.{Session, Run, RunLease}
use agentic_engineering_lab.Prelude.Table.{Table}
use agentic_engineering_lab.Prelude.{
  refl, [], false, arith, inl, inr, Option-cases, ◌∷◌, none, some, ◌≤◌, Option, ◌≡◌, String, ℕ,
}
use agentic_engineering_lab.Runs.Leases.{claim, is_queued, is_expired, claim_next_run, first_by}

abbrev earliest : ℕ → Table RunLease → Option (ℕ × RunLease)
earliest now t = first_by (λ l. l.expires_at) (is_expired now) t

earliest-none :
    (now later : ℕ) (t : Table RunLease) (k : ℕ) (lease : RunLease)
    → earliest now t ≡ none
    → earliest later t ≡ some (k, lease)
    → now ≤ lease.expires_at
unfolding first_by
earliest-none now later [] k lease n h = cc
earliest-none now later ((j, l) ∷ t) k lease n h = elim (Option-cases (earliest now t)) [
  | inr (b, e) ↦ absurd (ground (arith, e))
  | inl free ↦ elim (Option-cases (earliest later t)) [
    | inl none_later ↦ ground arith
    | inr (best, e) ↦ ground (arith, earliest-none now later t best.0 best.1 free e)
  ]
]

-- The earliest of the expired leases stays the earliest when more of them expire.
earliest-later :
    (now later : ℕ) (t : Table RunLease) (k : ℕ) (lease : RunLease)
    → now ≤ later
    → earliest now t ≡ some (k, lease)
    → earliest later t ≡ some (k, lease)
unfolding first_by
earliest-later now later [] k lease le h = cc
earliest-later now later ((j, l) ∷ t) k lease le h = elim (Option-cases (earliest now t)) [
  | inl free ↦ elim (Option-cases (earliest later t)) [
    | inl none_later ↦ ground arith
    | inr (best, e) ↦ ground (arith, earliest-none now later t best.0 best.1 free e)
  ]
  | inr (best, e) ↦ ground (
    arith,
    earliest-later now later t best.0 best.1 le e,
    first_by-test (λ (x : RunLease). x.expires_at) (is_expired now) t best.0 best.1 e,
  )
]

-- If no run is queued and the earliest of the expired leases belongs to a run that is no longer leased,
-- a claim by any worker, now or at any later time at which the rows are still the same, gives nothing
-- and changes nothing, whatever other leases have expired.
pub claim_next_run-blocked :
    (worker : String) (n k later : ℕ) (lease : RunLease) (run : Run) (s : Session)
    → first_by (λ r. r.created_at) is_queued s.runs ≡ none
    → first_by (λ l. l.expires_at) (is_expired s.clock) s.leases ≡ some (k, lease)
    → Table.get s.runs k ≡ some run
    → status_eq run.status leased ≡ false
    → s.clock ≤ later
    → claim_next_run worker n (record s { clock = later }) ≡ (ok none, record s { clock = later })
unfolding claim_next_run
claim_next_run-blocked worker n k later lease run s nothing first row over le =
    rw (nothing, claim)
      (rw (earliest-later s.clock later s.leases k lease le first) (rw row (rw over refl)))
