-- ===== src/Runs/Leases.antt =====
-- src/agentic_lab/runs/leases.py: a worker holds a run by a lease that expires.
pub mod Ownership
pub mod Fencing
pub mod Matching
pub mod Progress
pub mod Reclaim
use agentic_engineering_lab.Runs.Service.{transition_run}
use agentic_engineering_lab.Domain.Error.{integrity_error, raised, ok}
use agentic_engineering_lab.Prelude.Table
use agentic_engineering_lab.Prelude.Table.{Table}
use agentic_engineering_lab.Domain.Status.{leased, queued, status_eq}
use agentic_engineering_lab.Prelude.{
  ◌∷◌, [], leb, is_some, ltb, true, false, str_eq, not, if◌then◌else◌, none, ◌+◌, some, Bool,
  Option, ◌*◌, ℕ, String,
}
use agentic_engineering_lab.Database.{◌>>◌, gets, ◌>>=◌, pure, Tx, RunLease, Run, Session}

-- timedelta(seconds=n), in microseconds
abbrev pub seconds : ℕ → ℕ
seconds n = n * 1000000

-- _new_lease
unfoldable pub new_lease : String → ℕ → ℕ → ℕ → RunLease
new_lease worker_id now lease_seconds attempt = record {
  worker_id = worker_id;
  acquired_at = now;
  heartbeat_at = now;
  expires_at = now + seconds lease_seconds;
  attempt = attempt;
}

-- One row before the best of those that follow: it is taken if it is selected and not later.
abbrev earlier {ℓ} : {V : Type ℓ} → (V → ℕ) → Bool → ℕ × V → Option (ℕ × V) → Option (ℕ × V)
earlier order false row best = best
earlier order true row none = some row
earlier order true row (some best) =
    if leb (order row.1) (order best.1) then some row else some best

-- `select(...).where(test).order_by(order)` and `.first()`: of the selected rows the one with the
-- least `order`. The query does not say which of two equal ones comes first: here the older row.
unfoldable pub first_by {ℓ} : {V : Type ℓ} → (V → ℕ) → (V → Bool) → Table V → Option (ℕ × V)
first_by order test [] = none
first_by order test ((k, v) ∷ t) = earlier order (test v) (k, v) (first_by order test t)

abbrev pub is_queued : Run → Bool
is_queued run = status_eq run.status queued

abbrev pub is_expired : ℕ → RunLease → Bool
is_expired now lease = ltb lease.expires_at now

-- `session.add` of a new lease: its key, the run, is unique.
unfoldable pub add_lease : ℕ → RunLease → Tx (Unit {0})
add_lease run_id lease s =
    if is_some (Table.get s.leases run_id)
    then (raised (integrity_error "run_leases"), s)
    else (ok tt, record s { leases = Table.put s.leases run_id lease })

-- The attributes of a loaded lease are assigned.
unfoldable pub save_lease : ℕ → RunLease → Tx (Unit {0})
save_lease run_id lease s = (ok tt, record s { leases = Table.put s.leases run_id lease })

-- The claim of a queued run.
unfoldable pub lease_run : String → ℕ → ℕ → Tx (Option ℕ)
unfolding ◌>>=◌ add_lease new_lease
lease_run worker_id lease_seconds run_id = do
  now ← gets (λ s. s.clock)
  transition_run run_id leased "worker_claimed" worker_id []
  add_lease run_id (new_lease worker_id now lease_seconds 1)
  pure (some run_id)

-- An expired lease is taken over if its run is there and still leased.
unfoldable pub take_over : String → ℕ → ℕ → RunLease → Option Run → Tx (Option ℕ)
unfolding ◌>>=◌ save_lease
take_over worker_id lease_seconds run_id lease none = pure none
take_over worker_id lease_seconds run_id lease (some run) =
    if not (status_eq run.status leased) then pure none else do
      now ← gets (λ s. s.clock)
      save_lease run_id (record {
        worker_id = worker_id;
        acquired_at = now;
        heartbeat_at = now;
        expires_at = now + seconds lease_seconds;
        attempt = lease.attempt + 1;
      })
      pure (some run_id)

unfoldable pub reclaim : String → ℕ → Option (ℕ × RunLease) → Tx (Option ℕ)
unfolding ◌>>=◌ take_over
reclaim worker_id lease_seconds none = pure none
reclaim worker_id lease_seconds (some (run_id, lease)) = do
  run ← gets (λ s. Table.get s.runs run_id)
  take_over worker_id lease_seconds run_id lease run

-- The first query's result decides between the two halves.
unfoldable pub claim : String → ℕ → Option (ℕ × Run) → Tx (Option ℕ)
unfolding ◌>>=◌ lease_run reclaim
claim worker_id lease_seconds (some (run_id, run)) = lease_run worker_id lease_seconds run_id
claim worker_id lease_seconds none = do
  lease ← gets (λ s. first_by (λ l. l.expires_at) (is_expired s.clock) s.leases)
  reclaim worker_id lease_seconds lease

-- The result is the key of the claimed run.
unfoldable pub claim_next_run : String → ℕ → Tx (Option ℕ)
unfolding ◌>>=◌ claim
claim_next_run worker_id lease_seconds = do
  run ← gets (λ s. first_by (λ r. r.created_at) is_queued s.runs)
  claim worker_id lease_seconds run

-- The lease of a run that the worker holds: what `heartbeat_lease` and `release_lease` test first.
unfoldable pub held_lease : Session → ℕ → String → Option RunLease
held_lease s run_id worker_id = elim (Table.get s.leases run_id) [
  | none ↦ none
  | some lease ↦ if str_eq lease.worker_id worker_id then some lease else none
]

unfoldable pub heartbeat_lease : ℕ → String → ℕ → Tx Bool
unfolding held_lease
heartbeat_lease run_id worker_id lease_seconds s = elim (held_lease s run_id worker_id) [
  | none ↦ (ok false, s)
  | some lease ↦ if ltb lease.expires_at s.clock then (ok false, s) else (
    ok true,
    record s {
      leases =
          Table.put s.leases run_id
            (record lease { heartbeat_at = s.clock; expires_at = s.clock + seconds lease_seconds });
    },
  )
]

unfoldable pub release_lease : ℕ → String → Tx Bool
unfolding held_lease
release_lease run_id worker_id s = elim (held_lease s run_id worker_id) [
  | none ↦ (ok false, s)
  | some lease ↦ (ok true, record s { leases = Table.remove s.leases run_id })
]
