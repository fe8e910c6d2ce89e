-- ===== src/Runs/Leases/Fencing.antt =====
-- What a claim takes from the other workers, and who may renew a lease.
use agentic_engineering_lab.Prelude.Table.{get-put}
use agentic_engineering_lab.Runs.Leases.Ownership.{claim_next_run-Claimed}
use agentic_engineering_lab.Domain.Error.{ok}
use agentic_engineering_lab.Prelude.Table
use agentic_engineering_lab.Database.{RunLease, Session}
use agentic_engineering_lab.Prelude.{
  ◌+◌, leb, str_eq, ◌&&◌, str_eq_iff, ◌==◌, arith, if◌then◌else◌, ◌↔◌, false, ◌≢◌, true, ◌≤◌, some,
  ◌≡◌, ℕ, String,
}
use agentic_engineering_lab.Runs.Leases.{
  seconds, claim_next_run, held_lease, release_lease, heartbeat_lease,
}

-- Where each lease has its own run, every other worker is shut out of a run that was claimed: right
-- after the claim its heartbeat and its release of that run give false and change nothing.
pub claim_fences_others :
    (worker other : String) (n m k : ℕ) (s t : Session)
    → Table.IsKeyed s.leases s.leases
    → claim_next_run worker n s ≡ (ok (some k), t)
    → other ≢ worker
    → (heartbeat_lease k other m t ≡ (ok false, t)) × (release_lease k other t ≡ (ok false, t))
unfolding heartbeat_lease release_lease held_lease
claim_fences_others worker other n m k s t keyed h differs =
    let claimed = claim_next_run-Claimed worker n k s t keyed h in
    ground (arith, claimed.kept, claimed.holder, str_eq_iff claimed.lease.worker_id other)

-- The holder renews its lease in time, and only then: a heartbeat succeeds exactly if the worker
-- holds the run's lease and the clock has not passed its end. Then the end moves to `m` seconds from
-- now; every other lease, and this one if the heartbeat fails, stays as it was.
pub heartbeat_lease_lem :
    (worker : String) (m k j : ℕ) (lease : RunLease) (s : Session)
    → Table.get s.leases k ≡ some lease
    → (((heartbeat_lease k worker m s).0 ≡ ok true)
        ↔ ((lease.worker_id ≡ worker) × (s.clock ≤ lease.expires_at)))
      × (Table.get (heartbeat_lease k worker m s).1.leases j ≡ (
          if k == j && str_eq lease.worker_id worker && leb s.clock lease.expires_at
          then some (record lease { heartbeat_at = s.clock; expires_at = s.clock + seconds m })
          else Table.get s.leases j))
unfolding heartbeat_lease held_lease
heartbeat_lease_lem worker m k j lease s held = (
  (
    λ h. ground (arith, str_eq_iff lease.worker_id worker),
    λ h. ground (arith, str_eq_iff lease.worker_id worker),
  ),
  ground (
    arith,
    get-put s.leases k j
        (record lease { heartbeat_at = s.clock; expires_at = s.clock + seconds m }),
  ),
)
