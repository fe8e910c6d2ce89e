-- ===== src/Tests/Leases.antt =====
-- The leases at concrete inputs: run 0 is leased by "ann" until 5000, and run 1 is queued.
use agentic_engineering_lab.Runs.Leases.Progress.{claim_next_run-progress}
use agentic_engineering_lab.Runs.Leases.Reclaim.{claim_next_run-blocked}
use agentic_engineering_lab.Runs.Leases.Fencing.{claim_fences_others, heartbeat_lease_lem}
use agentic_engineering_lab.Domain.Error.{ok}
use agentic_engineering_lab.Domain.Status.{
  leased, may_transition, queued, superseded, is_terminal, status_eq,
}
use agentic_engineering_lab.Runs.Service.{with_status, transition_run}
use agentic_engineering_lab.Tests.Values.{a_lease, a_run, busy_session}
use agentic_engineering_lab.Runs.Leases.{
  seconds, new_lease, claim_next_run, first_by, heartbeat_lease, release_lease,
}
use agentic_engineering_lab.Runs.Leases.Ownership.{claim_next_run-Claimed, leased_session, Claimed}
use agentic_engineering_lab.Runs.Leases.Matching.{leases_match, LeasesMatch}
use agentic_engineering_lab.Prelude.{
  false, String, ◌+◌, leb, str_eq, ◌&&◌, inr, arith, if◌then◌else◌, inl, ◌∷◌, ◌↔◌, ◌≤◌, ◌==◌, true,
  none, str_eq_iff, refl, [], Bool-cases, some, ◌≡◌, false≢true, ℕ, ◌≢◌,
}
use agentic_engineering_lab.Database.{Run, Session}
use agentic_engineering_lab.Prelude.Table

keyed : Table.IsKeyed busy_session.leases busy_session.leases
unfolding Table.get
keyed = (refl, tt)

abbrev claimed : Session
claimed = leased_session "bob" 60 1 (a_run queued "bbbb" 20) busy_session

claim_test : claim_next_run "bob" 60 busy_session ≡ (ok (some 1), claimed)
unfolding claim_next_run first_by transition_run with_status is_terminal status_eq may_transition
    new_lease Table.get Table.put
claim_test = refl

release_test : (release_lease 0 "ann" busy_session).1.leases ≡ []
unfolding release_lease Table.get Table.remove
release_test = refl

claim_next_run-Claimed_example : Claimed "bob" 60 1 busy_session claimed
claim_next_run-Claimed_example =
    claim_next_run-Claimed "bob" 60 1 busy_session claimed keyed claim_test

abbrev ann : String
ann = "ann"

ann_not_bob : ann ≢ "bob"
ann_not_bob p = absurd (false≢true ((str_eq_iff ann "bob").1 p))

claim_fences_others_example :
    (heartbeat_lease 1 "ann" 60 claimed ≡ (ok false, claimed))
    × (release_lease 1 "ann" claimed ≡ (ok false, claimed))
claim_fences_others_example =
    claim_fences_others "bob" "ann" 60 60 1 busy_session claimed keyed claim_test ann_not_bob

heartbeat_lease_lem_example :
    (((heartbeat_lease 0 "ann" 60 busy_session).0 ≡ ok true) ↔ ((ann ≡ ann) × (1000 ≤ 5000)))
    × (Table.get (heartbeat_lease 0 "ann" 60 busy_session).1.leases 0 ≡ (
        if 0 == 0 && str_eq "ann" "ann" && leb 1000 5000
        then some
            (record (a_lease "ann" 5000) { heartbeat_at = 1000; expires_at = 1000 + seconds 60 })
        else Table.get busy_session.leases 0))
unfolding Table.get
heartbeat_lease_lem_example =
    heartbeat_lease_lem "ann" 60 0 0 (a_lease "ann" 5000) busy_session refl

busy-LeasesMatch : LeasesMatch busy_session
unfolding Table.get
busy-LeasesMatch = record {
  of_run = λ k lease held. elim (Bool-cases (0 == k)) [
    | inl same ↦ (a_run leased "aaaa" 10, ground arith, omega arith)
    | inr other ↦ absurd (ground arith)
  ];
}

leases_match_example :
    LeasesMatch (claim_next_run "bob" 60 busy_session).1
    × LeasesMatch (heartbeat_lease 0 "bob" 60 busy_session).1
    × LeasesMatch (release_lease 0 "bob" busy_session).1
leases_match_example = leases_match "bob" 60 0 busy_session busy-LeasesMatch

claim_next_run-progress_example :
    (k : ℕ) × (run : Run) × (Table.get busy_session.runs k ≡ some run)
    × (run.created_at ≤ 20)
    × (claim_next_run "bob" 60 busy_session
        ≡ (ok (some k), leased_session "bob" 60 k run busy_session))
unfolding Table.get
claim_next_run-progress_example =
    claim_next_run-progress "bob" 60 1 (a_run queued "bbbb" 20) busy_session (refl, (refl, tt))
      busy-LeasesMatch refl refl

-- Run 0 was superseded while leased and its lease is still there; run 1 is leased, and its lease has
-- expired too.
abbrev stuck_session : Session
stuck_session = record busy_session {
  clock = 9000;
  runs = (0, a_run superseded "aaaa" 10) ∷ (1, a_run leased "bbbb" 20) ∷ [];
  leases = (0, a_lease "ann" 5000) ∷ (1, a_lease "ann" 6000) ∷ [];
}

claim_next_run-blocked_example :
    claim_next_run "bob" 60 (record stuck_session { clock = 20000 })
    ≡ (ok none, record stuck_session { clock = 20000 })
unfolding Table.get first_by status_eq
claim_next_run-blocked_example =
    claim_next_run-blocked "bob" 60 0 20000 (a_lease "ann" 5000) (a_run superseded "aaaa" 10)
      stuck_session refl refl refl refl (omega arith)
