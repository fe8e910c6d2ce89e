-- ===== src/Runs/Leases/Matching.antt =====
-- Every lease belongs to a run that was leased at some time, so that no queued run has one.
use agentic_engineering_lab.Runs.Leases.Ownership.{
  lease_run-accepts, lease_run-held, lease_run-refused, lease_run-missing,
}
use agentic_engineering_lab.Runs.Leases.{
  new_lease, held_lease, release_lease, heartbeat_lease, take_over, claim, lease_run, reclaim,
  claim_next_run,
}
use agentic_engineering_lab.Prelude.Table.{get-remove, get-put}
use agentic_engineering_lab.Runs.Service.Transitions.{
  transition_run-refuses, transition_run-accepts, transition_run_missing, moved,
}
use agentic_engineering_lab.Domain.Status.Graph.{stage-lt, stage}
use agentic_engineering_lab.Database.Preserves.{Preserves}
use agentic_engineering_lab.Prelude.Table
use agentic_engineering_lab.Domain.Status.{
  queued, status_eq_iff, leased, status_eq, may_transition, RunStatus,
}
use agentic_engineering_lab.Database.{Metadata, Run, RunLease, Session}
use agentic_engineering_lab.Prelude.{
  ◌∙◌, ap, ltb, ==_refl, [], sym, refl, none, Option, ==_iff, arith, subst, inr, ◌==◌, Bool-cases,
  inl, Option-cases, true, ◌≤◌, some, ◌≡◌, String, ℕ,
}
use agentic_engineering_lab.Runs.Service.{transition_run, with_status}

pub record LeasesMatch (s : Session) : Type 0 where
  pub of_run :
      (k : ℕ) (lease : RunLease)
      → Table.get s.leases k ≡ some lease
      → (run : Run) × (Table.get s.runs k ≡ some run) × (2 ≤ stage run.status)

stage_rises : (a b : RunStatus) → may_transition a b ≡ true → 2 ≤ stage a → 2 ≤ stage b
stage_rises a b m up = omega (arith, stage-lt a b m)

-- The rows that other tables rest on stay, and move up only.
moved-LeasesMatch :
    (s : Session) (k : ℕ) (run : Run) (target : RunStatus) (reason actor : String)
    (metadata : Metadata)
    → Table.get s.runs k ≡ some run
    → may_transition run.status target ≡ true
    → LeasesMatch s
    → LeasesMatch (moved s k run target reason actor metadata)
unfolding with_status
moved-LeasesMatch s k run target reason actor metadata loaded allowed m = record {
  of_run = λ j lease held.
      let (r, e, up) = m.of_run j lease held in
      elim (Bool-cases (k == j)) [
        | inl same ↦ (
          with_status run target s.clock,
          rw (get-put, same),
          stage_rises run.status target allowed (
              let same_row : r ≡ run = cc ((==_iff k j).0 same) in
              subst (λ x. 2 ≤ stage x.status) same_row up),
        )
        | inr other ↦ (r, rw (get-put, other) e, up)
      ];
}

pub transition_run-LeasesMatch :
    (k : ℕ) (target : RunStatus) (reason actor : String) (metadata : Metadata)
    → Preserves LeasesMatch (transition_run k target reason actor metadata)
transition_run-LeasesMatch k target reason actor metadata = record {
  step = λ s m. elim (Option-cases (Table.get s.runs k)) [
    | inl missing ↦ rw (transition_run_missing s k target reason actor metadata missing) m
    | inr (run, loaded) ↦ elim (Bool-cases (may_transition run.status target)) [
      | inl allowed ↦
          rw (transition_run-accepts s k run target reason actor metadata loaded allowed)
            (moved-LeasesMatch s k run target reason actor metadata loaded allowed m)
      | inr forbidden ↦
          rw (transition_run-refuses s k run target reason actor metadata loaded forbidden) m
    ]
  ];
}

-- A lease written for a run that was leased keeps the match.
put-LeasesMatch :
    (s : Session) (k : ℕ) (run : Run) (lease : RunLease)
    → Table.get s.runs k ≡ some run
    → 2 ≤ stage run.status
    → LeasesMatch s
    → LeasesMatch (record s { leases = Table.put s.leases k lease })
put-LeasesMatch s k run lease loaded up m = record {
  of_run = λ j l held. elim (Bool-cases (k == j)) [
    | inl same ↦ (run, subst (λ i. Table.get s.runs i ≡ some run) ((==_iff k j).0 same) loaded, up)
    | inr other ↦ m.of_run j l (rw (get-put, other) at held)
  ];
}

lease_run-LeasesMatch : (worker : String) (n k : ℕ) → Preserves LeasesMatch (lease_run worker n k)
lease_run-LeasesMatch worker n k = record {
  step = λ s m. elim (Option-cases (Table.get s.runs k)) [
    | inl missing ↦ rw (lease_run-missing worker n k s missing) m
    | inr (run, loaded) ↦ elim (Bool-cases (may_transition run.status leased)) [
      | inr forbidden ↦ rw (lease_run-refused worker n k s run loaded forbidden) m
      | inl allowed ↦ elim (Option-cases (Table.get s.leases k)) [
        | inr (lease, held) ↦
            rw (lease_run-held worker n k s run loaded lease allowed held)
              (moved-LeasesMatch s k run leased "worker_claimed" worker [] loaded allowed m)
        | inl free ↦ rw (lease_run-accepts worker n k s run loaded allowed free) (
            put-LeasesMatch (moved s k run leased "worker_claimed" worker []) k
              (with_status run leased s.clock) (new_lease worker s.clock n 1)
              (rw (get-put, ==_refl k)) (unfold with_status in omega arith)
              (moved-LeasesMatch s k run leased "worker_claimed" worker [] loaded allowed m))
      ]
    ]
  ];
}

take_over-LeasesMatch :
    (worker : String) (n k : ℕ) (lease : RunLease) (o : Option Run) (s : Session)
    → Table.get s.runs k ≡ o
    → LeasesMatch s
    → LeasesMatch (take_over worker n k lease o s).1
unfolding take_over
take_over-LeasesMatch worker n k lease none s row m = m
take_over-LeasesMatch worker n k lease (some run) s row m =
    elim (Bool-cases (status_eq run.status leased)) [
      | inr other ↦ rw other m
      | inl same ↦ rw same (
          put-LeasesMatch s k run _ row
            (subst (λ x. 2 ≤ stage x) (sym ((status_eq_iff run.status leased).0 same))
              (omega arith))
            m)
    ]

reclaim-LeasesMatch :
    (worker : String) (n : ℕ) (found : Option (ℕ × RunLease)) (s : Session)
    → LeasesMatch s
    → LeasesMatch (reclaim worker n found s).1
unfolding reclaim
reclaim-LeasesMatch worker n none s m = m
reclaim-LeasesMatch worker n (some (k, lease)) s m =
    take_over-LeasesMatch worker n k lease (Table.get s.runs k) s refl m

claim-LeasesMatch :
    (worker : String) (n : ℕ) (row : Option (ℕ × Run)) → Preserves LeasesMatch (claim worker n row)
unfolding claim
claim-LeasesMatch worker n (some (k, run)) = lease_run-LeasesMatch worker n k
claim-LeasesMatch worker n none = record { step = λ s m. reclaim-LeasesMatch worker n _ s m }

pub claim_next_run-LeasesMatch :
    (worker : String) (n : ℕ) → Preserves LeasesMatch (claim_next_run worker n)
unfolding claim_next_run
claim_next_run-LeasesMatch worker n = record {
  step = λ s m. (claim-LeasesMatch worker n _).step s m;
}

-- A queued run has no lease.
pub no_lease :
    (s : Session) (k : ℕ) (run : Run)
    → LeasesMatch s
    → Table.get s.runs k ≡ some run
    → run.status ≡ queued
    → Table.get s.leases k ≡ none
no_lease s k run m row waiting = elim (Option-cases (Table.get s.leases k)) [
  | inl free ↦ free
  | inr (lease, held) ↦
      let (r, e, up) = m.of_run k lease held in
      let same_row : r ≡ run = cc in
      absurd
        (omega (arith, subst (λ x. 2 ≤ stage x) (ap (λ (x : Run). x.status) same_row ∙ waiting) up))
]

held_lease-get :
    (s : Session) (k : ℕ) (worker : String) (lease : RunLease)
    → held_lease s k worker ≡ some lease
    → Table.get s.leases k ≡ some lease
unfolding held_lease
held_lease-get s k worker lease h = ground arith

heartbeat_lease-LeasesMatch :
    (k : ℕ) (worker : String) (n : ℕ) → Preserves LeasesMatch (heartbeat_lease k worker n)
unfolding heartbeat_lease
heartbeat_lease-LeasesMatch k worker n = record {
  step = λ s m. beat s m (held_lease s k worker) refl;
}
  where
    beat :
        (s : Session)
        → LeasesMatch s
        → (o : Option RunLease) → held_lease s k worker ≡ o
        → LeasesMatch (heartbeat_lease k worker n s).1
    beat s m none e = rw (e, heartbeat_lease) m
    beat s m (some lease) e =
        let (run, row, up) = m.of_run k lease (held_lease-get s k worker lease e) in
        elim (Bool-cases (ltb lease.expires_at s.clock)) [
          | inl late ↦ rw (e, heartbeat_lease) (rw late m)
          | inr live ↦ rw (e, heartbeat_lease) (rw live (put-LeasesMatch s k run _ row up m))
        ]

release_lease-LeasesMatch :
    (k : ℕ) (worker : String) → Preserves LeasesMatch (release_lease k worker)
unfolding release_lease
release_lease-LeasesMatch k worker = record {
  step = λ s m. let_go s m (held_lease s k worker) refl;
}
  where
    let_go :
        (s : Session)
        → LeasesMatch s
        → (o : Option RunLease) → held_lease s k worker ≡ o
        → LeasesMatch (release_lease k worker s).1
    let_go s m none e = rw (e, release_lease) m
    let_go s m (some lease) e =
        rw (e, release_lease) (record { of_run = λ j l held. m.of_run j l (still j l held) })
      where
        still :
            (j : ℕ) (l : RunLease)
            → Table.get (Table.remove s.leases k) j ≡ some l
            → Table.get s.leases j ≡ some l
        still j l held = ground (arith, get-remove s.leases k j)

-- Neither a claim, a heartbeat nor a release, whatever its outcome, leaves a lease without a run
-- that was leased before.
pub leases_match :
    (worker : String) (n k : ℕ) (s : Session)
    → LeasesMatch s
    → LeasesMatch (claim_next_run worker n s).1
      × LeasesMatch (heartbeat_lease k worker n s).1
      × LeasesMatch (release_lease k worker s).1
leases_match worker n k s m = (
  (claim_next_run-LeasesMatch worker n).step s m,
  (heartbeat_lease-LeasesMatch k worker n).step s m,
  (release_lease-LeasesMatch k worker).step s m,
)
