-- ===== src/Runs/Leases/Ownership.antt =====
-- Who holds a run: a lease is taken only when none is live, and its former holder can do nothing more.
use agentic_engineering_lab.Runs.Service.{with_status}
use agentic_engineering_lab.Domain.Status.{status_eq_iff, status_eq, may_transition, leased}
use agentic_engineering_lab.Runs.Service.Transitions.{
  transition_run-refuses, transition_run-accepts, moved, transition_run_missing,
}
use agentic_engineering_lab.Prelude.Table
use agentic_engineering_lab.Domain.Error.{
  integrity_error, lookup_error, invalid_transition, Result, raised, ok,
}
use agentic_engineering_lab.Database.{Run, RunLease, Session}
use agentic_engineering_lab.Prelude.Table.{get-put, Table}
use agentic_engineering_lab.Prelude.{
  ltb→lt, refl, ==_refl, ◌∙◌, sym, subst, none, ◌<◌, Option, [], inr, arith, false, Option-cases,
  inl, ◌+◌, Bool-cases, ◌∷◌, true, some, ◌≡◌, String, Bool, ℕ,
}
use agentic_engineering_lab.Runs.Leases.{
  claim, is_queued, is_expired, claim_next_run, reclaim, take_over, new_lease, lease_run, seconds,
  first_by,
}

-- The row that a query picks is in the table, and satisfies the test.
pub first_by-test {ℓ} :
    {V : Type ℓ} (order : V → ℕ) (test : V → Bool) (t : Table V) (k : ℕ) (v : V)
    → first_by order test t ≡ some (k, v)
    → test v ≡ true
unfolding first_by
first_by-test order test [] k v h = cc
first_by-test order test ((j, w) ∷ t) k v h = elim (Bool-cases (test w)) [
  | inl picked ↦ elim (Option-cases (first_by order test t)) [
    | inl last ↦ ground arith
    | inr (best, e) ↦ ground (arith, first_by-test order test t best.0 best.1)
  ]
  | inr passed ↦ first_by-test order test t k v (rw passed at h)
]

-- No worker holds the run: it has no lease, or one that expired before `now`.
abbrev pub IsFree : Option RunLease → ℕ → Type 0
IsFree none now = Unit
IsFree (some lease) now = lease.expires_at < now

-- What a successful claim of `k` by `worker` does to the session.
pub record Claimed (worker : String) (n k : ℕ) (s t : Session) : Type 0 where
  pub was_free : IsFree (Table.get s.leases k) s.clock
  pub lease : RunLease
  pub kept : Table.get t.leases k ≡ some lease
  pub holder : lease.worker_id ≡ worker
  pub until : lease.expires_at ≡ s.clock + seconds n
  pub run : Run
  pub row : Table.get t.runs k ≡ some run
  pub is_leased : run.status ≡ leased

pub lease_run-missing :
    (worker : String) (n k : ℕ) (s : Session)
    → Table.get s.runs k ≡ none
    → lease_run worker n k s ≡ (raised (lookup_error "run"), s)
unfolding lease_run
lease_run-missing worker n k s missing =
    ground (arith, transition_run_missing s k leased "worker_claimed" worker [] missing)

-- The session after the claim of a queued run.
abbrev pub leased_session : String → ℕ → ℕ → Run → Session → Session
leased_session worker n k run s = record (moved s k run leased "worker_claimed" worker []) {
  leases = Table.put s.leases k (new_lease worker s.clock n 1);
}

module _ (worker : String) (n k : ℕ) (s : Session) (run : Run)
    (loaded : Table.get s.runs k ≡ some run) where
  pub lease_run-refused :
      may_transition run.status leased ≡ false
      → lease_run worker n k s ≡ (raised (invalid_transition run.status leased), s)
  unfolding lease_run
  lease_run-refused forbidden =
      ground
        (arith, transition_run-refuses s k run leased "worker_claimed" worker [] loaded forbidden)

  pub lease_run-held :
      (lease : RunLease)
      → may_transition run.status leased ≡ true
      → Table.get s.leases k ≡ some lease
      → lease_run worker n k s
        ≡ (raised (integrity_error "run_leases"), moved s k run leased "worker_claimed" worker [])
  unfolding lease_run
  lease_run-held lease allowed held =
      ground
        (arith, transition_run-accepts s k run leased "worker_claimed" worker [] loaded allowed)

  pub lease_run-accepts :
      may_transition run.status leased ≡ true
      → Table.get s.leases k ≡ none
      → lease_run worker n k s ≡ (ok (some k), leased_session worker n k run s)
  unfolding lease_run
  lease_run-accepts allowed free =
      ground
        (arith, transition_run-accepts s k run leased "worker_claimed" worker [] loaded allowed)

  leased_session-Claimed :
      Table.get s.leases k ≡ none → Claimed worker n k s (leased_session worker n k run s)
  unfolding new_lease with_status
  leased_session-Claimed free = record {
    was_free = rw free tt;
    lease = new_lease worker s.clock n 1;
    kept = rw (get-put, ==_refl k);
    holder = refl;
    until = refl;
    run = with_status run leased s.clock;
    row = rw (get-put, ==_refl k);
    is_leased = refl;
  }

Claimed-same :
    (worker : String) (n k j : ℕ) (s t u : Session)
    → Claimed worker n k s u
    → ◌≡◌ {A = Result (Option ℕ) × Session} (ok (some k), u) (ok (some j), t)
    → Claimed worker n j s t
Claimed-same worker n k j s t u c h =
    subst (λ x. Claimed worker n x s t) (cc h) (subst (Claimed worker n k s) (cc h) c)

lease_run-Claimed :
    (worker : String) (n k j : ℕ) (s t : Session)
    → lease_run worker n k s ≡ (ok (some j), t)
    → Claimed worker n j s t
lease_run-Claimed worker n k j s t h = elim (Option-cases (Table.get s.runs k)) [
  | inl missing ↦ cc (lease_run-missing worker n k s missing)
  | inr (run, loaded) ↦ elim (Bool-cases (may_transition run.status leased)) [
    | inl allowed ↦ elim (Option-cases (Table.get s.leases k)) [
      | inl free ↦
          Claimed-same worker n k j s t (leased_session worker n k run s)
            (leased_session-Claimed worker n k s run loaded free)
            (sym (lease_run-accepts worker n k s run loaded allowed free) ∙ h)
      | inr (lease, held) ↦ cc (lease_run-held worker n k s run loaded lease allowed held)
    ]
    | inr forbidden ↦ cc (lease_run-refused worker n k s run loaded forbidden)
  ]
]

pub first_by-get {ℓ} :
    {V : Type ℓ} (order : V → ℕ) (test : V → Bool) (whole t : Table V) (k : ℕ) (v : V)
    → Table.IsKeyed whole t
    → first_by order test t ≡ some (k, v)
    → Table.get whole k ≡ some v
unfolding first_by
first_by-get order test whole [] k v h e = cc
first_by-get order test whole ((j, w) ∷ t) k v h e = elim (Bool-cases (test w)) [
  | inl picked ↦ elim (Option-cases (first_by order test t)) [
    | inl last ↦ ground arith
    | inr (best, f) ↦ ground (arith, first_by-get order test whole t best.0 best.1 h.1 f)
  ]
  | inr passed ↦ first_by-get order test whole t k v h.1 (rw passed at e)
]

module _ (worker : String) (n k j : ℕ) (lease : RunLease) (s t : Session) where
  take_over-Claimed :
      (o : Option Run)
      → Table.get s.leases k ≡ some lease
      → lease.expires_at < s.clock
      → Table.get s.runs k ≡ o
      → take_over worker n k lease o s ≡ (ok (some j), t)
      → Claimed worker n j s t
  unfolding take_over
  take_over-Claimed none held late row h = cc
  take_over-Claimed (some run) held late row h = elim (Bool-cases (status_eq run.status leased)) [
    | inl same ↦
        Claimed-same worker n k j s t
          (record s {
            leases = Table.put s.leases k (record {
              worker_id = worker;
              acquired_at = s.clock;
              heartbeat_at = s.clock;
              expires_at = s.clock + seconds n;
              attempt = lease.attempt + 1;
            });
          })
          (record {
            was_free = rw held late;
            lease = record {
              worker_id = worker;
              acquired_at = s.clock;
              heartbeat_at = s.clock;
              expires_at = s.clock + seconds n;
              attempt = lease.attempt + 1;
            };
            kept = rw (get-put, ==_refl k);
            holder = refl;
            until = refl;
            run = run;
            row = row;
            is_leased = (status_eq_iff run.status leased).0 same;
          })
          (rw same at h)
    | inr other ↦ absurd (ground arith)
  ]

reclaim-Claimed :
    (worker : String) (n k : ℕ) (s t : Session) (found : Option (ℕ × RunLease))
    → Table.IsKeyed s.leases s.leases
    → first_by (λ l. l.expires_at) (is_expired s.clock) s.leases ≡ found
    → reclaim worker n found s ≡ (ok (some k), t)
    → Claimed worker n k s t
unfolding reclaim
reclaim-Claimed worker n k s t none keyed e h = cc
reclaim-Claimed worker n k s t (some (j, lease)) keyed e h =
    take_over-Claimed worker n j k lease s t (Table.get s.runs j)
      (first_by-get _ (is_expired s.clock) s.leases s.leases j lease keyed e)
      (ltb→lt lease.expires_at s.clock (first_by-test _ (is_expired s.clock) s.leases j lease e))
      refl h

-- Where each lease has its own run, claiming a run succeeds only if no worker holds it: it had no
-- lease, or one that had expired. The run is then leased, and its lease belongs to the worker until
-- `n` seconds from now.
pub claim_next_run-Claimed :
    (worker : String) (n k : ℕ) (s t : Session)
    → Table.IsKeyed s.leases s.leases
    → claim_next_run worker n s ≡ (ok (some k), t)
    → Claimed worker n k s t
unfolding claim_next_run
claim_next_run-Claimed worker n k s t keyed h =
    elim (Option-cases (first_by (λ r. r.created_at) is_queued s.runs)) [
      | inl nothing ↦
          reclaim-Claimed worker n k s t _ keyed refl
            (subst (λ o. claim worker n o s ≡ (ok (some k), t)) nothing h)
      | inr (row, e) ↦
          lease_run-Claimed worker n row.0 k s t
            (subst (λ o. claim worker n o s ≡ (ok (some k), t)) e h)
    ]
