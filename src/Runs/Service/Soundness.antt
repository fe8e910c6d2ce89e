-- ===== src/Runs/Service/Soundness.antt =====
-- The operations of the run service against the journal.
use agentic_engineering_lab.Database.Preserves.{
  Preserves-pure, preserving, Preserves, Preserves-bind,
}
use agentic_engineering_lab.Runs.Service.Transitions.{
  transition_run-refuses, transition_run-accepts, transition_run_missing,
}
use agentic_engineering_lab.Prelude.Table.{get-put}
use agentic_engineering_lab.Prelude.Table
use agentic_engineering_lab.Runs.Service.History.{
  moved-IsSound, append_nil, keep-snoc, Tells, IsSound,
}
use agentic_engineering_lab.Database.{pure, Session, Metadata}
use agentic_engineering_lab.Domain.Status.{
  queued, may_transition, received, is_terminal, RunSource, RunStatus,
}
use agentic_engineering_lab.Prelude.{
  length, List, refl, inr, ==_iff, inl, ==_refl, ◌∷◌, arith, some, subst, none, ◌++◌, [], ◌==◌, ◌≡◌,
  Bool-cases, Option-cases, ◌+◌, String, ℕ,
}
use agentic_engineering_lab.Runs.Service.{
  supersede_active_runs, supersede_one, supersede_each, create_queued_run, transition_run, journal,
  link_runs, RunCreate, new_run,
}

-- Whatever its arguments, and whether it succeeds or raises, a transition keeps a sound session sound:
-- for each run the journal rows, in the order in which they were added, are a walk through the table of
-- transitions from no status to the run's own, and its end time is set exactly if that is terminal.
pub transition_run-IsSound :
    (k : ℕ) (target : RunStatus) (reason actor : String) (metadata : Metadata) (s : Session)
    → IsSound s
    → IsSound (transition_run k target reason actor metadata s).1
transition_run-IsSound k target reason actor metadata s sound =
    elim (Option-cases (Table.get s.runs k)) [
      | inl missing ↦ rw (transition_run_missing s k target reason actor metadata missing) sound
      | inr (run, loaded) ↦ elim (Bool-cases (may_transition run.status target)) [
        | inl allowed ↦
            rw (transition_run-accepts s k run target reason actor metadata loaded allowed)
              (moved-IsSound s k run target reason actor metadata sound loaded allowed)
        | inr forbidden ↦
            rw (transition_run-refuses s k run target reason actor metadata loaded forbidden) sound
      ]
    ]

pub transition_run-Preserves :
    (k : ℕ) (target : RunStatus) (reason actor : String) (metadata : Metadata)
    → Preserves IsSound (transition_run k target reason actor metadata)
transition_run-Preserves k target reason actor metadata = record {
  step = λ s sound. transition_run-IsSound k target reason actor metadata s sound;
}

-- A causal link touches neither the rows nor the journal.
link_runs-IsSound :
    (a b : ℕ) (relation : String) (s : Session) → IsSound s → IsSound (link_runs a b relation s).1
unfolding link_runs journal
link_runs-IsSound a b relation s sound = elim (Bool-cases (a == b)) [
  | inl same ↦ rw same sound
  | inr other ↦ rw other (record { history = sound.history; fresh = sound.fresh })
]

-- The session just after `create_queued_run` has added its row and the first journal row.
created : RunCreate → RunSource → String → Session → Session
unfolding new_run
created create source actor s = record s {
  next_id = s.next_id + 1;
  runs = Table.put s.runs s.next_id (new_run create source s.clock);
  transitions =
      s.transitions
      ++ record {
        id = s.uuid (length s.transitions);
        occurred_at = s.clock;
        run_id = s.next_id;
        from_status = none;
        to_status = received;
        reason_code = "intake_received";
        actor = actor;
        metadata_json = [];
      }
        ∷ [];
}

module _ (create : RunCreate) (source : RunSource) (actor : String) (s : Session)
    (sound : IsSound s) where
  no_journal : journal s.next_id s ≡ []
  no_journal =
      subst (Tells (journal s.next_id s)) (sound.fresh s.next_id (omega arith))
        (sound.history s.next_id)

  told_created :
      Tells
        (journal s.next_id (created create source actor s))
        (some (new_run create source s.clock))
  unfolding created journal new_run is_terminal
  told_created =
      rw (keep-snoc s.next_id s.transitions _, no_journal, ==_refl s.next_id)
        ((refl, refl, refl), refl)

  created-history :
      (j : ℕ)
      → Tells
          (journal j (created create source actor s))
          (Table.get (created create source actor s).runs j)
  unfolding created journal
  created-history j = elim (Bool-cases (s.next_id == j)) [
    | inl same ↦
        subst
          (λ i.
            Tells (journal i (created create source actor s))
              (Table.get (created create source actor s).runs i))
          ((==_iff s.next_id j).0 same) (rw (get-put, ==_refl s.next_id) told_created)
    | inr other ↦ rw (get-put, keep-snoc j s.transitions _, other, append_nil) (sound.history j)
  ]

  created-IsSound : IsSound (created create source actor s)
  unfolding created
  created-IsSound = record {
    history = created-history;
    fresh = λ j h. rw get-put (ground (arith, sound.fresh j));
  }

-- Creating a run, whether or not it is queued in the end, keeps a sound session sound, each run's
-- journal taken in the order in which its rows were added.
pub create_queued_run-IsSound :
    (create : RunCreate) (source : RunSource) (actor : String) (s : Session)
    → IsSound s
    → IsSound (create_queued_run create source actor s).1
unfolding create_queued_run created
create_queued_run-IsSound create source actor s sound =
    (Preserves-bind (transition_run s.next_id queued "intake_accepted" actor [])
        (λ _. pure s.next_id) (transition_run-Preserves s.next_id queued "intake_accepted" actor [])
        (λ _. Preserves-pure s.next_id)).step
      _ (created-IsSound create source actor s sound)

supersede_one-Preserves :
    (k : ℕ) (newer_sha actor : String) → Preserves IsSound (supersede_one k newer_sha actor)
unfolding supersede_one
supersede_one-Preserves k newer_sha actor = search (preserving, transition_run-Preserves)

supersede_each-Preserves :
    (ks : List ℕ) (newer_sha actor : String) → Preserves IsSound (supersede_each ks newer_sha actor)
unfolding supersede_each
supersede_each-Preserves [] newer_sha actor = search preserving
supersede_each-Preserves (k ∷ ks) newer_sha actor =
    Preserves-bind (supersede_one k newer_sha actor) _ (supersede_one-Preserves k newer_sha actor)
      λ done.
        Preserves-bind (supersede_each ks newer_sha actor) _
          (supersede_each-Preserves ks newer_sha actor) λ rest. Preserves-pure _

supersede_active_runs-Preserves :
    (repository_id pull_number : ℕ) (newer_sha actor : String)
    → Preserves IsSound (supersede_active_runs repository_id pull_number newer_sha actor)
unfolding supersede_active_runs
supersede_active_runs-Preserves repository_id pull_number newer_sha actor =
    search (preserving, supersede_each-Preserves)

-- Superseding the active runs of a pull request keeps a sound session sound, each run's journal taken
-- in the order in which its rows were added.
pub supersede_active_runs-IsSound :
    (repository_id pull_number : ℕ) (newer_sha actor : String) (s : Session)
    → IsSound s
    → IsSound (supersede_active_runs repository_id pull_number newer_sha actor s).1
supersede_active_runs-IsSound repository_id pull_number newer_sha actor s sound =
    (supersede_active_runs-Preserves repository_id pull_number newer_sha actor).step s sound
