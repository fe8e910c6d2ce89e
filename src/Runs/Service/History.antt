-- ===== src/Runs/Service/History.antt =====
-- The journal of transitions against the rows of `runs`: every run's journal, in the order in which its
-- rows were added, is a walk through the table of allowed transitions that ends at its status.
use agentic_engineering_lab.Prelude.{
  ==_iff, ==_refl, String, subst, Bool-cases, inl, inr, ℕ, ◌≤◌, ◌≡◌, refl, ◌∙◌, sym, true, Option,
  none, some, List, [], ◌∷◌, ◌++◌, arith, keep, ◌==◌, if◌then◌else◌, is_some,
}
use agentic_engineering_lab.Prelude.Table
use agentic_engineering_lab.Prelude.Table.{get-put}
use agentic_engineering_lab.Runs.Service.Transitions.{journal_row, moved}
use agentic_engineering_lab.Domain.Status.{RunStatus, received, is_terminal, may_transition}
use agentic_engineering_lab.Domain.Status.Graph.{may_transition_live}
use agentic_engineering_lab.Database.{Metadata, Run, RunTransition, Session}
use agentic_engineering_lab.Runs.Service.{with_status, journal}

-- The first row of a journal creates the run; each later one is in the table.
abbrev pub IsAllowed : Option RunStatus → RunStatus → Type 0
IsAllowed none target = target ≡ received
IsAllowed (some s) target = may_transition s target ≡ true

-- The rows lead from one status to another, with no gap.
abbrev pub Leads : Option RunStatus → List RunTransition → Option RunStatus → Type 0
Leads from [] to = from ≡ to
Leads from (t ∷ ts) to =
    (t.from_status ≡ from) × IsAllowed from t.to_status × Leads (some t.to_status) ts to

-- What the journal says of a row that may be there.
abbrev pub Tells : List RunTransition → Option Run → Type 0
Tells ts none = ts ≡ []
Tells ts (some run) =
    Leads none ts (some run.status) × (is_some run.terminal_at ≡ is_terminal run.status)

-- A sound session: each run's journal tells of its row, and the next key and those after it are free.
pub record IsSound (s : Session) : Type 0 where
  pub history : (k : ℕ) → Tells (journal k s) (Table.get s.runs k)
  pub fresh : (k : ℕ) → s.next_id ≤ k → Table.get s.runs k ≡ none

pub keep-snoc :
    (k : ℕ) (ts : List RunTransition) (t : RunTransition)
    → keep (λ r. r.run_id == k) (ts ++ t ∷ [])
      ≡ keep (λ r. r.run_id == k) ts ++ (if t.run_id == k then t ∷ [] else [])
keep-snoc k [] t = ground arith
keep-snoc k (r ∷ ts) t = ground (arith, keep-snoc k ts t)

pub append_nil : (ts : List RunTransition) → ts ++ [] ≡ ts
append_nil [] = refl
append_nil (t ∷ ts) = rw (append_nil ts)

Leads-snoc :
    (from : Option RunStatus) (ts : List RunTransition) (to : Option RunStatus) (t : RunTransition)
    → Leads from ts to
    → t.from_status ≡ to
    → IsAllowed to t.to_status
    → Leads from (ts ++ t ∷ []) (some t.to_status)
Leads-snoc from [] to t e p h = (p ∙ sym e, rw e h, refl)
Leads-snoc from (r ∷ ts) to t l p h = (l.0, l.1, Leads-snoc (some r.to_status) ts to t l.2 p h)

-- A terminal status is entered with its time, and a run that moves on had none.
terminal_at_kept :
    (run : Run) (target : RunStatus) (now : ℕ)
    → is_some run.terminal_at ≡ is_terminal run.status
    → may_transition run.status target ≡ true
    → is_some (with_status run target now).terminal_at ≡ is_terminal target
unfolding with_status
terminal_at_kept run target now h m = ground (arith, may_transition_live run.status target m)

module _ (s : Session) (k : ℕ) (run : Run) (target : RunStatus) (reason actor : String)
    (metadata : Metadata) (sound : IsSound s) (loaded : Table.get s.runs k ≡ some run)
    (allowed : may_transition run.status target ≡ true) where
  row_told : Tells (journal k s) (some run)
  row_told = subst (Tells (journal k s)) loaded (sound.history k)

  told_self :
      Tells
        (journal k (moved s k run target reason actor metadata))
        (some (with_status run target s.clock))
  unfolding journal with_status
  told_self =
      rw (keep-snoc k s.transitions (journal_row s k run target reason actor metadata), ==_refl k)
        (
          Leads-snoc none _ (some run.status) (journal_row s k run target reason actor metadata)
              row_told.0 refl allowed,
          terminal_at_kept run target s.clock row_told.1 allowed,
        )

  moved-history :
      (j : ℕ)
      → Tells
          (journal j (moved s k run target reason actor metadata))
          (Table.get (moved s k run target reason actor metadata).runs j)
  unfolding journal
  moved-history j = elim (Bool-cases (k == j)) [
    | inl same ↦
        subst
          (λ i.
            Tells (journal i (moved s k run target reason actor metadata))
              (Table.get (moved s k run target reason actor metadata).runs i))
          ((==_iff k j).0 same) (rw (get-put, ==_refl k) told_self)
    | inr other ↦
        rw
          (
            get-put,
            keep-snoc j s.transitions (journal_row s k run target reason actor metadata),
            other,
            append_nil,
          )
          (sound.history j)
  ]

  pub moved-IsSound : IsSound (moved s k run target reason actor metadata)
  moved-IsSound = record {
    history = moved-history;
    fresh = λ j h. rw get-put (ground (arith, sound.fresh j h, loaded));
  }
