-- ===== src/Runs/Service/Supersede.antt =====
-- `supersede_active_runs` moves exactly the rows that its query and the table of transitions name.
use agentic_engineering_lab.Prelude.Table
use agentic_engineering_lab.Domain.Error.{ok}
use agentic_engineering_lab.Runs.Service.Transitions.{transition_run-accepts, moved}
use agentic_engineering_lab.Domain.Status.{superseded, may_transition}
use agentic_engineering_lab.Prelude.{
  sym, ap, ◌∙◌, Bool, inr, arith, true, inl, Bool-cases, [], ◌&&◌, ◌∷◌, refl, false, ◌==◌, some,
  any, ◌≡◌, if◌then◌else◌, String, ℕ, List,
}
use agentic_engineering_lab.Database.{text, ◌>>=◌, Run, the_run, Session}
use agentic_engineering_lab.Runs.Service.{
  is_candidate, supersede_active_runs, select_keys, supersede_each, with_status, supersede_one,
}
use agentic_engineering_lab.Prelude.Table.{get-put, Table}

-- The row of a run after the loop has gone over the candidates `ks`.
abbrev after_loop : List ℕ → ℕ → ℕ → Run → Run
after_loop ks now k run =
    if any (λ j. j == k) ks && may_transition run.status superseded
    then with_status run superseded now
    else run

superseded_again :
    (run : Run) (now : ℕ)
    → may_transition (with_status run superseded now).status superseded ≡ false
unfolding with_status may_transition
superseded_again run now = refl

-- The session after one round, in one equation.
abbrev one_round : Session → ℕ → Run → String → String → Session
one_round s k run newer_sha actor =
    if may_transition run.status superseded
    then moved s k run superseded "newer_human_head_sha" actor
        (("replacement_sha", text newer_sha) ∷ [])
    else s

supersede_one_lem :
    (s : Session) (k : ℕ) (run : Run) (newer_sha actor : String)
    → Table.get s.runs k ≡ some run
    → supersede_one k newer_sha actor s
      ≡ (ok (may_transition run.status superseded), one_round s k run newer_sha actor)
unfolding supersede_one the_run ◌>>=◌
supersede_one_lem s k run newer_sha actor loaded =
    elim (Bool-cases (may_transition run.status superseded)) [
      | inl allowed ↦ ground (
        arith,
        transition_run-accepts s k run superseded "newer_human_head_sha" actor
            (("replacement_sha", text newer_sha) ∷ []) loaded allowed,
      )
      | inr forbidden ↦ ground arith
    ]

abbrev pub has_key : ℕ → List ℕ → Bool
has_key k ks = any (λ j. j == k) ks

abbrev AreLoaded : Table Run → List ℕ → Type 0
AreLoaded t [] = Unit
AreLoaded t (k ∷ ks) = ((run : Run) × (Table.get t k ≡ some run)) × AreLoaded t ks

AreLoaded-put :
    (t : Table Run) (j : ℕ) (v : Run) (ks : List ℕ)
    → AreLoaded t ks
    → AreLoaded (Table.put t j v) ks
AreLoaded-put t j v [] h = tt
AreLoaded-put t j v (k ∷ ks) ((run, e), h) = (still (j == k) refl, AreLoaded-put t j v ks h)
  where
    still : (b : Bool) → (j == k) ≡ b → (r : Run) × (Table.get (Table.put t j v) k ≡ some r)
    still true same = (v, rw (get-put, same))
    still false other = (run, rw (get-put, other) e)

AreLoaded-one_round :
    (s : Session) (k : ℕ) (run : Run) (newer_sha actor : String) (ks : List ℕ)
    → AreLoaded s.runs ks
    → AreLoaded (one_round s k run newer_sha actor).runs ks
AreLoaded-one_round s k run newer_sha actor ks h =
    elim (Bool-cases (may_transition run.status superseded)) [
      | inl allowed ↦ rw allowed (AreLoaded-put s.runs k (with_status run superseded s.clock) ks h)
      | inr forbidden ↦ rw forbidden h
    ]

-- What the loop over `ks` leaves behind, started in `s` and ended in `t` with the list `listed`.
record Swept (ks : List ℕ) (s : Session) (listed : List ℕ) (t : Session) : Type 0 where
  same_clock : t.clock ≡ s.clock
  row :
      (k : ℕ) (run : Run)
      → Table.get s.runs k ≡ some run
      → Table.get t.runs k ≡ some (after_loop ks s.clock k run)
  member :
      (k : ℕ) (run : Run)
      → Table.get s.runs k ≡ some run
      → has_key k listed ≡ (has_key k ks && may_transition run.status superseded)

row_after_round :
    (s : Session) (j k : ℕ) (round run : Run) (newer_sha actor : String)
    → Table.get s.runs j ≡ some round
    → Table.get s.runs k ≡ some run
    → Table.get (one_round s j round newer_sha actor).runs k
      ≡ some (after_loop (j ∷ []) s.clock k run)
row_after_round s j k round run newer_sha actor jr kr =
    ground (arith, get-put s.runs j k (with_status round superseded s.clock))

clock_after_round :
    (s : Session) (j : ℕ) (round : Run) (newer_sha actor : String)
    → (one_round s j round newer_sha actor).clock ≡ s.clock
clock_after_round s j round newer_sha actor = ground arith

after_loop-cons :
    (j : ℕ) (ks : List ℕ) (now k : ℕ) (run : Run)
    → after_loop ks now k (after_loop (j ∷ []) now k run) ≡ after_loop (j ∷ ks) now k run
after_loop-cons j ks now k run = ground (arith, superseded_again run now)

member-cons :
    (t : Table Run) (k i : ℕ) (ks listed : List ℕ) (now : ℕ) (run r : Run)
    → Table.get t k ≡ some run
    → Table.get t i ≡ some r
    → has_key i listed
      ≡ (has_key i ks && may_transition (after_loop (k ∷ []) now i r).status superseded)
    → has_key i (if may_transition run.status superseded then k ∷ listed else listed)
      ≡ (has_key i (k ∷ ks) && may_transition r.status superseded)
member-cons t k i ks listed now run r kr ir h = ground (arith, superseded_again r now)

supersede_each_lem :
    (ks : List ℕ) (s : Session) (newer_sha actor : String)
    → AreLoaded s.runs ks
    → (listed : List ℕ) × (t : Session) × (supersede_each ks newer_sha actor s ≡ (ok listed, t))
      × Swept ks s listed t
unfolding supersede_each ◌>>=◌
supersede_each_lem [] s newer_sha actor h =
    ([], s, refl, record { same_clock = refl; row = λ k run e. e; member = λ k run e. refl })
supersede_each_lem (k ∷ ks) s newer_sha actor ((run, loaded), h) =
    let s' = one_round s k run newer_sha actor in
    let (listed, t, runs, swept) =
      supersede_each_lem ks s' newer_sha actor (AreLoaded-one_round s k run newer_sha actor ks h) in
    (
      (if may_transition run.status superseded then k ∷ listed else listed),
      t,
      ground (arith, supersede_one_lem s k run newer_sha actor loaded, runs),
      record {
        same_clock = swept.same_clock ∙ clock_after_round s k run newer_sha actor;
        row = λ i r e.
            swept.row i _ (row_after_round s k i run r newer_sha actor loaded e)
            ∙ ap some (
                ap (λ c. after_loop ks c i (after_loop (k ∷ []) s.clock i r))
                  (clock_after_round s k run newer_sha actor)
                ∙ after_loop-cons k ks s.clock i r);
        member = λ i r e. member-cons s.runs k i ks listed s.clock run r loaded e (
            swept.member i _ (row_after_round s k i run r newer_sha actor loaded e)
            ∙ ap (λ c. has_key i ks && may_transition (after_loop (k ∷ []) c i r).status superseded)
                refl);
      },
    )

-- Under unique keys the query selects a loaded row exactly if its test accepts it.
AreLoaded-select_keys :
    (p : Run → Bool) (whole t : Table Run)
    → Table.IsKeyed whole t
    → AreLoaded whole (select_keys p t)
AreLoaded-select_keys p whole [] h = tt
AreLoaded-select_keys p whole ((k, run) ∷ t) h = elim (Bool-cases (p run)) [
  | inl taken ↦ rw taken ((run, h.0), AreLoaded-select_keys p whole t h.1)
  | inr left ↦ rw left (AreLoaded-select_keys p whole t h.1)
]

has_key-select_keys_no :
    (p : Run → Bool) (whole t : Table Run) (k : ℕ) (run : Run)
    → Table.IsKeyed whole t
    → Table.get whole k ≡ some run
    → p run ≡ false
    → has_key k (select_keys p t) ≡ false
has_key-select_keys_no p whole [] k run h e n = refl
has_key-select_keys_no p whole ((j, r) ∷ t) k run h e n =
    ground (arith, has_key-select_keys_no p whole t k run h.1 e n)

has_key-select_keys_yes :
    (p : Run → Bool) (t : Table Run) (k : ℕ) (run : Run)
    → Table.get t k ≡ some run
    → p run ≡ true
    → has_key k (select_keys p t) ≡ true
unfolding Table.get
has_key-select_keys_yes p [] k run e y = cc
has_key-select_keys_yes p ((j, r) ∷ t) k run e y = ground (arith, has_key-select_keys_yes p t k run)

has_key-select_keys :
    (p : Run → Bool) (t : Table Run) (k : ℕ) (run : Run)
    → Table.IsKeyed t t
    → Table.get t k ≡ some run
    → has_key k (select_keys p t) ≡ p run
has_key-select_keys p t k run h e = elim (Bool-cases (p run)) [
  | inl taken ↦ has_key-select_keys_yes p t k run e taken ∙ sym taken
  | inr left ↦ has_key-select_keys_no p t t k run h e left ∙ sym left
]

-- The row that a run has after `supersede_active_runs`, by the query and the table of transitions.
abbrev pub superseded_row : ℕ → ℕ → String → ℕ → Run → Run
superseded_row repository_id pull_number newer_sha now run =
    if is_candidate repository_id pull_number newer_sha run && may_transition run.status superseded
    then with_status run superseded now
    else run

-- In a session whose runs have distinct keys, superseding never raises. Whichever run is looked at
-- afterwards, it is superseded if the query selects it and its status may become so, and as it was
-- if not; and its key is in the returned list in the first case only.
pub supersede_active_runs_lem :
    (repository_id pull_number : ℕ) (newer_sha actor : String) (s : Session) (k : ℕ) (run : Run)
    → Table.IsKeyed s.runs s.runs
    → Table.get s.runs k ≡ some run
    → (listed : List ℕ) × (t : Session) × (supersede_active_runs repository_id pull_number newer_sha
          actor s
        ≡ (ok listed, t))
      × (Table.get t.runs k ≡ some (superseded_row repository_id pull_number newer_sha s.clock run))
      × (has_key k listed ≡ (
          is_candidate repository_id pull_number newer_sha run
          && may_transition run.status superseded))
unfolding supersede_active_runs ◌>>=◌
supersede_active_runs_lem repository_id pull_number newer_sha actor s k run keyed e =
    let p : Run → Bool = is_candidate repository_id pull_number newer_sha in
    let ks = select_keys p s.runs in
    let (listed, t, runs, swept) =
      supersede_each_lem ks s newer_sha actor (AreLoaded-select_keys p s.runs s.runs keyed) in
    let found = has_key-select_keys p s.runs k run keyed e in
    (
      listed,
      t,
      ground (arith, runs),
      swept.row k run e
          ∙ ap
              (λ b. some (
                if b && may_transition run.status superseded
                then with_status run superseded s.clock
                else run))
              found,
      swept.member k run e ∙ ap (λ b. b && may_transition run.status superseded) found,
    )
