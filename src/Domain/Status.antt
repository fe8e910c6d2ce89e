-- ===== src/Domain/Status.antt =====
-- src/agentic_lab/domain/enums.py: roles, sources, statuses and the table of allowed transitions.
pub mod Graph
use agentic_engineering_lab.Prelude.{
  ℕ, zero, suc, ◌≡◌, refl, ap, ◌∙◌, sym, ◌↔◌, Bool, true, false, List, [], ◌∷◌, ◌==◌, ==_iff, any,
}

pub data AgentRole : Type 0 where
  scout assessor ci : AgentRole

pub data RunSource : Type 0 where
  manual webhook replay : RunSource

pub data RunStatus : Type 0 where
  received queued leased snapshotting running evaluating ready_to_push pushing : RunStatus
  succeeded refused rejected budget_exhausted superseded cancelled failed : RunStatus

pub data PolicyOutcome : Type 0 where
  allow deny : PolicyOutcome

-- `==` of two roles
abbrev pub role_eq : AgentRole → AgentRole → Bool
role_eq scout scout = true
role_eq assessor assessor = true
role_eq ci ci = true
role_eq _ _ = false

-- Statuses are compared by their position in the enumeration.
abbrev position : RunStatus → ℕ
position received = 0
position queued = 1
position leased = 2
position snapshotting = 3
position running = 4
position evaluating = 5
position ready_to_push = 6
position pushing = 7
position succeeded = 8
position refused = 9
position rejected = 10
position budget_exhausted = 11
position superseded = 12
position cancelled = 13
position failed = 14

-- `==` of two statuses
unfoldable pub status_eq : RunStatus → RunStatus → Bool
status_eq s t = position s == position t

abbrev at_position : ℕ → RunStatus
at_position zero = received
at_position (suc zero) = queued
at_position (suc (suc zero)) = leased
at_position (suc (suc (suc zero))) = snapshotting
at_position (suc (suc (suc (suc zero)))) = running
at_position (suc (suc (suc (suc (suc zero))))) = evaluating
at_position (suc (suc (suc (suc (suc (suc zero)))))) = ready_to_push
at_position (suc (suc (suc (suc (suc (suc (suc n))))))) = later n
  where
    later : ℕ → RunStatus
    later zero = pushing
    later (suc zero) = succeeded
    later (suc (suc zero)) = refused
    later (suc (suc (suc zero))) = rejected
    later (suc (suc (suc (suc zero)))) = budget_exhausted
    later (suc (suc (suc (suc (suc zero))))) = superseded
    later (suc (suc (suc (suc (suc (suc zero)))))) = cancelled
    later (suc (suc (suc (suc (suc (suc (suc n))))))) = failed

at_position-position : (s : RunStatus) → at_position (position s) ≡ s
at_position-position received = refl
at_position-position _ = refl

pub status_eq_iff : (s t : RunStatus) → (status_eq s t ≡ true) ↔ (s ≡ t)
unfolding status_eq
status_eq_iff s t = (
  λ h.
      sym (at_position-position s)
      ∙ ap at_position ((==_iff (position s) (position t)).0 h)
      ∙ at_position-position t,
  λ e. (==_iff (position s) (position t)).1 (ap position e),
)

-- status in statuses
unfoldable pub mem_status : RunStatus → List RunStatus → Bool
unfolding status_eq
mem_status s statuses = any (status_eq s) statuses

-- TERMINAL_STATUSES
unfoldable pub terminal_statuses : List RunStatus
terminal_statuses =
    succeeded ∷ refused ∷ rejected ∷ budget_exhausted ∷ superseded ∷ cancelled ∷ failed ∷ []

unfoldable pub is_terminal : RunStatus → Bool
unfolding mem_status terminal_statuses
is_terminal s = mem_status s terminal_statuses

-- ALLOWED_TRANSITIONS.get(status, frozenset())
unfoldable pub allowed_transitions : RunStatus → List RunStatus
allowed_transitions received = rejected ∷ queued ∷ []
allowed_transitions queued = leased ∷ cancelled ∷ superseded ∷ []
allowed_transitions leased = snapshotting ∷ running ∷ cancelled ∷ superseded ∷ failed ∷ []
allowed_transitions snapshotting = running ∷ refused ∷ superseded ∷ failed ∷ []
allowed_transitions running = evaluating ∷ refused ∷ budget_exhausted ∷ failed ∷ superseded ∷ []
allowed_transitions evaluating = ready_to_push ∷ succeeded ∷ refused ∷ failed ∷ superseded ∷ []
allowed_transitions ready_to_push = pushing ∷ refused ∷ superseded ∷ []
allowed_transitions pushing = succeeded ∷ refused ∷ failed ∷ []
allowed_transitions _ = []

-- target in ALLOWED_TRANSITIONS.get(status, frozenset())
unfoldable pub may_transition : RunStatus → RunStatus → Bool
unfolding mem_status allowed_transitions
may_transition s target = mem_status target (allowed_transitions s)
