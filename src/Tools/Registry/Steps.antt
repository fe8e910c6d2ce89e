-- ===== src/Tools/Registry/Steps.antt =====
-- src/agentic_lab/tools/registry.py: calls that run side by side, as interleaved steps of one registry.
use agentic_engineering_lab.Domain.Error.{Exception, raised, ok, Result}
use agentic_engineering_lab.Python.Value.{Value}
use agentic_engineering_lab.Tools.Registry.{
  run_reserved, append_record, answer, reserve, Payload, execution, configure_evidence_window,
  ToolExecution, execute, record_call, Toolbox, Registry,
}
use agentic_engineering_lab.Prelude.{refl, [], Option, Bool, ◌∷◌, String, ◌≡◌, List, ℕ}
use agentic_engineering_lab.Python.{Platform}

-- A call that is under way: between the locked sections, before and after its answer.
pub data Call : Type 0 where
  reserved : ℕ → Bool → String → Value → Call
  answered : ToolExecution → Call

-- A call among those under way, and the others.
pub data Picked (c : Call) : List Call → List Call → Type 0 where
  first : (cs : List Call) → Picked c (c ∷ cs) cs
  behind : (d : Call) (cs ds : List Call) → Picked c cs ds → Picked c (d ∷ cs) (d ∷ ds)

module _ (platform : Platform) (toolbox : Toolbox) where
  -- One step of a registry and the calls under way. A call that raises leaves no record.
  pub data Step : Registry → List Call → Registry → List Call → Type 0 where
    configures :
        {r : Registry} {cs : List Call} (n m : ℕ) → Step r cs (configure_evidence_window n m r).1 cs
    refuses :
        {r t : Registry} {cs : List Call} (requests : Option ℕ) (e : Exception)
        → reserve platform toolbox requests r ≡ (raised e, t)
        → Step r cs t cs
    begins :
        {r t : Registry} {cs : List Call} (requests : Option ℕ) (tool_name : String)
        (arguments : Value) (number : ℕ) (allowed : Bool)
        → reserve platform toolbox requests r ≡ (ok (number, allowed), t)
        → Step r cs t (reserved number allowed tool_name arguments ∷ cs)
    answers :
        {r t : Registry} {cs ds : List Call} (number : ℕ) (allowed : Bool) (tool_name : String)
        (arguments : Value) (payload : Payload)
        → Picked (reserved number allowed tool_name arguments) cs ds
        → answer platform toolbox allowed tool_name arguments r ≡ (ok payload, t)
        → Step r cs t
            (answered (execution platform toolbox number tool_name arguments payload) ∷ ds)
    fails :
        {r t : Registry} {cs ds : List Call} (number : ℕ) (allowed : Bool) (tool_name : String)
        (arguments : Value) (e : Exception)
        → Picked (reserved number allowed tool_name arguments) cs ds
        → answer platform toolbox allowed tool_name arguments r ≡ (raised e, t)
        → Step r cs t ds
    appends :
        {r : Registry} {cs ds : List Call} (e : ToolExecution)
        → Picked (answered e) cs ds
        → Step r cs (append_record platform toolbox e r) ds

  -- What a registry comes to, by steps of any calls in any order.
  pub data Reaches (start : Registry) : Registry → List Call → Type 0 where
    at_start : Reaches start start []
    then_step :
        {r t : Registry} {cs ds : List Call}
        → Reaches start r cs
        → Step r cs t ds
        → Reaches start t ds

module _ (platform : Platform) (toolbox : Toolbox) (start : Registry) (tool_name : String)
    (arguments : Value) (requests : Option ℕ) (r : Registry) (cs : List Call)
    (reached : Reaches platform toolbox start r cs) where
  recorded-Reaches :
      (number : ℕ) (allowed : Bool) (t : Registry) (y : Result Payload × Registry)
      → reserve platform toolbox requests r ≡ (ok (number, allowed), t)
      → answer platform toolbox allowed tool_name arguments t ≡ y
      → Reaches platform toolbox start
          (record_call platform toolbox number tool_name arguments y).1
          cs
  unfolding record_call
  recorded-Reaches number allowed t (raised e, u) h a =
      then_step (then_step reached (begins requests tool_name arguments number allowed h))
        (fails number allowed tool_name arguments e (first cs) a)
  recorded-Reaches number allowed t (ok payload, u) h a =
      then_step
        (then_step (then_step reached (begins requests tool_name arguments number allowed h))
          (answers number allowed tool_name arguments payload (first cs) a))
        (appends (execution platform toolbox number tool_name arguments payload) (first cs))

  run_reserved-Reaches :
      (x : Result (ℕ × Bool) × Registry)
      → reserve platform toolbox requests r ≡ x
      → Reaches platform toolbox start (run_reserved platform toolbox tool_name arguments x).1 cs
  unfolding run_reserved
  run_reserved-Reaches (raised e, t) h = then_step reached (refuses requests e h)
  run_reserved-Reaches (ok (number, allowed), t) h =
      recorded-Reaches number allowed t (answer platform toolbox allowed tool_name arguments t) h
        refl

  -- A call that no other one interrupts is such steps: it comes to a registry that is reached.
  pub execute-Reaches :
      Reaches platform toolbox start (execute platform toolbox tool_name arguments requests r).1 cs
  unfolding execute
  execute-Reaches = run_reserved-Reaches (reserve platform toolbox requests r) refl
