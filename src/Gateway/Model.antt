-- ===== src/Gateway/Model.antt =====
-- src/agentic_lab/gateway/model.py: what a model is asked, and what its gateway remembers of it.
use agentic_engineering_lab.Tools.Registry.{mem_string}
use agentic_engineering_lab.Domain.Error.{ok, value_error, unless, Result}
use agentic_engineering_lab.Domain.Status.{AgentRole}
use agentic_engineering_lab.Python.Value.{Value}
use agentic_engineering_lab.Prelude.{codes, ends_with, ◌||◌, not, Bool, Text, List, String, ℕ}
use agentic_engineering_lab.Python.{Platform}

-- The cost is in millionths of a dollar.
pub record ModelBudget : Type 0 where
  pub max_turns : ℕ
  pub max_tool_calls : ℕ
  pub max_usd : ℕ
  pub max_wall_seconds : ℕ

pub record ModelRequest : Type 0 where
  pub run_id : ℕ
  pub role : AgentRole
  pub model_id : String
  pub system_prompt : Text
  pub task : Text
  pub tool_definitions_hash : String
  pub budget : ModelBudget
  pub evaluation : Bool
  pub provider_allowlist : List String

-- ModelRequest.prompt_hash
unfoldable pub prompt_hash : Platform → ModelRequest → String
prompt_hash platform request = platform.sha256 request.system_prompt

pub record ModelCallMetadata : Type 0 where
  pub provider : String
  pub usage : Value
  pub billed_cost : ℕ

-- validate_model_id
unfoldable pub validate_model_id : Platform → String → List String → Result (Unit {0})
validate_model_id platform model_id allowed_models =
    unless
      (not (mem_string model_id allowed_models)
        || ends_with (codes "latest") (platform.lower (codes model_id)))
      (value_error "model must be an explicitly configured pinned model ID") (ok tt)
