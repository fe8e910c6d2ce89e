-- ===== src/Python/Value.antt =====
-- JSON values, as `json.loads` gives them.
use agentic_engineering_lab.Prelude.{
  Text, some, str_eq, if◌then◌else◌, none, Option, ℕ, Bool, String,
}

mutual
  pub data Value : Type 0 where
    nothing : Value
    boolean : Bool → Value
    integer : ℕ → Value
    string : Text → Value
    sequence : Values → Value
    mapping : Fields → Value

  pub data Values : Type 0 where
    no_values : Values
    value_then : Value → Values → Values

  -- The keys of an object, each with its value, in the order of insertion.
  pub data Fields : Type 0 where
    no_fields : Fields
    field_then : String → Value → Fields → Fields

-- d.get(key): keys do not repeat
unfoldable pub field : String → Fields → Option Value
field key no_fields = none
field key (field_then k v rest) = if str_eq k key then some v else field key rest
