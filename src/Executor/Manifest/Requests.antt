-- ===== src/Executor/Manifest/Requests.antt =====
-- What holds of a request that was accepted.
use agentic_engineering_lab.Domain.Error.{bind-ok, unless-ok, ok}
use agentic_engineering_lab.Executor.Manifest.{
  lacks_identity, values_contain, validate_arguments, lookup, fields_contain, is_command_key,
  Recipe, RecipeRequest, contains_command_key, ExecutionManifest, validate_recipe_request,
}
use agentic_engineering_lab.Python.{Platform}
use agentic_engineering_lab.Prelude.{
  refl, true, ◌||◌, Bool, ap, ◌∙◌, inr, subst, Option-cases, inl, some, false, ◌⊎◌, ◌≡◌, String,
}
use agentic_engineering_lab.Python.Value.{
  nothing, boolean, integer, string, sequence, mapping, no_fields, field_then, no_values,
  value_then, Value, Values, Fields,
}

-- The key stands somewhere in the value, at whatever depth.
unfoldable mutual
  pub Occurs : String → Value → Type 0
  Occurs key (mapping fs) = OccursIn key fs
  Occurs key (sequence vs) = OccursAmong key vs
  Occurs key _ = ⊥

  pub OccursIn : String → Fields → Type 0
  OccursIn key no_fields = ⊥
  OccursIn key (field_then k v fs) = (k ≡ key) ⊎ (Occurs key v ⊎ OccursIn key fs)

  pub OccursAmong : String → Values → Type 0
  OccursAmong key no_values = ⊥
  OccursAmong key (value_then v vs) = Occurs key v ⊎ OccursAmong key vs

or_false : (a b : Bool) → (a || b) ≡ false → (a ≡ false) × (b ≡ false)
or_false true b h = absurd (cc h)
or_false false b h = (refl, h)

module _ (platform : Platform) (key : String) where
  mutual
    unfolding contains_command_key Occurs

    value_clean :
        (v : Value)
        → contains_command_key platform v ≡ false
        → Occurs key v
        → is_command_key platform key ≡ false
    value_clean (mapping fs) clean o = fields_clean fs clean o
    value_clean (sequence vs) clean o = values_clean vs clean o
    value_clean nothing clean o = absurd o
    value_clean (boolean b) clean o = absurd o
    value_clean (integer n) clean o = absurd o
    value_clean (string t) clean o = absurd o

    fields_clean :
        (fs : Fields)
        → fields_contain platform fs ≡ false
        → OccursIn key fs
        → is_command_key platform key ≡ false
    fields_clean no_fields clean o = absurd o
    fields_clean (field_then k v fs) clean (inl same) =
        let (first, rest) =
          or_false (is_command_key platform k || contains_command_key platform v)
            (fields_contain platform fs) clean in
        subst (λ x. is_command_key platform x ≡ false) same
          (or_false (is_command_key platform k) (contains_command_key platform v) first).0
    fields_clean (field_then k v fs) clean (inr (inl o)) =
        let (first, rest) =
          or_false (is_command_key platform k || contains_command_key platform v)
            (fields_contain platform fs) clean in
        value_clean v
          (or_false (is_command_key platform k) (contains_command_key platform v) first).1 o
    fields_clean (field_then k v fs) clean (inr (inr o)) =
        let (first, rest) =
          or_false (is_command_key platform k || contains_command_key platform v)
            (fields_contain platform fs) clean in
        fields_clean fs rest o

    values_clean :
        (vs : Values)
        → values_contain platform vs ≡ false
        → OccursAmong key vs
        → is_command_key platform key ≡ false
    values_clean no_values clean o = absurd o
    values_clean (value_then v vs) clean (inl o) =
        value_clean v (or_false (contains_command_key platform v) _ clean).0 o
    values_clean (value_then v vs) clean (inr o) =
        values_clean vs (or_false (contains_command_key platform v) _ clean).1 o

-- The checks that a request has passed.
pub record IsAccepted (platform : Platform) (manifest : ExecutionManifest) (request : RecipeRequest)
    (recipe : Recipe) : Type 0 where
  pub listed : lookup request.recipe_name manifest.recipes ≡ some recipe
  pub fits : validate_arguments recipe.arguments_schema request.arguments ≡ ok tt
  pub no_command :
      (key : String) → OccursIn key request.arguments → is_command_key platform key ≡ false

-- A recipe that a request is given is the manifest's of that name, the arguments fit its schema, and
-- no key at any depth of the arguments names a command.
pub validate_recipe_request-IsAccepted :
    (platform : Platform) (manifest : ExecutionManifest) (request : RecipeRequest) (recipe : Recipe)
    → validate_recipe_request platform manifest request ≡ ok recipe
    → IsAccepted platform manifest request recipe
unfolding validate_recipe_request
validate_recipe_request-IsAccepted platform manifest request recipe h =
    elim (Option-cases (lookup request.recipe_name manifest.recipes)) [
      | inl unknown ↦ absurd (cc (rw (unknown, validate_recipe_request) at h))
      | inr (found, listed) ↦
          let (no_id, h1) =
            unless-ok (lacks_identity request) _ _ recipe
              (rw (listed, validate_recipe_request) at h) in
          let (clean, h2) = unless-ok (fields_contain platform request.arguments) _ _ recipe h1 in
          let (u, fits, same) =
            bind-ok (validate_arguments found.arguments_schema request.arguments) _ recipe h2 in
          let e : found ≡ recipe = cc same in
          record {
            listed = listed ∙ ap some e;
            fits =
                subst
                  (λ (r : Recipe). validate_arguments r.arguments_schema request.arguments ≡ ok tt)
                  e fits;
            no_command = λ key o. fields_clean platform key request.arguments clean o;
          }
    ]
