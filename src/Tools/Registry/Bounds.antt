-- ===== src/Tools/Registry/Bounds.antt =====
-- The budget of a run's tools: how many calls there can be, and how they are numbered, also where
-- calls run side by side.
use agentic_engineering_lab.Tools.Registry.Counting.{
  count_of-snoc, one, held_of-Picked, held_of, number_of, count_of, IsMetered,
}
use agentic_engineering_lab.Tools.Registry.Steps.{
  Call, reserved, answered, Picked, Step, configures, refuses, begins, answers, fails, appends,
  Reaches, at_start, then_step,
}
use agentic_engineering_lab.Domain.Error.{
  Exception, is_file_not_found, is_value_error, raised, ok, Result,
}
use agentic_engineering_lab.Python.Value.{Value}
use agentic_engineering_lab.Domain.Status.{AgentRole}
use agentic_engineering_lab.Tools.Registry.{
  append_record, answer, reserve, available_inputs, mem_string, Payload, after_dispatch, execution,
  configure_evidence_window, ToolExecution, new_registry, execute_allowed, Toolbox, Registry,
}
use agentic_engineering_lab.Prelude.{
  true, ap, false, subst, ◌||◌, refl, length-append, ◌==◌, ◌∙◌, inr, inl, arith, ltb, [], Option,
  Bool, ◌∷◌, Bool-cases, length, String, ◌≡◌, ◌+◌, ◌≤◌, List, ℕ,
}
use agentic_engineering_lab.Python.{Platform}

module _ (platform : Platform) (toolbox : Toolbox) where
  reserve-IsMetered :
      (limit : ℕ) (requests : Option ℕ) (tool_name : String) (arguments : Value) (number : ℕ)
      (allowed : Bool) (r t : Registry) (cs : List Call)
      → IsMetered limit r cs
      → reserve platform toolbox requests r ≡ (ok (number, allowed), t)
      → IsMetered limit t (reserved number allowed tool_name arguments ∷ cs)
  unfolding reserve
  reserve-IsMetered limit requests tool_name arguments number allowed r t cs m h =
      elim (Bool-cases (ltb r.max_calls r.next_sequence)) [
        | inl spent ↦ absurd (cc (rw (spent, reserve) at h))
        | inr room ↦
            let same : record r { next_sequence = r.next_sequence + 1 } ≡ t =
              cc (rw (room, reserve) at h) in
            let numbered : r.next_sequence ≡ number = cc (rw (room, reserve) at h) in
            subst (λ u. IsMetered limit u (reserved number allowed tool_name arguments ∷ cs)) same
              (record {
                same_limit = m.same_limit;
                in_budget = ground (arith, m.same_limit);
                counted = omega (arith, m.counted);
                once = λ n. ground (arith, m.once n, m.below n, numbered);
                below = λ n le. ground (arith, m.below n, numbered);
              })
      ]

  -- What an answer may change: nothing but the locators.
  record Kept (r : Registry) (t : Registry) : Type 0 where
    same_max : t.max_calls ≡ r.max_calls
    same_next : t.next_sequence ≡ r.next_sequence
    same_records : t.records ≡ r.records

  answer-Kept :
      (allowed : Bool) (tool_name : String) (arguments : Value) (r : Registry)
      → Kept r (answer platform toolbox allowed tool_name arguments r).1
  unfolding answer execute_allowed
  answer-Kept false tool_name arguments r = record {
    same_max = refl;
    same_next = refl;
    same_records = refl;
  }
  answer-Kept true tool_name arguments r =
      elim (Bool-cases (mem_string tool_name (available_inputs r))) [
        | inr unknown ↦
            rw unknown (record { same_max = refl; same_next = refl; same_records = refl })
        | inl known ↦ rw known (dispatched (toolbox.dispatch tool_name arguments))
      ]
    where
      dispatched : (x : Result Value) → Kept r (after_dispatch platform toolbox r x).1
      dispatched (ok v) = record { same_max = refl; same_next = refl; same_records = refl }
      dispatched (raised e) = elim (Bool-cases (is_value_error e || is_file_not_found e)) [
        | inl caught ↦ rw caught (record { same_max = refl; same_next = refl; same_records = refl })
        | inr passed ↦ rw passed (record { same_max = refl; same_next = refl; same_records = refl })
      ]

  answered_registry :
      (allowed : Bool) (tool_name : String) (arguments : Value) (r t : Registry)
      (x : Result Payload)
      → answer platform toolbox allowed tool_name arguments r ≡ (x, t)
      → Kept r t
  answered_registry allowed tool_name arguments r t x h =
      subst (λ y. Kept r y) (ap (λ y. y.1) h) (answer-Kept allowed tool_name arguments r)

  Kept-IsMetered :
      (limit : ℕ) (r t : Registry) (cs : List Call)
      → Kept r t
      → IsMetered limit r cs
      → IsMetered limit t cs
  Kept-IsMetered limit r t cs k m = record {
    same_limit = k.same_max ∙ m.same_limit;
    in_budget = omega (arith, k.same_next, m.in_budget);
    counted = rw (k.same_next, k.same_records) m.counted;
    once = λ n. rw k.same_records (m.once n);
    below = λ n. rw (k.same_next, k.same_records) (m.below n);
  }

  configure_evidence_window-Kept :
      (n m : ℕ) (r : Registry) → Kept r (configure_evidence_window n m r).1
  unfolding configure_evidence_window
  configure_evidence_window-Kept n m r = elim (Bool-cases (ltb r.max_calls n)) [
    | inl large ↦ rw large (record { same_max = refl; same_next = refl; same_records = refl })
    | inr fits ↦ elim (Bool-cases (r.next_sequence == 1)) [
      | inr late ↦
          rw (fits, late) (record { same_max = refl; same_next = refl; same_records = refl })
      | inl fresh ↦
          rw (fits, fresh) (record { same_max = refl; same_next = refl; same_records = refl })
    ]
  ]

  reserve-Kept :
      (requests : Option ℕ) (e : Exception) (r t : Registry)
      → reserve platform toolbox requests r ≡ (raised e, t)
      → Kept r t
  unfolding reserve
  reserve-Kept requests e r t h = elim (Bool-cases (ltb r.max_calls r.next_sequence)) [
    | inr room ↦ absurd (cc (rw (room, reserve) at h))
    | inl spent ↦
        let same : r ≡ t = cc (rw (spent, reserve) at h) in
        subst (λ u. Kept r u) same
          (record { same_max = refl; same_next = refl; same_records = refl })
  ]

  -- A call under way that goes on, or ends.
  swapped-IsMetered :
      (limit : ℕ) (r : Registry) (c d : Call) (cs ds : List Call)
      → Picked c cs ds
      → number_of d ≡ number_of c
      → IsMetered limit r cs
      → IsMetered limit r (d ∷ ds)
  swapped-IsMetered limit r c d cs ds p same m =
      let counts : (n : ℕ) → held_of n cs ≡ one n (number_of d) + held_of n ds =
        λ n. (held_of-Picked n c cs ds p).0 ∙ rw same refl in
      record {
        same_limit = m.same_limit;
        in_budget = m.in_budget;
        counted = omega (arith, m.counted, (held_of-Picked 0 c cs ds p).1);
        once = λ n. omega (arith, counts n, m.once n);
        below = λ n le. omega (arith, counts n, m.below n le);
      }

  dropped-IsMetered :
      (limit : ℕ) (r : Registry) (c : Call) (cs ds : List Call)
      → Picked c cs ds
      → IsMetered limit r cs
      → IsMetered limit r ds
  dropped-IsMetered limit r c cs ds p m = record {
    same_limit = m.same_limit;
    in_budget = m.in_budget;
    counted = omega (arith, m.counted, (held_of-Picked 0 c cs ds p).1);
    once = λ n. omega (arith, (held_of-Picked n c cs ds p).0, m.once n);
    below = λ n le. omega (arith, (held_of-Picked n c cs ds p).0, m.below n le);
  }

  appended-IsMetered :
      (limit : ℕ) (r : Registry) (e : ToolExecution) (cs ds : List Call)
      → Picked (answered e) cs ds
      → IsMetered limit r cs
      → IsMetered limit (append_record platform toolbox e r) ds
  unfolding append_record
  appended-IsMetered limit r e cs ds p m = record {
    same_limit = m.same_limit;
    in_budget = m.in_budget;
    counted = omega (
      arith,
      m.counted,
      (held_of-Picked 0 (answered e) cs ds p).1,
      length-append r.records (e ∷ []),
    );
    once = λ n.
        omega
          (arith, (held_of-Picked n (answered e) cs ds p).0, m.once n, count_of-snoc n r.records e);
    below = λ n le. omega (
      arith,
      (held_of-Picked n (answered e) cs ds p).0,
      m.below n le,
      count_of-snoc n r.records e,
    );
  }

  Step-IsMetered :
      (limit : ℕ) (r t : Registry) (cs ds : List Call)
      → IsMetered limit r cs
      → Step platform toolbox r cs t ds
      → IsMetered limit t ds
  unfolding execution
  Step-IsMetered limit r _ cs _ m (configures n k) =
      Kept-IsMetered limit r _ cs (configure_evidence_window-Kept n k r) m
  Step-IsMetered limit r t cs _ m (refuses requests e h) =
      Kept-IsMetered limit r t cs (reserve-Kept requests e r t h) m
  Step-IsMetered limit r t cs _ m (begins requests tool_name arguments number allowed h) =
      reserve-IsMetered limit requests tool_name arguments number allowed r t cs m h
  Step-IsMetered limit r t cs _ m
        (answers {ds = ds} number allowed tool_name arguments payload p h) =
      Kept-IsMetered limit r t _ (answered_registry allowed tool_name arguments r t _ h)
        (swapped-IsMetered limit r (reserved number allowed tool_name arguments) _ cs ds p refl m)
  Step-IsMetered limit r t cs ds m (fails number allowed tool_name arguments e p h) =
      Kept-IsMetered limit r t ds (answered_registry allowed tool_name arguments r t _ h)
        (dropped-IsMetered limit r (reserved number allowed tool_name arguments) cs ds p m)
  Step-IsMetered limit r _ cs ds m (appends e p) = appended-IsMetered limit r e cs ds p m

  new_registry-IsMetered :
      (role : AgentRole) (max_calls : ℕ) (diff check : Bool)
      → IsMetered max_calls (new_registry role max_calls diff check) []
  unfolding new_registry
  new_registry-IsMetered role max_calls diff check = record {
    same_limit = refl;
    in_budget = omega arith;
    counted = omega arith;
    once = λ n. omega arith;
    below = λ n le. refl;
  }

  Reaches-IsMetered :
      (limit : ℕ) (start r : Registry) (cs : List Call)
      → IsMetered limit start []
      → Reaches platform toolbox start r cs
      → IsMetered limit r cs
  Reaches-IsMetered limit start _ _ m at_start = m
  Reaches-IsMetered limit start t ds m (then_step {r = r} {cs = cs} reached step) =
      Step-IsMetered limit r t cs ds (Reaches-IsMetered limit start r cs m reached) step

  -- Whatever calls are made of a new registry, and however they interleave: the records and the calls
  -- under way are together no more than its budget, no number is given to two of the records, and
  -- each record's number is below the next one.
  pub records-bounded :
      (role : AgentRole) (max_calls : ℕ) (diff check : Bool) (r : Registry) (calls : List Call)
      → Reaches platform toolbox (new_registry role max_calls diff check) r calls
      → (length r.records + length calls ≤ max_calls)
        × ((n : ℕ) → (count_of n r.records ≤ 1) × (r.next_sequence ≤ n → count_of n r.records ≡ 0))
  records-bounded role max_calls diff check r calls reached =
      let m =
        Reaches-IsMetered max_calls _ r calls (new_registry-IsMetered role max_calls diff check)
          reached in
      (
        omega (arith, m.in_budget, m.counted),
        λ n. (omega (arith, m.once n), λ le. omega (arith, m.below n le)),
      )
