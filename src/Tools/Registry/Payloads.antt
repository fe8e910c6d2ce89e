-- ===== src/Tools/Registry/Payloads.antt =====
-- What a tool call hands to the model.
use agentic_engineering_lab.Gateway.Redaction.{redact}
use agentic_engineering_lab.Python.Value.{Value}
use agentic_engineering_lab.Domain.Error.{is_file_not_found, is_value_error, raised, ok, Result}
use agentic_engineering_lab.Prelude.{
  arith, ◌+◌, ◌&&◌, subst, ◌||◌, inr, inl, ap, ltb, false, true, Bool-cases, ◌≤◌, Option, ◌≡◌, ℕ,
  String,
}
use agentic_engineering_lab.Tools.Registry.{
  answer, run_reserved, reserve, window_closed, mem_string, requests_within, within, delivered,
  Payload, available_inputs, Registry, execute_allowed, execute, record_call, shown_payload,
  after_dispatch, Toolbox,
}
use agentic_engineering_lab.Python.{Platform}

module _ (platform : Platform) (toolbox : Toolbox) where
  -- What must have happened for a value to be handed over.
  pub record IsDelivered (tool_name : String) (arguments : Value) (requests : Option ℕ)
      (r : Registry) (v : Value) : Type 0 where
    pub in_budget : r.next_sequence ≤ r.max_calls
    pub in_window : within r.next_sequence r.evidence_call_limit ≡ true
    pub in_requests : requests_within platform toolbox requests r.evidence_request_limit ≡ true
    pub available : mem_string tool_name (available_inputs r) ≡ true
    pub dispatched : toolbox.dispatch tool_name arguments ≡ ok v
    pub no_secret :
        (redact platform (toolbox.dumps v) toolbox.extra_redaction_patterns).detected ≡ false

  shown_payload-clean :
      (w v : Value) (h : String)
      → shown_payload platform toolbox w ≡ delivered h v
      → (w ≡ v)
        × ((redact platform (toolbox.dumps v) toolbox.extra_redaction_patterns).detected ≡ false)
  unfolding shown_payload
  shown_payload-clean w v h e =
      elim (Bool-cases
        ((redact platform (toolbox.dumps w) toolbox.extra_redaction_patterns).detected)) [
          | inl found ↦ absurd (cc (rw found at e))
          | inr clean ↦
              let same : w ≡ v = cc (rw clean at e) in
              (
                same,
                subst
                    (λ x.
                      (redact platform (toolbox.dumps x) toolbox.extra_redaction_patterns).detected
                      ≡ false)
                    same clean,
              )
        ]

  after_dispatch-ok :
      (x : Result Value) (r : Registry) (v : Value) (h : String)
      → (after_dispatch platform toolbox r x).0 ≡ ok (delivered h v)
      → (x ≡ ok v)
        × ((redact platform (toolbox.dumps v) toolbox.extra_redaction_patterns).detected ≡ false)
  unfolding after_dispatch
  after_dispatch-ok (ok w) r v h e =
      let (same, clean) = shown_payload-clean w v h (cc e) in (ap ok same, clean)
  after_dispatch-ok (raised x) r v h e =
      elim (Bool-cases (is_value_error x || is_file_not_found x)) [
        | inl caught ↦ absurd (cc (rw caught at e))
        | inr passed ↦ absurd (cc (rw passed at e))
      ]

  execute_allowed-ok :
      (tool_name : String) (arguments : Value) (r : Registry) (v : Value) (h : String)
      → (execute_allowed platform toolbox tool_name arguments r).0 ≡ ok (delivered h v)
      → (mem_string tool_name (available_inputs r) ≡ true)
        × (toolbox.dispatch tool_name arguments ≡ ok v)
        × ((redact platform (toolbox.dumps v) toolbox.extra_redaction_patterns).detected ≡ false)
  unfolding execute_allowed
  execute_allowed-ok tool_name arguments r v h e =
      elim (Bool-cases (mem_string tool_name (available_inputs r))) [
        | inl known ↦
            let (same, clean) =
              after_dispatch-ok (toolbox.dispatch tool_name arguments) r v h (rw known at e) in
            (known, same, clean)
        | inr unknown ↦ absurd (cc (rw unknown at e))
      ]

  record_call-ok :
      (n : ℕ) (tool_name : String) (arguments : Value) (x : Result Payload × Registry) (p : Payload)
      (t : Registry)
      → record_call platform toolbox n tool_name arguments x ≡ (ok p, t)
      → x.0 ≡ ok p
  unfolding record_call
  record_call-ok n tool_name arguments (ok q, u) p t e = cc e
  record_call-ok n tool_name arguments (raised x, u) p t e = cc e

  -- A value reaches the model only within the budget and the evidence window, from a tool that the
  -- run's role has, as that tool gave it, and if no secret is detected in its text.
  pub execute-IsDelivered :
      (tool_name : String) (arguments v : Value) (requests : Option ℕ) (h : String) (r t : Registry)
      → execute platform toolbox tool_name arguments requests r ≡ (ok (delivered h v), t)
      → IsDelivered tool_name arguments requests r v
  unfolding execute reserve run_reserved answer available_inputs
  execute-IsDelivered tool_name arguments v requests h r t e =
      elim (Bool-cases (ltb r.max_calls r.next_sequence)) [
        | inl spent ↦ absurd (cc (rw spent at e))
        | inr room ↦
            elim (Bool-cases (
              within r.next_sequence r.evidence_call_limit
              && requests_within platform toolbox requests r.evidence_request_limit)) [
                | inr closed ↦ absurd (
                    cc (
                      record_call-ok r.next_sequence tool_name arguments
                        (ok window_closed, record r { next_sequence = r.next_sequence + 1 })
                        (delivered h v) t (rw (room, closed) at e)))
                | inl within_window ↦
                    let given =
                      record_call-ok r.next_sequence tool_name arguments
                        (execute_allowed platform toolbox tool_name arguments
                          (record r { next_sequence = r.next_sequence + 1 }))
                        (delivered h v) t (rw (room, within_window) at e) in
                    let (known, same, clean) =
                      execute_allowed-ok tool_name arguments
                        (record r { next_sequence = r.next_sequence + 1 }) v h given in
                    record {
                      in_budget = ground arith;
                      in_window = ground arith;
                      in_requests = ground arith;
                      available = known;
                      dispatched = same;
                      no_secret = clean;
                    }
              ]
      ]
