-- ===== src/Lifecycle/Invariant.antt =====
-- What holds of a node in every state that it can reach.
use cherry_on_top.Base.{
  ◌≤◌, ◌≡◌, refl, ◌≢◌, Option, none, some, String, Bool, true, false, List, [], ◌∷◌, arith, length,
  length-append, any,
}
use cherry_on_top.Validation.{ValidationResult}
use cherry_on_top.Lifecycle.{
  complete, validate, Machine, Event, approved, validated, step, run, new, has_succeeded,
  strategy_of, signature_of,
}

abbrev pub is_validated : Option ValidationResult → Bool
is_validated none = false
is_validated (some v) = v.passed

pub record Inv (m : Machine) : Type 0 where
  pub gates_capped : m.context.gate_attempts ≤ 3
  pub rounds_capped : m.context.execution_attempts ≤ 3
  pub complete_succeeded : m.state ≡ complete → has_succeeded m.context.last_result ≡ true
  pub complete_validated : m.state ≡ complete → is_validated m.context.last_validation ≡ true
  pub validate_has_result : m.state ≡ validate → m.context.last_result ≢ none
  pub remembered : length m.context.strategies ≤ m.context.execution_attempts
  pub paired : length m.context.strategies ≡ length m.context.failure_signatures

new-Inv : (id goal : String) → Inv (new id goal)
unfolding new
new-Inv id goal = ground arith

step-Inv : (m : Machine) (e : Event) → Inv m → Inv (step m e)
unfolding step
step-Inv m (validated v) h = ground (
  arith,
  length-append m.context.strategies (strategy_of v ∷ []),
  length-append m.context.failure_signatures (signature_of v ∷ []),
)
step-Inv m _ h = ground arith

run-Inv : (m : Machine) (es : List Event) → Inv m → Inv (run m es)
unfolding run
run-Inv m [] h = h
run-Inv m (e ∷ es) h = run-Inv (step m e) es (step-Inv m e h)

-- Every node that a run can reach went back for more context at most 3 times and went back to
-- decide again at most 3 times; it remembers at most 3 strategies, and as many failure signatures.
pub attempts_bounded :
    (id goal : String) (es : List Event)
    → let c = (run (new id goal) es).context in
      (c.gate_attempts ≤ 3)
      × (c.execution_attempts ≤ 3)
      × (length c.strategies ≤ 3)
      × (length c.strategies ≡ length c.failure_signatures)
attempts_bounded id goal es = let inv = run-Inv (new id goal) es (new-Inv id goal) in ground arith

-- A node is complete only if its last execution succeeded and the validation of it passed.
pub complete_validated :
    (id goal : String) (es : List Event)
    → (run (new id goal) es).state ≡ complete
    → (has_succeeded (run (new id goal) es).context.last_result ≡ true)
      × (is_validated (run (new id goal) es).context.last_validation ≡ true)
complete_validated id goal es h =
    let inv = run-Inv (new id goal) es (new-Inv id goal) in
    (inv.complete_succeeded h, inv.complete_validated h)

-- the budget that a person approved is there only after an `approved`
abbrev pub is_approval : Event → Bool
is_approval approved = true
is_approval _ = false

step-approved :
    (m : Machine) (e : Event)
    → m.context.approved_budget_usd ≡ none
    → is_approval e ≡ false
    → (step m e).context.approved_budget_usd ≡ none
unfolding step
step-approved m e h k = ground arith

run-approved :
    (m : Machine) (es : List Event)
    → m.context.approved_budget_usd ≡ none
    → any is_approval es ≡ false
    → (run m es).context.approved_budget_usd ≡ none
unfolding run
run-approved m [] h k = h
run-approved m (e ∷ es) h k =
    run-approved (step m e) es (step-approved m e h (ground arith)) (ground arith)

-- A run of events without an approval by a person leaves no budget recorded as approved.
pub no_approval_no_budget :
    (id goal : String) (es : List Event)
    → any is_approval es ≡ false
    → (run (new id goal) es).context.approved_budget_usd ≡ none
unfolding new
no_approval_no_budget id goal es h = run-approved (new id goal) es refl h
