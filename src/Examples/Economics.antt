-- ===== src/Examples/Economics.antt =====
-- The economy of a run, on concrete states.
use cherry_on_top.Base.{
  ◌-◌, ℕ, ◌+◌, ◌≤◌, ◌≡◌, ◌↔◌, ◌⊎◌, refl, true, false, none, some, [], ◌∷◌, ◌++◌, arith,
}
use cherry_on_top.Delegation.Decision.{high, delegate, DecideExecutionInput, decide_execution}
use cherry_on_top.Economy.{
  one, structural, fact, EvidenceRef, UncertaintyObservation, EconomicState,
}
use cherry_on_top.Economy.Doubt.{doubt, update_uncertainty}
use cherry_on_top.Economy.Doubt.Bounds
use cherry_on_top.Economy.State.{
  full_uncertainty, EconomicEvent, task_failed, execution_step_completed, evidence_acquired,
  initial_economic_state, apply_economic_event, replay,
}
use cherry_on_top.Economy.State.Redelivery
use cherry_on_top.Economy.Action.{ActionCandidate, explore, stop, continue, plain_candidate}
use cherry_on_top.Economy.Utility.{default_utility_weights, is_positive, evaluate_action_utility}
use cherry_on_top.Economy.Utility.Constraint.{IsPermitted}
use cherry_on_top.Economy.Trust.{trust_adjusted, assess_decision_trust}
use cherry_on_top.Economy.Choice.{choose_economic_action, price, fall_back}
use cherry_on_top.Economy.State.Runs.{is_end}
use cherry_on_top.Economy.Choice.Allowed
use cherry_on_top.Economy.Choice.Execution.{authorize_execution, delegate_candidate}
use cherry_on_top.Economy.Choice.Execution.Veto.{IsFunded}
use cherry_on_top.Economy.Choice.Execution.Veto
use cherry_on_top.Economy.Budget.{no_shares, claims_of, allocate_budget, allocation_total}
use cherry_on_top.Economy.Budget.Conserved.{AreWithin}
use cherry_on_top.Economy.Budget.Conserved
use cherry_on_top.Economy.Path.{ExecutionPathInput, DecisionEstimate}

abbrev begun : EconomicState
begun = initial_economic_state "tidy the parser" (some 10000)

abbrev worthy : ActionCandidate
worthy = record (plain_candidate "read" explore "context.select" 900000) {
  expected_token_benefit = 4000;
  token_cost = 500;
}

abbrev too_dear : ActionCandidate
too_dear = record (plain_candidate "big" explore "context.select" 900000) {
  expected_token_benefit = 90000;
  token_cost = 20000;
}

abbrev step : EconomicEvent
step = execution_step_completed (some 1200) none true

-- what pays is chosen, what the budget does not cover is not
chosen :
    (choose_economic_action begun (too_dear ∷ worthy ∷ []) default_utility_weights "d").action.id
    ≡ "read"
unfolding initial_economic_state choose_economic_action replay price evaluate_action_utility
    trust_adjusted assess_decision_trust
chosen = refl

-- nothing pays, so the agent goes on
goes_on :
    (choose_economic_action begun (too_dear ∷ []) default_utility_weights "d").action.kind
    ≡ continue
unfolding initial_economic_state choose_economic_action price evaluate_action_utility fall_back
goes_on = refl

ended_stops_example :
    (choose_economic_action
      (replay begun ((step ∷ []) ++ task_failed "lost" ∷ step ∷ []))
      (worthy ∷ [])
      default_utility_weights
      "d").action.kind
    ≡ stop
unfolding is_end
ended_stops_example =
    Allowed.ended_stops begun (step ∷ []) (task_failed "lost") (step ∷ []) (worthy ∷ [])
      default_utility_weights "d" refl

floor_begun : begun.constraints.quality_floor ≤ one
unfolding initial_economic_state
floor_begun = omega arith

choose-IsPermitted_example :
    IsPermitted begun
      (choose_economic_action begun (too_dear ∷ worthy ∷ []) default_utility_weights "d").action
    × ((is_positive
            (evaluate_action_utility
              (choose_economic_action begun
                (too_dear ∷ worthy ∷ [])
                default_utility_weights
                "d").action
              begun
              default_utility_weights).score
          ≡ true)
        ⊎ (((choose_economic_action begun
                (too_dear ∷ worthy ∷ [])
                default_utility_weights
                "d").action.kind
              ≡ continue)
            ⊎ ((choose_economic_action begun
                  (too_dear ∷ worthy ∷ [])
                  default_utility_weights
                  "d").action.kind
                ≡ stop)))
choose-IsPermitted_example =
    Allowed.choose-IsPermitted begun (too_dear ∷ worthy ∷ []) default_utility_weights "d"
      floor_begun

abbrev read_file : EvidenceRef
read_file = record {
  id = "a.ts";
  kind = fact;
  source = "read";
  confidence = 900000;
  repository_revision = none;
  token_cost = some 300;
}

abbrev saw : ℕ → UncertaintyObservation
saw after = record {
  kind = structural;
  before = some 1000000;
  after = some after;
  source_evidence_ids = "a.ts" ∷ [];
  confidence = some 500000;
}

redelivery_idempotent_example :
    apply_economic_event
      (apply_economic_event begun
        (evidence_acquired (read_file ∷ []) (some 300) (saw 200000 ∷ []) none))
      (evidence_acquired (read_file ∷ []) (some 999) [] none)
    ≡ record (apply_economic_event begun
        (evidence_acquired (read_file ∷ []) (some 300) (saw 200000 ∷ []) none)) {
          version =
              (apply_economic_event begun
                (evidence_acquired (read_file ∷ []) (some 300) (saw 200000 ∷ []) none)).version
              + 1;
        }
redelivery_idempotent_example =
    Redelivery.redelivery_idempotent begun (read_file ∷ []) (some 300) (some 999) (saw 200000 ∷ [])
      [] none none

-- half of the way is believed
halfway : doubt (update_uncertainty full_uncertainty (saw 200000 ∷ []) []) structural ≡ 600000
unfolding update_uncertainty
halfway = refl

update_uncertainty_between_example :
    (200000 ≤ doubt (update_uncertainty full_uncertainty (saw 200000 ∷ []) []) structural)
    × (doubt (update_uncertainty full_uncertainty (saw 200000 ∷ []) []) structural ≤ 1000000)
update_uncertainty_between_example =
    Bounds.update_uncertainty_between 200000 1000000 structural full_uncertainty (saw 200000 ∷ [])
      [] (omega arith) (omega arith, omega arith) (λ same. (omega arith, omega arith), tt)

abbrev splitting : DecideExecutionInput
splitting = record {
  goal = "move the parser and the printer";
  authority = record {
    spawn_children = true;
    max_child_count = 4;
    budget_usd = 5000000;
    tools = [];
  };
  complexity = high;
  worth_splitting = none;
  signals = [];
}

abbrev dispatch : DecisionEstimate
dispatch = record { tokens = 2000; latency_ms = 60000; cost_usd = 100000 }

abbrev path_input : ExecutionPathInput
path_input = record {
  execution = splitting;
  spent_usd = 1000000;
  requires_approval = false;
  reusable = none;
  dispatch = dispatch;
  frontier = none;
  planned_child_count = some 3;
}

authorize-IsFunded_iff_example :
    ((authorize_execution
        (record {
          state = begun;
          economics = decide_execution splitting;
          dispatch = dispatch;
          planned_child_count = 3;
          weights = default_utility_weights;
        })
        "d").outcome
      ≡ delegate)
    ↔ (((decide_execution splitting).outcome ≡ delegate) × IsFunded begun dispatch)
authorize-IsFunded_iff_example =
    Veto.authorize-IsFunded_iff splitting begun dispatch 3 default_utility_weights "d" floor_begun
      tt

-- a fan-out that the run can pay for is authorized, one that it cannot is not
funded :
    (authorize_execution
      (record {
        state = begun;
        economics = decide_execution splitting;
        dispatch = dispatch;
        planned_child_count = 3;
        weights = default_utility_weights;
      })
      "d").outcome
    ≡ delegate
unfolding authorize_execution decide_execution initial_economic_state evaluate_action_utility
    delegate_candidate
funded = refl

allocate_conserves_example :
    (allocation_total (allocate_budget begun (worthy ∷ too_dear ∷ []) default_utility_weights)
      ≡ begun.resources.remaining_tokens)
    × (((allocate_budget begun (worthy ∷ too_dear ∷ []) default_utility_weights).orchestration
          ≤ begun.resources.optimization_tokens - begun.resources.optimization_consumed_tokens)
        × AreWithin
            (allocate_budget begun (worthy ∷ too_dear ∷ []) default_utility_weights).shares
            (claims_of begun default_utility_weights
              (record { demand = no_shares; value = no_shares })
              (worthy ∷ too_dear ∷ [])).demand)
allocate_conserves_example =
    Conserved.allocate_conserves begun (worthy ∷ too_dear ∷ []) default_utility_weights

-- only what pays is funded, and no more than it asks
funded_read :
    (allocate_budget begun (worthy ∷ too_dear ∷ []) default_utility_weights).shares.exploration
    ≡ 500
unfolding allocate_budget initial_economic_state evaluate_action_utility
funded_read = refl
