-- ===== src/Economy/Choice/Execution.antt =====
-- Whether to do the work or split it, authorized against the state of the run: executionCandidates
-- and authorizeExecution of src/decision/engine.ts. The hundredths of the economics are 10000
-- millionths each.
pub mod Veto
use cherry_on_top.Base.{
  ℕ, ◌+◌, ◌-◌, ◌*◌, min, max, String, Bool, true, false, not, Option, none, some, List, [], ◌∷◌,
  if◌then◌else◌, any, get_or,
}
use cherry_on_top.Delegation.Decision.{
  Outcome, self_execute, delegate, escalate, Entry, terms, reason_single_unit_of_work,
  reason_no_spawn_authority, reason_no_agent_allowance, DecideExecutionResult,
}
use cherry_on_top.Economy.{one, EconomicState}
use cherry_on_top.Economy.Action.{
  continue, parallelize, ActionCandidate, normalize_action_candidate, plain_candidate,
}
use cherry_on_top.Economy.Utility.{UtilityWeights, UtilityReason, evaluate_action_utility}
use cherry_on_top.Economy.Choice.{ActionDecision, choose_economic_action, is_refusal}
use cherry_on_top.Economy.Path.{DecisionEstimate, score_in, threshold_in, margin, is_single_unit}

-- `breakdown.riskPenalty ?? 0`
abbrev pub risk_penalty_in : List Entry → ℕ
risk_penalty_in [] = 0
risk_penalty_in (terms t ∷ es) = t.risk_penalty
risk_penalty_in (_ ∷ es) = risk_penalty_in es

abbrev pub extra_dispatches : ℕ
extra_dispatches = 2

abbrev pub self_candidate : ActionCandidate
self_candidate = plain_candidate "execution:self" continue "execution.self" one

unfoldable pub delegate_candidate : DecideExecutionResult → DecisionEstimate → ℕ → ActionCandidate
delegate_candidate economics dispatch planned_child_count =
    let children = max 1 planned_child_count in
    let x = score_in economics.breakdown in
    let threshold = threshold_in economics.breakdown in
    let risk = risk_penalty_in economics.breakdown in
    normalize_action_candidate
      (record (plain_candidate "execution:delegate" parallelize "execution.delegate"
        (500000 + margin x threshold * 10000)) {
          coordination_cost = dispatch.tokens * extra_dispatches;
          latency_cost = dispatch.latency_ms * (extra_dispatches + 1 - children);
          expected_latency_benefit = dispatch.latency_ms * (children - (extra_dispatches + 1));
          expected_quality_benefit = (x.value - (x.taken + threshold)) * 10000;
          failure_risk = (children - 1) * 100000 + risk * 10000;
          quality_risk = risk * 10000;
        })

abbrev pub execution_candidates :
    DecideExecutionResult → DecisionEstimate → ℕ → List ActionCandidate
execution_candidates economics dispatch planned_child_count =
    self_candidate ∷ delegate_candidate economics dispatch planned_child_count ∷ []

pub data ExecutionGate : Type 0 where
  budget_floor no_spawn_authority no_agent_allowance single_unit_of_work economics_declined vetoed :
      ExecutionGate
  veto : UtilityReason → ExecutionGate

pub record ExecutionAuthorization : Type 0 where
  pub outcome : Outcome
  pub decision : Option ActionDecision
  pub gate : Option ExecutionGate

pub record ExecutionAuthorizationInput : Type 0 where
  pub state : EconomicState
  pub economics : DecideExecutionResult
  pub dispatch : DecisionEstimate
  pub planned_child_count : ℕ
  pub weights : UtilityWeights

abbrev pub is_unauthorized : Entry → Bool
is_unauthorized reason_no_spawn_authority = true
is_unauthorized _ = false

abbrev pub is_without_agents : Entry → Bool
is_without_agents reason_no_agent_allowance = true
is_without_agents _ = false

abbrev pub is_delegate : Outcome → Bool
is_delegate delegate = true
is_delegate _ = false

abbrev pub is_escalate : Outcome → Bool
is_escalate escalate = true
is_escalate _ = false

abbrev gated : Outcome → ExecutionGate → ExecutionAuthorization
gated outcome gate = record { outcome = outcome; decision = none; gate = some gate }

-- `reasonCodes.find(...) ?? 'vetoed'`
abbrev pub gate_of : List UtilityReason → ExecutionGate
gate_of [] = vetoed
gate_of (r ∷ rs) = let rest = gate_of rs in if is_refusal r then veto r else rest

-- the market's veto, and its own ranking for the record; `id` is the decision's random id
unfoldable pub market : ExecutionAuthorizationInput → String → ExecutionAuthorization
market input id =
    let candidate = delegate_candidate input.economics input.dispatch input.planned_child_count in
    let evaluation = evaluate_action_utility candidate input.state input.weights in
    let decision =
      choose_economic_action input.state
        (execution_candidates input.economics input.dispatch input.planned_child_count)
        input.weights id in
    if evaluation.allowed
    then record { outcome = delegate; decision = some decision; gate = none }
    else record {
      outcome = self_execute;
      decision = some decision;
      gate = some (gate_of evaluation.reason_codes);
    }

unfoldable pub authorize_execution : ExecutionAuthorizationInput → String → ExecutionAuthorization
unfolding market
authorize_execution input id =
    let breakdown = input.economics.breakdown in
    if is_escalate input.economics.outcome
    then gated escalate budget_floor
    else if any is_unauthorized breakdown
    then gated self_execute no_spawn_authority
    else if any is_without_agents breakdown
    then gated self_execute no_agent_allowance
    else if any is_single_unit breakdown
    then gated self_execute single_unit_of_work
    else if not (is_delegate input.economics.outcome)
    then gated self_execute economics_declined
    else market input id
