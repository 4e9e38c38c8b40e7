-- ===== src/Economy/Path.antt =====
-- Reuse, spawn, run, wait or stop: hardGates, delegationEstimate and decideExecutionPath of
-- src/decision/engine.ts with the receipts of src/decision/types.ts. The sentence of a receipt is a
-- constructor with its numbers. Confidences are hundredths.
pub mod Gates
use cherry_on_top.Base.{
  ℕ, ◌+◌, ◌-◌, ◌*◌, min, max, String, Bool, true, false, ◌&&◌, Option, none, some, List, [], ◌∷◌,
  if◌then◌else◌, ltb, leb, get_or, length, is_some, any,
}
use cherry_on_top.Authority.{Authority}
use cherry_on_top.Context.{KnowledgeFrontier, is_closed}
use cherry_on_top.Delegation.Decision.{
  Outcome, self_execute, delegate, escalate, Entry, terms, score, no_score,
  reason_single_unit_of_work, reason_no_spawn_authority, reason_no_agent_allowance, signal, budgets,
  Score, DecideExecutionInput, DecideExecutionResult, decide_execution,
}

pub data DecisionType : Type 0 where
  reuse_context retrieve_context expand_context run_tool run_test reuse_computation : DecisionType
  restore_snapshot fork_workspace run_model spawn_agent escalate_model synthesize wait stop :
      DecisionType

pub record DecisionEstimate : Type 0 where
  pub tokens : ℕ
  pub latency_ms : ℕ
  pub cost_usd : ℕ

abbrev pub free : DecisionEstimate
free = record { tokens = 0; latency_ms = 0; cost_usd = 0 }

pub data ReceiptReason : Type 0 where
  approval_needed answer_held frontier_closed more_budget_needed single_unit fresh_sandbox
        split_goal :
      ReceiptReason
  budget_spent : ℕ → ℕ → ReceiptReason
  saves : ℕ → ReceiptReason
  scores : Score → ℕ → ReceiptReason
  comes_apart : Score → ℕ → ReceiptReason

pub record DecisionAlternative : Type 0 where
  pub type : DecisionType
  pub reason : ReceiptReason
  pub estimate : DecisionEstimate

pub data Gate : Type 0 where
  approval budget budget_floor : Gate

pub record DecisionReceipt : Type 0 where
  pub chosen : DecisionType
  pub reason : ReceiptReason
  pub confidence : ℕ
  pub estimate : DecisionEstimate
  pub alternatives : List DecisionAlternative
  pub gate : Option Gate
  pub fast_path : Bool

-- `receipt`, of what it is given to every decision
abbrev pub receipt : DecisionType → ReceiptReason → DecisionReceipt
receipt chosen reason = record {
  chosen = chosen;
  reason = reason;
  confidence = 100;
  estimate = free;
  alternatives = [];
  gate = none;
  fast_path = false;
}

pub record SafetyInput : Type 0 where
  pub authority : Authority
  pub spent_usd : ℕ
  pub requires_approval : Bool

unfoldable pub hard_gates : SafetyInput → Option DecisionReceipt
hard_gates input =
    if input.requires_approval
    then some (record (receipt wait approval_needed) { gate = some approval; fast_path = true })
    else if ltb 0 input.authority.budget_usd && leb input.authority.budget_usd input.spent_usd
    then some (record (receipt stop (budget_spent input.spent_usd input.authority.budget_usd)) {
      gate = some budget;
      fast_path = true;
    })
    else none

unfoldable pub delegation_estimate : DecisionEstimate → ℕ → DecisionEstimate
delegation_estimate dispatch child_count =
    let dispatches = max 1 child_count + 2 in
    record {
      tokens = dispatch.tokens * dispatches;
      latency_ms = dispatch.latency_ms * 3;
      cost_usd = dispatch.cost_usd * dispatches;
    }

pub record ExecutionPathInput : Type 0 where
  pub execution : DecideExecutionInput
  pub spent_usd : ℕ
  pub requires_approval : Bool
  pub reusable : Option DecisionEstimate
  pub dispatch : DecisionEstimate
  pub frontier : Option KnowledgeFrontier
  pub planned_child_count : Option ℕ

-- the fields that the gates read
abbrev pub safety : ExecutionPathInput → SafetyInput
safety input = record {
  authority = input.execution.authority;
  spent_usd = input.spent_usd;
  requires_approval = input.requires_approval;
}

abbrev pub planned_children : ExecutionPathInput → ℕ
planned_children input =
    max 1 (get_or input.planned_child_count input.execution.authority.max_child_count)

-- `breakdown.score ?? 0`
abbrev pub score_in : List Entry → Score
score_in [] = record { value = 0; taken = 0 }
score_in (score x ∷ es) = x
score_in (_ ∷ es) = score_in es

-- `breakdown.threshold ?? 0`
abbrev pub threshold_in : List Entry → ℕ
threshold_in [] = 0
threshold_in (terms t ∷ es) = t.threshold
threshold_in (_ ∷ es) = threshold_in es

abbrev pub is_single_unit : Entry → Bool
is_single_unit reason_single_unit_of_work = true
is_single_unit _ = false

-- `Math.abs(score - threshold)`
abbrev pub margin : Score → ℕ → ℕ
margin x threshold = (x.value - (x.taken + threshold)) + (x.taken + threshold - x.value)

abbrev pub is_answered : Option KnowledgeFrontier → Bool
is_answered none = false
is_answered (some f) = is_closed f && ltb 0 (length f.known)

-- what the economics decided, as a receipt
unfoldable pub receipt_of : ExecutionPathInput → DecideExecutionResult → DecisionReceipt
unfolding delegation_estimate
receipt_of input decision =
    let x = score_in decision.breakdown in
    let threshold = threshold_in decision.breakdown in
    let confidence = min 100 (50 + margin x threshold) in
    let dispatch : DecisionAlternative = record {
      type = run_model;
      reason = fresh_sandbox;
      estimate = input.dispatch;
    } in
    let fan_out = delegation_estimate input.dispatch (planned_children input) in
    elim decision.outcome [
      | escalate ↦ record (receipt wait more_budget_needed) {
        confidence = confidence;
        alternatives = dispatch ∷ [];
        gate = some budget_floor;
      }
      | delegate ↦ record (receipt spawn_agent (comes_apart x threshold)) {
        confidence = confidence;
        estimate = fan_out;
        alternatives = dispatch ∷ [];
      }
      | self_execute ↦
          record (receipt run_model
            (if any is_single_unit decision.breakdown then single_unit else scores x threshold)) {
              confidence = confidence;
              estimate = input.dispatch;
              alternatives =
                  record { type = spawn_agent; reason = split_goal; estimate = fan_out } ∷ [];
            }
    ]

unfoldable pub decide_execution_path : ExecutionPathInput → DecisionReceipt
unfolding hard_gates receipt_of
decide_execution_path input =
    let dispatch : DecisionAlternative = record {
      type = run_model;
      reason = fresh_sandbox;
      estimate = input.dispatch;
    } in
    let decided = receipt_of input (decide_execution input.execution) in
    elim (hard_gates (safety input)) [
      | some gated ↦ gated
      | none ↦ elim input.reusable [
        | some held ↦ record (receipt reuse_computation (saves held.tokens)) {
          alternatives = dispatch ∷ [];
          fast_path = true;
        }
        | none ↦
            if is_answered input.frontier
            then record (receipt stop frontier_closed) {
              alternatives = dispatch ∷ [];
              fast_path = true;
            }
            else decided
      ]
    ]
