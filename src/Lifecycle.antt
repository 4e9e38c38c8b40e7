-- ===== src/Lifecycle.antt =====
-- src/lifecycle/node-machine.ts: the life of a node, a state machine whose actors are run by
-- XState. An actor's answer or its failure is an event; XState calls the matching transition.
-- A count or a list that the code reads as `x ?? 0` or `x ?? []` stands for the absent one too.
pub mod Progress
pub mod Invariant
pub mod Retries
use cherry_on_top.Base.{
  ℕ, zero, suc, ◌+◌, ◌≤◌, String, Bool, true, false, not, ◌&&◌, Option, none, some, List, [], ◌∷◌,
  ◌++◌, if◌then◌else◌, leb, ltb, includes, get_or,
}
use cherry_on_top.Authority.{usd}
use cherry_on_top.Validation.{
  ValidationResult, NextState, next_after_validation, max_execution_attempts,
}

pub data State : Type 0 where
  created orient plan intelligence_gate execution_decision self_execute delegate : State
  escalate wait_approval validate complete failed cancelled : State

pub data Complexity : Type 0 where
  low medium high : Complexity

pub data Outcome : Type 0 where
  self_execute delegate escalate : Outcome

-- `DecideExecutionResult`; of the breakdown, the two amounts that the machine reads
pub record Decision : Type 0 where
  pub outcome : Outcome
  pub required_budget : Option ℕ
  pub available_budget : Option ℕ

-- `ExecuteStepResult`, without the run's events and token usage, which the machine never reads
pub record StepResult : Type 0 where
  pub succeeded : Bool
  pub message : String
  pub not_delegatable : Bool
  pub rate_limited : Bool

-- `IntelligenceBundle`
pub record IntelligenceBundle : Type 0 where
  pub sufficient_context : Bool
  pub complexity : Complexity
  pub worth_splitting : Bool
  pub signals : List (String × ℕ)

-- `ValidationVerdict`; `progress` in hundredths
pub record ValidationVerdict : Type 0 where
  pub result : ValidationResult
  pub strategy : Option String
  pub failure_signature : Option String
  pub progress : Option ℕ

pub record Context : Type 0 where
  pub node_id : String
  pub goal : String
  pub complexity : Option Complexity
  pub worth_splitting : Option Bool
  pub signals : Option (List (String × ℕ))
  pub gate_attempts : ℕ
  pub execution_attempts : ℕ
  pub last_decision : Option Decision
  pub approved_budget_usd : Option ℕ
  pub last_result : Option StepResult
  pub last_validation : Option ValidationResult
  pub failure_signatures : List String
  pub strategies : List String
  pub progress : Option ℕ

pub record Machine : Type 0 where
  pub state : State
  pub context : Context

pub data Event : Type 0 where
  start approved rejected cancel : Event
  assessed : IntelligenceBundle → Event
  decided : Decision → Event
  executed : StepResult → Event
  execution_error : (error : String) → Event
  delegated : StepResult → Event
  delegation_error : (error : String) → Event
  escalated : Event
  validated : ValidationVerdict → Event
  validation_error : Event

abbrev pub max_gate_attempts : ℕ
max_gate_attempts = 3

abbrev pub meaningful_progress : ℕ
meaningful_progress = 5

-- `strategyRetryAllowed` of src/recovery/engine.ts
unfoldable pub strategy_retry_allowed : String → List String → String → List String → ℕ → Bool
strategy_retry_allowed strategy previous_strategies signature previous_signatures progress =
    let same_strategy = includes previous_strategies strategy in
    let same_failure = includes previous_signatures signature in
    not (same_strategy && (same_failure && leb progress meaningful_progress))

-- the result that an actor's failure stands for
abbrev failed_result : String → StepResult
failed_result error = record {
  succeeded = false;
  message = error;
  not_delegatable = false;
  rate_limited = false;
}

abbrev assess : Context → IntelligenceBundle → Context
assess c b = record c {
  complexity = some b.complexity;
  worth_splitting = some b.worth_splitting;
  signals = some b.signals;
}

-- `context.lastResult?.succeeded === true`
abbrev pub has_succeeded : Option StepResult → Bool
has_succeeded none = false
has_succeeded (some r) = r.succeeded

abbrev pub is_rate_limited : Option StepResult → Bool
is_rate_limited none = false
is_rate_limited (some r) = r.rate_limited

-- `lastDecision?.breakdown.requiredBudget ?? 1`
abbrev required_budget_of : Option Decision → ℕ
required_budget_of none = usd
required_budget_of (some d) = get_or d.required_budget usd

abbrev at : State → Context → Machine
at s c = record { state = s; context = c }

-- INTELLIGENCE_GATE. The target PLAN goes on to INTELLIGENCE_GATE at once, by its `always`.
unfoldable pub on_assessed : Context → IntelligenceBundle → Machine
on_assessed c b =
    if b.sufficient_context
    then at execution_decision (assess c b)
    else if ltb c.gate_attempts max_gate_attempts
    then at intelligence_gate (record (assess c b) { gate_attempts = c.gate_attempts + 1 })
    else at execution_decision (assess c b)

abbrev target_of : Outcome → State
target_of self_execute = self_execute
target_of delegate = delegate
target_of escalate = escalate

-- EXECUTION_DECISION
unfoldable pub on_decided : Context → Decision → Machine
on_decided c d = at (target_of d.outcome) (record c { last_decision = some d })

abbrev with_result : Context → StepResult → Context
with_result c r = record c { last_result = some r }

-- DELEGATE
unfoldable pub on_delegated : Context → StepResult → Machine
on_delegated c r =
    if r.not_delegatable then at self_execute (with_result c r) else at validate (with_result c r)

abbrev pub strategy_of : ValidationVerdict → String
strategy_of v = get_or v.strategy "MANAGED"

abbrev pub signature_of : ValidationVerdict → String
signature_of v = get_or v.failure_signature "unknown"

abbrev pub next_of : Context → ValidationVerdict → NextState
next_of c v =
    next_after_validation (has_succeeded c.last_result) v.result c.execution_attempts
      (some (not (is_rate_limited c.last_result))) none

abbrev pub retry_allowed : Context → ValidationVerdict → Bool
retry_allowed c v =
    strategy_retry_allowed (strategy_of v) c.strategies (signature_of v) c.failure_signatures
      (get_or v.progress 0)

abbrev remember : Context → ValidationVerdict → Context
remember c v = record c {
  last_validation = some v.result;
  execution_attempts = c.execution_attempts + 1;
  strategies = c.strategies ++ strategy_of v ∷ [];
  failure_signatures = c.failure_signatures ++ signature_of v ∷ [];
  progress = some (get_or v.progress 0);
}

-- VALIDATE
unfoldable pub on_validated : Context → ValidationVerdict → Machine
unfolding next_after_validation strategy_retry_allowed
on_validated c v = elim (next_of c v) [
  | NextState.complete ↦ at complete (record c { last_validation = some v.result })
  | NextState.recover ↦
      if retry_allowed c v
      then at execution_decision (remember c v)
      else at failed (record c { last_validation = some v.result })
  | NextState.failed ↦ at failed (record c { last_validation = some v.result })
]

unfoldable pub on_validation_error : Context → Machine
on_validation_error c =
    if not (is_rate_limited c.last_result) && ltb c.execution_attempts max_execution_attempts
    then at execution_decision (record c { execution_attempts = c.execution_attempts + 1 })
    else at failed c

abbrev pub is_final : State → Bool
is_final complete = true
is_final failed = true
is_final cancelled = true
is_final _ = false

-- One event. CREATED's target ORIENT goes on to INTELLIGENCE_GATE at once. `cancel` is handled at
-- the root, and final states ignore every event, as a state ignores an event it has no entry for.
dispatch : State → Event → Context → Machine
dispatch created start c = at intelligence_gate c
dispatch intelligence_gate (assessed b) c = on_assessed c b
dispatch execution_decision (decided d) c = on_decided c d
dispatch self_execute (executed r) c = at validate (with_result c r)
dispatch self_execute (execution_error e) c = at validate (with_result c (failed_result e))
dispatch delegate (delegated r) c = on_delegated c r
dispatch delegate (delegation_error e) c = at validate (with_result c (failed_result e))
dispatch escalate escalated c = at wait_approval c
dispatch wait_approval approved c =
    at delegate (record c { approved_budget_usd = some (required_budget_of c.last_decision) })
dispatch wait_approval rejected c = at failed c
dispatch validate (validated v) c = on_validated c v
dispatch validate validation_error c = on_validation_error c
dispatch s cancel c = at (if is_final s then s else cancelled) c
dispatch s _ c = at s c

unfoldable pub step : Machine → Event → Machine
unfolding dispatch on_assessed on_decided on_delegated on_validated on_validation_error
step m e = dispatch m.state e m.context

unfoldable pub run : Machine → List Event → Machine
run m [] = m
run m (e ∷ es) = run (step m e) es

unfoldable pub new_context : String → String → Context
new_context node_id goal = record {
  node_id = node_id;
  goal = goal;
  complexity = none;
  worth_splitting = none;
  signals = none;
  gate_attempts = 0;
  execution_attempts = 0;
  last_decision = none;
  approved_budget_usd = none;
  last_result = none;
  last_validation = none;
  failure_signatures = [];
  strategies = [];
  progress = none;
}

unfoldable pub new : String → String → Machine
unfolding new_context
new node_id goal = at created (new_context node_id goal)
