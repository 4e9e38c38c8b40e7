-- ===== src/Delegation/Decision.antt =====
-- Whether a node does its work itself: src/engines/economics.ts (scoreDelegation) and
-- src/engines/decide-execution.ts. Values and costs are hundredths; the score is a value and what is
-- taken from it, since it may be negative. The code's tolerance of 1e-9 makes up for rounding,
-- which there is none of here.
pub mod Outcomes
use cherry_on_top.Base.{
  ℕ, ◌+◌, ◌*◌, String, Bool, true, false, not, Option, none, some, List, [], ◌∷◌, ◌++◌,
  if◌then◌else◌, ltb, leb, get_or,
}
use cherry_on_top.Authority.{Authority}
use cherry_on_top.Delegation.{min_agent_budget_usd}

pub data Complexity : Type 0 where
  low medium high : Complexity

pub data Outcome : Type 0 where
  self_execute delegate escalate : Outcome

pub record EconomicsInput : Type 0 where
  pub estimated_value : ℕ
  pub model_cost : ℕ
  pub latency_cost : ℕ
  pub coordination_cost : ℕ
  pub verification_cost : ℕ
  pub risk_penalty : ℕ
  pub threshold : ℕ

-- a score of `value - taken`
pub record Score : Type 0 where
  pub value : ℕ
  pub taken : ℕ

pub record EconomicsResult : Type 0 where
  pub score : Score
  pub delegates : Bool
  pub breakdown : EconomicsInput

unfoldable pub score_delegation : EconomicsInput → EconomicsResult
score_delegation input =
    let total_cost =
      input.model_cost + input.latency_cost + input.coordination_cost + input.verification_cost in
    record {
      score = record { value = input.estimated_value; taken = total_cost + input.risk_penalty };
      delegates = leb (input.threshold + (total_cost + input.risk_penalty)) input.estimated_value;
      breakdown = input;
    }

abbrev pub value_by_complexity : Complexity → ℕ
value_by_complexity low = 20
value_by_complexity medium = 70
value_by_complexity high = 120

abbrev pub risk_of : Complexity → ℕ
risk_of high = 20
risk_of _ = 0

unfoldable pub default_economics_input : Complexity → EconomicsInput
default_economics_input complexity = record {
  estimated_value = value_by_complexity complexity;
  model_cost = 10;
  latency_cost = 5;
  coordination_cost = 15;
  verification_cost = 10;
  risk_penalty = risk_of complexity;
  threshold = 30;
}

-- The entries of a breakdown, an object whose keys the entries after a signal override. A signal
-- keeps its name, which is none of the keys of the other entries: src/intelligence/decompose.ts gives
-- fixed names, among which there is no reason and no term of the economics.
pub data Entry : Type 0 where
  signal : String → ℕ → Entry
  terms : EconomicsInput → Entry
  score : Score → Entry
  no_score : Entry
  reason_no_spawn_authority : Entry
  reason_single_unit_of_work : Entry
  reason_no_agent_allowance : Entry
  budgets : ℕ → ℕ → Entry

pub record DecideExecutionInput : Type 0 where
  pub goal : String
  pub authority : Authority
  pub complexity : Complexity
  pub worth_splitting : Option Bool
  pub signals : List Entry

pub record DecideExecutionResult : Type 0 where
  pub outcome : Outcome
  pub breakdown : List Entry

unfoldable pub decide_execution : DecideExecutionInput → DecideExecutionResult
unfolding score_delegation default_economics_input
decide_execution input =
    let economics = score_delegation (default_economics_input input.complexity) in
    let scored = input.signals ++ terms economics.breakdown ∷ score economics.score ∷ [] in
    let required_budget = min_agent_budget_usd * 2 in
    if not input.authority.spawn_children
    then record { outcome = self_execute; breakdown = no_score ∷ reason_no_spawn_authority ∷ [] }
    else if not (get_or input.worth_splitting true)
    then record {
      outcome = self_execute;
      breakdown = input.signals ++ no_score ∷ reason_single_unit_of_work ∷ [];
    }
    else if not economics.delegates
    then record { outcome = self_execute; breakdown = scored }
    else if ltb input.authority.budget_usd required_budget
    then record {
      outcome = escalate;
      breakdown = scored ++ budgets required_budget input.authority.budget_usd ∷ [];
    }
    else if ltb input.authority.max_child_count 1
    then record { outcome = self_execute; breakdown = scored ++ reason_no_agent_allowance ∷ [] }
    else record { outcome = delegate; breakdown = scored }
