-- ===== src/Economy/Utility.antt =====
-- What an action is worth, and whether it is allowed at all: src/decision/utility.ts; how far the
-- decision can be believed: src/decision/trust.ts. The amounts of one state have a common
-- denominator, 100 · tokens · latency · one, and a score that of `score_unit`; weights are hundredths.
pub mod Constraint
use cherry_on_top.Base.{
  ℕ, ◌+◌, ◌-◌, ◌*◌, ◌/◌, min, max, String, Bool, true, false, not, ◌&&◌, Option, none, some, List,
  [], ◌∷◌, ◌++◌, if◌then◌else◌, ltb, leb, get_or,
}
use cherry_on_top.Economy.{
  one, fact, observation, hypothesis, validation, EvidenceKind, EvidenceRef, EconomicState,
}
use cherry_on_top.Economy.Action.{
  ActionKind, continue, serialize, recover, constrain, stop, ActionCandidate,
  normalize_action_candidate,
}

pub record UtilityWeights : Type 0 where
  pub tokens : ℕ
  pub quality : ℕ
  pub latency : ℕ

abbrev pub default_utility_weights : UtilityWeights
default_utility_weights = record { tokens = 40; quality = 40; latency = 20 }

pub data UtilityReason : Type 0 where
  hard_stop safety_violation requires_approval quality_floor insufficient_budget : UtilityReason
  positive_utility negative_utility neutral_utility : UtilityReason

-- a number that may be negative: what is gained less what is lost
pub record Score : Type 0 where
  pub gain : ℕ
  pub loss : ℕ

pub record UtilityEvaluation : Type 0 where
  pub allowed : Bool
  pub score : Score
  pub expected_benefit : ℕ
  pub expected_cost : ℕ
  pub quality_floor_satisfied : Bool
  pub safety_satisfied : Bool
  pub reason_codes : List UtilityReason

abbrev pub nominal_latency_budget_ms : ℕ
nominal_latency_budget_ms = 600000

abbrev pub nominal_token_scale : ℕ
nominal_token_scale = 10000

-- `FREE_ACTIONS.has(kind)`
abbrev pub is_free : ActionKind → Bool
is_free continue = true
is_free stop = true
is_free constrain = true
is_free serialize = true
is_free _ = false

-- `kind === 'recover'`
abbrev pub is_recover : ActionKind → Bool
is_recover recover = true
is_recover _ = false

-- `kind === 'stop'`
abbrev pub is_stop : ActionKind → Bool
is_stop stop = true
is_stop _ = false

abbrev pub affordable : EconomicState → ActionKind → ℕ
affordable s kind =
    s.resources.remaining_tokens - (if is_recover kind then 0 else s.resources.recovery_reserve)

abbrev pub projected_quality : ActionCandidate → ℕ
projected_quality c = min one (one + c.expected_quality_benefit - c.quality_risk)

-- `spend <= affordableTokens`
abbrev pub is_affordable : EconomicState → ActionCandidate → Bool
is_affordable s c =
    if is_free c.kind then true else leb (c.token_cost + c.coordination_cost) (affordable s c.kind)

abbrev pub positive_or : ℕ → ℕ → ℕ
positive_or n nominal = if ltb 0 n then n else nominal

abbrev pub token_scale : EconomicState → ℕ
token_scale s = positive_or s.resources.total_token_budget nominal_token_scale

abbrev pub latency_scale : EconomicState → ℕ
latency_scale s = positive_or (get_or s.resources.latency_budget_ms 0) nominal_latency_budget_ms

-- tokens, quality and latency over the common denominator
abbrev pub weigh : EconomicState → UtilityWeights → ℕ → ℕ → ℕ → ℕ
weigh s w tokens quality latency =
    w.tokens * tokens * latency_scale s * one
    + w.quality * quality * token_scale s * latency_scale s
    + w.latency * latency * token_scale s * one

abbrev pub benefit_of : EconomicState → UtilityWeights → ActionCandidate → ℕ
benefit_of s w c =
    weigh s w c.expected_token_benefit c.expected_quality_benefit c.expected_latency_benefit

abbrev pub cost_of : EconomicState → UtilityWeights → ActionCandidate → ℕ
cost_of s w c =
    weigh s w (c.token_cost + c.coordination_cost + c.orchestration_cost) c.quality_risk
      c.latency_cost

abbrev pub discount_of : ActionCandidate → ℕ
discount_of c = c.confidence * (one - c.failure_risk)

abbrev pub is_positive : Score → Bool
is_positive x = ltb x.loss x.gain

abbrev pub sign_reason : Score → UtilityReason
sign_reason x =
    if is_positive x
    then positive_utility
    else if ltb x.gain x.loss
    then negative_utility
    else neutral_utility

abbrev pub when : Bool → UtilityReason → List UtilityReason
when b reason = if b then reason ∷ [] else []

-- the evaluation of a candidate that is normal
unfoldable pub evaluate_normal :
    ActionCandidate → EconomicState → UtilityWeights → UtilityEvaluation
evaluate_normal c s w =
    let hard_stopped = s.constraints.hard_stop && not (is_stop c.kind) in
    let floor_satisfied = leb s.constraints.quality_floor (projected_quality c) in
    let affordable_action = is_affordable s c in
    let score : Score = record {
      gain = benefit_of s w c * discount_of c;
      loss = cost_of s w c * discount_of c;
    } in
    record {
      allowed =
          not hard_stopped
          && not c.metadata.unsafe
          && not c.metadata.requires_approval
          && floor_satisfied
          && affordable_action;
      score = score;
      expected_benefit = score.gain;
      expected_cost = score.loss;
      quality_floor_satisfied = floor_satisfied;
      safety_satisfied =
          not hard_stopped && not c.metadata.unsafe && not c.metadata.requires_approval;
      reason_codes =
          when hard_stopped hard_stop
          ++ when c.metadata.unsafe safety_violation
          ++ when c.metadata.requires_approval requires_approval
          ++ when (not floor_satisfied) quality_floor
          ++ when (not affordable_action) insufficient_budget
          ++ sign_reason score ∷ [];
    }

unfoldable pub evaluate_action_utility :
    ActionCandidate → EconomicState → UtilityWeights → UtilityEvaluation
unfolding evaluate_normal normalize_action_candidate
evaluate_action_utility action s w = evaluate_normal (normalize_action_candidate action) s w
