-- ===== src/Economy/Choice.antt =====
-- What now: chooseEconomicAction of src/decision/engine.ts. Two scores are tied where they differ
-- by no more than 1e-9, which is `tie_epsilon` in the unit of the state's scores; two confidences,
-- where they are the same number of millionths. The weights and the id of the decision are given.
pub mod Allowed
pub mod Execution
use cherry_on_top.Base.{
  ℕ, ◌+◌, ◌*◌, min, String, Bool, true, false, not, ◌&&◌, Option, none, some, List, [], ◌∷◌, ◌++◌,
  map, if◌then◌else◌, ltb, ◌||◌, leb, ◌==◌, str_lt, take, filter,
}
use cherry_on_top.Economy.{one, EconomicState}
use cherry_on_top.Economy.Action.{
  ActionKind, continue, stop, ActionCandidate, normalize_action_candidate, plain_candidate,
}
use cherry_on_top.Economy.Utility.{
  UtilityWeights, UtilityReason, hard_stop, safety_violation, requires_approval, quality_floor,
  insufficient_budget, Score, UtilityEvaluation, is_positive, token_scale, latency_scale,
  evaluate_action_utility,
}
use cherry_on_top.Economy.Trust.{
  TrustReason, TrustAssessment, assess_decision_trust, trust_adjusted,
}

pub data DecisionReason : Type 0 where
  utility : UtilityReason → DecisionReason
  trust : TrustReason → DecisionReason
  chosen_by_utility tie_broken_on_id tie_broken_on_confidence : DecisionReason
  no_justified_opportunity continuation_not_permitted : DecisionReason
  rejected : String → UtilityReason → DecisionReason

pub record ActionDecision : Type 0 where
  pub decision_id : String
  pub state_version : ℕ
  pub action : ActionCandidate
  pub utility : Score
  pub reason_codes : List DecisionReason
  pub confidence : ℕ

pub record Ranked : Type 0 where
  pub candidate : ActionCandidate
  pub evaluation : UtilityEvaluation
  pub trust : TrustAssessment
  pub score : Score

abbrev pub max_recorded_rejections : ℕ
max_recorded_rejections = 8

abbrev pub continue_action : ActionCandidate
continue_action = plain_candidate "continue" continue "agent.continue" one

abbrev pub stop_action : ActionCandidate
stop_action = plain_candidate "stop" stop "runtime.stop" one

abbrev pub tie_epsilon : EconomicState → ℕ
tie_epsilon s = token_scale s * latency_scale s * 100000000000000000

-- by more than the tolerance
abbrev pub exceeds : ℕ → Score → Score → Bool
exceeds tolerance a b = ltb (b.gain + a.loss + tolerance) (a.gain + b.loss)

-- `compareRanked(a, b) < 0`
unfoldable pub precedes : ℕ → Ranked → Ranked → Bool
precedes tolerance a b =
    if exceeds tolerance a.score b.score
    then true
    else if exceeds tolerance b.score a.score
    then false
    else if a.candidate.confidence == b.candidate.confidence
    then str_lt a.candidate.id b.candidate.id
    else ltb b.candidate.confidence a.candidate.confidence

abbrev pub insert_ranked : ℕ → Ranked → List Ranked → List Ranked
insert_ranked tolerance a [] = a ∷ []
insert_ranked tolerance a (b ∷ bs) =
    let rest = insert_ranked tolerance a bs in
    if precedes tolerance b a then b ∷ rest else a ∷ b ∷ bs

-- `[...allowed].sort(compareRanked)`
unfoldable pub sort_ranked : ℕ → List Ranked → List Ranked
sort_ranked tolerance [] = []
sort_ranked tolerance (a ∷ rest) = insert_ranked tolerance a (sort_ranked tolerance rest)

unfoldable pub price : EconomicState → UtilityWeights → ActionCandidate → Ranked
price s w candidate =
    let evaluation = evaluate_action_utility candidate s w in
    let assessment = assess_decision_trust s candidate in
    record {
      candidate = candidate;
      evaluation = evaluation;
      trust = assessment;
      score = trust_adjusted evaluation.score assessment;
    }

-- the codes that name a hard constraint
abbrev pub is_refusal : UtilityReason → Bool
is_refusal hard_stop = true
is_refusal safety_violation = true
is_refusal requires_approval = true
is_refusal quality_floor = true
is_refusal insufficient_budget = true
is_refusal _ = false

abbrev rejections_of : Ranked → List DecisionReason
rejections_of r = map (rejected r.candidate.id) (filter is_refusal r.evaluation.reason_codes)

abbrev pub rejection_codes : List Ranked → List DecisionReason
rejection_codes [] = []
rejection_codes (r ∷ rs) = rejections_of r ++ rejection_codes rs

abbrev pub is_continue : ActionKind → Bool
is_continue continue = true
is_continue _ = false

-- `allowed.find(kind === 'continue')`, or the default
abbrev pub continue_among : Ranked → List Ranked → Ranked
continue_among default [] = default
continue_among default (r ∷ rs) =
    let rest = continue_among default rs in if is_continue r.candidate.kind then r else rest

-- how a tie with the runner-up was broken
abbrev pub tie_reason : ℕ → Ranked → List Ranked → List DecisionReason
tie_reason tolerance best [] = []
tie_reason tolerance best (runner_up ∷ others) =
    if exceeds tolerance best.score runner_up.score || exceeds tolerance runner_up.score best.score
    then []
    else if best.candidate.confidence == runner_up.candidate.confidence
    then tie_broken_on_id ∷ []
    else tie_broken_on_confidence ∷ []

module _ (s : EconomicState) (w : UtilityWeights) (id : String)
    (rejections : List DecisionReason) where
  abbrev pub decide : ActionCandidate → UtilityEvaluation → List DecisionReason → ActionDecision
  decide candidate evaluation extra = record {
    decision_id = id;
    state_version = s.version;
    action = candidate;
    utility = evaluation.score;
    reason_codes =
        map utility evaluation.reason_codes
        ++ extra
        ++ (if s.constraints.hard_stop then utility hard_stop ∷ [] else [])
        ++ rejections;
    confidence = min candidate.confidence s.trajectory.orchestration_confidence;
  }

  -- nothing was worth doing
  unfoldable pub fall_back : List Ranked → ActionDecision
  fall_back allowed =
      let fallback = continue_among (price s w continue_action) allowed in
      let ended = price s w stop_action in
      if fallback.evaluation.allowed
      then decide fallback.candidate fallback.evaluation (no_justified_opportunity ∷ [])
      else decide ended.candidate ended.evaluation (continuation_not_permitted ∷ [])

  unfoldable pub decide_ranked : List Ranked → List Ranked → ActionDecision
  decide_ranked allowed [] = fall_back allowed
  decide_ranked allowed (best ∷ others) =
      if is_positive best.score
      then decide best.candidate best.evaluation (
          chosen_by_utility ∷ tie_reason (tie_epsilon s) best others
          ++ map trust best.trust.reason_codes)
      else fall_back allowed

abbrev pub is_allowed : Ranked → Bool
is_allowed r = r.evaluation.allowed

-- the candidates, normal and priced
abbrev pub price_all : EconomicState → UtilityWeights → List ActionCandidate → List Ranked
price_all s w [] = []
price_all s w (c ∷ cs) = price s w (normalize_action_candidate c) ∷ price_all s w cs

unfoldable pub choose_economic_action :
    EconomicState → List ActionCandidate → UtilityWeights → String → ActionDecision
unfolding sort_ranked decide_ranked
choose_economic_action s candidates w id =
    let priced = price_all s w candidates in
    let allowed = filter is_allowed priced in
    let refused = filter (λ r. not (is_allowed r)) priced in
    decide_ranked s w id (rejection_codes (take max_recorded_rejections refused)) allowed
      (sort_ranked (tie_epsilon s) allowed)
