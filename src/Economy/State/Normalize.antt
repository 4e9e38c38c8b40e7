-- ===== src/Economy/State/Normalize.antt =====
-- The defaults, the normalization and the initial state of src/decision/state.ts.
use cherry_on_top.Base.{
  ℕ, ◌+◌, ◌-◌, ◌/◌, min, String, true, false, Option, none, some, List, [], ◌∷◌, if◌then◌else◌,
  includes, unique,
}
use cherry_on_top.Economy.{
  one, EvidenceRef, UncertaintyState, ResourceState, TrajectoryState, unknown, EconomicState,
  non_negative,
}

abbrev pub full_uncertainty : UncertaintyState
full_uncertainty = record { target = one; structural = one; behavioral = one; validation = one }

abbrev pub neutral_trajectory : TrajectoryState
neutral_trajectory = record {
  progress = 0;
  information_gain = 0;
  exploration_pressure = 0;
  failure_pressure = 0;
  state_similarity = 0;
  orchestration_confidence = 500000;
}

abbrev pub default_quality_floor : ℕ
default_quality_floor = 700000

abbrev pub failure_step : ℕ
failure_step = 250000

abbrev pub untargeted_evidence_gain : ℕ
untargeted_evidence_gain = 100000

-- `Math.round(total * DEFAULT_OPTIMIZATION_SHARE)`
abbrev pub default_optimization : ℕ → ℕ
default_optimization total = (total + 5) / 10

abbrev pub evidence_ids : List EvidenceRef → List String
evidence_ids [] = []
evidence_ids (r ∷ rs) = r.id ∷ evidence_ids rs

abbrev pub normal_ref : EvidenceRef → EvidenceRef
normal_ref r = record r {
  confidence = min one r.confidence;
  token_cost = some (non_negative r.token_cost 0);
}

-- the loop of `normalizeEvidence`
unfoldable pub normalize_evidence : List String → List EvidenceRef → List EvidenceRef
normalize_evidence seen [] = []
normalize_evidence seen (r ∷ rs) =
    let skipped = normalize_evidence seen rs in
    let kept = normalize_evidence (r.id ∷ seen) rs in
    if includes seen r.id then skipped else normal_ref r ∷ kept

abbrev pub normal_uncertainty : UncertaintyState → UncertaintyState
normal_uncertainty u = record {
  target = min one u.target;
  structural = min one u.structural;
  behavioral = min one u.behavioral;
  validation = min one u.validation;
}

abbrev pub normal_resources : ResourceState → ResourceState
normal_resources r = record {
  total_token_budget = r.total_token_budget;
  consumed_tokens = r.consumed_tokens;
  remaining_tokens = r.total_token_budget - r.consumed_tokens;
  optimization_tokens = min r.total_token_budget r.optimization_tokens;
  optimization_consumed_tokens = r.optimization_consumed_tokens;
  recovery_reserve = min r.total_token_budget r.recovery_reserve;
  latency_budget_ms = r.latency_budget_ms;
}

abbrev pub normal_trajectory : TrajectoryState → TrajectoryState
normal_trajectory t = record {
  progress = min one t.progress;
  information_gain = min one t.information_gain;
  exploration_pressure = min one t.exploration_pressure;
  failure_pressure = min one t.failure_pressure;
  state_similarity = min one t.state_similarity;
  orchestration_confidence = min one t.orchestration_confidence;
}

unfoldable pub normalize_economic_state : EconomicState → EconomicState
unfolding normalize_evidence
normalize_economic_state s = record {
  version = s.version;
  goal = s.goal;
  repository = s.repository;
  repository_revision = s.repository_revision;
  evidence = normalize_evidence [] s.evidence;
  uncertainty = normal_uncertainty s.uncertainty;
  resources = normal_resources s.resources;
  trajectory = normal_trajectory s.trajectory;
  validation = record s.validation { confidence = min one s.validation.confidence };
  constraints = record s.constraints { quality_floor = min one s.constraints.quality_floor };
  available_capabilities = unique s.available_capabilities;
}

unfoldable pub initial_economic_state : String → Option ℕ → EconomicState
unfolding normalize_economic_state
initial_economic_state goal total_token_budget =
    let total = non_negative total_token_budget 0 in
    normalize_economic_state (record {
      version = 0;
      goal = goal;
      repository = none;
      repository_revision = none;
      evidence = [];
      uncertainty = full_uncertainty;
      resources = record {
        total_token_budget = total;
        consumed_tokens = 0;
        remaining_tokens = total;
        optimization_tokens = default_optimization total;
        optimization_consumed_tokens = 0;
        recovery_reserve = 0;
        latency_budget_ms = none;
      };
      trajectory = neutral_trajectory;
      validation = record { required = true; confidence = 0; status = unknown };
      constraints = record { quality_floor = default_quality_floor; hard_stop = false };
      available_capabilities = [];
    })
