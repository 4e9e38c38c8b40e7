-- ===== src/Economy/Action.antt =====
-- What a run can do next: src/decision/actions.ts. A share is a number of millionths. A quantity
-- that is negative or not a finite number is 0, as the normalization of a candidate reads it.
use cherry_on_top.Base.{ℕ, min, String, Bool, false, if◌then◌else◌, str_eq}
use cherry_on_top.Economy.{one}

pub data ActionKind : Type 0 where
  continue acquire_evidence explore validate reuse_evidence parallelize serialize recover constrain
        stop :
      ActionKind

-- the entries of a candidate's metadata that a decision reads
pub record Metadata : Type 0 where
  pub unsafe : Bool
  pub requires_approval : Bool
  pub irreversible : Bool

pub record ActionCandidate : Type 0 where
  pub id : String
  pub kind : ActionKind
  pub capability : String
  pub expected_progress : ℕ
  pub expected_information_gain : ℕ
  pub expected_token_benefit : ℕ
  pub expected_quality_benefit : ℕ
  pub expected_latency_benefit : ℕ
  pub token_cost : ℕ
  pub latency_cost : ℕ
  pub quality_risk : ℕ
  pub coordination_cost : ℕ
  pub failure_risk : ℕ
  pub orchestration_cost : ℕ
  pub confidence : ℕ
  pub metadata : Metadata

unfoldable pub normalize_action_candidate : ActionCandidate → ActionCandidate
normalize_action_candidate c = record c {
  id = if str_eq c.id "" then "anonymous" else c.id;
  expected_progress = min one c.expected_progress;
  expected_information_gain = min one c.expected_information_gain;
  expected_quality_benefit = min one c.expected_quality_benefit;
  quality_risk = min one c.quality_risk;
  failure_risk = min one c.failure_risk;
  confidence = min one c.confidence;
}

abbrev pub no_metadata : Metadata
no_metadata = record { unsafe = false; requires_approval = false; irreversible = false }

-- `actionCandidate` with nothing but a confidence: what is not given is 0
abbrev pub plain_candidate : String → ActionKind → String → ℕ → ActionCandidate
plain_candidate id kind capability confidence = record {
  id = id;
  kind = kind;
  capability = capability;
  expected_progress = 0;
  expected_information_gain = 0;
  expected_token_benefit = 0;
  expected_quality_benefit = 0;
  expected_latency_benefit = 0;
  token_cost = 0;
  latency_cost = 0;
  quality_risk = 0;
  coordination_cost = 0;
  failure_risk = 0;
  orchestration_cost = 0;
  confidence = confidence;
  metadata = no_metadata;
}
