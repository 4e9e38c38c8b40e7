-- ===== src/Validation.antt =====
-- src/validation/contract.ts and src/validation/engine.ts: what evidence a finished run has to show.
-- Probabilities are hundredths (`certain` is 1), so an input below zero is the input 0, which the
-- code's clamps make of it; `none` is a number that is not finite.
pub mod Cost
pub mod Ladder
pub mod Verdicts
use cherry_on_top.Base.{
  ℕ, ◌+◌, ◌-◌, ◌≤◌, min, max, String, Bool, true, false, not, ◌&&◌, Option, none, some, List, [],
  ◌∷◌, ◌++◌, map, if◌then◌else◌, leb, ltb, ◌==◌, length, filter, get_or,
}

pub data Level : Type 0 where
  v0 v1 v2 v3 : Level

abbrev pub validation_levels : List Level
validation_levels = v0 ∷ v1 ∷ v2 ∷ v3 ∷ []

pub record ValidationContract : Type 0 where
  pub quality_floor : ℕ
  pub required_checks : List String
  pub allowed_uncertainty : ℕ

abbrev pub certain : ℕ
certain = 100

abbrev pub default_validation_contract : ValidationContract
default_validation_contract = record {
  quality_floor = 70;
  required_checks = [];
  allowed_uncertainty = 30;
}

pub record LevelModel : Type 0 where
  pub confidence : ℕ
  pub tokens : ℕ
  pub latency_ms : ℕ

unfoldable pub level_model : Level → LevelModel
level_model v0 = record { confidence = 20; tokens = 0; latency_ms = 0 }
level_model v1 = record { confidence = 50; tokens = 0; latency_ms = 0 }
level_model v2 = record { confidence = 85; tokens = 0; latency_ms = 0 }
level_model v3 = record { confidence = 97; tokens = 2000; latency_ms = 45000 }

unfoldable pub required_confidence : ValidationContract → ℕ
required_confidence contract =
    max (min certain contract.quality_floor) (certain - min certain contract.allowed_uncertainty)

abbrev pub minimum_quality_floor : ℕ
minimum_quality_floor = 35

abbrev pub maximum_derived_floor : ℕ
maximum_derived_floor = 85

unfoldable pub contract_for : Option ℕ → List String → ValidationContract
contract_for verification_need required_checks =
    let need = min certain (get_or verification_need 70) in
    let floor = min maximum_derived_floor (max minimum_quality_floor need) in
    record {
      quality_floor = floor;
      required_checks = required_checks;
      allowed_uncertainty = certain - floor;
    }

pub record ObservedCheck : Type 0 where
  pub id : String
  pub command : String
  pub passed : Bool

pub record RequiredCheck : Type 0 where
  pub id : String
  pub text : String
  pub met : Bool

pub record ValidationEvidence : Type 0 where
  pub claimed_success : Bool
  pub artifact_ids : List String
  pub durable_outcome_ids : List String
  pub observed_checks : List ObservedCheck
  pub required_checks : List RequiredCheck

pub record FreshRun : Type 0 where
  pub passed : Bool
  pub evidence_id : String
  pub tokens : ℕ
  pub latency_ms : ℕ

-- The stable reason codes of a level.
pub data LevelReason : Type 0 where
  run_claimed_success no_success_claim durable_outcome_produced no_durable_outcome : LevelReason
  no_observed_verification observed_verification_failed observed_verification_passed : LevelReason
  no_verifier verifier_unavailable fresh_verification_passed fresh_verification_failed : LevelReason

pub data ReasonCode : Type 0 where
  at_level : Level → LevelReason → ReasonCode
  no_evidence_at_any_level : ReasonCode
  required_checks_unmet : ℕ → ReasonCode
  below_required_confidence : ReasonCode

pub record LevelVerdict : Type 0 where
  pub available : Bool
  pub passed : Bool
  pub evidence_ids : List String
  pub tokens : ℕ
  pub latency_ms : ℕ
  pub reason : LevelReason

abbrev pub unavailable : LevelReason → LevelVerdict
unavailable reason = record {
  available = false;
  passed = false;
  evidence_ids = [];
  tokens = 0;
  latency_ms = 0;
  reason = reason;
}

abbrev free : Bool → List String → LevelReason → LevelVerdict
free passed evidence_ids reason = record {
  available = true;
  passed = passed;
  evidence_ids = evidence_ids;
  tokens = 0;
  latency_ms = 0;
  reason = reason;
}

abbrev pub check_ids : List ObservedCheck → List String
check_ids = map (λ (c : ObservedCheck). c.id)

abbrev pub passing : List ObservedCheck → List ObservedCheck
passing = filter (λ (c : ObservedCheck). c.passed)

abbrev pub failing : List ObservedCheck → List ObservedCheck
failing = filter (λ (c : ObservedCheck). not c.passed)

-- the case `V2`
unfoldable pub assess_observed : List ObservedCheck → LevelVerdict
assess_observed checks =
    let failed = failing checks in
    let passed = passing checks in
    if length checks == 0
    then unavailable no_observed_verification
    else if ltb 0 (length failed) && length passed == 0
    then free false (check_ids failed) observed_verification_failed
    else free (ltb 0 (length passed)) (check_ids passed) (
        if ltb 0 (length passed)
        then observed_verification_passed
        else observed_verification_failed)

-- the case `V3`; `a || b` on numbers is `b` where `a` is 0
unfoldable pub assess_fresh : Option (Option FreshRun) → LevelVerdict
unfolding level_model
assess_fresh none = unavailable no_verifier
assess_fresh (some none) = unavailable verifier_unavailable
assess_fresh (some (some run)) = record {
  available = true;
  passed = run.passed;
  evidence_ids = run.evidence_id ∷ [];
  tokens = if run.tokens == 0 then (level_model v3).tokens else run.tokens;
  latency_ms = if run.latency_ms == 0 then (level_model v3).latency_ms else run.latency_ms;
  reason = if run.passed then fresh_verification_passed else fresh_verification_failed;
}

-- `verify` is what calling the capability now gives: no capability, a capability that is not
-- available, or a run of the check.
unfoldable pub assess : Level → ValidationEvidence → Option (Option FreshRun) → LevelVerdict
unfolding assess_observed assess_fresh
assess v0 evidence verify =
    if evidence.claimed_success
    then free true ("claim:run-reported-success" ∷ []) run_claimed_success
    else unavailable no_success_claim
assess v1 evidence verify =
    let durable = evidence.artifact_ids ++ evidence.durable_outcome_ids in
    if ltb 0 (length durable)
    then free true durable durable_outcome_produced
    else unavailable no_durable_outcome
assess v2 evidence verify = assess_observed evidence.observed_checks
assess v3 evidence verify = assess_fresh verify

pub record ValidationResult : Type 0 where
  pub level : Level
  pub passed : Bool
  pub confidence : ℕ
  pub tokens : ℕ
  pub latency_ms : ℕ
  pub evidence_ids : List String
  pub reason_codes : List ReasonCode

-- The variables of the loop of `validate`.
pub record Climb : Type 0 where
  pub best : Option (Level × LevelVerdict)
  pub tokens : ℕ
  pub latency_ms : ℕ
  pub reason_codes : List ReasonCode

abbrev ground_level : Climb
ground_level = record { best = none; tokens = 0; latency_ms = 0; reason_codes = [] }

-- one round that found the level available
abbrev pub reach : Climb → Level → LevelVerdict → Climb
reach c level verdict = record {
  best = some (level, verdict);
  tokens = c.tokens + verdict.tokens;
  latency_ms = c.latency_ms + verdict.latency_ms;
  reason_codes = c.reason_codes ++ at_level level verdict.reason ∷ [];
}

abbrev pub skip : Climb → Level → LevelVerdict → Climb
skip c level verdict = record c {
  reason_codes = c.reason_codes ++ at_level level verdict.reason ∷ [];
}

module _ (evidence : ValidationEvidence) (verify : Option (Option FreshRun)) (required : ℕ) where
  -- the loop: `continue` past an unavailable level, `break` at a failed or a sufficient one
  unfoldable pub climb : List Level → Climb → Climb
  climb [] c = c
  climb (level ∷ levels) c =
      let verdict = assess level evidence verify in
      let missing = climb levels (skip c level verdict) in
      let further = climb levels (reach c level verdict) in
      if not verdict.available
      then missing
      else if not verdict.passed
      then reach c level verdict
      else if leb required (level_model level).confidence
      then reach c level verdict
      else further

abbrev pub unmet : ValidationEvidence → List RequiredCheck
unmet evidence = filter (λ (c : RequiredCheck). not c.met) evidence.required_checks

-- what follows the loop
unfoldable pub conclude : ValidationEvidence → ℕ → Climb → ValidationResult
conclude evidence required c = elim c.best [
  | none ↦ record {
    level = v0;
    passed = false;
    confidence = 0;
    tokens = c.tokens;
    latency_ms = c.latency_ms;
    evidence_ids = [];
    reason_codes = c.reason_codes ++ no_evidence_at_any_level ∷ [];
  }
  | some (level, verdict) ↦
      let confidence = min certain (level_model level).confidence in
      let open_checks = length (unmet evidence) in
      let passed = verdict.passed && (leb required confidence && open_checks == 0) in
      let unmet_code = if ltb 0 open_checks then required_checks_unmet open_checks ∷ [] else [] in
      let short_code =
        if not passed && (verdict.passed && ltb confidence required)
        then below_required_confidence ∷ []
        else [] in
      record {
        level = level;
        passed = passed;
        confidence = confidence;
        tokens = c.tokens;
        latency_ms = c.latency_ms;
        evidence_ids = verdict.evidence_ids;
        reason_codes = c.reason_codes ++ unmet_code ++ short_code;
      }
]

unfoldable pub validate :
    ValidationEvidence → Option ValidationContract → Option (Option FreshRun) → ValidationResult
validate evidence contract verify =
    let required = required_confidence (get_or contract default_validation_contract) in
    conclude evidence required (climb evidence verify required validation_levels ground_level)

unfoldable pub can_claim_success : ValidationResult → Bool
can_claim_success result = result.passed

pub data NextState : Type 0 where
  complete recover failed : NextState

abbrev pub max_execution_attempts : ℕ
max_execution_attempts = 3

-- `retriable === false` is `some false`
unfoldable pub next_after_validation :
    Bool → ValidationResult → ℕ → Option Bool → Option ℕ → NextState
unfolding can_claim_success
next_after_validation execution_succeeded validation execution_attempts retriable cap =
    if execution_succeeded && can_claim_success validation
    then complete
    else if not (get_or retriable true)
    then failed
    else if ltb execution_attempts (get_or cap max_execution_attempts)
    then recover
    else failed
