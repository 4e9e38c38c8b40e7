-- ===== src/Economy/State/Event.antt =====
-- What can happen to a run: EconomicEvent of src/decision/state.ts. A patch of a share keeps it,
-- replaces it, or makes it unreadable, which the normalization after each event reads as the fallback.
use cherry_on_top.Base.{ℕ, String, Bool, Option, List}
use cherry_on_top.Economy.{EvidenceRef, UncertaintyObservation}

pub data Patch : Type 0 where
  keep : Patch
  unreadable : Patch
  value : ℕ → Patch

abbrev pub patched : Patch → ℕ → ℕ → ℕ
patched keep old fallback = old
patched unreadable old fallback = fallback
patched (value v) old fallback = v

pub record UncertaintyPatch : Type 0 where
  pub target : Patch
  pub structural : Patch
  pub behavioral : Patch
  pub validation : Patch

pub record TrajectoryPatch : Type 0 where
  pub progress : Patch
  pub information_gain : Patch
  pub exploration_pressure : Patch
  pub failure_pressure : Patch
  pub state_similarity : Patch
  pub orchestration_confidence : Patch

pub record TaskStart : Type 0 where
  pub goal : String
  pub repository : Option String
  pub repository_revision : Option String
  pub total_token_budget : Option ℕ
  pub optimization_tokens : Option ℕ
  pub recovery_reserve : Option ℕ
  pub latency_budget_ms : Option ℕ
  pub quality_floor : Patch
  pub validation_required : Option Bool
  pub available_capabilities : Option (List String)
  pub uncertainty : UncertaintyPatch

pub record BudgetUpdate : Type 0 where
  pub total_token_budget : Option ℕ
  pub optimization_tokens : Option ℕ
  pub recovery_reserve : Option ℕ
  pub latency_budget_ms : Option ℕ

-- evidence, token cost, observations, information gain
pub data EconomicEvent : Type 0 where
  task_started : TaskStart → EconomicEvent
  evidence_acquired :
      List EvidenceRef → Option ℕ → List UncertaintyObservation → Option ℕ → EconomicEvent
  execution_step_completed : Option ℕ → Option ℕ → Bool → EconomicEvent
  progress_updated : Option ℕ → Option ℕ → EconomicEvent
  failure_detected : String → Option ℕ → EconomicEvent
  trajectory_state_changed : TrajectoryPatch → EconomicEvent
  budget_updated : BudgetUpdate → EconomicEvent
  intervention_decided : String → String → Option ℕ → EconomicEvent
  validation_result : Bool → Option ℕ → Option ℕ → List String → EconomicEvent
  task_completed : Bool → EconomicEvent
  task_failed : String → EconomicEvent
  unheard_of : EconomicEvent
