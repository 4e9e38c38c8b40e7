-- ===== src/Economy/State.antt =====
-- How each event moves the state of a run: applyEconomicEvent of src/decision/state.ts.
pub mod Event
pub mod Normalize
unfoldable pub use Event.*
unfoldable pub use Normalize.*
pub mod Normal
pub mod Runs
pub mod Redelivery
use cherry_on_top.Base.{
  ℕ, ◌+◌, ◌-◌, ◌*◌, ◌/◌, min, String, Bool, true, false, not, ◌&&◌, ◌||◌, Option, none, some, List,
  [], ◌∷◌, ◌++◌, if◌then◌else◌, ltb, leb, length, filter, includes, unique, get_or, ◌==◌,
}
use cherry_on_top.Economy.{
  one, EvidenceKind, EvidenceRef, UncertaintyState, UncertaintyObservation, ResourceState,
  TrajectoryState, ValidationStatus, unknown, passed, failed, ValidationState, Constraints,
  EconomicState, clamp01, non_negative,
}
use cherry_on_top.Economy.Doubt.{update_uncertainty}

-- `a ?? b`
abbrev or_else {ℓ} : {A : Type ℓ} → Option A → Option A → Option A
or_else none b = b
or_else (some a) b = some a

abbrev doubt_sum : UncertaintyState → ℕ
doubt_sum u = u.target + u.structural + u.behavioral + u.validation

abbrev removed_doubt : UncertaintyState → UncertaintyState → ℕ
removed_doubt before after =
    (before.target - after.target)
    + (before.structural - after.structural)
    + (before.behavioral - after.behavioral)
    + (before.validation - after.validation)

unfoldable pub information_gain_from : UncertaintyState → List UncertaintyObservation → ℕ → ℕ
information_gain_from before [] fresh_count =
    if ltb 0 fresh_count then untargeted_evidence_gain else 0
information_gain_from before (o ∷ os) fresh_count =
    let after = update_uncertainty before (o ∷ os) [] in
    if ltb 0 (doubt_sum before) then removed_doubt before after * one / doubt_sum before else 0

-- what an event charges to the task
abbrev spend : EconomicState → Option ℕ → ResourceState
spend s cost = record s.resources {
  consumed_tokens = s.resources.consumed_tokens + non_negative cost 0;
}

abbrev fail_more : TrajectoryState → TrajectoryState
fail_more t = record t { failure_pressure = min one (t.failure_pressure + failure_step) }

abbrev pub fresh_evidence : EconomicState → List EvidenceRef → List EvidenceRef
fresh_evidence s refs = filter (λ r. not (includes (evidence_ids s.evidence) r.id)) refs

abbrev start_task : EconomicState → TaskStart → EconomicState
start_task s e =
    let total = non_negative e.total_token_budget 0 in
    record s {
      goal = e.goal;
      repository = or_else e.repository s.repository;
      repository_revision = or_else e.repository_revision s.repository_revision;
      uncertainty = record {
        target = patched e.uncertainty.target s.uncertainty.target 500000;
        structural = patched e.uncertainty.structural s.uncertainty.structural 500000;
        behavioral = patched e.uncertainty.behavioral s.uncertainty.behavioral 500000;
        validation = patched e.uncertainty.validation s.uncertainty.validation 500000;
      };
      resources = record s.resources {
        total_token_budget = total;
        optimization_tokens = non_negative e.optimization_tokens (default_optimization total);
        recovery_reserve = non_negative e.recovery_reserve s.resources.recovery_reserve;
        latency_budget_ms = or_else e.latency_budget_ms s.resources.latency_budget_ms;
      };
      validation = record s.validation {
        required = get_or e.validation_required s.validation.required;
      };
      constraints = record s.constraints {
        quality_floor = patched e.quality_floor s.constraints.quality_floor default_quality_floor;
      };
      available_capabilities = get_or e.available_capabilities s.available_capabilities;
    }

abbrev acquire :
    EconomicState
    → List EvidenceRef
    → Option ℕ
    → List UncertaintyObservation
    → Option ℕ
    → EconomicState
acquire s refs cost observations gain =
    let fresh = fresh_evidence s refs in
    let gained = information_gain_from s.uncertainty observations (length fresh) in
    if ltb 0 (length fresh)
    then record s {
      evidence = s.evidence ++ fresh;
      uncertainty = update_uncertainty s.uncertainty observations (evidence_ids s.evidence);
      resources = spend s cost;
      trajectory = record s.trajectory { information_gain = min one (get_or gain gained) };
    }
    else s

abbrev change_trajectory : TrajectoryState → TrajectoryPatch → TrajectoryState
change_trajectory t p = record {
  progress = patched p.progress t.progress 0;
  information_gain = patched p.information_gain t.information_gain 0;
  exploration_pressure = patched p.exploration_pressure t.exploration_pressure 0;
  failure_pressure = patched p.failure_pressure t.failure_pressure 0;
  state_similarity = patched p.state_similarity t.state_similarity 0;
  orchestration_confidence = patched p.orchestration_confidence t.orchestration_confidence 500000;
}

unfoldable pub advance : EconomicState → EconomicEvent → EconomicState
advance s (task_started e) = start_task s e
advance s (evidence_acquired refs cost observations gain) = acquire s refs cost observations gain
advance s (execution_step_completed cost latency succeeded) = record s {
  resources = spend s cost;
  trajectory = if succeeded then s.trajectory else fail_more s.trajectory;
}
advance s (progress_updated progress gain) = record s {
  trajectory = record s.trajectory {
    progress = clamp01 progress 0;
    information_gain = clamp01 gain s.trajectory.information_gain;
  };
}
advance s (failure_detected signature cost) = record s {
  resources = spend s cost;
  trajectory = fail_more s.trajectory;
}
advance s (trajectory_state_changed p) = record s { trajectory = change_trajectory s.trajectory p }
advance s (budget_updated b) = record s {
  resources = record s.resources {
    total_token_budget = non_negative b.total_token_budget s.resources.total_token_budget;
    optimization_tokens = non_negative b.optimization_tokens s.resources.optimization_tokens;
    recovery_reserve = non_negative b.recovery_reserve s.resources.recovery_reserve;
    latency_budget_ms = or_else b.latency_budget_ms s.resources.latency_budget_ms;
  };
}
advance s (intervention_decided decision action cost) = record s {
  resources = record s.resources {
    optimization_consumed_tokens = s.resources.optimization_consumed_tokens + non_negative cost 0;
  };
}
advance s (validation_result ok confidence cost ids) = record s {
  resources = spend s cost;
  validation = record s.validation {
    status = if ok then passed else failed;
    confidence = clamp01 confidence 0;
  };
  uncertainty = record s.uncertainty {
    validation = min one (s.uncertainty.validation * (one - clamp01 confidence 0) / one);
  };
  trajectory = if ok then s.trajectory else fail_more s.trajectory;
}
advance s (task_completed succeeded) = record s {
  constraints = record s.constraints { hard_stop = true };
}
advance s (task_failed reason) = record s {
  constraints = record s.constraints { hard_stop = true };
}
advance s unheard_of = s

unfoldable pub apply_economic_event : EconomicState → EconomicEvent → EconomicState
unfolding advance normalize_economic_state
apply_economic_event s e =
    normalize_economic_state (record (advance s e) { version = s.version + 1 })

unfoldable pub replay : EconomicState → List EconomicEvent → EconomicState
replay s [] = s
replay s (e ∷ es) = replay (apply_economic_event s e) es
