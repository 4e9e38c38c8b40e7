-- ===== src/Examples/Nodes.antt =====
-- Validation and the life of a node, on concrete inputs.
use cherry_on_top.Base.{
  All, ◌≤◌, ◌≡◌, refl, Bool, true, false, Option, none, some, List, [], ◌∷◌, ap, String, length,
}
use cherry_on_top.Authority.{usd}
use cherry_on_top.Validation.{
  v2, RequiredCheck, ValidationEvidence, FreshRun, ObservedCheck, level_model, required_confidence,
  validate, assess, climb, conclude,
}
use cherry_on_top.Validation.Verdicts
use cherry_on_top.Validation.Verdicts.{Supports, demanded}
use cherry_on_top.Lifecycle.{
  Machine, Context, Event, StepResult, Decision, IntelligenceBundle, ValidationVerdict, start,
  approved, assessed, decided, executed, delegated, escalated, validated, validation_error, cancel,
  new, run, step, strategy_of, signature_of, has_succeeded, is_rate_limited, on_assessed,
  on_decided, on_delegated, on_validated, new_context, strategy_retry_allowed,
}
use cherry_on_top.Lifecycle as Life
use cherry_on_top.Lifecycle.Progress
use cherry_on_top.Lifecycle.Progress.{AllEffective}
use cherry_on_top.Lifecycle.Invariant
use cherry_on_top.Lifecycle.Invariant.{is_validated, is_approval}

abbrev claim : ValidationEvidence
claim = record {
  claimed_success = true;
  artifact_ids = [];
  durable_outcome_ids = [];
  observed_checks = [];
  required_checks = [];
}

abbrev check : String → Bool → ObservedCheck
check id passed = record { id = id; command = "npm test"; passed = passed }

abbrev mixed : ValidationEvidence
mixed = record claim { observed_checks = check "one" true ∷ check "two" false ∷ [] }

abbrev red : ValidationEvidence
red = record claim { observed_checks = check "two" false ∷ [] }

abbrev fresh : Option (Option FreshRun)
fresh = some (some (record { passed = true; evidence_id = "run"; tokens = 0; latency_ms = 7 }))

fresh_costs : (validate claim none fresh).tokens ≡ 2000
unfolding validate climb conclude assess level_model required_confidence
fresh_costs = refl

mixed_passes : (validate mixed none none).passed ≡ true
unfolding validate climb conclude assess level_model required_confidence
mixed_passes = refl

validate_sound_example :
    Supports (validate mixed none none).level mixed none (validate mixed none none).evidence_ids
    × (demanded none ≤ (level_model (validate mixed none none).level).confidence)
    × All (λ (c : RequiredCheck). c.met ≡ true) mixed.required_checks
validate_sound_example = Verdicts.validate_sound mixed none none mixed_passes

abbrev bundle : IntelligenceBundle
bundle = record {
  sufficient_context = true;
  complexity = Life.medium;
  worth_splitting = true;
  signals = [];
}

abbrev decision : Life.Outcome → Decision
decision o = record { outcome = o; required_budget = some usd; available_budget = some 0 }

abbrev done : StepResult
done = record { succeeded = true; message = "done"; not_delegatable = false; rate_limited = false }

abbrev verdict : ValidationVerdict
verdict = record {
  result = record {
    level = v2;
    passed = true;
    confidence = 85;
    tokens = 0;
    latency_ms = 0;
    evidence_ids = "one" ∷ [];
    reason_codes = [];
  };
  strategy = none;
  failure_signature = none;
  progress = none;
}

abbrev life : List Event
life =
    start
    ∷ assessed bundle
    ∷ decided (decision Life.Outcome.escalate)
    ∷ escalated
    ∷ approved
    ∷ delegated done
    ∷ validated verdict
    ∷ []

abbrev node : Machine
node = new "n1" "ship it"

life_completes : (run node life).state ≡ Life.complete
unfolding run new step
life_completes = refl

complete_validated_example :
    (has_succeeded (run node life).context.last_result ≡ true)
    × (is_validated (run node life).context.last_validation ≡ true)
complete_validated_example = Invariant.complete_validated "n1" "ship it" life life_completes

attempts_bounded_example :
    let c = (run node life).context in
    (c.gate_attempts ≤ 3)
    × (c.execution_attempts ≤ 3)
    × (length c.strategies ≤ 3)
    × (length c.strategies ≡ length c.failure_signatures)
attempts_bounded_example = Invariant.attempts_bounded "n1" "ship it" life

started : AllEffective node (start ∷ cancel ∷ [])
unfolding step new
started =
    (λ e. cc (ap (λ (m : Machine). m.state) e), (λ e. cc (ap (λ (m : Machine). m.state) e), tt))

effective_events_bounded_example : length {A = Event} (start ∷ cancel ∷ []) ≤ 29
effective_events_bounded_example =
    Progress.effective_events_bounded node (start ∷ cancel ∷ []) started

run_final_example : run (run node life) (start ∷ cancel ∷ []) ≡ run node life
unfolding run new step
run_final_example = Progress.run_final (run node life) (start ∷ cancel ∷ []) refl

abbrev tried : Context
tried = record (node.context) {
  last_result = some (record done { succeeded = false });
  execution_attempts = 1;
  strategies = "MANAGED" ∷ [];
  failure_signatures = "unknown" ∷ [];
}

abbrev limited : Context
limited = record (node.context) { last_result = some (record done { rate_limited = true }) }
