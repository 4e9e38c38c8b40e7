-- ===== src/Examples/Spending.antt =====
-- The spend guard, on concrete inputs.
use cherry_on_top.Base.{◌≤◌, ◌<◌, ◌≡◌, ◌⊎◌, ◌↔◌, refl, none, some, true}
use cherry_on_top.SpendGuard.{
  stop, SpendGuardInput, evaluate_spend_guard, finite, judge, reading_of, is_stalled, warn,
}
use cherry_on_top.SpendGuard.Escalation as Escalation
use cherry_on_top.SpendGuard.Escalation.{severity, spending}

-- five dollars, forty turns judged to be needed, one hundred at most
abbrev task : SpendGuardInput
task = record {
  spent_usd = some 3000000;
  spend_cap_usd = some 5000000;
  turns = some 42;
  soft_turn_target = some 40;
  hard_turn_cap = some 100;
  exploration_signal = some 90;
  progress_signal = some 5;
  repeated_failure_signal = none;
}

task_stalls : (evaluate_spend_guard task).state ≡ stop
unfolding evaluate_spend_guard judge reading_of is_stalled warn
task_stalls = refl

abbrev unmeasured : SpendGuardInput
unmeasured = record task { spend_cap_usd = none; hard_turn_cap = some 0 }

guard-hard_iff_example : ((evaluate_spend_guard task).hard ≡ true) ↔ (
    ((0 < finite task.spend_cap_usd) × (finite task.spend_cap_usd ≤ finite task.spent_usd))
    ⊎ ((0 < finite task.hard_turn_cap) × (finite task.hard_turn_cap ≤ finite task.turns)))
guard-hard_iff_example = Escalation.guard-hard_iff task
