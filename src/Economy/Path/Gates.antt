-- ===== src/Economy/Path/Gates.antt =====
-- Rules come before economics: when an agent is spawned at all.
use cherry_on_top.Base.{◌<◌, ◌≡◌, ◌↔◌, ◌⊎◌, false, none, arith}
use cherry_on_top.Delegation.Decision.{delegate, decide_execution}
use cherry_on_top.Economy.Path.{
  spawn_agent, SafetyInput, hard_gates, safety, ExecutionPathInput, is_answered, receipt_of,
  decide_execution_path,
}

-- no person has to approve it, and the budget, where there is one, is not spent
abbrev pub IsOpen : SafetyInput → Type 0
IsOpen input =
    (input.requires_approval ≡ false)
    × ((input.authority.budget_usd ≡ 0) ⊎ (input.spent_usd < input.authority.budget_usd))

-- An agent is spawned exactly when no person has to approve the work, its budget is not spent (or
-- nobody set one), no valid answer is at hand, the evidence does not close every question, and the
-- economics say to delegate.
pub path-spawns_iff :
    (input : ExecutionPathInput)
    → ((decide_execution_path input).chosen ≡ spawn_agent) ↔ (
        IsOpen (safety input)
        × ((input.reusable ≡ none)
            × ((is_answered input.frontier ≡ false)
                × ((decide_execution input.execution).outcome ≡ delegate))))
unfolding decide_execution_path hard_gates receipt_of
path-spawns_iff input = ground arith
