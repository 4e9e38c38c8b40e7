-- ===== src/Delegation/Decision/Outcomes.antt =====
-- When a node delegates, and when it asks a person for a larger budget.
use cherry_on_top.Base.{ℕ, ◌*◌, ◌≤◌, ◌<◌, ◌≡◌, ◌≢◌, ◌↔◌, sym, ap, ◌∙◌, true, Option, get_or, arith}
use cherry_on_top.Authority.{Authority}
use cherry_on_top.Delegation.{child_authority, min_agent_budget_usd}
use cherry_on_top.Delegation.Bounds.{child_authority_limits}
use cherry_on_top.Delegation.Decision.{
  low, delegate, escalate, DecideExecutionInput, decide_execution, score_delegation,
  default_economics_input,
}

-- the node may split its work, and the work is worth it
abbrev pub IsWorthIt : DecideExecutionInput → Type 0
IsWorthIt input =
    (input.authority.spawn_children ≡ true)
    × ((get_or input.worth_splitting true ≡ true) × (input.complexity ≢ low))

-- A node delegates exactly when it may, the work is not known to be one piece, is of medium or
-- high complexity, its budget pays for two agents and it may have at least one. It asks a
-- person for a larger budget exactly when the work is worth splitting in the same way and its
-- budget does not pay for two agents, whether or not it may have an agent.
pub decide_execution_iff :
    (input : DecideExecutionInput)
    → (((decide_execution input).outcome ≡ delegate) ↔ (
        IsWorthIt input
        × ((2 * min_agent_budget_usd ≤ input.authority.budget_usd)
            × (1 ≤ input.authority.max_child_count))))
      × (((decide_execution input).outcome ≡ escalate)
          ↔ (IsWorthIt input × (input.authority.budget_usd < 2 * min_agent_budget_usd)))
unfolding decide_execution score_delegation default_economics_input
decide_execution_iff input = ground arith

-- A node with the authority of a child that childAuthority made never asks a person for a
-- larger budget, whatever its goal: it may only delegate if its budget pays for it.
pub child_never_escalates :
    (input : DecideExecutionInput) (parent : Authority) (k : ℕ) (approved : Option ℕ)
    → input.authority ≡ child_authority parent k approved
    → (decide_execution input).outcome ≢ escalate
child_never_escalates input parent k approved same asks =
    let ((may, _), short) = (decide_execution_iff input).1.0 asks in
    let (_, _, enough) = child_authority_limits parent k approved in
    let (_, _, pays) = enough (ap (λ (a : Authority). a.spawn_children) (sym same) ∙ may) in
    omega (arith, short, pays, ap (λ (a : Authority). a.budget_usd) same)
