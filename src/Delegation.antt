-- ===== src/Delegation.antt =====
-- src/lifecycle/delegate-child.ts: the authority a child is created with, and the fan-out.
pub mod Decision
pub mod FanOut
pub mod PlanCheck
pub mod Integration
pub mod Bounds
pub mod Organization
pub mod Promise
use cherry_on_top.Base.{
  ℕ, ◌+◌, ◌-◌, ◌*◌, ◌/◌, max, min, Bool, true, false, ◌&&◌, Option, none, some, List, if◌then◌else◌,
  ltb, leb, ◌==◌, replicate,
}
use cherry_on_top.Authority.{Authority, effective_authority, usd}

-- `MIN_AGENT_BUDGET_USD` of src/engines/decide-execution.ts, half a dollar
abbrev pub min_agent_budget_usd : ℕ
min_agent_budget_usd = usd / 2

abbrev raised : Authority → Option ℕ → Authority
raised parent none = parent
raised parent (some approved) = record parent { budget_usd = max parent.budget_usd approved }

abbrev requested_budget : ℕ → Option ℕ → ℕ
requested_budget share none = share
requested_budget share (some approved) = approved

unfoldable pub child_authority : Authority → ℕ → Option ℕ → Authority
unfolding effective_authority
child_authority parent sibling_count approved_budget_usd =
    let siblings = max 1 sibling_count in
    let each_allowance = (parent.max_child_count - siblings) / siblings in
    let share = parent.budget_usd / (siblings + 1) in
    let granted = raised parent approved_budget_usd in
    let authority = effective_authority granted granted (record granted {
      budget_usd = requested_budget share approved_budget_usd;
      max_child_count = each_allowance;
      spawn_children = ltb 0 each_allowance;
    }) in
    record authority {
      spawn_children =
          authority.spawn_children && leb (min_agent_budget_usd * 2) authority.budget_usd;
    }

pub record AuthorityAllocation : Type 0 where
  pub child_budgets_usd : List ℕ
  pub total_allocated_usd : ℕ
  pub remaining_parent_budget_usd : ℕ

-- `allocateChildAuthority`
unfoldable pub allocate_child_authority : Authority → ℕ → ℕ → AuthorityAllocation
allocate_child_authority parent children reserve_budget_usd =
    let budget = parent.budget_usd in
    let reserve = min budget reserve_budget_usd in
    let allocatable = budget - reserve in
    let each = if children == 0 then 0 else allocatable / children in
    record {
      child_budgets_usd = replicate children each;
      total_allocated_usd = each * children;
      remaining_parent_budget_usd = budget - each * children;
    }
