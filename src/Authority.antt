-- ===== src/Authority.antt =====
-- What a node may do: src/schemas/node-contract.ts, src/engines/authority.ts and
-- src/engines/enforce-tools.ts. Amounts of money are whole units of a fixed fraction of a dollar
-- (`usd` units make one dollar).
pub mod Envelope
pub mod Limits
pub mod Custody
use text.Mathlib.Text.{starts_with}
use cherry_on_top.Base.{
  ℕ, ◌+◌, ◌*◌, min, String, Bool, true, false, not, ◌&&◌, ◌||◌, Option, none, some, List, [], ◌∷◌,
  if◌then◌else◌, filter, any, includes, str_eq, str_append,
}

pub record Authority : Type 0 where
  pub tools : List String
  pub spawn_children : Bool
  pub max_child_count : ℕ
  pub budget_usd : ℕ

abbrev pub usd : ℕ
usd = 1000000

-- `effectiveAuthority`
unfoldable pub effective_authority : Authority → Authority → Authority → Authority
effective_authority platform_max parent_granted child_requested = record {
  tools =
      filter (λ tool. includes platform_max.tools tool && includes parent_granted.tools tool)
        child_requested.tools;
  spawn_children =
      platform_max.spawn_children
      && (parent_granted.spawn_children && child_requested.spawn_children);
  max_child_count =
      min platform_max.max_child_count
        (min parent_granted.max_child_count child_requested.max_child_count);
  budget_usd =
      min platform_max.budget_usd (min parent_granted.budget_usd child_requested.budget_usd);
}

-- An empty `tools` list means unrestricted.
unfoldable pub is_restricted : Authority → Bool
is_restricted authority = elim authority.tools [ [] ↦ false | _ ↦ true ]

-- `matches`: a grant of `mcp__github` permits every tool of that server
unfoldable pub tool_matches : String → String → Bool
tool_matches granted tool =
    if str_eq granted tool then true else starts_with tool (str_append granted "__")

unfoldable pub is_tool_allowed : Authority → String → Bool
unfolding is_restricted
is_tool_allowed authority tool =
    if not (is_restricted authority)
    then true
    else any (λ granted. tool_matches granted tool) authority.tools

unfoldable pub allowed_tools : Authority → Option (List String)
unfolding is_restricted
allowed_tools authority = if is_restricted authority then some authority.tools else none

abbrev writers : List String
writers = "Write" ∷ "Edit" ∷ "NotebookEdit" ∷ "Bash" ∷ []

unfoldable pub is_read_only : Authority → Bool
unfolding is_restricted
is_read_only authority =
    if not (is_restricted authority)
    then false
    else not (any (λ tool. includes writers tool) authority.tools)
