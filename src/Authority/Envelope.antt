-- ===== src/Authority/Envelope.antt =====
-- What a contract permits and where it stops, before anything runs:
-- src/engines/simulate-authority.ts. A sentence is a constructor with what it shows; an absent or
-- empty deadline is `none`.
use cherry_on_top.Base.{
  ℕ, suc, String, Bool, ◌&&◌, Option, none, some, List, [], ◌∷◌, ◌++◌, if◌then◌else◌, ltb, length,
}
use cherry_on_top.Authority.{Authority, is_restricted, is_read_only}

pub data ToolPhrase : Type 0 where
  any_tool : ToolPhrase
  read_only : List String → ToolPhrase
  only : List String → ToolPhrase

pub data Permit : Type 0 where
  build_organization : ℕ → Permit
  work_alone : Permit
  spend_up_to : ℕ → Permit
  use_tools : ToolPhrase → Permit
  https_only : Permit

pub data Stop : Type 0 where
  needing_more_than : ℕ → Stop
  needing_agent_beyond : ℕ → Stop
  tool_outside_grant : Stop
  still_running_at : String → Stop

pub record AuthorityEnvelope : Type 0 where
  pub permits : List Permit
  pub stops : List Stop
  pub advisory : List String

unfoldable pub tool_phrase : Authority → ToolPhrase
unfolding is_read_only
tool_phrase authority =
    if is_restricted authority
    then (if is_read_only authority then read_only authority.tools else only authority.tools)
    else any_tool

-- `authority.spawn_children && authority.max_child_count > 0`
abbrev pub may_delegate : Authority → Bool
may_delegate authority = authority.spawn_children && ltb 0 authority.max_child_count

abbrev deadline_stop : Option String → List Stop
deadline_stop none = []
deadline_stop (some at) = still_running_at at ∷ []

unfoldable pub simulate_authority : Authority → List String → Option String → AuthorityEnvelope
unfolding tool_phrase
simulate_authority authority constraints hard_at = record {
  permits =
      (if may_delegate authority then build_organization authority.max_child_count else work_alone)
      ∷ spend_up_to authority.budget_usd
      ∷ use_tools (tool_phrase authority)
      ∷ https_only
      ∷ [];
  stops =
      needing_more_than authority.budget_usd
      ∷ ((if may_delegate authority
            then needing_agent_beyond authority.max_child_count ∷ []
            else [])
          ++ ((if is_restricted authority then tool_outside_grant ∷ [] else [])
              ++ deadline_stop hard_at));
  advisory = constraints;
}

pub data ToolSummary : Type 0 where
  any_tool_allowed : ToolSummary
  read_only_tools : ToolSummary
  tool_count : ℕ → ToolSummary

-- how many agents, the ceiling, and the tools, of the one-line version
unfoldable pub summarize_authority : Authority → ℕ × ℕ × ToolSummary
unfolding is_read_only
summarize_authority authority = (
  if may_delegate authority then suc authority.max_child_count else 1,
  authority.budget_usd,
  if is_restricted authority
      then (if is_read_only authority then read_only_tools else tool_count (length authority.tools))
      else any_tool_allowed,
)
