-- ===== src/ExecutionGraph.antt =====
-- What is ready, what is blocked and what is done: src/execution/graph.ts. The rows of the nodes
-- are a list, and whether the log says that a node's answer was reused is an argument.
pub mod Ready
use cherry_on_top.Base.{
  ℕ, zero, suc, ◌+◌, String, Bool, true, false, not, ◌&&◌, ◌||◌, Option, none, some, List, [], ◌∷◌,
  ◌++◌, map, if◌then◌else◌, ltb, str_eq, filter, all, length, get_or, is_some,
}

pub data ExecutionNodeState : Type 0 where
  pending ready running completed reused blocked failed cancelled : ExecutionNodeState

-- `STATE_MAP[state] ?? 'pending'`
unfoldable pub state_of : String → ExecutionNodeState
state_of s =
    if str_eq s "CREATED"
    then pending
    else if str_eq s "ORIENT"
    then ready
    else if str_eq s "PLAN"
    then ready
    else if str_eq s "INTELLIGENCE_GATE"
    then ready
    else if str_eq s "EXECUTION_DECISION"
    then ready
    else if str_eq s "SELF_EXECUTE"
    then running
    else if str_eq s "DELEGATE"
    then running
    else if str_eq s "VALIDATE"
    then running
    else if str_eq s "VERIFY"
    then running
    else if str_eq s "ESCALATE"
    then blocked
    else if str_eq s "WAIT_APPROVAL"
    then blocked
    else if str_eq s "COMPLETE"
    then completed
    else if str_eq s "FAILED"
    then failed
    else if str_eq s "CANCELLED"
    then cancelled
    else pending

pub record NodeRow : Type 0 where
  pub id : String
  pub parent_id : Option String
  pub goal : String
  pub state : String
  pub budget_usd : ℕ

pub record ExecutionNode : Type 0 where
  pub id : String
  pub parent_id : Option String
  pub goal : String
  pub state : ExecutionNodeState
  pub machine_state : String
  pub dependencies : List String
  pub cost_budget_usd : ℕ
  pub is_reused : Bool

abbrev pub is_terminal : ExecutionNodeState → Bool
is_terminal completed = true
is_terminal reused = true
is_terminal failed = true
is_terminal cancelled = true
is_terminal _ = false

abbrev is_completed : ExecutionNodeState → Bool
is_completed completed = true
is_completed _ = false

abbrev is_running : ExecutionNodeState → Bool
is_running running = true
is_running _ = false

abbrev is_blocked : ExecutionNodeState → Bool
is_blocked blocked = true
is_blocked _ = false

-- an absent or empty parent id is skipped
abbrev is_child_of : String → NodeRow → Bool
is_child_of id row = elim row.parent_id [
  | none ↦ false
  | some parent ↦ not (str_eq parent "") && str_eq parent id
]

row_ids : List NodeRow → List String
row_ids [] = []
row_ids (row ∷ rows) = row.id ∷ row_ids rows

unfoldable pub children_of : List NodeRow → String → List String
unfolding row_ids
children_of rows id = row_ids (filter (is_child_of id) rows)

unfoldable pub execution_node : List NodeRow → (String → Bool) → NodeRow → ExecutionNode
unfolding state_of children_of
execution_node rows was_reused row =
    let base = state_of row.state in
    let served = is_completed base && was_reused row.id in
    record {
      id = row.id;
      parent_id = row.parent_id;
      goal = row.goal;
      state = if served then reused else base;
      machine_state = row.state;
      dependencies = children_of rows row.id;
      cost_budget_usd = row.budget_usd;
      is_reused = served;
    }

unfoldable pub execution_graph : List NodeRow → (String → Bool) → List ExecutionNode
unfolding execution_node
execution_graph rows was_reused = map (execution_node rows was_reused) rows

-- a `Map` of the nodes by id, where the last node of an id is kept
unfoldable pub by_id : List ExecutionNode → String → Option ExecutionNode
by_id [] id = none
by_id (n ∷ ns) id =
    let later = by_id ns id in
    if is_some later then later else if str_eq n.id id then some n else none

abbrev pub is_settled : Option ExecutionNode → Bool
is_settled none = true
is_settled (some dependency) = is_terminal dependency.state

-- the test of `readyNodes`
unfoldable pub is_ready : List ExecutionNode → ExecutionNode → Bool
unfolding by_id
is_ready graph node =
    if is_terminal node.state || (is_running node.state || is_blocked node.state)
    then false
    else all (λ id. is_settled (by_id graph id)) node.dependencies

unfoldable pub ready_nodes : List ExecutionNode → List ExecutionNode
unfolding is_ready
ready_nodes graph = filter (is_ready graph) graph

pub data BlockReason : Type 0 where
  waiting_on_person : BlockReason
  waiting_on_agents : ℕ → BlockReason

abbrev pub unfinished : List ExecutionNode → List String → List String
unfinished graph ids = filter (λ id. not (is_settled (by_id graph id))) ids

-- why `blockedNodes` lists the node, if it does
unfoldable pub block_reason : List ExecutionNode → ExecutionNode → Option BlockReason
unfolding by_id
block_reason graph node =
    let open_count = length (unfinished graph node.dependencies) in
    if is_terminal node.state
    then none
    else if is_blocked node.state
    then some waiting_on_person
    else if ltb 0 open_count
    then some (waiting_on_agents open_count)
    else none

blocked_from : List ExecutionNode → List ExecutionNode → List (ExecutionNode × BlockReason)
unfolding block_reason
blocked_from graph [] = []
blocked_from graph (n ∷ ns) =
    let rest = blocked_from graph ns in
    elim (block_reason graph n) [ none ↦ rest | some reason ↦ (n, reason) ∷ rest ]

unfoldable pub blocked_nodes : List ExecutionNode → List (ExecutionNode × BlockReason)
unfolding blocked_from
blocked_nodes graph = blocked_from graph graph
