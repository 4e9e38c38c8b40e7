-- ===== src/Delegation/FanOut.antt =====
-- Handing the pieces of a goal to children: delegationTopology, workstreamNodesFor and
-- delegateToChildren of src/lifecycle/delegate-child.ts. A piece is named by its node's id. The goal of
-- a piece, the id that createChildNode returns for it and the end of that child, which waitForChild
-- reports, are given; so are the anchors that a goal's text names, whether it only investigates, and
-- the verdict on the plan. Here the graph of the pieces is an argument; Subgoals builds it from the
-- planner's subgoals with `workstream_nodes_for`, and validates the plan. A waitForChild that rejects
-- is not modelled. The calls are listed in the order in which they are made.
pub mod Calls
pub mod Complete
pub mod Success
pub mod Order
pub mod Planned
pub mod Subgoals
use cherry_on_top.Base.{
  ℕ, ◌+◌, String, Bool, true, false, not, ◌&&◌, Option, none, some, List, [], ◌∷◌, ◌++◌, map,
  if◌then◌else◌, ltb, leb, ◌==◌, length, filter, any, includes, str_append, get_or, str_eq,
}
use cherry_on_top.Workstreams.Graph.{WorkstreamNode, WorkstreamPlan, ids}
use cherry_on_top.Workstreams.Scheduler.{plan_workstreams}
use cherry_on_top.Workstreams.Fallout.{dependents_of}

pub data Topology : Type 0 where
  serial_delegated parallel_delegated : Topology

abbrev pub delegation_topology : WorkstreamPlan → List String → Topology
delegation_topology plan selected_action_kinds =
    if any (λ group. ltb 1 (length group)) plan.parallel_groups
      && includes selected_action_kinds "parallelize"
    then parallel_delegated
    else serial_delegated

pub record ChildResult : Type 0 where
  pub piece : String
  pub child_id : String
  pub goal : String
  pub succeeded : Bool

pub record CancelledPiece : Type 0 where
  pub piece : String
  pub goal : String
  pub reason : String

pub data Call : Type 0 where
  create_child_node : String → String → ℕ → Option ℕ → Call
  record_commitment : String → String → Call
  record_envelope : String → String → ℕ → Call
  start_child : String → String → Call
  wait_for_child : String → Call

-- the variables of the loop over the groups
pub record Running : Type 0 where
  pub calls : List Call
  pub results : List ChildResult
  pub cancelled : List CancelledPiece
  pub doomed : List (String × String)

abbrev pub nothing_run : Running
nothing_run = record { calls = []; results = []; cancelled = []; doomed = [] }

-- `doomed.get(id)`
abbrev pub reason_for : List (String × String) → String → Option String
reason_for [] id = none
reason_for ((piece, reason) ∷ rest) id =
    let later = reason_for rest id in if str_eq piece id then some reason else later

-- `doomed.has(id)`
abbrev pub is_doomed : List (String × String) → String → Bool
is_doomed doomed id = elim (reason_for doomed id) [ none ↦ false | some reason ↦ true ]

-- dooms what is not doomed
abbrev pub doom : String → List (String × String) → List String → List (String × String)
doom reason doomed [] = doomed
doom reason doomed (x ∷ xs) =
    doom reason (if is_doomed doomed x then doomed else doomed ++ (x, reason) ∷ []) xs

pub record Children : Type 0 where
  pub goal_of : String → String
  pub child_of : String → String
  pub succeeds : String → Bool

pub record DelegateInput : Type 0 where
  pub parent_id : String
  pub approved_budget_usd : Option ℕ

module _ (c : Children) where
  abbrev pub result_of : String → ChildResult
  result_of id = record {
    piece = id;
    child_id = c.child_of id;
    goal = c.goal_of id;
    succeeded = c.succeeds (c.child_of id);
  }

  abbrev pub cancelled_piece : List (String × String) → String → CancelledPiece
  cancelled_piece doomed id = record {
    piece = id;
    goal = c.goal_of id;
    reason = get_or (reason_for doomed id) "";
  }

  -- what is called for each piece before its group is waited for
  abbrev pub starts : DelegateInput → ℕ → List String → List Call
  starts input siblings [] = []
  starts input siblings (id ∷ rest) =
      create_child_node input.parent_id (c.goal_of id) siblings input.approved_budget_usd
      ∷ record_commitment (c.child_of id) (c.goal_of id)
      ∷ record_envelope (c.child_of id) (c.goal_of id) (get_or input.approved_budget_usd 0)
      ∷ start_child (c.child_of id) (c.goal_of id)
      ∷ starts input siblings rest

  module _ (nodes : List WorkstreamNode) where
    -- what the failures of a group doom
    abbrev pub doom_failed : List (String × String) → List ChildResult → List (String × String)
    doom_failed doomed [] = doomed
    doom_failed doomed (r ∷ rs) =
        let reason = str_append "depends on the failed piece: " r.goal in
        doom_failed
          (if r.succeeded then doomed else doom reason doomed (dependents_of nodes r.piece)) rs

    -- one round of the loop; a group with nothing to run changes nothing but `cancelled`
    unfoldable pub run_group : DelegateInput → Running → List String → Running
    run_group input s group =
        let runnable = filter (λ id. not (is_doomed s.doomed id)) group in
        let stopped = filter (λ id. is_doomed s.doomed id) group in
        let settled = map result_of runnable in
        record {
          calls =
              s.calls
              ++ starts input (length nodes) runnable
              ++ map (λ id. wait_for_child (c.child_of id)) runnable;
          results = s.results ++ settled;
          cancelled = s.cancelled ++ map (cancelled_piece s.doomed) stopped;
          doomed = doom_failed s.doomed settled;
        }

    unfoldable pub run_groups : DelegateInput → Running → List (List String) → Running
    run_groups input s [] = s
    run_groups input s (g ∷ gs) = run_groups input (run_group input s g) gs

pub data Message : Type 0 where
  already_split : ℕ → Message
  not_split not_worth_funding : Message
  all_completed : ℕ → Message
  some_failed : ℕ → ℕ → List String → ℕ → Message

pub record DelegationResult : Type 0 where
  pub succeeded : Bool
  pub not_delegatable : Bool
  pub message : Message
  pub topology : Option Topology
  pub running : Running

abbrev refused : Message → DelegationResult
refused message = record {
  succeeded = false;
  not_delegatable = true;
  message = message;
  topology = none;
  running = nothing_run;
}

abbrev pub failed_of : List ChildResult → List ChildResult
failed_of results = filter (λ r. not r.succeeded) results

abbrev pub goals_of : List ChildResult → List String
goals_of [] = []
goals_of (r ∷ rs) = r.goal ∷ goals_of rs

-- what is returned after the loop
unfoldable pub conclude_delegation : WorkstreamPlan → Running → DelegationResult
conclude_delegation plan s =
    let failed = failed_of s.results in
    let done = length failed == 0 && length s.cancelled == 0 in
    record {
      succeeded = done;
      not_delegatable = false;
      message =
          if done
          then all_completed (length s.results)
          else some_failed (length failed) (length s.results) (goals_of failed)
              (length s.cancelled);
      topology = some (delegation_topology plan ("parallelize" ∷ []));
      running = s;
    }

-- `nodes` are those of the subgoals that are not blank, and `valid` is the verdict on their plan
unfoldable pub delegate_to_children :
    Children → DelegateInput → ℕ → List WorkstreamNode → Bool → DelegationResult
unfolding run_groups conclude_delegation
delegate_to_children c input existing_children nodes valid =
    let plan = plan_workstreams nodes none in
    if ltb 0 existing_children
    then refused (already_split existing_children)
    else if length nodes == 0
    then refused not_split
    else if not valid
    then refused not_worth_funding
    else conclude_delegation plan (run_groups c nodes input nothing_run plan.parallel_groups)

-- `workstreamNodesFor`: the subgoals with the names of their indices
abbrev pub workstream_nodes_for :
    (String → List String) → (String → Bool) → List (String × String) → List WorkstreamNode
workstream_nodes_for anchors investigates [] = []
workstream_nodes_for anchors investigates ((name, goal) ∷ rest) =
    record {
      id = name;
      input_dependencies = [];
      information_dependencies = anchors goal;
      output_dependencies = [];
      validation_dependencies = [];
      write_paths = if investigates goal then [] else anchors goal;
    }
    ∷ workstream_nodes_for anchors investigates rest
