-- ===== src/Workstreams/Scheduler.antt =====
-- `planWorkstreams`: the groups that may run together, in the order that they must run.
pub mod Rounds
pub mod Complete
pub mod Groups
pub mod Order
pub mod Plan
use text.Mathlib.Text.{is_le}
use Prim.Native.String.{compare}
use cherry_on_top.Base.{
  ℕ, zero, suc, ◌+◌, ◌-◌, ◌*◌, max, String, Bool, true, false, not, ◌&&◌, ◌||◌, Option, none, some,
  List, [], ◌∷◌, ◌++◌, map, if◌then◌else◌, ltb, length, filter, all, any, includes, add, unique,
  sort, str_eq, str_append, join, occurrences,
}
use cherry_on_top.Workstreams.Graph.{
  WorkstreamNode, WorkstreamPlan, empty_plan, ids, waits_of, conflict_between, normalize, prepare,
}

needs : List WorkstreamNode → List String
needs [] = []
needs (n ∷ ns) = n.information_dependencies ++ needs ns

unfoldable pub shared_evidence : List WorkstreamNode → List String
unfolding needs
shared_evidence nodes =
    sort (filter (λ id. ltb 1 (occurrences id (needs nodes))) (unique (needs nodes)))

abbrev evidence_cost : Option (String → ℕ) → String → ℕ
evidence_cost none id = 1
evidence_cost (some cost) id = cost id

duplication : List String → Option (String → ℕ) → List String → ℕ
duplication all_needs cost [] = 0
duplication all_needs cost (id ∷ ids) =
    (occurrences id all_needs - 1) * evidence_cost cost id + duplication all_needs cost ids

-- The variables of the loop of `planWorkstreams`.
pub record Schedule : Type 0 where
  pub scheduled : List String
  pub groups : List (List String)
  pub reasons : List String

-- `group.map((other) => conflictBetween(other, node)).find(Boolean)`
unfoldable pub blocker : List WorkstreamNode → WorkstreamNode → Option String
unfolding conflict_between
blocker [] node = none
blocker (other ∷ group) node = elim (conflict_between other node) [
  | some reason ↦ some reason
  | none ↦ blocker group node
]

-- one round's `group`, and the reasons that keep a ready node out of it
unfoldable pub pick :
    List WorkstreamNode → List String → List WorkstreamNode → List WorkstreamNode × List String
unfolding blocker
pick group reasons [] = (group, reasons)
pick group reasons (node ∷ ready) = elim (blocker group node) [
  | some reason ↦ pick group (reasons ++ reason ∷ []) ready
  | none ↦ pick (group ++ node ∷ []) reasons ready
]

unfoldable pub add_all : List String → List String → List String
add_all scheduled [] = scheduled
add_all scheduled (x ∷ xs) = add_all (add scheduled x) xs

abbrev singletons : List String → List (List String)
singletons [] = []
singletons (x ∷ xs) = (x ∷ []) ∷ singletons xs

abbrev pub is_remaining : List String → WorkstreamNode → Bool
is_remaining scheduled node = not (includes scheduled node.id)

module _ (nodes : List WorkstreamNode) where
  unfoldable pub is_ready : List String → WorkstreamNode → Bool
  unfolding waits_of
  is_ready scheduled node =
      not (includes scheduled node.id) && all (λ id. includes scheduled id) (waits_of nodes node.id)

  ordering_reasons : List WorkstreamNode → List String
  unfolding waits_of
  ordering_reasons [] = []
  ordering_reasons (node ∷ group) =
      let rest = ordering_reasons group in
      elim (sort (waits_of nodes node.id)) [
        | [] ↦ rest
        | w ∷ ws ↦
            str_append "ordered_after:" (str_append node.id (str_append "<-" (join "," (w ∷ ws))))
            ∷ rest
      ]

  -- the branch for a cycle: one at a time
  unfoldable pub serialize : Schedule → Schedule
  unfolding add_all
  serialize s =
      let remaining = ids (filter (is_remaining s.scheduled) nodes) in
      record {
        scheduled = add_all s.scheduled remaining;
        groups = s.groups ++ singletons remaining;
        reasons = s.reasons ++ str_append "dependency_cycle:" (join "," remaining) ∷ [];
      }

  -- the branch that has ready nodes
  unfoldable pub layer : Schedule → List WorkstreamNode → Schedule
  unfolding pick ordering_reasons add_all
  layer s ready =
      let (group, reasons) = pick [] s.reasons ready in
      record {
        scheduled = add_all s.scheduled (ids group);
        groups = s.groups ++ sort (ids group) ∷ [];
        reasons = reasons ++ ordering_reasons group;
      }

  -- the `while` loop, with its own `guard`
  unfoldable pub layers : ℕ → Schedule → Schedule
  unfolding is_ready serialize layer
  layers zero s = s
  layers (suc guard) s =
      let ready = filter (is_ready s.scheduled) nodes in
      let next = layers guard (layer s ready) in
      let last = serialize s in
      if ltb (length s.scheduled) (length nodes)
      then (if ltb 0 (length ready) then next else last)
      else s

abbrev pub unscheduled : Schedule
unscheduled = record { scheduled = []; groups = []; reasons = [] }

unfoldable pub schedule : List WorkstreamNode → Schedule
unfolding layers
schedule nodes = layers nodes (suc (length nodes)) unscheduled

-- `evidenceTokenCost` is what one piece of shared knowledge costs, where the caller knows.
unfoldable pub plan_workstreams : List WorkstreamNode → Option (String → ℕ) → WorkstreamPlan
unfolding shared_evidence duplication needs
plan_workstreams input evidence_token_cost =
    let nodes = prepare input in
    let shared = shared_evidence nodes in
    let s = schedule nodes in
    if ltb 0 (length nodes)
    then record {
      nodes = nodes;
      shared_evidence_ids = shared;
      parallel_groups = s.groups;
      serialization_reasons = sort (unique s.reasons);
      information_duplication = duplication (needs nodes) evidence_token_cost shared;
    }
    else empty_plan

-- `coordinationCostOf`
information_needs : List String → List String → List WorkstreamNode → ℕ
information_needs shared group [] = 0
information_needs shared group (node ∷ nodes) =
    let rest = information_needs shared group nodes in
    if includes group node.id
    then length (filter (λ id. includes shared id) node.information_dependencies) + rest
    else rest

unfoldable pub coordination_cost_of : WorkstreamPlan → List String → ℕ → ℕ
unfolding information_needs
coordination_cost_of plan group context_tokens_per_branch =
    let extra_branches = length group - 1 in
    let shared = unique plan.shared_evidence_ids in
    let duplicated = information_needs shared group plan.nodes in
    extra_branches * context_tokens_per_branch + (duplicated - length shared)
