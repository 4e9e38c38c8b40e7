-- ===== src/Workstreams/Graph.antt =====
-- The pieces of work, who waits for whom, and who must not run at the same time.
pub mod Laws
use text.Mathlib.Text.{is_le}
use Prim.Native.String.{compare}
use cherry_on_top.Base.{
  ℕ, zero, suc, ◌+◌, ◌-◌, ◌*◌, max, String, Bool, true, false, not, ◌&&◌, ◌||◌, Option, none, some,
  List, [], ◌∷◌, ◌++◌, map, if◌then◌else◌, ltb, length, filter, all, any, includes, add, unique,
  sort, str_eq, str_append, join, occurrences,
}

pub record WorkstreamNode : Type 0 where
  pub id : String
  pub input_dependencies : List String
  pub information_dependencies : List String
  pub output_dependencies : List String
  pub validation_dependencies : List String
  pub write_paths : List String

pub record WorkstreamPlan : Type 0 where
  pub nodes : List WorkstreamNode
  pub shared_evidence_ids : List String
  pub parallel_groups : List (List String)
  pub serialization_reasons : List String
  pub information_duplication : ℕ

abbrev pub empty_plan : WorkstreamPlan
empty_plan = record {
  nodes = [];
  shared_evidence_ids = [];
  parallel_groups = [];
  serialization_reasons = [];
  information_duplication = 0;
}

abbrev pub ids : List WorkstreamNode → List String
ids [] = []
ids (n ∷ ns) = n.id ∷ ids ns

unfoldable pub normalize : WorkstreamNode → WorkstreamNode
normalize node = record {
  id = node.id;
  input_dependencies = sort (unique node.input_dependencies);
  information_dependencies = sort (unique node.information_dependencies);
  output_dependencies = sort (unique node.output_dependencies);
  validation_dependencies = sort (unique node.validation_dependencies);
  write_paths = sort (unique node.write_paths);
}

-- who must wait for whom, as (waiter, prerequisite), in the order of the calls of `require`
unfoldable pub edges_of : WorkstreamNode → List (String × String)
edges_of node =
    map (λ (id : String). (node.id, id)) node.input_dependencies
    ++ (map (λ (id : String). (node.id, id)) node.validation_dependencies
        ++ map (λ (id : String). (id, node.id)) node.output_dependencies)

unfoldable pub edges : List WorkstreamNode → List (String × String)
edges [] = []
edges (n ∷ ns) = edges_of n ++ edges ns

-- the test of `require`, for the waiter `id`
unfoldable pub is_required : List String → String → String × String → Bool
is_required known id (waiter, prerequisite) =
    str_eq waiter id
    && (includes known prerequisite && (includes known waiter && not (str_eq waiter prerequisite)))

unfoldable pub prerequisites : List (String × String) → List String
prerequisites [] = []
prerequisites ((waiter, prerequisite) ∷ es) = prerequisite ∷ prerequisites es

-- `orderingEdges(nodes, known).get(id)`, with `known` the ids of the nodes
unfoldable pub waits_of : List WorkstreamNode → String → List String
unfolding edges_of edges is_required prerequisites
waits_of nodes id = unique (prerequisites (filter (is_required (ids nodes) id) (edges nodes)))

unfoldable pub overlap : WorkstreamNode → WorkstreamNode → List String
overlap a b = filter (λ path. includes b.write_paths path) a.write_paths

unfoldable pub conflict_between : WorkstreamNode → WorkstreamNode → Option String
unfolding overlap
conflict_between a b = elim (overlap a b) [
  | [] ↦ none
  | path ∷ paths ↦ some (
      str_append "write_conflict:" (
        str_append (join "+" (sort (a.id ∷ b.id ∷ []))) (str_append ":" (join "," (path ∷ paths)))))
]

-- `sort` by id, which keeps the order of nodes with one id
unfoldable pub insert_node : WorkstreamNode → List WorkstreamNode → List WorkstreamNode
insert_node n [] = n ∷ []
insert_node n (m ∷ ms) =
    let rest = insert_node n ms in if is_le (compare n.id m.id) then n ∷ m ∷ ms else m ∷ rest

unfoldable pub sort_nodes : List WorkstreamNode → List WorkstreamNode
unfolding insert_node
sort_nodes [] = []
sort_nodes (n ∷ ns) = insert_node n (sort_nodes ns)

-- the nodes of the plan
unfoldable pub prepare : List WorkstreamNode → List WorkstreamNode
unfolding sort_nodes
prepare nodes = sort_nodes (map normalize nodes)
