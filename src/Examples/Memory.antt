-- ===== src/Examples/Memory.antt =====
-- The frontier of knowledge and the graph of work, on concrete inputs.
use cherry_on_top.Base.{◌≡◌, ◌≢◌, ◌↔◌, refl, String, true, false, Option, none, some, List, [], ◌∷◌}
use cherry_on_top.Context.{
  ContextRef, FrontierUpdate, empty_frontier, update_frontier, without, unseen, add_refs, keys,
  key_of, diff_projections, index_from, set_ref, ref_of, compare_with,
}
use cherry_on_top.Context.Buckets as Buckets
use cherry_on_top.Context.Buckets.{AreDisjoint, update_all}
use cherry_on_top.ExecutionGraph.{
  NodeRow, ExecutionNode, running, is_terminal, execution_node, execution_graph, is_ready,
  block_reason,
}
use cherry_on_top.ExecutionGraph.Ready as Ready

abbrev reference : String → String → ContextRef
reference id hash = record { semantic_id = id; version = 1; content_hash = hash }

abbrev updates : List FrontierUpdate
updates =
    record {
      learned = reference "a" "1" ∷ [];
      raised = reference "b" "1" ∷ reference "a" "1" ∷ [];
      ruled_out = [];
    }
    ∷ record { learned = []; raised = []; ruled_out = reference "a" "1" ∷ [] }
    ∷ []

updates_rule_out : (update_all empty_frontier updates).known ≡ []
unfolding update_frontier without unseen add_refs keys key_of
updates_rule_out = refl

frontier_disjoint_example : AreDisjoint (update_all empty_frontier updates)
frontier_disjoint_example = Buckets.frontier_disjoint updates

changed_file :
    (diff_projections (reference "a" "1" ∷ reference "b" "1" ∷ []) (reference "a" "2" ∷ [])).changed
    ≡ (reference "a" "1", reference "a" "2") ∷ []
unfolding diff_projections index_from set_ref ref_of compare_with
changed_file = refl

abbrev row : String → Option String → String → NodeRow
row id parent state = record {
  id = id;
  parent_id = parent;
  goal = "g";
  state = state;
  budget_usd = 5;
}

abbrev rows : List NodeRow
rows = row "root" none "PLAN" ∷ row "leaf" (some "root") "SELF_EXECUTE" ∷ []

abbrev graph : List ExecutionNode
graph = execution_graph rows (λ id. false)

abbrev root : ExecutionNode
root = execution_node rows (λ id. false) (row "root" none "PLAN")

ready_or_blocked_example :
    (is_terminal root.state ≡ false
      → root.state ≢ running
      → (is_ready graph root ≡ true) ↔ (block_reason graph root ≡ none))
    × ((is_terminal root.state ≡ true
          → (is_ready graph root ≡ false) × (block_reason graph root ≡ none))
        × (root.state ≡ running → is_ready graph root ≡ false))
ready_or_blocked_example = Ready.ready_or_blocked graph root
