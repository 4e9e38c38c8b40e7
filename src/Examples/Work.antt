-- ===== src/Examples/Work.antt =====
-- The planner of parallel work, on concrete inputs.
use cherry_on_top.Base.{
  ℕ, ◌≡◌, ◌≢◌, refl, ◌↔◌, String, true, none, List, [], ◌∷◌, map, arith, includes, occurrences,
  str_eq, All, if◌then◌else◌,
}
use cherry_on_top.Workstreams.Graph.{
  WorkstreamNode, ids, prepare, waits_of, normalize, conflict_between, edges, edges_of, overlap,
  is_required, prerequisites, insert_node, sort_nodes,
}
use cherry_on_top.Workstreams.Graph.Laws.{IsDistinct, IsDistinct-cons}
use cherry_on_top.Workstreams.Scheduler.{
  plan_workstreams, schedule, layers, layer, serialize, pick, blocker, add_all, is_ready,
}
use cherry_on_top.Workstreams.Scheduler.Rounds.{flat}
use cherry_on_top.Workstreams.Scheduler.Groups.{AreApart}
use cherry_on_top.Workstreams.Scheduler.Order.{IsAcyclic, AreOrdered}
use cherry_on_top.Workstreams.Scheduler.Plan
use cherry_on_top.Workstreams.Fallout.{dependents_of, sweep, rounds}
use cherry_on_top.Workstreams.Fallout.Reach.{Falls}
use cherry_on_top.Workstreams.Fallout.Reach

abbrev node : String → List String → List String → WorkstreamNode
node id needs writes = record {
  id = id;
  input_dependencies = needs;
  information_dependencies = "map" ∷ [];
  output_dependencies = [];
  validation_dependencies = [];
  write_paths = writes;
}

abbrev first_two : List WorkstreamNode
first_two = node "b" ("a" ∷ []) ("x.ts" ∷ []) ∷ node "a" [] [] ∷ []

abbrev first_three : List WorkstreamNode
first_three = node "c" ("a" ∷ []) ("x.ts" ∷ []) ∷ first_two

-- b and c write one file, and d waits for both
abbrev work : List WorkstreamNode
work = node "d" ("b" ∷ "c" ∷ []) [] ∷ first_three

work_groups :
    (plan_workstreams work none).parallel_groups
    ≡ ("a" ∷ []) ∷ ("b" ∷ []) ∷ ("c" ∷ []) ∷ ("d" ∷ []) ∷ []
unfolding plan_workstreams schedule layers layer serialize pick blocker add_all is_ready waits_of
    edges edges_of overlap is_required prerequisites insert_node sort_nodes prepare normalize
    conflict_between
work_groups = refl

work_dependents : dependents_of work "b" ≡ "d" ∷ []
unfolding dependents_of sweep rounds waits_of edges edges_of is_required prerequisites normalize
work_dependents = refl

work-IsDistinct : IsDistinct work
work-IsDistinct = IsDistinct-cons (node "d" ("b" ∷ "c" ∷ []) []) first_three refl (
    IsDistinct-cons (node "c" ("a" ∷ []) ("x.ts" ∷ [])) first_two refl (
      IsDistinct-cons (node "b" ("a" ∷ []) ("x.ts" ∷ [])) (node "a" [] [] ∷ []) refl
        (IsDistinct-cons (node "a" [] []) [] refl (λ x. omega arith))))

plan_complete_example :
    occurrences "c" (flat (plan_workstreams work none).parallel_groups) ≡ occurrences "c" (ids work)
plan_complete_example = Plan.plan_complete work none work-IsDistinct "c"

plan_isolated_example :
    All (AreApart (plan_workstreams work none).nodes) (plan_workstreams work none).parallel_groups
plan_isolated_example = Plan.plan_isolated work none work-IsDistinct

abbrev depth : String → ℕ
depth x = if str_eq x "a" then 0 else if str_eq x "d" then 2 else 1

work-IsAcyclic : IsAcyclic (prepare work) depth
unfolding waits_of edges edges_of is_required prerequisites insert_node sort_nodes prepare normalize
work-IsAcyclic = (refl, (refl, (refl, (refl, tt))))

plan_ordered_example :
    AreOrdered (plan_workstreams work none).nodes [] (plan_workstreams work none).parallel_groups
plan_ordered_example = Plan.plan_ordered work none depth work-IsDistinct work-IsAcyclic

dependents_of_iff_example :
    (includes (dependents_of work "b") "d" ≡ true)
    ↔ (Falls (map normalize work) "b" "d" × (◌≢◌ {A = String} "d" "b"))
dependents_of_iff_example = Reach.dependents_of_iff work "b" "d"
