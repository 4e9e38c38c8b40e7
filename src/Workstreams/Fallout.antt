-- ===== src/Workstreams/Fallout.antt =====
-- `dependentsOf`: everything that cannot proceed if a branch fails; `propagateFailure`.
pub mod Reach
use text.Mathlib.Text.{is_le}
use Prim.Native.String.{compare}
use cherry_on_top.Base.{
  ℕ, zero, suc, ◌+◌, ◌-◌, ◌*◌, max, String, Bool, true, false, not, ◌&&◌, ◌||◌, Option, none, some,
  List, [], ◌∷◌, ◌++◌, map, if◌then◌else◌, ltb, length, filter, all, any, includes, add, unique,
  sort, str_eq, str_append, join, occurrences,
}
use cherry_on_top.Workstreams.Graph.{
  WorkstreamNode, WorkstreamPlan, empty_plan, ids, waits_of, conflict_between, normalize, prepare,
}

-- one pass of `dependentsOf`; `grew` is whether it added a node
unfoldable pub sweep :
    List WorkstreamNode → List WorkstreamNode → List String → Bool → List String × Bool
unfolding waits_of
sweep all_nodes [] fallen grew = (fallen, grew)
sweep all_nodes (node ∷ rest) fallen grew =
    let hit =
      not (includes fallen node.id)
      && any (λ id. includes fallen id) (waits_of all_nodes node.id) in
    sweep all_nodes rest (if hit then add fallen node.id else fallen) (grew || hit)

-- the rounds, which end early when nothing grew
unfoldable pub rounds : List WorkstreamNode → ℕ → List String → List String
unfolding sweep
rounds nodes zero fallen = fallen
rounds nodes (suc n) fallen =
    let (fallen', grew) = sweep nodes nodes fallen false in
    let more = rounds nodes n fallen' in if grew then more else fallen'

unfoldable pub dependents_of : List WorkstreamNode → String → List String
unfolding rounds normalize
dependents_of nodes failed_id =
    let normalized = map normalize nodes in
    sort (
      filter (λ id. not (str_eq id failed_id))
        (rounds normalized (length normalized) (failed_id ∷ [])))

-- `propagateFailure`
pub record FailurePropagation : Type 0 where
  pub failed : String
  pub cancelled : List String
  pub unaffected : List String
  pub reasons : List String

unfoldable pub propagate_failure : List WorkstreamNode → String → FailurePropagation
unfolding dependents_of
propagate_failure nodes failed_id =
    let cancelled = dependents_of nodes failed_id in
    let unaffected =
      sort (filter (λ id. not (includes (unique (failed_id ∷ cancelled)) id)) (ids nodes)) in
    if not (includes (ids nodes) failed_id)
    then record {
      failed = failed_id;
      cancelled = [];
      unaffected = sort (ids nodes);
      reasons = "unknown_workstream" ∷ [];
    }
    else record {
      failed = failed_id;
      cancelled = cancelled;
      unaffected = unaffected;
      reasons =
          map (λ id. str_append "cancelled:" (str_append id (str_append ":depends_on:" failed_id)))
            cancelled
          ++ map (λ id. str_append "unaffected:" id) unaffected;
    }
