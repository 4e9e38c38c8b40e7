-- ===== src/Workstreams/Scheduler/Plan.antt =====
-- What `planWorkstreams` returns.
use cherry_on_top.Base.{
  ℕ, ◌≡◌, refl, ◌∙◌, String, false, Option, List, [], ◌∷◌, length, arith, ltb, Bool-cases, All, inl,
  inr, occurrences,
}
use cherry_on_top.Workstreams.Graph.{WorkstreamNode, ids, prepare}
use cherry_on_top.Workstreams.Graph.Laws.{IsDistinct, occurrences-prepare}
use cherry_on_top.Workstreams.Scheduler.{plan_workstreams}
use cherry_on_top.Workstreams.Scheduler.Rounds.{flat}
use cherry_on_top.Workstreams.Scheduler.Complete.{occurrences-schedule}
use cherry_on_top.Workstreams.Scheduler.Order.{AreOrdered, IsAcyclic, schedule-AreOrdered}
use cherry_on_top.Workstreams.Scheduler.Groups.{AreApart, schedule-AreApart}

-- the caller's nodes have one id each, and so have the plan's
IsDistinct-prepare : (input : List WorkstreamNode) → IsDistinct input → IsDistinct (prepare input)
IsDistinct-prepare input d x = omega (arith, d x, occurrences-prepare x input)

-- For nodes with distinct ids, the parallel groups of the plan hold the id of each
-- node exactly once, and no other id: no work is dropped, repeated or invented, also
-- where the dependencies have a cycle.
pub plan_complete :
    (input : List WorkstreamNode) (cost : Option (String → ℕ))
    → IsDistinct input
    → (x : String)
    → occurrences x (flat (plan_workstreams input cost).parallel_groups) ≡ occurrences x (ids input)
unfolding plan_workstreams
plan_complete input cost d x =
    let distinct = IsDistinct-prepare input d in
    elim (Bool-cases (ltb 0 (length (prepare input)))) [
      | inl nonempty ↦
          rw nonempty
            (occurrences-schedule (prepare input) distinct x ∙ occurrences-prepare x input)
      | inr empty ↦ rw empty (nothing (prepare input) empty ∙ occurrences-prepare x input)
    ]
  where
    nothing : (ns : List WorkstreamNode) → ltb 0 (length ns) ≡ false → 0 ≡ occurrences x (ids ns)
    nothing [] e = refl
    nothing (n ∷ ns) e = absurd (ground (arith, e))

-- For nodes with distinct ids, two different nodes of one parallel group of the plan
-- never write the same path.
pub plan_isolated :
    (input : List WorkstreamNode) (cost : Option (String → ℕ))
    → IsDistinct input
    → All
        (AreApart (plan_workstreams input cost).nodes)
        (plan_workstreams input cost).parallel_groups
unfolding plan_workstreams
plan_isolated input cost d = elim (Bool-cases (ltb 0 (length (prepare input)))) [
  | inl nonempty ↦ rw nonempty (schedule-AreApart (prepare input) (IsDistinct-prepare input d))
  | inr empty ↦ rw empty tt
]

-- For nodes with distinct ids whose dependencies have no cycle (a rank is given that is
-- lower at each prerequisite than at the node that waits for it), everything that a node
-- of a parallel group waits for stands in an earlier group of the plan.
pub plan_ordered :
    (input : List WorkstreamNode) (cost : Option (String → ℕ)) (rank : String → ℕ)
    → IsDistinct input
    → IsAcyclic (prepare input) rank
    → AreOrdered
        (plan_workstreams input cost).nodes
        []
        (plan_workstreams input cost).parallel_groups
unfolding plan_workstreams
plan_ordered input cost rank d acyclic = elim (Bool-cases (ltb 0 (length (prepare input)))) [
  | inl nonempty ↦
      rw nonempty (schedule-AreOrdered (prepare input) rank acyclic (IsDistinct-prepare input d))
  | inr empty ↦ rw empty tt
]
