-- ===== src/Delegation/FanOut/Planned.antt =====
-- The graph of the subgoals that a planner hands back.
use mathlib.Core.Bool.{false≢true}
use cherry_on_top.Base.{
  ◌≡◌, refl, sym, ◌∙◌, ap, String, Bool, true, false, not, none, List, [], ◌∷◌, map, filter,
  includes, occurrences, arith, Bool-cases, inl, inr, length, ◌==◌,
}
use cherry_on_top.Workstreams.Graph.{
  WorkstreamNode, ids, edges, edges_of, normalize, waits_of, prerequisites,
}
use cherry_on_top.Workstreams.Graph.Laws.{IsDistinct}
use cherry_on_top.Workstreams.Scheduler.{plan_workstreams}
use cherry_on_top.Workstreams.Fallout.{dependents_of}
use cherry_on_top.Workstreams.Fallout.Reach.{Falls, dependents_of_iff}
use cherry_on_top.Delegation.FanOut.{
  ChildResult, Running, nothing_run, is_doomed, Children, DelegateInput, result_of, run_group,
  run_groups, conclude_delegation, delegate_to_children, workstream_nodes_for,
}
use cherry_on_top.Delegation.FanOut.Calls.{created_goals, started_children}
use cherry_on_top.Delegation.FanOut.Complete.{pieces, cancelled_pieces, delegate_once}
use cherry_on_top.Delegation.FanOut.Order.{fells, is_doomed-doom_failed}

module _ (anchors : String → List String) (investigates : String → Bool) where
  edges_none :
      (goals : List (String × String))
      → edges (map normalize (workstream_nodes_for anchors investigates goals)) ≡ []
  unfolding edges edges_of normalize
  edges_none [] = refl
  edges_none ((name, goal) ∷ rest) = edges_none rest

  waits_none :
      (goals : List (String × String)) (x : String)
      → waits_of (map normalize (workstream_nodes_for anchors investigates goals)) x ≡ []
  unfolding waits_of prerequisites
  waits_none goals x = rw (edges_none goals) refl

  module _ (goals : List (String × String)) where
    abbrev planned : List WorkstreamNode
    planned = workstream_nodes_for anchors investigates goals

    Falls-alone : (f x : String) → Falls (map normalize planned) f x → x ≡ f
    Falls-alone f x Falls.failed = refl
    Falls-alone f x (Falls.waits {p = p} w fall) =
        absurd (false≢true (sym (ap (λ ws. includes ws p) (waits_none goals x)) ∙ w))

    no_dependents : (f x : String) → includes (dependents_of planned f) x ≡ false
    no_dependents f x = elim (Bool-cases (includes (dependents_of planned f) x)) [
      | inr free ↦ free
      | inl hit ↦
          let (falls, other) = (dependents_of_iff planned f x).0 hit in
          absurd (other (Falls-alone f x falls))
    ]

    none_fells : (rs : List ChildResult) (x : String) → fells planned rs x ≡ false
    none_fells [] x = refl
    none_fells (r ∷ rs) x = ground (arith, none_fells rs x, no_dependents r.piece x)

    module _ (c : Children) (input : DelegateInput) where
      -- nothing was cancelled and nothing is doomed
      abbrev IsUnhurt : Running → Type 0
      IsUnhurt s = ((x : String) → is_doomed s.doomed x ≡ false) × (s.cancelled ≡ [])

      filter_none :
          (d : List (String × String)) (g : List String)
          → ((x : String) → is_doomed d x ≡ false)
          → filter (λ id. is_doomed d id) g ≡ []
      filter_none d [] h = refl
      filter_none d (x ∷ xs) h = rw (h x) (filter_none d xs h)

      run_groups-IsUnhurt :
          (s : Running) (gs : List (List String))
          → IsUnhurt s
          → IsUnhurt (run_groups c planned input s gs)
      unfolding run_groups run_group
      run_groups-IsUnhurt s [] h = h
      run_groups-IsUnhurt s (g ∷ gs) (free, nothing) =
          run_groups-IsUnhurt (run_group c planned input s g) gs (
            λ x.
                let settled = map (result_of c) (filter (λ id. not (is_doomed s.doomed id)) g) in
                ground (
                  arith,
                  is_doomed-doom_failed c planned input s.doomed settled x,
                  free x,
                  none_fells settled x,
                ),
            rw (nothing, filter_none s.doomed g free) refl,
          )

      -- The subgoals that a planner hands back, as a graph, never wait for each other: no piece
      -- of their fan-out is ever cancelled, whichever children fail.
      pub planned_never_cancelled :
          (delegate_to_children c input 0 planned true).running.cancelled ≡ []
      unfolding delegate_to_children conclude_delegation
      planned_never_cancelled = elim (Bool-cases (length planned == 0)) [
        | inl empty ↦ rw (empty, delegate_to_children) refl
        | inr some_pieces ↦
            rw (some_pieces, delegate_to_children)
              (run_groups-IsUnhurt nothing_run (plan_workstreams planned none).parallel_groups
                ((λ x. refl), refl)).1
      ]

      -- For the subgoals that a planner hands back, under distinct names, and whichever children
      -- fail: a child is created with the goal of each subgoal and is started, once, and no other;
      -- `ps` is the order.
      pub planned_all_started :
          IsDistinct planned
          → let calls = (delegate_to_children c input 0 planned true).running.calls in
            (ps : List String) × ((created_goals calls ≡ map c.goal_of ps)
              × (started_children calls ≡ map c.child_of ps)
              × ((x : String) → occurrences x ps ≡ occurrences x (ids planned)))
      planned_all_started d =
          let s = (delegate_to_children c input 0 planned true).running in
          let (once, created, began, waited) = delegate_once c planned input d in
          (
            pieces s.results,
            (
              created,
              began,
              λ x. omega (
                arith,
                once x,
                ap (λ xs. occurrences x (cancelled_pieces xs)) planned_never_cancelled,
              ),
            ),
          )
