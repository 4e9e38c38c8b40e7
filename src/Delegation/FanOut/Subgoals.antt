-- ===== src/Delegation/FanOut/Subgoals.antt =====
-- delegateToChildren of src/lifecycle/delegate-child.ts from the planner's subgoals on: the blank ones
-- are left out, the others are numbered, their graph is workstreamNodesFor's, and the plan is
-- validated where the parent's authority is known. What the code reads in a text (the anchors,
-- whether it only investigates, whether it is blank, its words and deliverables, a final slash) and
-- the decimal text of an index are parameters.
use mathlib.Core.Bool.{true≢false}
use text.Mathlib.TextEquality.{eq_iff}
use cherry_on_top.Base.{
  ℕ, suc, ◌≤◌, ◌<◌, ◌≡◌, refl, sym, ◌∙◌, ap, String, Bool, true, false, not, Option, none, some,
  List, [], ◌∷◌, map, if◌then◌else◌, filter, includes, occurrences, arith, Bool-cases, inl, inr,
  str_eq, includes_iff-occurrences, str_eq-eq, str_eq_refl, length, ◌==◌,
}
use cherry_on_top.Authority.{Authority}
use cherry_on_top.Workstreams.Graph.{WorkstreamNode, ids}
use cherry_on_top.Workstreams.Graph.Laws.{IsDistinct}
use cherry_on_top.Delegation.PlanCheck.{DelegationSubgoal, validate_delegation_plan}
use cherry_on_top.Delegation.FanOut.{
  Children, DelegateInput, DelegationResult, delegate_to_children, workstream_nodes_for,
}
use cherry_on_top.Delegation.FanOut.Calls.{created_goals, started_children}
use cherry_on_top.Delegation.FanOut.Planned.{planned_all_started}

-- `subgoals[Number(id)]`
abbrev pub goal_named : List (String × String) → String → String
goal_named [] id = ""
goal_named ((name, goal) ∷ rest) id =
    let later = goal_named rest id in if str_eq name id then goal else later

abbrev pub names : List (String × String) → List String
names [] = []
names ((name, goal) ∷ rest) = name ∷ names rest

module _ (anchors : String → List String) (investigates is_blank : String → Bool)
    (words : String → List String) (parent_deliverables : String → List String)
    (decimal : ℕ → String) (ends_with_slash : String → Bool) where
  -- with `String(index)`, from an index on
  abbrev pub numbered : ℕ → List String → List (String × String)
  numbered i [] = []
  numbered i (goal ∷ goals) = (decimal i, goal) ∷ numbered (suc i) goals

  -- those that are not blank
  abbrev pub kept : List String → List String
  kept subgoals = filter (λ goal. not (is_blank goal)) subgoals

  -- the plan that is validated
  abbrev pub plan_of : List (String × String) → List DelegationSubgoal
  plan_of [] = []
  plan_of ((name, goal) ∷ rest) =
      record {
        id = name;
        goal = goal;
        write_paths = if investigates goal then [] else anchors goal;
        dependencies = [];
      }
      ∷ plan_of rest

  abbrev pub is_plan_valid : String → Option Authority → List (String × String) → Bool
  is_plan_valid goal none goals = true
  is_plan_valid goal (some authority) goals =
      (validate_delegation_plan words parent_deliverables decimal ends_with_slash
        (record { goal = goal; authority = authority; write_scope = none }) (plan_of goals)).valid

  -- `child_of` names the child of a piece, and `succeeds` says how a child ends
  unfoldable pub delegate_subgoals :
      (String → String)
      → (String → Bool)
      → DelegateInput
      → ℕ
      → String
      → Option Authority
      → List String
      → DelegationResult
  delegate_subgoals child_of succeeds input existing_children goal authority subgoals =
      let goals = numbered 0 (kept subgoals) in
      delegate_to_children
        (record { goal_of = goal_named goals; child_of = child_of; succeeds = succeeds }) input
        existing_children (workstream_nodes_for anchors investigates goals)
        (is_plan_valid goal authority goals)

  ids-workstream_nodes_for :
      (goals : List (String × String))
      → ids (workstream_nodes_for anchors investigates goals) ≡ names goals
  ids-workstream_nodes_for [] = refl
  ids-workstream_nodes_for ((name, goal) ∷ rest) =
      ap (λ ns. name ∷ ns) (ids-workstream_nodes_for rest)

  -- the second condition of the fan-out is a refusal
  refused_invalid :
      (c : Children) (input : DelegateInput) (nodes : List WorkstreamNode)
      → (delegate_to_children c input 0 nodes false).not_delegatable ≡ true
  unfolding delegate_to_children
  refused_invalid c input nodes = elim (Bool-cases (length nodes == 0)) [
    | inl empty ↦ rw (empty, delegate_to_children) refl
    | inr pieces ↦ rw (pieces, delegate_to_children) refl
  ]

  module _ (one_text : (i j : ℕ) → decimal i ≡ decimal j → i ≡ j) where
    other_name : (i j : ℕ) → i < j → str_eq (decimal j) (decimal i) ≡ false
    other_name i j h = elim (Bool-cases (str_eq (decimal j) (decimal i))) [
      | inr other ↦ other
      | inl same ↦ absurd (omega (arith, one_text j i (str_eq-eq (decimal j) (decimal i) same), h))
    ]

    not_numbered :
        (i j : ℕ) (goals : List String)
        → i < j
        → includes (names (numbered j goals)) (decimal i) ≡ false
    not_numbered i j [] h = refl
    not_numbered i j (goal ∷ goals) h =
        ground (arith, other_name i j h, not_numbered i (suc j) goals (omega (arith, h)))

    names_once :
        (i : ℕ) (goals : List String) (x : String) → occurrences x (names (numbered i goals)) ≤ 1
    names_once i [] x = omega arith
    names_once i (goal ∷ goals) x = ground (
      arith,
      names_once (suc i) goals x,
      not_numbered i (suc i) goals (omega arith),
      str_eq-eq (decimal i) x,
      ap (includes (names (numbered (suc i) goals))),
      includes_iff-occurrences x (names (numbered (suc i) goals)),
    )

    numbered-IsDistinct :
        (goals : List String)
        → IsDistinct (workstream_nodes_for anchors investigates (numbered 0 goals))
    numbered-IsDistinct goals =
        λ x. rw (ids-workstream_nodes_for (numbered 0 goals)) (names_once 0 goals x)

    map-goal_named_other :
        (name goal : String) (rest : List (String × String)) (xs : List String)
        → includes xs name ≡ false
        → map (goal_named ((name, goal) ∷ rest)) xs ≡ map (goal_named rest) xs
    map-goal_named_other name goal rest [] h = refl
    map-goal_named_other name goal rest (x ∷ xs) h =
        let other : str_eq name x ≡ false = ground (arith, h, eq_iff name x, str_eq_refl x) in
        rw other (
          ap (λ gs. goal_named rest x ∷ gs)
            (map-goal_named_other name goal rest xs (ground (arith, h))))

    -- each index names its subgoal
    map-goal_named :
        (i : ℕ) (goals : List String)
        → map (goal_named (numbered i goals)) (names (numbered i goals)) ≡ goals
    map-goal_named i [] = refl
    map-goal_named i (goal ∷ goals) =
        let rest = numbered (suc i) goals in
        rw
          (
            str_eq_refl (decimal i),
            map-goal_named_other (decimal i) goal rest (names rest)
                (not_numbered i (suc i) goals (omega arith)),
            map-goal_named (suc i) goals,
          )
          refl

    -- For the subgoals that a planner hands back, whichever children fail, where an index has a text
    -- of its own: a delegation that is not declined creates a child with the goal of each subgoal
    -- that is not blank and starts it, once, and no other. `ps` is an order of the indices, which
    -- name the subgoals in their order.
    pub subgoals_all_started :
        (child_of : String → String) (succeeds : String → Bool) (input : DelegateInput)
        (goal : String) (authority : Option Authority) (subgoals : List String)
        → let r = delegate_subgoals child_of succeeds input 0 goal authority subgoals in
          let goals = numbered 0 (kept subgoals) in
          r.not_delegatable ≡ false
          → (ps : List String) × ((created_goals r.running.calls ≡ map (goal_named goals) ps)
              × (started_children r.running.calls ≡ map child_of ps)
              × ((x : String) → occurrences x ps ≡ occurrences x (names goals))
              × (map (goal_named goals) (names goals) ≡ kept subgoals))
    unfolding delegate_subgoals
    subgoals_all_started child_of succeeds input goal authority subgoals go =
        let goals = numbered 0 (kept subgoals) in
        let c : Children = record {
          goal_of = goal_named goals;
          child_of = child_of;
          succeeds = succeeds;
        } in
        elim (Bool-cases (is_plan_valid goal authority goals)) [
          | inr bad ↦ absurd (
              true≢false (
                sym (refused_invalid c input (workstream_nodes_for anchors investigates goals))
                ∙ (sym (
                      ap
                        (λ v.
                          (delegate_to_children c input 0
                            (workstream_nodes_for anchors investigates goals) v).not_delegatable)
                        bad)
                    ∙ go)))
          | inl good ↦
              let (ps, (created, began, once)) =
                planned_all_started anchors investigates goals c input
                  (numbered-IsDistinct (kept subgoals)) in
              rw good (
                ps,
                (
                  created,
                  began,
                  λ x. once x ∙ ap (occurrences x) (ids-workstream_nodes_for goals),
                  map-goal_named 0 (kept subgoals),
                ),
              )
        ]
