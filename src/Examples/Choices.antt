-- ===== src/Examples/Choices.antt =====
-- The limiter and the decision to delegate, on concrete inputs.
use cherry_on_top.Base.{
  replicate, length, leb, ℕ, ◌*◌, ◌≤◌, ◌<◌, ◌≡◌, ◌↔◌, refl, max, none, some, List, [], ◌∷◌, true,
}
use cherry_on_top.Authority.{Authority, usd}
use cherry_on_top.Delegation.{min_agent_budget_usd}
use cherry_on_top.Delegation.Decision.{
  medium, delegate, escalate, DecideExecutionInput, decide_execution, score_delegation,
  default_economics_input,
}
use cherry_on_top.Delegation.Decision.Outcomes as Outcomes
use cherry_on_top.Delegation.Decision.Outcomes.{IsWorthIt}
use cherry_on_top.Limiter.{
  Waiter, Event, arrives, releases, create_limiter, run, step, arrive, release, take_next,
  best_index, splice, active, queued,
}
use cherry_on_top.Limiter.Tasks.{Action, enters, leaves, act, act_all, create_system}
use cherry_on_top.Limiter.Tasks as Tasks
use cherry_on_top.Limiter.Drain.{count, served}
use cherry_on_top.Limiter.Drain as Drain

abbrev waiter : ℕ → ℕ → Waiter
waiter ticket priority = record { ticket = ticket; priority = priority }

abbrev queue : List Waiter
queue = waiter 1 0 ∷ waiter 2 1 ∷ waiter 3 1 ∷ []

-- the first of the two critical callers
queue_next : take_next queue ≡ some (waiter 2 1, waiter 1 0 ∷ waiter 3 1 ∷ [])
unfolding take_next best_index splice
queue_next = refl

abbrev calls : List Event
calls = arrives (waiter 1 0) ∷ arrives (waiter 2 0) ∷ arrives (waiter 3 1) ∷ releases ∷ []

two_slots : active (run (create_limiter 2) calls) ≡ 2
unfolding run step create_limiter arrive release take_next best_index splice
two_slots = refl

-- the second caller's task ends, and the critical one that waited runs
abbrev actions : List Action
actions = enters (waiter 1 0) ∷ enters (waiter 2 0) ∷ enters (waiter 3 1) ∷ leaves 1 ∷ []

second_left : (act_all (create_system 2) actions).tasks ≡ waiter 1 0 ∷ waiter 3 1 ∷ []
unfolding act_all act create_system create_limiter arrive release take_next best_index splice
second_left = refl

limiter_bounded_example :
    (length (act_all (create_system 2) actions).tasks ≤ max 1 2)
    × (0 < queued (act_all (create_system 2) actions).limiter
        → length (act_all (create_system 2) actions).tasks ≡ max 1 2)
    × (active (act_all (create_system 2) actions).limiter
        ≡ length (act_all (create_system 2) actions).tasks)
limiter_bounded_example = Tasks.limiter_bounded 2 actions

every_waiter_served_example :
    (count
        (λ w. leb w.ticket 1)
        (served (queued (run (create_limiter 1) calls)) (run (create_limiter 1) calls))
      ≡ count (λ w. leb w.ticket 1) (run (create_limiter 1) calls).waiting)
    × (queued (
          run
            (run (create_limiter 1) calls)
            (replicate (queued (run (create_limiter 1) calls)) releases))
        ≡ 0)
every_waiter_served_example = Drain.every_waiter_served 1 calls (λ w. leb w.ticket 1)

abbrev grant : Authority
grant = record { tools = []; budget_usd = 9 * usd; spawn_children = true; max_child_count = 6 }

abbrev task : Authority → DecideExecutionInput
task authority = record {
  goal = "rename the module";
  authority = authority;
  complexity = medium;
  worth_splitting = none;
  signals = [];
}

task_delegates : (decide_execution (task grant)).outcome ≡ delegate
unfolding decide_execution score_delegation default_economics_input
task_delegates = refl

decide_execution_iff_example :
    (((decide_execution (task grant)).outcome ≡ delegate) ↔ (
      IsWorthIt (task grant)
      × ((2 * min_agent_budget_usd ≤ grant.budget_usd) × (1 ≤ grant.max_child_count))))
    × (((decide_execution (task grant)).outcome ≡ escalate)
        ↔ (IsWorthIt (task grant) × (grant.budget_usd < 2 * min_agent_budget_usd)))
decide_execution_iff_example = Outcomes.decide_execution_iff (task grant)
