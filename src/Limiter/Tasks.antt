-- ===== src/Limiter/Tasks.antt =====
-- The tasks that run, counted one by one beside the limiter's own count.
use cherry_on_top.Base.{
  ℕ, zero, suc, ◌+◌, ◌-◌, ◌≤◌, ◌<◌, ◌≡◌, refl, sym, ◌∙◌, max, true, none, some, List, [], ◌∷◌, ◌++◌,
  ltb, leb, length, arith, Bool-cases, inl, inr, length-append, if◌then◌else◌,
}
use cherry_on_top.Limiter.{
  Waiter, Limiter, arrives, releases, create_limiter, arrive, release, step, queued, active,
}
use cherry_on_top.Limiter.Queue.{take_next_lem}
use cherry_on_top.Limiter.Ceiling.{IsBounded, step-IsBounded, start-IsBounded}

-- the limiter, and the callers whose `await task()` has begun and not ended
pub record System : Type 0 where
  pub limiter : Limiter
  pub tasks : List Waiter

pub data Action : Type 0 where
  enters : Waiter → Action
  leaves : ℕ → Action

-- without the task at the index
unfoldable pub without_index : ℕ → List Waiter → List Waiter
without_index index [] = []
without_index zero (w ∷ ws) = ws
without_index (suc index) (w ∷ ws) = w ∷ without_index index ws

-- `enters w`: `run` up to its wait, or the start of its task. `leaves i`: the task at index `i` ends,
-- and the `finally` of its `run` is executed, which may let a waiter's task begin.
unfoldable pub act : System → Action → System
unfolding arrive release without_index
act s (enters w) =
    let (limiter, starts) = arrive w s.limiter in
    record { limiter = limiter; tasks = if starts then s.tasks ++ w ∷ [] else s.tasks }
act s (leaves index) =
    if ltb index (length s.tasks)
    then (let (limiter, next) = release s.limiter in
        let others = without_index index s.tasks in
        record {
          limiter = limiter;
          tasks = elim next [ none ↦ others | some w ↦ others ++ w ∷ [] ];
        })
    else s

unfoldable pub act_all : System → List Action → System
act_all s [] = s
act_all s (a ∷ actions) = act_all (act s a) actions

unfoldable pub create_system : ℕ → System
create_system limit = record { limiter = create_limiter limit; tasks = [] }

length-without_index :
    (index : ℕ) (ws : List Waiter)
    → index < length ws
    → length (without_index index ws) + 1 ≡ length ws
unfolding without_index
length-without_index index [] h = absurd (omega (arith, h))
length-without_index zero (w ∷ ws) h = omega arith
length-without_index (suc index) (w ∷ ws) h =
    omega (arith, length-without_index index ws (omega (arith, h)))

release-IsBounded :
    (limit : ℕ) (l : Limiter)
    → ltb 0 l.running ≡ true
    → IsBounded limit l
    → IsBounded limit (release l).0
unfolding step
release-IsBounded limit l busy b =
    let stepped : step l releases ≡ (release l).0 = rw busy refl in
    rw (← stepped) (step-IsBounded limit l releases b)

-- the limiter's count is that of the tasks
record IsCounted (limit : ℕ) (s : System) : Type 0 where
  bounded : IsBounded limit s.limiter
  counted : s.limiter.running ≡ length s.tasks

arrive-counted :
    (w : Waiter) (s : System)
    → s.limiter.running ≡ length s.tasks
    → (act s (enters w)).limiter.running ≡ length (act s (enters w)).tasks
unfolding act arrive
arrive-counted w s c = elim (Bool-cases (leb s.limiter.ceiling s.limiter.running)) [
  | inl full ↦ rw (full, act) c
  | inr free ↦ rw (free, act) (omega (arith, c, length-append s.tasks (w ∷ [])))
]

release-counted :
    (index : ℕ) (s : System)
    → ltb index (length s.tasks) ≡ true
    → s.limiter.running ≡ length s.tasks
    → (act s (leaves index)).limiter.running ≡ length (act s (leaves index)).tasks
unfolding act release
release-counted index s somebody c =
    let fewer = length-without_index index s.tasks (ground arith) in
    elim (take_next_lem s.limiter.waiting) [
      | inl (next, (rest, (e, taken))) ↦
          let handed : release s.limiter ≡ (record (s.limiter) { waiting = rest }, some next) =
            rw (e, release) refl in
          rw (somebody, act, handed)
            (omega (arith, c, fewer, length-append (without_index index s.tasks) (next ∷ [])))
      | inr (e, empty) ↦
          let freed : release s.limiter
              ≡ (record (s.limiter) { running = s.limiter.running - 1 }, none) =
            rw (e, release) refl in
          rw (somebody, act, freed) (omega (arith, c, fewer))
    ]

act-IsCounted :
    (limit : ℕ) (s : System) (a : Action) → IsCounted limit s → IsCounted limit (act s a)
unfolding act step
act-IsCounted limit s (enters w) c = record {
  bounded = step-IsBounded limit s.limiter (arrives w) c.bounded;
  counted = arrive-counted w s c.counted;
}
act-IsCounted limit s (leaves index) c = elim (Bool-cases (ltb index (length s.tasks))) [
  | inr nobody ↦ rw (nobody, act) c
  | inl somebody ↦ record {
    bounded =
        rw (somebody, act)
          (release-IsBounded limit s.limiter (ground (arith, c.counted)) c.bounded);
    counted = release-counted index s somebody c.counted;
  }
]

act_all-IsCounted :
    (limit : ℕ) (s : System) (actions : List Action)
    → IsCounted limit s
    → IsCounted limit (act_all s actions)
unfolding act_all
act_all-IsCounted limit s [] c = c
act_all-IsCounted limit s (a ∷ actions) c =
    act_all-IsCounted limit (act s a) actions (act-IsCounted limit s a c)

start-IsCounted : (limit : ℕ) → IsCounted limit (create_system limit)
unfolding create_system create_limiter
start-IsCounted limit = record { bounded = start-IsBounded limit; counted = refl }

-- Whatever callers arrive and whatever tasks end, in any order, at most `limit` tasks (one, where
-- the limit is 0) run at once, exactly so many run while a caller waits, and the number of tasks
-- that run is the one that the limiter reports.
pub limiter_bounded :
    (limit : ℕ) (actions : List Action)
    → let s = act_all (create_system limit) actions in
      (length s.tasks ≤ max 1 limit)
      × (0 < queued s.limiter → length s.tasks ≡ max 1 limit)
      × (active s.limiter ≡ length s.tasks)
limiter_bounded limit actions =
    let c = act_all-IsCounted limit (create_system limit) actions (start-IsCounted limit) in
    let b = c.bounded in
    (
      omega (arith, b.running_le, b.ceiling_eq, c.counted),
      λ h. sym c.counted ∙ b.busy h ∙ b.ceiling_eq,
      c.counted,
    )
