-- ===== src/Limiter.antt =====
-- The limit on concurrent sandboxes: src/execution/dispatch-limit.ts. A caller of `run` is a ticket
-- with its priority. An `arrive` is the call of `run` up to its wait, and a `release` is the
-- `finally` of a task that held a slot, however it ended.
pub mod Queue
pub mod Ceiling
pub mod Tasks
pub mod Drain
use cherry_on_top.Base.{
  ℕ, zero, suc, ◌+◌, ◌-◌, max, Bool, true, false, Option, none, some, List, [], ◌∷◌, ◌++◌,
  if◌then◌else◌, ltb, leb, length,
}

abbrev pub default_max_concurrent : ℕ
default_max_concurrent = 2

abbrev pub critical_path : ℕ
critical_path = 1

-- the variable of the environment: absent, not a finite number, or a finite number rounded down
pub data Setting : Type 0 where
  absent : Setting
  not_finite : Setting
  whole : ℕ → Setting

unfoldable pub max_concurrent_from_env : Setting → ℕ
max_concurrent_from_env absent = default_max_concurrent
max_concurrent_from_env not_finite = default_max_concurrent
max_concurrent_from_env (whole value) = if leb 1 value then value else default_max_concurrent

pub record Waiter : Type 0 where
  pub ticket : ℕ
  pub priority : ℕ

pub record Limiter : Type 0 where
  pub ceiling : ℕ
  pub waiting : List Waiter
  pub running : ℕ

unfoldable pub create_limiter : ℕ → Limiter
create_limiter limit = record { ceiling = max 1 limit; waiting = []; running = 0 }

-- the loop of `takeNext`: `best` is the index of `top`, and `i` that of the first of the rest
unfoldable pub best_index : ℕ → Waiter → ℕ → List Waiter → ℕ
best_index best top i [] = best
best_index best top i (w ∷ ws) =
    let kept = best_index best top (suc i) ws in
    let better = best_index i w (suc i) ws in if ltb top.priority w.priority then better else kept

-- `waiting.splice(index, 1)[0]`, with the list that it leaves
unfoldable pub splice : ℕ → List Waiter → Option (Waiter × List Waiter)
splice index [] = none
splice zero (w ∷ ws) = some (w, ws)
splice (suc index) (w ∷ ws) = elim (splice index ws) [
  | none ↦ none
  | some (taken, rest) ↦ some (taken, w ∷ rest)
]

unfoldable pub take_next : List Waiter → Option (Waiter × List Waiter)
unfolding best_index splice
take_next [] = none
take_next (w ∷ ws) = splice (best_index 0 w 1 ws) (w ∷ ws)

-- whether the caller starts at once
unfoldable pub arrive : Waiter → Limiter → Limiter × Bool
arrive w l =
    if leb l.ceiling l.running
    then (record l { waiting = l.waiting ++ w ∷ [] }, false)
    else (record l { running = l.running + 1 }, true)

-- the waiter that the slot is handed to, if there is one
unfoldable pub release : Limiter → Limiter × Option Waiter
unfolding take_next
release l = elim (take_next l.waiting) [
  | some (next, rest) ↦ (record l { waiting = rest }, some next)
  | none ↦ (record l { running = l.running - 1 }, none)
]

pub data Event : Type 0 where
  arrives : Waiter → Event
  releases : Event

-- a task can only release a slot while one runs
unfoldable pub step : Limiter → Event → Limiter
unfolding arrive release
step l (arrives w) = (arrive w l).0
step l releases = if ltb 0 l.running then (release l).0 else l

unfoldable pub run : Limiter → List Event → Limiter
unfolding step
run l [] = l
run l (e ∷ es) = run (step l e) es

abbrev pub queued : Limiter → ℕ
queued l = length l.waiting

abbrev pub active : Limiter → ℕ
active l = l.running
