-- ===== src/Economy/State/Runs.antt =====
-- What holds over any run of events.
use mathlib.Core.Bool.{false≢true}
use cherry_on_top.Base.{
  ℕ, ◌+◌, ◌≤◌, ◌≡◌, refl, Bool, true, false, List, [], ◌∷◌, ◌++◌, if◌then◌else◌, ltb, length, arith,
  Bool-cases, inl, inr,
}
use cherry_on_top.Economy.{one, EconomicState, non_negative}
use cherry_on_top.Economy.State.{
  EconomicEvent, task_started, evidence_acquired, execution_step_completed, progress_updated,
  failure_detected, trajectory_state_changed, budget_updated, intervention_decided,
  validation_result, task_completed, task_failed, unheard_of, fresh_evidence, advance,
  normalize_economic_state, apply_economic_event, replay,
}
use cherry_on_top.Economy.State.Normal.{IsNormal, apply-IsNormal}

hard_stop-advance :
    (s : EconomicState) (e : EconomicEvent)
    → s.constraints.hard_stop ≡ true
    → (advance s e).constraints.hard_stop ≡ true
unfolding advance
hard_stop-advance s (task_started e) h = h
hard_stop-advance s (evidence_acquired refs cost observations gain) h =
    elim (Bool-cases (ltb 0 (length (fresh_evidence s refs)))) [
      | inl new ↦ rw new h
      | inr old ↦ rw old h
    ]
hard_stop-advance s (execution_step_completed cost latency succeeded) h = h
hard_stop-advance s (progress_updated progress gain) h = h
hard_stop-advance s (failure_detected signature cost) h = h
hard_stop-advance s (trajectory_state_changed p) h = h
hard_stop-advance s (budget_updated b) h = h
hard_stop-advance s (intervention_decided decision action cost) h = h
hard_stop-advance s (validation_result ok confidence cost ids) h = h
hard_stop-advance s (task_completed succeeded) h = refl
hard_stop-advance s (task_failed reason) h = refl
hard_stop-advance s unheard_of h = h

-- what the event charges to the task
unfoldable pub charge : EconomicState → EconomicEvent → ℕ
charge s (evidence_acquired refs cost observations gain) =
    if ltb 0 (length (fresh_evidence s refs)) then non_negative cost 0 else 0
charge s (execution_step_completed cost latency succeeded) = non_negative cost 0
charge s (failure_detected signature cost) = non_negative cost 0
charge s (validation_result ok confidence cost ids) = non_negative cost 0
charge s _ = 0

consumed-advance :
    (s : EconomicState) (e : EconomicEvent)
    → (advance s e).resources.consumed_tokens ≡ s.resources.consumed_tokens + charge s e
unfolding advance charge
consumed-advance s (task_started e) = omega arith
consumed-advance s (evidence_acquired refs cost observations gain) =
    elim (Bool-cases (ltb 0 (length (fresh_evidence s refs)))) [
      | inl new ↦ rw new refl
      | inr old ↦ rw old (omega arith)
    ]
consumed-advance s (execution_step_completed cost latency succeeded) = refl
consumed-advance s (progress_updated progress gain) = omega arith
consumed-advance s (failure_detected signature cost) = refl
consumed-advance s (trajectory_state_changed p) = omega arith
consumed-advance s (budget_updated b) = omega arith
consumed-advance s (intervention_decided decision action cost) = omega arith
consumed-advance s (validation_result ok confidence cost ids) = refl
consumed-advance s (task_completed succeeded) = omega arith
consumed-advance s (task_failed reason) = omega arith
consumed-advance s unheard_of = omega arith

-- what a run of events charges
unfoldable pub charges : EconomicState → List EconomicEvent → ℕ
charges s [] = 0
charges s (e ∷ es) = charge s e + charges (apply_economic_event s e) es

consumed-apply :
    (s : EconomicState) (e : EconomicEvent)
    → (apply_economic_event s e).resources.consumed_tokens
      ≡ s.resources.consumed_tokens + charge s e
unfolding apply_economic_event normalize_economic_state
consumed-apply s e = consumed-advance s e

version-apply :
    (s : EconomicState) (e : EconomicEvent) → (apply_economic_event s e).version ≡ s.version + 1
unfolding apply_economic_event normalize_economic_state
version-apply s e = refl

hard_stop-apply :
    (s : EconomicState) (e : EconomicEvent)
    → s.constraints.hard_stop ≡ true
    → (apply_economic_event s e).constraints.hard_stop ≡ true
unfolding apply_economic_event normalize_economic_state
hard_stop-apply s e h = hard_stop-advance s e h

-- What a run has consumed is exactly what its events charged on top of what was consumed before,
-- and the version counts the events.
pub replay-consumed :
    (s : EconomicState) (es : List EconomicEvent)
    → ((replay s es).resources.consumed_tokens ≡ s.resources.consumed_tokens + charges s es)
      × ((replay s es).version ≡ s.version + length es)
unfolding replay charges
replay-consumed s [] = (omega arith, omega arith)
replay-consumed s (e ∷ es) =
    let (rest, versions) = replay-consumed (apply_economic_event s e) es in
    (omega (arith, rest, consumed-apply s e), omega (arith, versions, version-apply s e))

pub replay-hard_stop :
    (s : EconomicState) (es : List EconomicEvent)
    → s.constraints.hard_stop ≡ true
    → (replay s es).constraints.hard_stop ≡ true
unfolding replay
replay-hard_stop s [] h = h
replay-hard_stop s (e ∷ es) h =
    replay-hard_stop (apply_economic_event s e) es (hard_stop-apply s e h)

pub replay-IsNormal :
    (s : EconomicState) (es : List EconomicEvent) → IsNormal s → IsNormal (replay s es)
unfolding replay
replay-IsNormal s [] n = n
replay-IsNormal s (e ∷ es) n = replay-IsNormal (apply_economic_event s e) es (apply-IsNormal s e)

-- TASK_COMPLETED and TASK_FAILED
unfoldable pub is_end : EconomicEvent → Bool
is_end (task_completed succeeded) = true
is_end (task_failed reason) = true
is_end _ = false

ends-apply :
    (s : EconomicState) (e : EconomicEvent)
    → is_end e ≡ true
    → (apply_economic_event s e).constraints.hard_stop ≡ true
unfolding is_end apply_economic_event normalize_economic_state advance
ends-apply s (task_started e) h = absurd (false≢true h)
ends-apply s (evidence_acquired refs cost observations gain) h = absurd (false≢true h)
ends-apply s (execution_step_completed cost latency succeeded) h = absurd (false≢true h)
ends-apply s (progress_updated progress gain) h = absurd (false≢true h)
ends-apply s (failure_detected signature cost) h = absurd (false≢true h)
ends-apply s (trajectory_state_changed p) h = absurd (false≢true h)
ends-apply s (budget_updated b) h = absurd (false≢true h)
ends-apply s (intervention_decided decision action cost) h = absurd (false≢true h)
ends-apply s (validation_result ok confidence cost ids) h = absurd (false≢true h)
ends-apply s (task_completed succeeded) h = refl
ends-apply s (task_failed reason) h = refl
ends-apply s unheard_of h = absurd (false≢true h)

-- after the end of a task the run is over for good, and its quality floor is a share
pub replay-ended :
    (s : EconomicState) (before : List EconomicEvent) (end : EconomicEvent)
    (after : List EconomicEvent)
    → is_end end ≡ true
    → let ended = replay s (before ++ end ∷ after) in
      (ended.constraints.quality_floor ≤ one) × (ended.constraints.hard_stop ≡ true)
unfolding replay
replay-ended s [] end after h =
    let ended = apply_economic_event s end in
    (
      (replay-IsNormal ended after (apply-IsNormal s end)).floor_le,
      replay-hard_stop ended after (ends-apply s end h),
    )
replay-ended s (e ∷ before) end after h = replay-ended (apply_economic_event s e) before end after h
