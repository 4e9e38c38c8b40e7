-- ===== src/Lifecycle/Progress.antt =====
-- No node runs for ever: the events that can change a node are bounded in number.
use cherry_on_top.Base.{
  ℕ, ◌+◌, ◌-◌, ◌*◌, ◌≤◌, ◌<◌, ◌≡◌, refl, ◌⊎◌, inl, inr, ◌≢◌, true, false, List, [], ◌∷◌, arith,
  length,
}
use cherry_on_top.Lifecycle.{
  State, created, orient, plan, intelligence_gate, execution_decision, self_execute, delegate,
  escalate, wait_approval, validate, complete, failed, cancelled, Machine, Event, step, run,
  is_final, cancel,
}

-- What is left to do: the retries left count six steps each.
abbrev rank_at : State → ℕ → ℕ → ℕ
rank_at created gates rounds = 29
rank_at orient gates rounds = 29
rank_at plan gates rounds = 29
rank_at intelligence_gate gates rounds = 25 + (3 - gates)
rank_at execution_decision gates rounds = 6 * (3 - rounds) + 6
rank_at escalate gates rounds = 6 * (3 - rounds) + 5
rank_at wait_approval gates rounds = 6 * (3 - rounds) + 4
rank_at delegate gates rounds = 6 * (3 - rounds) + 3
rank_at self_execute gates rounds = 6 * (3 - rounds) + 2
rank_at validate gates rounds = 6 * (3 - rounds) + 1
rank_at complete gates rounds = 0
rank_at failed gates rounds = 0
rank_at cancelled gates rounds = 0

unfoldable pub rank : Machine → ℕ
rank m = rank_at m.state m.context.gate_attempts m.context.execution_attempts

-- An event is ignored, or it brings the node nearer to its end.
step-rank : (m : Machine) (e : Event) → (step m e ≡ m) ⊎ (rank (step m e) < rank m)
unfolding step rank
step-rank m e = ground arith

rank-le : (m : Machine) → rank m ≤ 29
unfolding rank
rank-le m = ground arith

-- each of the events, taken in turn, changes the node
abbrev pub AllEffective : Machine → List Event → Type 0
AllEffective m [] = Unit
AllEffective m (e ∷ es) = (step m e ≢ m) × AllEffective (step m e) es

effective-le-rank : (m : Machine) (es : List Event) → AllEffective m es → length es ≤ rank m
effective-le-rank m [] h = omega arith
effective-le-rank m (e ∷ es) (moved, rest) = elim (step-rank m e) [
  | inl same ↦ absurd (moved same)
  | inr nearer ↦ omega (arith, effective-le-rank (step m e) es rest)
]

-- Whatever the actors answer, whatever fails and whatever people decide: at most 29 events can
-- change a node, from any state that it is in.
pub effective_events_bounded : (m : Machine) (es : List Event) → AllEffective m es → length es ≤ 29
effective_events_bounded m es h = omega (arith, effective-le-rank m es h, rank-le m)

step_final : (m : Machine) (e : Event) → is_final m.state ≡ true → step m e ≡ m
unfolding step
step_final m e h = ground arith

-- A node that is complete, failed or cancelled stays as it is, whatever events come.
pub run_final : (m : Machine) (es : List Event) → is_final m.state ≡ true → run m es ≡ m
unfolding run
run_final m [] h = refl
run_final m (e ∷ es) h = rw (step_final m e h) (run_final m es h)

-- Every node that has not ended can be cancelled, whatever it is doing, and nothing that it has
-- recorded is changed by it.
pub step-cancel :
    (m : Machine)
    → is_final m.state ≡ false
    → ((step m cancel).state ≡ cancelled) × ((step m cancel).context ≡ m.context)
unfolding step
step-cancel m h = ground arith
