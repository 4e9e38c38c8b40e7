-- ===== src/Limiter/Ceiling.antt =====
-- The ceiling holds, and no slot is free while a caller waits.
use cherry_on_top.Base.{
  ℕ, ◌≤◌, ◌<◌, ◌≡◌, refl, ap, max, List, [], ◌∷◌, ltb, leb, length, arith, Bool-cases, inl, inr,
  length-append,
}
use cherry_on_top.Limiter.{
  Limiter, Event, arrives, releases, create_limiter, arrive, release, step, run,
}
use cherry_on_top.Limiter.Queue.{take_next_lem}

pub record IsBounded (limit : ℕ) (l : Limiter) : Type 0 where
  pub ceiling_eq : l.ceiling ≡ max 1 limit
  pub running_le : l.running ≤ l.ceiling
  pub busy : 0 < length l.waiting → l.running ≡ l.ceiling

pub step-IsBounded :
    (limit : ℕ) (l : Limiter) (e : Event) → IsBounded limit l → IsBounded limit (step l e)
unfolding step arrive release
step-IsBounded limit l (arrives w) b = elim (Bool-cases (leb l.ceiling l.running)) [
  | inl full ↦
      rw (full, step)
        (record {
          ceiling_eq = b.ceiling_eq;
          running_le = b.running_le;
          busy = λ h. ground (arith, b.running_le);
        })
  | inr free ↦
      rw (free, step)
        (record {
          ceiling_eq = b.ceiling_eq;
          running_le = ground arith;
          busy = λ h. ground (arith, b.busy);
        })
]
step-IsBounded limit l releases b = elim (Bool-cases (ltb 0 l.running)) [
  | inr idle ↦ rw (idle, step) b
  | inl some_run ↦ elim (take_next_lem l.waiting) [
    | inl (next, (rest, (e, taken))) ↦
        rw (some_run, step, e, release)
          (record {
            ceiling_eq = b.ceiling_eq;
            running_le = b.running_le;
            busy = λ h. b.busy (
                omega (
                  arith,
                  ap length taken.queue_eq,
                  length-append taken.before (next ∷ taken.after),
                ));
          })
    | inr (e, empty) ↦
        rw (some_run, step, e, release)
          (record {
            ceiling_eq = b.ceiling_eq;
            running_le = omega (arith, b.running_le);
            busy = λ h. absurd (omega (arith, h, ap length empty));
          })
  ]
]

pub run-IsBounded :
    (limit : ℕ) (l : Limiter) (es : List Event) → IsBounded limit l → IsBounded limit (run l es)
unfolding run
run-IsBounded limit l [] b = b
run-IsBounded limit l (e ∷ es) b = run-IsBounded limit (step l e) es (step-IsBounded limit l e b)

pub start-IsBounded : (limit : ℕ) → IsBounded limit (create_limiter limit)
unfolding create_limiter
start-IsBounded limit = record {
  ceiling_eq = refl;
  running_le = omega arith;
  busy = λ h. absurd (omega (arith, h));
}
