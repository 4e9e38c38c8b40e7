-- ===== src/Limiter/Drain.antt =====
-- Every caller that waits gets a slot.
use cherry_on_top.Base.{
  ℕ, zero, suc, ◌+◌, ◌≡◌, refl, ◌∙◌, ap, Bool, true, Option, none, some, List, [], ◌∷◌, ◌++◌, ltb,
  length, filter, replicate, arith, inl, inr, length-append, if◌then◌else◌,
}
use cherry_on_top.Limiter.{
  Waiter, Limiter, Event, releases, create_limiter, release, step, run, queued, take_next,
}
use cherry_on_top.Limiter.Queue.{take_next_lem}
use cherry_on_top.Limiter.Ceiling.{IsBounded, step-IsBounded, run-IsBounded, start-IsBounded}

-- who is handed a slot by the next releases
unfoldable pub served : ℕ → Limiter → List Waiter
served zero l = []
served (suc n) l =
    let rest = served n (step l releases) in
    if ltb 0 l.running then elim (release l).1 [ none ↦ rest | some w ↦ w ∷ rest ] else rest

-- how many pass the test
abbrev pub count : (Waiter → Bool) → List Waiter → ℕ
count p ws = length (filter p ws)

count-append :
    (p : Waiter → Bool) (xs ys : List Waiter) → count p (xs ++ ys) ≡ count p xs + count p ys
count-append p [] ys = omega arith
count-append p (x ∷ xs) ys = ground (arith, count-append p xs ys)

module _ (l : Limiter) (next : Waiter) (rest : List Waiter)
    (e : take_next l.waiting ≡ some (next, rest)) where
  release-eq : release l ≡ (record l { waiting = rest }, some next)
  unfolding release
  release-eq = rw (e, release) refl

  step-eq : ltb 0 l.running ≡ true → step l releases ≡ record l { waiting = rest }
  unfolding step
  step-eq busy = rw busy (ap (λ (r : Limiter × Option Waiter). r.0) release-eq)

none_left : (p : Waiter → Bool) (ws : List Waiter) → length ws ≡ 0 → 0 ≡ count p ws
none_left p [] e = refl
none_left p (w ∷ ws) e = absurd (omega (arith, e))

served_from :
    (limit n : ℕ) (l : Limiter) (p : Waiter → Bool)
    → IsBounded limit l
    → queued l ≡ n
    → (count p (served n l) ≡ count p l.waiting) × (queued (run l (replicate n releases)) ≡ 0)
unfolding served run
served_from limit zero l p b q = (none_left p l.waiting q, q)
served_from limit (suc n) l p b q = elim (take_next_lem l.waiting) [
  | inr (e, empty) ↦ absurd (omega (arith, q, ap length empty))
  | inl (next, (rest, (e, taken))) ↦
      let busy : ltb 0 l.running ≡ true = ground (arith, b.busy, b.ceiling_eq, q) in
      let left : length rest ≡ n = omega (
        arith,
        q,
        ap length taken.queue_eq,
        ap length taken.rest_eq,
        length-append taken.before (next ∷ taken.after),
        length-append taken.before taken.after,
      ) in
      let bounded : IsBounded limit (record l { waiting = rest }) =
        rw (← step-eq l next rest e busy) (step-IsBounded limit l releases b) in
      let again = served_from limit n (record l { waiting = rest }) p bounded left in
      let stepped = step-eq l next rest e busy in
      (
        rw (busy, release-eq l next rest e, stepped)
            (ground (
              arith,
              again.0,
              ap (count p) taken.queue_eq,
              ap (count p) taken.rest_eq,
              count-append p taken.before (next ∷ taken.after),
              count-append p taken.before taken.after,
            )),
        ap (λ m. queued (run m (replicate n releases))) stepped ∙ again.1,
      )
]

-- Whatever callers arrived and whatever tasks ended, as many releases as callers wait hand a slot
-- to each of them exactly once, and then nobody waits.
pub every_waiter_served :
    (limit : ℕ) (es : List Event) (p : Waiter → Bool)
    → let l = run (create_limiter limit) es in
      (count p (served (queued l) l) ≡ count p l.waiting)
      × (queued (run l (replicate (queued l) releases)) ≡ 0)
every_waiter_served limit es p =
    let l = run (create_limiter limit) es in
    served_from limit (queued l) l p
      (run-IsBounded limit (create_limiter limit) es (start-IsBounded limit)) refl
