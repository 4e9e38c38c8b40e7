-- ===== src/Limiter/Queue.antt =====
-- Who is taken from the queue.
use cherry_on_top.Base.{
  ℕ, suc, ◌+◌, ◌≤◌, ◌<◌, ◌≡◌, ◌⊎◌, refl, sym, ◌∙◌, ap, none, some, List, [], ◌∷◌, ◌++◌, ltb, length,
  arith, All, All-append, All-map, Bool-cases, inl, inr, length-append,
}
use cherry_on_top.Limiter.{Waiter, best_index, splice, take_next}

-- `next` is taken out of the queue and `rest` is left: those before it have a lower
-- priority, and those after it no higher one
pub record IsTaken (queue : List Waiter) (next : Waiter) (rest : List Waiter) : Type 0 where
  pub before : List Waiter
  pub after : List Waiter
  pub queue_eq : queue ≡ before ++ next ∷ after
  pub rest_eq : rest ≡ before ++ after
  pub lower : All (λ (w : Waiter). w.priority < next.priority) before
  pub no_higher : All (λ (w : Waiter). w.priority ≤ next.priority) after

splice-append :
    (before : List Waiter) (w : Waiter) (after : List Waiter)
    → splice (length before) (before ++ w ∷ after) ≡ some (w, before ++ after)
unfolding splice
splice-append [] w after = refl
splice-append (b ∷ before) w after = rw (splice-append before w after) refl

append_assoc : (xs ys zs : List Waiter) → (xs ++ ys) ++ zs ≡ xs ++ (ys ++ zs)
append_assoc [] ys zs = refl
append_assoc (x ∷ xs) ys zs = ap (λ l. x ∷ l) (append_assoc xs ys zs)

-- the outcome of `takeNext` on a queue, with the index that its loop finds
abbrev Taken : List Waiter → ℕ → Type 0
Taken queue index =
    (next : Waiter) × ((rest : List Waiter) × ((splice index queue ≡ some (next, rest))
        × IsTaken queue next rest))

-- what the loop finds, where `top` is the best entry up to `mid`
scan_from :
    (queue before : List Waiter) (top : Waiter) (mid ws : List Waiter) (best i : ℕ)
    → queue ≡ before ++ top ∷ (mid ++ ws)
    → best ≡ length before
    → i ≡ length before + suc (length mid)
    → All (λ (w : Waiter). w.priority < top.priority) before
    → All (λ (w : Waiter). w.priority ≤ top.priority) mid
    → Taken queue (best_index best top i ws)
unfolding best_index
scan_from queue before top mid [] best i q b e h k = (
  top,
  (
    before ++ (mid ++ []),
    (
      rw (q, b) (splice-append before top (mid ++ [])),
      record {
        before = before;
        after = mid ++ [];
        queue_eq = q;
        rest_eq = refl;
        lower = h;
        no_higher = All-append _ mid [] k tt;
      },
    ),
  ),
)
scan_from queue before top mid (w ∷ ws) best i q b e h k =
    elim (Bool-cases (ltb top.priority w.priority)) [
      | inr not_better ↦
          rw (not_better, best_index)
            (scan_from queue before top (mid ++ w ∷ []) ws best (suc i)
              (q ∙ ap (λ l. before ++ top ∷ l) (sym (append_assoc mid (w ∷ []) ws))) b
              (omega (arith, e, length-append mid (w ∷ []))) h
              (All-append _ mid (w ∷ []) k (ground arith, tt)))
      | inl better ↦
          let higher : top.priority < w.priority = ground arith in
          rw (better, best_index)
            (scan_from queue (before ++ top ∷ mid) w [] ws i (suc i)
              (q ∙ sym (append_assoc before (top ∷ mid) (w ∷ ws)))
              (omega (arith, e, length-append before (top ∷ mid)))
              (omega (arith, e, length-append before (top ∷ mid)))
              (All-append _ before (top ∷ mid)
                (All-map _ _ (λ v lt. omega (arith, lt, higher)) before h)
                (higher, All-map _ _ (λ v le. omega (arith, le, higher)) mid k))
              tt)
    ]

-- A queue with a waiter gives one up: of the waiters with the highest priority, the one that
-- waited longest; the others stay in their order. An empty queue gives none.
pub take_next_lem :
    (queue : List Waiter)
    → ((next : Waiter) × ((rest : List Waiter) × ((take_next queue ≡ some (next, rest))
            × IsTaken queue next rest)))
      ⊎ ((take_next queue ≡ none) × (queue ≡ []))
unfolding take_next
take_next_lem [] = inr (refl, refl)
take_next_lem (w ∷ ws) = inl (scan_from (w ∷ ws) [] w [] ws 0 1 refl refl refl tt tt)
