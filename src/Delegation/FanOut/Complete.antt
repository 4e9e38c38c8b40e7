-- ===== src/Delegation/FanOut/Complete.antt =====
-- Every piece is started and waited for, or cancelled, once.
use mathlib.Core.List.{append_assoc}
use cherry_on_top.Base.{
  sym, ◌∙◌, ℕ, ◌+◌, ◌≡◌, refl, ap, String, Bool, true, not, none, List, [], ◌∷◌, ◌++◌, map, ◌==◌,
  length, filter, occurrences, occurrences-append, arith, Bool-cases, inl, inr,
}
use cherry_on_top.Workstreams.Graph.{WorkstreamNode, ids}
use cherry_on_top.Workstreams.Graph.Laws.{IsDistinct}
use cherry_on_top.Workstreams.Scheduler.{plan_workstreams}
use cherry_on_top.Workstreams.Scheduler.Rounds.{flat}
use cherry_on_top.Workstreams.Scheduler.Plan.{plan_complete}
use cherry_on_top.Delegation.FanOut.{
  starts, ChildResult, CancelledPiece, Running, nothing_run, is_doomed, Children, DelegateInput,
  result_of, cancelled_piece, run_group, run_groups, conclude_delegation, delegate_to_children,
}
use cherry_on_top.Delegation.FanOut.Calls.{
  created_goals, started_children, awaited_children, created_goals-append, started_children-append,
  awaited_children-append, map-append, waits, group_calls_lem,
}

abbrev pub pieces : List ChildResult → List String
pieces [] = []
pieces (r ∷ rs) = r.piece ∷ pieces rs

abbrev pub cancelled_pieces : List CancelledPiece → List String
cancelled_pieces [] = []
cancelled_pieces (x ∷ xs) = x.piece ∷ cancelled_pieces xs

pub pieces-append : (rs ts : List ChildResult) → pieces (rs ++ ts) ≡ pieces rs ++ pieces ts
pieces-append [] ts = refl
pieces-append (r ∷ rs) ts = ap (λ ps. r.piece ∷ ps) (pieces-append rs ts)

pub cancelled_pieces-append :
    (xs ys : List CancelledPiece)
    → cancelled_pieces (xs ++ ys) ≡ cancelled_pieces xs ++ cancelled_pieces ys
cancelled_pieces-append [] ys = refl
cancelled_pieces-append (x ∷ xs) ys = ap (λ ps. x.piece ∷ ps) (cancelled_pieces-append xs ys)

module _ (c : Children) where
  pub pieces-results : (ids : List String) → pieces (map (result_of c) ids) ≡ ids
  pieces-results [] = refl
  pieces-results (id ∷ rest) = ap (λ ps. id ∷ ps) (pieces-results rest)

  pub pieces-cancelled :
      (d : List (String × String)) (ids : List String)
      → cancelled_pieces (map (cancelled_piece c d) ids) ≡ ids
  pieces-cancelled d [] = refl
  pieces-cancelled d (id ∷ rest) = ap (λ ps. id ∷ ps) (pieces-cancelled d rest)

pub occurrences-split :
    (p : String → Bool) (x : String) (xs : List String)
    → occurrences x (filter (λ id. not (p id)) xs) + occurrences x (filter p xs) ≡ occurrences x xs
occurrences-split p x [] = refl
occurrences-split p x (y ∷ ys) = ground (arith, occurrences-split p x ys)

-- how often a piece has a result or was cancelled
abbrev pub handled : String → Running → ℕ
handled x s = occurrences x (pieces s.results) + occurrences x (cancelled_pieces s.cancelled)

module _ (c : Children) (nodes : List WorkstreamNode) (input : DelegateInput) where
  handled-group :
      (s : Running) (g : List String) (x : String)
      → handled x (run_group c nodes input s g) ≡ handled x s + occurrences x g
  unfolding run_group
  handled-group s g x =
      let runnable = filter (λ id. not (is_doomed s.doomed id)) g in
      let stopped = filter (λ id. is_doomed s.doomed id) g in
      omega (
        arith,
        ap (occurrences x) (pieces-append s.results (map (result_of c) runnable)),
        occurrences-append x (pieces s.results) (pieces (map (result_of c) runnable)),
        ap (occurrences x) (pieces-results c runnable),
        ap (occurrences x)
            (cancelled_pieces-append s.cancelled (map (cancelled_piece c s.doomed) stopped)),
        occurrences-append x (cancelled_pieces s.cancelled)
            (cancelled_pieces (map (cancelled_piece c s.doomed) stopped)),
        ap (occurrences x) (pieces-cancelled c s.doomed stopped),
        occurrences-split (λ id. is_doomed s.doomed id) x g,
      )

  handled-groups :
      (s : Running) (gs : List (List String)) (x : String)
      → handled x (run_groups c nodes input s gs) ≡ handled x s + occurrences x (flat gs)
  unfolding run_groups
  handled-groups s [] x = omega arith
  handled-groups s (g ∷ gs) x = omega (
    arith,
    handled-groups (run_group c nodes input s g) gs x,
    handled-group s g x,
    occurrences-append x g (flat gs),
  )

  pub handled-plan :
      IsDistinct nodes
      → (x : String)
      → handled x
          (run_groups c nodes input nothing_run (plan_workstreams nodes none).parallel_groups)
        ≡ occurrences x (ids nodes)
  handled-plan d x =
      let counted = handled-groups nothing_run (plan_workstreams nodes none).parallel_groups x in
      omega (arith, counted, plan_complete nodes none d x)

  -- what was called for the pieces that ran
  record IsCalled (s : Running) : Type 0 where
    created : created_goals s.calls ≡ map c.goal_of (pieces s.results)
    began : started_children s.calls ≡ map c.child_of (pieces s.results)
    waited : awaited_children s.calls ≡ map c.child_of (pieces s.results)

  joined :
      (f : String → String) (runnable : List String) (rs : List ChildResult) {xs ys : List String}
      → xs ≡ map f (pieces rs)
      → ys ≡ map f runnable
      → xs ++ ys ≡ map f (pieces (rs ++ map (result_of c) runnable))
  joined f runnable rs e h =
      rw (e, h, pieces-append rs (map (result_of c) runnable), pieces-results c runnable)
        (sym (map-append f (pieces rs) runnable))

  run_group-IsCalled :
      (s : Running) (g : List String) → IsCalled s → IsCalled (run_group c nodes input s g)
  unfolding run_group
  run_group-IsCalled s g called =
      let runnable = filter (λ id. not (is_doomed s.doomed id)) g in
      let group_calls = group_calls_lem c input (length nodes) runnable in
      let nested =
        append_assoc s.calls (starts c input (length nodes) runnable)
          (waits c input (length nodes) runnable) in
      let fresh = starts c input (length nodes) runnable ++ waits c input (length nodes) runnable in
      record {
        created =
            ap created_goals nested
            ∙ created_goals-append s.calls fresh
            ∙ joined c.goal_of runnable s.results called.created group_calls.0;
        began =
            ap started_children nested
            ∙ started_children-append s.calls fresh
            ∙ joined c.child_of runnable s.results called.began group_calls.1;
        waited =
            ap awaited_children nested
            ∙ awaited_children-append s.calls fresh
            ∙ joined c.child_of runnable s.results called.waited group_calls.2;
      }

  run_groups-IsCalled :
      (s : Running) (gs : List (List String))
      → IsCalled s
      → IsCalled (run_groups c nodes input s gs)
  unfolding run_groups
  run_groups-IsCalled s [] called = called
  run_groups-IsCalled s (g ∷ gs) called =
      run_groups-IsCalled (run_group c nodes input s g) gs (run_group-IsCalled s g called)

  start-IsCalled : IsCalled nothing_run
  start-IsCalled = record { created = refl; began = refl; waited = refl }

  -- For pieces with distinct ids, a fan-out that was not refused splits them into those that ran and
  -- those that were cancelled, each once and nothing else. The calls that it makes create a child
  -- with its goal for each piece that ran, start that child and wait for it, each once in this order
  -- of the pieces, and for no other piece.
  pub delegate_once :
      IsDistinct nodes
      → let s = (delegate_to_children c input 0 nodes true).running in
        ((x : String) → handled x s ≡ occurrences x (ids nodes))
        × (created_goals s.calls ≡ map c.goal_of (pieces s.results))
        × (started_children s.calls ≡ map c.child_of (pieces s.results))
        × (awaited_children s.calls ≡ map c.child_of (pieces s.results))
  unfolding delegate_to_children conclude_delegation
  delegate_once d = elim (Bool-cases (length nodes == 0)) [
    | inl empty ↦ rw (empty, delegate_to_children) (nothing_there nodes empty, refl, refl, refl)
    | inr some_pieces ↦
        let called =
          run_groups-IsCalled nothing_run (plan_workstreams nodes none).parallel_groups
            start-IsCalled in
        rw (some_pieces, delegate_to_children)
          (handled-plan d, called.created, called.began, called.waited)
  ]
    where
      nothing_there :
          (ns : List WorkstreamNode)
          → (length ns == 0) ≡ true
          → (x : String) → 0 ≡ occurrences x (ids ns)
      nothing_there [] e x = refl
      nothing_there (n ∷ ns) e x = absurd (ground (arith, e))
