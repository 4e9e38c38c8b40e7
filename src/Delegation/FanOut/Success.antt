-- ===== src/Delegation/FanOut/Success.antt =====
-- A fan-out succeeds exactly when all pieces do.
use mathlib.Core.Bool.{false≢true}
use cherry_on_top.Base.{
  ◌<◌, ◌≡◌, refl, ap, ◌↔◌, String, true, false, not, none, List, [], ◌∷◌, ◌++◌, map, ◌==◌, length,
  filter, includes, occurrences, includes_iff-occurrences, arith, Bool-cases, inl, inr, All,
  str_eq-eq, str_eq_refl, includes-append, All-append,
}
use cherry_on_top.Workstreams.Graph.{WorkstreamNode, ids}
use cherry_on_top.Workstreams.Graph.Laws.{IsDistinct}
use cherry_on_top.Workstreams.Scheduler.{plan_workstreams}
use cherry_on_top.Workstreams.Scheduler.Rounds.{flat}
use cherry_on_top.Workstreams.Scheduler.Plan.{plan_complete}
use cherry_on_top.Delegation.FanOut.{
  ChildResult, CancelledPiece, Running, nothing_run, is_doomed, Children, DelegateInput, result_of,
  doom_failed, run_group, run_groups, failed_of, conclude_delegation, delegate_to_children,
}
use cherry_on_top.Delegation.FanOut.Complete.{pieces, cancelled_pieces, handled-plan}

module _ (c : Children) (nodes : List WorkstreamNode) (input : DelegateInput) where
  -- what a result says is what its child came to
  abbrev pub IsHonest : ChildResult → Type 0
  IsHonest r = r.succeeded ≡ c.succeeds (c.child_of r.piece)

  IsHonest-results : (ids : List String) → All IsHonest (map (result_of c) ids)
  IsHonest-results [] = tt
  IsHonest-results (id ∷ rest) = (refl, IsHonest-results rest)

  pub run_groups-IsHonest :
      (s : Running) (gs : List (List String))
      → All IsHonest s.results
      → All IsHonest (run_groups c nodes input s gs).results
  unfolding run_groups run_group
  run_groups-IsHonest s [] h = h
  run_groups-IsHonest s (g ∷ gs) h = run_groups-IsHonest (run_group c nodes input s g) gs (
      All-append IsHonest s.results _ h
        (IsHonest-results (filter (λ id. not (is_doomed s.doomed id)) g)))

  none_failed :
      (rs : List ChildResult) (x : String)
      → All IsHonest rs
      → length (failed_of rs) ≡ 0
      → includes (pieces rs) x ≡ true
      → c.succeeds (c.child_of x) ≡ true
  none_failed [] x h n m = absurd (false≢true m)
  none_failed (r ∷ rs) x (honest, h) n m =
      ground (
        arith,
        none_failed rs x h,
        honest,
        str_eq-eq r.piece x,
        ap (λ p. c.succeeds (c.child_of p)),
      )

  abbrev AllSucceed : List String → Type 0
  AllSucceed ids = (x : String) → includes ids x ≡ true → c.succeeds (c.child_of x) ≡ true

  -- nothing failed, nothing was cancelled and nothing is doomed
  record IsClean (s : Running) : Type 0 where
    doomed : s.doomed ≡ []
    cancelled : s.cancelled ≡ []
    failed : failed_of s.results ≡ []

  succeeding-rest : (id : String) (ids : List String) → AllSucceed (id ∷ ids) → AllSucceed ids
  succeeding-rest id ids h x m = h x (ground (arith, m))

  doom_failed_none :
      (d : List (String × String)) (ids : List String)
      → AllSucceed ids
      → doom_failed c nodes d (map (result_of c) ids) ≡ d
  doom_failed_none d [] h = refl
  doom_failed_none d (id ∷ rest) h =
      rw (h id (ground (arith, str_eq_refl id)))
        (doom_failed_none d rest (succeeding-rest id rest h))

  failed_of_none :
      (rs : List ChildResult) (ids : List String)
      → failed_of rs ≡ []
      → AllSucceed ids
      → failed_of (rs ++ map (result_of c) ids) ≡ []
  failed_of_none [] [] n h = refl
  failed_of_none [] (id ∷ rest) n h =
      rw (h id (ground (arith, str_eq_refl id)))
        (failed_of_none [] rest n (succeeding-rest id rest h))
  failed_of_none (r ∷ rs) ids n h = elim (Bool-cases r.succeeded) [
    | inl good ↦ rw good (failed_of_none rs ids (rest_none r rs good n) h)
    | inr bad ↦ absurd (some_failed r rs bad n)
  ]
    where
      rest_none :
          (r : ChildResult) (rs : List ChildResult)
          → r.succeeded ≡ true
          → failed_of (r ∷ rs) ≡ []
          → failed_of rs ≡ []
      rest_none r rs good n = ground (arith, n, good)

      some_failed :
          (r : ChildResult) (rs : List ChildResult)
          → r.succeeded ≡ false
          → failed_of (r ∷ rs) ≡ []
          → ⊥
      some_failed r rs bad n = ground (arith, n, bad)

  all_runnable : (g : List String) → filter (λ id. not (is_doomed [] id)) g ≡ g
  all_runnable [] = refl
  all_runnable (id ∷ rest) = ap (λ ids. id ∷ ids) (all_runnable rest)

  none_stopped : (g : List String) → filter (λ id. is_doomed [] id) g ≡ []
  none_stopped [] = refl
  none_stopped (id ∷ rest) = none_stopped rest

  run_group-IsClean :
      (s : Running) (g : List String)
      → IsClean s
      → AllSucceed g
      → IsClean (run_group c nodes input s g)
  unfolding run_group
  run_group-IsClean s g clean h = record {
    doomed = rw (clean.doomed, all_runnable g) (doom_failed_none [] g h);
    cancelled = rw (clean.cancelled, clean.doomed, none_stopped g) refl;
    failed = rw (clean.doomed, all_runnable g) (failed_of_none s.results g clean.failed h);
  }

  run_groups-IsClean :
      (s : Running) (gs : List (List String))
      → IsClean s
      → AllSucceed (flat gs)
      → IsClean (run_groups c nodes input s gs)
  unfolding run_groups
  run_groups-IsClean s [] clean h = clean
  run_groups-IsClean s (g ∷ gs) clean h =
      run_groups-IsClean (run_group c nodes input s g) gs
        (run_group-IsClean s g clean
          (λ x m. h x (ground (arith, includes-append g (flat gs) x, m))))
        (λ x m. h x (ground (arith, includes-append g (flat gs) x, m)))

  abbrev whole_run : Running
  whole_run = run_groups c nodes input nothing_run (plan_workstreams nodes none).parallel_groups

  none_cancelled :
      (x : String) (xs : List CancelledPiece)
      → length xs ≡ 0
      → occurrences x (cancelled_pieces xs) ≡ 0
  none_cancelled x [] n = refl
  none_cancelled x (y ∷ ys) n = absurd (omega (arith, n))

  all_succeeded :
      IsDistinct nodes
      → length (failed_of whole_run.results) ≡ 0
      → length whole_run.cancelled ≡ 0
      → AllSucceed (ids nodes)
  all_succeeded d failed cancelled x m =
      none_failed whole_run.results x (run_groups-IsHonest nothing_run _ tt) failed (
        ground (
          arith,
          handled-plan c nodes input d x,
          none_cancelled x whole_run.cancelled cancelled,
          includes_iff-occurrences x (ids nodes),
          includes_iff-occurrences x (pieces whole_run.results),
        ))

  plan-IsClean :
      IsDistinct nodes
      → AllSucceed (ids nodes)
      → (length (failed_of whole_run.results) ≡ 0) × (length whole_run.cancelled ≡ 0)
  plan-IsClean d h =
      let groups = (plan_workstreams nodes none).parallel_groups in
      let clean =
        run_groups-IsClean nothing_run groups
          (record { doomed = refl; cancelled = refl; failed = refl })
          (λ x m. h x (
            ground (
              arith,
              plan_complete nodes none d x,
              includes_iff-occurrences x (flat groups),
              includes_iff-occurrences x (ids nodes),
            ))) in
      (ap length clean.failed, ap length clean.cancelled)

  -- For pieces with distinct ids, a fan-out that was not refused succeeds exactly when there is
  -- a piece and the child of every piece succeeds.
  pub delegate_succeeds_iff :
      IsDistinct nodes
      → ((delegate_to_children c input 0 nodes true).succeeded ≡ true) ↔ (
          (0 < length nodes)
          × ((x : String) → includes (ids nodes) x ≡ true → c.succeeds (c.child_of x) ≡ true))
  unfolding delegate_to_children conclude_delegation
  delegate_succeeds_iff d = elim (Bool-cases (length nodes == 0)) [
    | inl empty ↦
        rw (empty, delegate_to_children)
          (λ h. absurd (false≢true h), λ h. ground (arith, h.0, empty))
    | inr some_pieces ↦
        rw (some_pieces, delegate_to_children)
          (
            λ h. (ground arith, all_succeeded d (ground (arith, h)) (ground (arith, h))),
            λ (_, h). let clean = plan-IsClean d h in ground (arith, clean.0, clean.1),
          )
  ]
