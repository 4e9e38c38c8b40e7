-- ===== src/Workstreams/Scheduler/Groups.antt =====
-- No two nodes of one group of the schedule write the same path.
use mathlib.Core.List.{Memᴰ}
use mathlib.Core.Bool.{false≢true}
use text.Mathlib.TextEquality.{eq_iff}
use cherry_on_top.Base.{
  ℕ, zero, suc, ◌≡◌, ◌≢◌, sym, ◌∙◌, inl, inr, String, true, false, none, List, [], ◌∷◌, ◌++◌,
  length, filter, includes, sort, arith, ltb, str_eq, str_eq-eq, Bool-cases, Option-cases, All,
  All-append, All-filter, includes-sort, All-of_mem,
}
use cherry_on_top.Workstreams.Graph.{WorkstreamNode, ids, conflict_between}
use cherry_on_top.Workstreams.Graph.Laws.{IsDistinct, eq_of_id, conflict_between-none}
use cherry_on_top.Workstreams.Scheduler.{
  Schedule, blocker, pick, singletons, is_ready, serialize, layer, layers, unscheduled, schedule,
}
use cherry_on_top.Workstreams.Scheduler.Rounds.{pick-All}

-- of two ids, no path is written by nodes of both
abbrev pub IsApart : List WorkstreamNode → String → String → Type 0
IsApart nodes x y =
    (a b : WorkstreamNode)
    → Memᴰ a nodes
    → Memᴰ b nodes
    → a.id ≡ x
    → b.id ≡ y
    → (path : String) → includes a.write_paths path ≡ true
    → includes b.write_paths path ≡ false

abbrev pub AreApart : List WorkstreamNode → List String → Type 0
AreApart nodes group =
    (x y : String) → includes group x ≡ true → includes group y ≡ true → x ≢ y → IsApart nodes x y

-- every two nodes of the list, in this order, have no conflict
abbrev PairFree : List WorkstreamNode → Type 0
PairFree [] = Unit
PairFree (n ∷ ns) = All (λ m. conflict_between n m ≡ none) ns × PairFree ns

PairFree-snoc :
    (g : List WorkstreamNode) (n : WorkstreamNode)
    → PairFree g
    → All (λ m. conflict_between m n ≡ none) g
    → PairFree (g ++ n ∷ [])
PairFree-snoc [] n p h = (tt, tt)
PairFree-snoc (m ∷ g) n (h, p) (q, k) = (All-append _ g (n ∷ []) h (q, tt), PairFree-snoc g n p k)

blocker-none :
    (g : List WorkstreamNode) (n : WorkstreamNode)
    → blocker g n ≡ none
    → All (λ m. conflict_between m n ≡ none) g
unfolding blocker
blocker-none [] n e = tt
blocker-none (m ∷ g) n e = elim (Option-cases (conflict_between m n)) [
  | inl free ↦ (free, blocker-none g n (rw (free, blocker) at e))
  | inr (reason, found) ↦ cc (rw (found, blocker) at e)
]

pick-PairFree :
    (g : List WorkstreamNode) (reasons : List String) (ready : List WorkstreamNode)
    → PairFree g
    → PairFree (pick g reasons ready).0
unfolding pick
pick-PairFree g reasons [] p = p
pick-PairFree g reasons (n ∷ ready) p = elim (Option-cases (blocker g n)) [
  | inl free ↦
      rw (free, pick)
        (pick-PairFree (g ++ n ∷ []) reasons ready (PairFree-snoc g n p (blocker-none g n free)))
  | inr (reason, blocked) ↦ rw (blocked, pick) (pick-PairFree g (reasons ++ reason ∷ []) ready p)
]

module _ (nodes : List WorkstreamNode) (distinct : IsDistinct nodes) where
  at_node {ℓ} :
      (P : WorkstreamNode → Type ℓ) (b : WorkstreamNode) (g : List WorkstreamNode)
      → All P g
      → All (λ m. Memᴰ m nodes) g
      → Memᴰ b nodes
      → includes (ids g) b.id ≡ true
      → P b
  at_node P b [] h k mb i = absurd (false≢true i)
  at_node P b (n ∷ g) (p, h) (mn, k) mb i = elim (Bool-cases (str_eq n.id b.id)) [
    | inl same ↦ rw (← eq_of_id nodes distinct mn mb (str_eq-eq n.id b.id same)) p
    | inr other ↦ at_node P b g h k mb (ground arith)
  ]

  apart_of_PairFree :
      (g : List WorkstreamNode)
      → All (λ m. Memᴰ m nodes) g
      → PairFree g
      → (a b : WorkstreamNode) → Memᴰ a nodes
      → Memᴰ b nodes
      → includes (ids g) a.id ≡ true
      → includes (ids g) b.id ≡ true
      → a.id ≢ b.id
      → (path : String) → includes a.write_paths path ≡ true
      → includes b.write_paths path ≡ false
  apart_of_PairFree [] k p a b ma mb ia ib ne path w = absurd (false≢true ia)
  apart_of_PairFree (n ∷ g) (mn, k) (h, p) a b ma mb ia ib ne path w =
      elim (Bool-cases (str_eq n.id a.id)) [
        | inl same ↦
            let n_a = eq_of_id nodes distinct mn ma (str_eq-eq n.id a.id same) in
            let h_a : All (λ m. conflict_between a m ≡ none) g = rw (← n_a) h in
            conflict_between-none a b
              (at_node _ b g h_a k mb (ground (arith, eq_iff n.id b.id, eq_iff n.id a.id))) path w
        | inr other ↦ elim (Bool-cases (str_eq n.id b.id)) [
          | inl same ↦
              let n_b = eq_of_id nodes distinct mn mb (str_eq-eq n.id b.id same) in
              let h_b : All (λ m. conflict_between b m ≡ none) g = rw (← n_b) h in
              ground (arith, conflict_between-none b a (at_node _ a g h_b k ma (ground arith)) path)
          | inr neither ↦ apart_of_PairFree g k p a b ma mb (ground arith) (ground arith) ne path w
        ]
      ]

  AreApart-group :
      (g : List WorkstreamNode)
      → All (λ m. Memᴰ m nodes) g
      → PairFree g
      → AreApart nodes (sort (ids g))
  AreApart-group g k p x y ix iy ne a b ma mb ea eb =
      apart_of_PairFree g k p a b ma mb (rw ea (sym (includes-sort (ids g) x) ∙ ix))
        (rw eb (sym (includes-sort (ids g) y) ∙ iy)) (λ e. ne (sym ea ∙ (e ∙ eb)))

  AreApart-singletons : (xs : List String) → All (AreApart nodes) (singletons xs)
  AreApart-singletons [] = tt
  AreApart-singletons (z ∷ zs) =
      (λ x y ix iy ne. absurd (ne (ground (arith, eq_iff z x, eq_iff z y))), AreApart-singletons zs)

  nodes_All : All (λ m. Memᴰ m nodes) nodes
  nodes_All = All-of_mem _ nodes (λ n m. m)

  layer-AreApart :
      (s : Schedule)
      → All (AreApart nodes) s.groups
      → All (AreApart nodes) (layer nodes s (filter (is_ready nodes s.scheduled) nodes)).groups
  unfolding layer
  layer-AreApart s h = All-append _ s.groups _ h (
    AreApart-group _
        (pick-All _ [] s.reasons _ tt (All-filter _ (is_ready nodes s.scheduled) nodes nodes_All))
        (pick-PairFree [] s.reasons (filter (is_ready nodes s.scheduled) nodes) tt),
    tt,
  )

  layers-AreApart :
      (guard : ℕ) (s : Schedule)
      → All (AreApart nodes) s.groups
      → All (AreApart nodes) (layers nodes guard s).groups
  unfolding layers serialize
  layers-AreApart zero s h = h
  layers-AreApart (suc guard) s h = elim (Bool-cases (ltb (length s.scheduled) (length nodes))) [
    | inr full ↦ rw full h
    | inl going ↦ elim (Bool-cases (ltb 0 (length (filter (is_ready nodes s.scheduled) nodes)))) [
      | inr stuck ↦ rw (going, stuck) (All-append _ s.groups _ h (AreApart-singletons _))
      | inl some_ready ↦
          rw (going, some_ready)
            (layers-AreApart guard (layer nodes s (filter (is_ready nodes s.scheduled) nodes))
              (layer-AreApart s h))
    ]
  ]

  -- no two nodes of one group write the same path
  pub schedule-AreApart : All (AreApart nodes) (schedule nodes).groups
  unfolding schedule
  schedule-AreApart = layers-AreApart (suc (length nodes)) unscheduled tt
