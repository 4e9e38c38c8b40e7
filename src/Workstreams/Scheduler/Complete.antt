-- ===== src/Workstreams/Scheduler/Complete.antt =====
-- The loop of `planWorkstreams` ends with every node scheduled, in exactly one group.
use mathlib.Core.List.{Memᴰ}
use mathlib.Core.Bool.{false≢true}
use text.Mathlib.TextEquality.{eq_iff}
use text.Mathlib.TextPositions.{eq_refl}
use cherry_on_top.Base.{
  ℕ, zero, suc, ◌+◌, ◌≤◌, ◌<◌, ◌≡◌, refl, ◌∙◌, ap, inl, inr, String, Bool, true, false, List, [],
  ◌∷◌, ◌++◌, if◌then◌else◌, length, filter, includes, sort, str_eq, arith, ltb, occurrences,
  occurrences-append, occurrences-sort, includes_iff-occurrences, Bool-cases, All, All-of_mem,
  All-filter, All-filter_self, All-map, str_eq-eq,
}
use cherry_on_top.Workstreams.Graph.{WorkstreamNode, ids}
use cherry_on_top.Workstreams.Graph.Laws.{IsDistinct, occurrences-pos_of_mem}
use cherry_on_top.Workstreams.Scheduler.{
  Schedule, pick, add_all, is_ready, is_remaining, serialize, layer, layers, unscheduled, schedule,
}
use cherry_on_top.Workstreams.Scheduler.Rounds.{
  left_over, includes-add_all, length-add_all-lt, left_over-add_all, flat, occurrences-flat_append,
  flat-singletons, occurrences-filter-le, occurrences-pick-le, pick-All, pick_first,
}

holds_at_id {ℓ} :
    (P : String → Type ℓ) (ns : List WorkstreamNode) (x : String)
    → All (λ (n : WorkstreamNode). P n.id) ns
    → includes (ids ns) x ≡ true
    → P x
holds_at_id P [] x h m = absurd (false≢true m)
holds_at_id P (n ∷ ns) x (q, h) m = elim (Bool-cases (str_eq n.id x)) [
  | inl same ↦ rw (← str_eq-eq n.id x same) q
  | inr other ↦ holds_at_id P ns x h (ground arith)
]

left_over-none :
    (scheduled : List String) (ns : List WorkstreamNode)
    → All (λ (n : WorkstreamNode). includes scheduled n.id ≡ true) ns
    → left_over scheduled ns ≡ 0
left_over-none scheduled [] h = refl
left_over-none scheduled (n ∷ ns) (q, h) = ground (arith, left_over-none scheduled ns h)

all_left : (ns : List WorkstreamNode) → left_over [] ns ≡ length ns
all_left [] = refl
all_left (n ∷ ns) = ap suc (all_left ns)

includes-ids-filter :
    (p : WorkstreamNode → Bool) {n : WorkstreamNode} {ns : List WorkstreamNode}
    → Memᴰ n ns
    → p n ≡ true
    → includes (ids (filter p ns)) n.id ≡ true
includes-ids-filter p {n} (Memᴰ.head e) h = rw (← e) (rw h (ground (arith, eq_refl n.id)))
includes-ids-filter p (Memᴰ.tail m) h = ground (arith, includes-ids-filter p m h)

module _ (nodes : List WorkstreamNode) (distinct : IsDistinct nodes) where
  pub record Inv (s : Schedule) : Type 0 where
    pub counted : length s.scheduled + left_over s.scheduled nodes ≡ length nodes
    pub placed :
        (x : String) → occurrences x (flat s.groups) ≡ (if includes s.scheduled x then 1 else 0)
    pub from_nodes : (x : String) → includes s.scheduled x ≡ true → occurrences x (ids nodes) ≡ 1

  -- ids that stand once among the nodes, each of them new
  pub record AreNew (s : Schedule) (xs : List String) : Type 0 where
    pub once : (x : String) → occurrences x xs ≤ 1
    pub known : (x : String) → includes xs x ≡ true → occurrences x (ids nodes) ≡ 1
    pub fresh : (x : String) → includes xs x ≡ true → includes s.scheduled x ≡ false

  Inv-extend :
      (s : Schedule) (xs : List String) (gs : List (List String)) (rs : List String)
      → Inv s
      → AreNew s xs
      → ((x : String) → occurrences x (flat gs) ≡ occurrences x xs)
      → Inv (record { scheduled = add_all s.scheduled xs; groups = s.groups ++ gs; reasons = rs })
  Inv-extend s xs gs rs inv new same = record {
    counted = left_over-add_all xs s.scheduled nodes new.known ∙ inv.counted;
    placed = λ x. ground (
      arith,
      inv.placed x,
      same x,
      occurrences-flat_append x s.groups gs,
      includes-add_all xs s.scheduled x,
      new.once x,
      new.fresh x,
      includes_iff-occurrences x xs,
    );
    from_nodes =
        λ x m. ground (arith, inv.from_nodes x, new.known x, includes-add_all xs s.scheduled x);
  }

  -- every node stands once among the nodes
  known_once : All (λ (n : WorkstreamNode). occurrences n.id (ids nodes) ≡ 1) nodes
  known_once = All-of_mem _ nodes (λ n m. omega (arith, distinct n.id, occurrences-pos_of_mem m))

  -- a part of the nodes, not scheduled yet, is new
  AreNew-filter :
      (s : Schedule) (p : WorkstreamNode → Bool) (group : List WorkstreamNode)
      → ((x : String) → occurrences x (ids group) ≤ occurrences x (ids (filter p nodes)))
      → All (λ (n : WorkstreamNode). occurrences n.id (ids nodes) ≡ 1) group
      → All (λ (n : WorkstreamNode). includes s.scheduled n.id ≡ false) group
      → AreNew s (ids group)
  AreNew-filter s p group le all_known all_fresh = record {
    once = λ x. omega (arith, le x, occurrences-filter-le p x nodes, distinct x);
    known = λ x m. holds_at_id (λ y. occurrences y (ids nodes) ≡ 1) group x all_known m;
    fresh = λ x m. holds_at_id (λ y. includes s.scheduled y ≡ false) group x all_fresh m;
  }

  remaining_new : (s : Schedule) → AreNew s (ids (filter (is_remaining s.scheduled) nodes))
  remaining_new s =
      AreNew-filter s (is_remaining s.scheduled) (filter (is_remaining s.scheduled) nodes)
        (λ x. omega arith) (All-filter _ (is_remaining s.scheduled) nodes known_once)
        (All-map _ _ (λ n e. ground (arith, e)) _
          (All-filter_self (is_remaining s.scheduled) nodes))

  ready_fresh :
      (s : Schedule)
      → All
          (λ (n : WorkstreamNode). includes s.scheduled n.id ≡ false)
          (filter (is_ready nodes s.scheduled) nodes)
  unfolding is_ready
  ready_fresh s =
      All-map _ _ (λ n e. ground (arith, e)) _ (All-filter_self (is_ready nodes s.scheduled) nodes)

  group_new :
      (s : Schedule)
      → AreNew s (ids (pick [] s.reasons (filter (is_ready nodes s.scheduled) nodes)).0)
  group_new s =
      AreNew-filter s (is_ready nodes s.scheduled) _
        (λ x.
          omega
            (arith, occurrences-pick-le x [] s.reasons (filter (is_ready nodes s.scheduled) nodes)))
        (pick-All _ [] s.reasons _ tt (All-filter _ (is_ready nodes s.scheduled) nodes known_once))
        (pick-All _ [] s.reasons _ tt (ready_fresh s))

  serialize-Inv : (s : Schedule) → Inv s → Inv (serialize nodes s)
  unfolding serialize
  serialize-Inv s inv =
      Inv-extend s _ _ _ inv (remaining_new s) (λ x. ap (occurrences x) (flat-singletons _))

  pub layer-Inv :
      (s : Schedule) → Inv s → Inv (layer nodes s (filter (is_ready nodes s.scheduled) nodes))
  unfolding layer
  layer-Inv s inv = Inv-extend s _ _ _ inv (group_new s) (λ x.
      let group = ids (pick [] s.reasons (filter (is_ready nodes s.scheduled) nodes)).0 in
      omega (arith, occurrences-append x (sort group) [], occurrences-sort x group))

  serialize-left_over : (s : Schedule) → left_over (serialize nodes s).scheduled nodes ≡ 0
  unfolding serialize
  serialize-left_over s =
      let remaining = ids (filter (is_remaining s.scheduled) nodes) in
      left_over-none _ nodes (
        All-of_mem _ nodes (λ n m. ground (
          arith,
          includes-add_all remaining s.scheduled n.id,
          includes-ids-filter (is_remaining s.scheduled) m,
        )))

  pub layer_grows :
      (s : Schedule)
      → 0 < length (filter (is_ready nodes s.scheduled) nodes)
      → length s.scheduled
        < length (layer nodes s (filter (is_ready nodes s.scheduled) nodes)).scheduled
  unfolding layer
  layer_grows s some_ready = grows _ refl
    where
      grows :
          (ready : List WorkstreamNode)
          → ready ≡ filter (is_ready nodes s.scheduled) nodes
          → length s.scheduled < length (add_all s.scheduled (ids (pick [] s.reasons ready).0))
      grows [] e = absurd (omega (arith, some_ready, ap length e))
      grows (n ∷ ready) e =
          let (rest, first) = pick_first n s.reasons ready in
          let (new, others) = rw (← e) at (ready_fresh s) in
          rw (ap ids first) (length-add_all-lt n.id (ids rest) s.scheduled new)

  -- enough guard: every round but the last schedules a node
  layers_done :
      (guard : ℕ) (s : Schedule)
      → Inv s
      → left_over s.scheduled nodes < guard
      → Inv (layers nodes guard s) × (left_over (layers nodes guard s).scheduled nodes ≡ 0)
  unfolding layers
  layers_done zero s inv h = absurd (omega (arith, h))
  layers_done (suc guard) s inv h = elim (Bool-cases (ltb (length s.scheduled) (length nodes))) [
    | inr full ↦ rw full (inv, ground (arith, inv.counted))
    | inl going ↦ elim (Bool-cases (ltb 0 (length (filter (is_ready nodes s.scheduled) nodes)))) [
      | inr stuck ↦ rw (going, stuck) (serialize-Inv s inv, serialize-left_over s)
      | inl some_ready ↦
          let after = layer-Inv s inv in
          rw (going, some_ready)
            (layers_done guard (layer nodes s (filter (is_ready nodes s.scheduled) nodes)) after
              (ground (arith, after.counted, inv.counted, layer_grows s)))
    ]
  ]

  pub start-Inv : Inv unscheduled
  start-Inv = record {
    counted = omega (arith, all_left nodes);
    placed = λ x. refl;
    from_nodes = λ x m. absurd (false≢true m);
  }

  schedule-Inv : Inv (schedule nodes) × (left_over (schedule nodes).scheduled nodes ≡ 0)
  unfolding schedule
  schedule-Inv =
      layers_done (suc (length nodes)) unscheduled start-Inv (omega (arith, all_left nodes))

  scheduled_of_left_over :
      (scheduled : List String) (ns : List WorkstreamNode) (x : String)
      → left_over scheduled ns ≡ 0
      → 0 < occurrences x (ids ns)
      → includes scheduled x ≡ true
  scheduled_of_left_over scheduled [] x none_left m = ground arith
  scheduled_of_left_over scheduled (n ∷ ns) x none_left m =
      ground (arith, scheduled_of_left_over scheduled ns x, eq_iff n.id x)

  -- the groups of the schedule hold each node's id once, and no other id
  pub occurrences-schedule :
      (x : String) → occurrences x (flat (schedule nodes).groups) ≡ occurrences x (ids nodes)
  occurrences-schedule x =
      let (inv, none_left) = schedule-Inv in
      ground (
        arith,
        inv.placed x,
        inv.from_nodes x,
        distinct x,
        scheduled_of_left_over (schedule nodes).scheduled nodes x,
      )
