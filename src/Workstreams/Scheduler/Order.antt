-- ===== src/Workstreams/Scheduler/Order.antt =====
-- Where the dependencies have no cycle, every group comes after what its nodes wait for.
use mathlib.Core.List.{Memᴰ}
use mathlib.Core.Bool.{false≢true}
use text.Mathlib.TextEquality.{eq_iff}
use text.Mathlib.TextPositions.{eq_refl}
use cherry_on_top.Base.{
  ℕ, zero, suc, ◌<◌, ◌≡◌, refl, sym, ◌∙◌, ap, inl, inr, String, Bool, true, false, ◌||◌, List, [],
  ◌∷◌, ◌++◌, length, filter, includes, sort, arith, ltb, str_eq, str_eq-eq, all, Bool-cases, All,
  All-filter_self, All-map, includes-sort, includes-append, includes-unique,
  includes_iff-occurrences,
}
use cherry_on_top.Workstreams.Graph.{
  WorkstreamNode, ids, waits_of, prerequisites, is_required, edges,
}
use cherry_on_top.Workstreams.Graph.Laws.{IsDistinct, includes-ids-waiter}
use cherry_on_top.Workstreams.Scheduler.{
  Schedule, pick, is_ready, layer, layers, unscheduled, schedule,
}
use cherry_on_top.Workstreams.Scheduler.Rounds.{pick-All, flat, at_id, left_over}
use cherry_on_top.Workstreams.Scheduler.Complete.{Inv, layer-Inv, start-Inv}

-- what the ids of each group wait for stands before the group
abbrev pub AreOrdered : List WorkstreamNode → List String → List (List String) → Type 0
AreOrdered nodes before [] = Unit
AreOrdered nodes before (g ∷ gs) =
    ((x p : String)
      → includes g x ≡ true
      → includes (waits_of nodes x) p ≡ true
      → includes before p ≡ true)
    × AreOrdered nodes (before ++ g) gs

-- a rank that is lower at each prerequisite: the dependencies have no cycle
abbrev pub IsAcyclic : List WorkstreamNode → (String → ℕ) → Type 0
IsAcyclic nodes rank =
    All (λ (n : WorkstreamNode). all (λ p. ltb (rank p) (rank n.id)) (waits_of nodes n.id) ≡ true)
      nodes

AreOrdered-snoc :
    (nodes : List WorkstreamNode) (before : List String) (gs : List (List String)) (g : List String)
    → AreOrdered nodes before gs
    → ((x p : String)
        → includes g x ≡ true
        → includes (waits_of nodes x) p ≡ true
        → (includes before p || includes (flat gs) p) ≡ true)
    → AreOrdered nodes before (gs ++ g ∷ [])
AreOrdered-snoc nodes before [] g o h = (λ x p m w. ground (arith, h x p m w), tt)
AreOrdered-snoc nodes before (k ∷ gs) g (q, o) h = (
  q,
  AreOrdered-snoc nodes (before ++ k) gs g o (λ x p m w.
      ground (arith, h x p m w, includes-append before k p, includes-append k (flat gs) p)),
)

at_all :
    (p : String → Bool) (xs : List String) (x : String)
    → all p xs ≡ true
    → includes xs x ≡ true
    → p x ≡ true
at_all p [] x h m = absurd (false≢true m)
at_all p (y ∷ ys) x h m = ground (arith, at_all p ys x, eq_iff y x)

not_all :
    (p : String → Bool) (xs : List String)
    → all p xs ≡ false
    → (x : String) × ((includes xs x ≡ true) × (p x ≡ false))
not_all p [] h = absurd (false≢true (sym h))
not_all p (y ∷ ys) h = elim (Bool-cases (p y)) [
  | inr fails ↦ (y, (ground (arith, eq_refl y), fails))
  | inl holds ↦ let (x, (m, f)) = not_all p ys (ground arith) in (x, (ground arith, f))
]

node_of_id :
    (ns : List WorkstreamNode) (x : String)
    → includes (ids ns) x ≡ true
    → (m : WorkstreamNode) × (Memᴰ m ns × (m.id ≡ x))
node_of_id [] x h = absurd (false≢true h)
node_of_id (n ∷ ns) x h = elim (Bool-cases (str_eq n.id x)) [
  | inl same ↦ (n, (Memᴰ.head refl, str_eq-eq n.id x same))
  | inr other ↦
      let (m, (inside, same)) = node_of_id ns x (ground arith) in (m, (Memᴰ.tail inside, same))
]

includes-prerequisites :
    (known : List String) (id p : String) (es : List (String × String))
    → includes (prerequisites (filter (is_required known id) es)) p ≡ true
    → includes known p ≡ true
unfolding prerequisites is_required
includes-prerequisites known id p [] h = absurd (false≢true h)
includes-prerequisites known id p ((waiter, prerequisite) ∷ es) h =
    ground (arith, includes-prerequisites known id p es, eq_iff prerequisite p)

includes-waits_of :
    (nodes : List WorkstreamNode) (x p : String)
    → includes (waits_of nodes x) p ≡ true
    → includes (ids nodes) p ≡ true
unfolding waits_of
includes-waits_of nodes x p h =
    includes-prerequisites (ids nodes) x p (edges nodes) (
      sym (includes-unique (prerequisites (filter (is_required (ids nodes) x) (edges nodes))) p)
      ∙ h)

length-filter-pos :
    (p : WorkstreamNode → Bool) {n : WorkstreamNode} {ns : List WorkstreamNode}
    → Memᴰ n ns
    → p n ≡ true
    → 0 < length (filter p ns)
length-filter-pos p (Memᴰ.head e) h = rw (← e) (rw h (omega arith))
length-filter-pos p (Memᴰ.tail {x = m} inside) h = ground (arith, length-filter-pos p inside h)

remaining_exists :
    (scheduled : List String) (ns : List WorkstreamNode)
    → 0 < left_over scheduled ns
    → (n : WorkstreamNode) × (Memᴰ n ns × (includes scheduled n.id ≡ false))
remaining_exists scheduled [] h = absurd (omega (arith, h))
remaining_exists scheduled (n ∷ ns) h = elim (Bool-cases (includes scheduled n.id)) [
  | inr waiting ↦ (n, (Memᴰ.head refl, waiting))
  | inl done ↦
      let (m, (inside, f)) = remaining_exists scheduled ns (ground arith) in
      (m, (Memᴰ.tail inside, f))
]

module _ (nodes : List WorkstreamNode) (rank : String → ℕ) (acyclic : IsAcyclic nodes rank) where
  waits_lower : (x p : String) → includes (waits_of nodes x) p ≡ true → rank p < rank x
  waits_lower x p w =
      let lower =
        at_id (λ y. all (λ q. ltb (rank q) (rank y)) (waits_of nodes y)) nodes x acyclic
          (includes-ids-waiter nodes x p w) in
      ground (arith, at_all (λ q. ltb (rank q) (rank x)) (waits_of nodes x) p lower w)

  -- while a node remains, some node is ready
  some_ready_below :
      (k : ℕ) (scheduled : List String) (n : WorkstreamNode)
      → rank n.id < k
      → Memᴰ n nodes
      → includes scheduled n.id ≡ false
      → 0 < length (filter (is_ready nodes scheduled) nodes)
  unfolding is_ready
  some_ready_below zero scheduled n h inside remains = absurd (omega (arith, h))
  some_ready_below (suc k) scheduled n h inside remains =
      elim (Bool-cases (all (λ id. includes scheduled id) (waits_of nodes n.id))) [
        | inl satisfied ↦ length-filter-pos (is_ready nodes scheduled) inside (ground arith)
        | inr unsatisfied ↦
            let (p, (waits, missing)) = not_all _ (waits_of nodes n.id) unsatisfied in
            let (m, (known, same)) = node_of_id nodes p (includes-waits_of nodes n.id p waits) in
            some_ready_below k scheduled m
              (omega (arith, h, waits_lower n.id p waits, ap rank same)) known
              (ap (includes scheduled) same ∙ missing)
      ]

  some_ready :
      (scheduled : List String)
      → 0 < left_over scheduled nodes
      → 0 < length (filter (is_ready nodes scheduled) nodes)
  some_ready scheduled h =
      let (n, (inside, remains)) = remaining_exists scheduled nodes h in
      some_ready_below (suc (rank n.id)) scheduled n (omega arith) inside remains

  ready_satisfied :
      (s : Schedule)
      → All
          (λ (n : WorkstreamNode). all (λ id. includes s.scheduled id) (waits_of nodes n.id) ≡ true)
          (filter (is_ready nodes s.scheduled) nodes)
  unfolding is_ready
  ready_satisfied s =
      All-map _ _ (λ n e. ground (arith, e)) _ (All-filter_self (is_ready nodes s.scheduled) nodes)

  module _ (distinct : IsDistinct nodes) where
    layer-AreOrdered :
        (s : Schedule)
        → Inv nodes distinct s
        → AreOrdered nodes [] s.groups
        → AreOrdered nodes [] (layer nodes s (filter (is_ready nodes s.scheduled) nodes)).groups
    unfolding layer
    layer-AreOrdered s inv o =
        let ready = filter (is_ready nodes s.scheduled) nodes in
        let group = (pick [] s.reasons ready).0 in
        AreOrdered-snoc nodes [] s.groups (sort (ids group)) o (λ x p m w.
          let satisfied =
            at_id (λ y. all (λ id. includes s.scheduled id) (waits_of nodes y)) group x
              (pick-All _ [] s.reasons ready tt (ready_satisfied s))
              (sym (includes-sort (ids group) x) ∙ m) in
          ground (
            arith,
            at_all (λ id. includes s.scheduled id) (waits_of nodes x) p satisfied w,
            inv.placed p,
            includes_iff-occurrences p (flat s.groups),
          ))

    layers-AreOrdered :
        (guard : ℕ) (s : Schedule)
        → Inv nodes distinct s
        → AreOrdered nodes [] s.groups
        → AreOrdered nodes [] (layers nodes guard s).groups
    unfolding layers
    layers-AreOrdered zero s inv o = o
    layers-AreOrdered (suc guard) s inv o =
        elim (Bool-cases (ltb (length s.scheduled) (length nodes))) [
          | inr full ↦ rw full o
          | inl going ↦
              let ready_now = some_ready s.scheduled (ground (arith, inv.counted)) in
              let taken : ltb 0 (length (filter (is_ready nodes s.scheduled) nodes)) ≡ true =
                ground arith in
              rw (going, taken)
                (layers-AreOrdered guard (layer nodes s (filter (is_ready nodes s.scheduled) nodes))
                  (layer-Inv nodes distinct s inv) (layer-AreOrdered s inv o))
        ]

    pub schedule-AreOrdered : AreOrdered nodes [] (schedule nodes).groups
    unfolding schedule
    schedule-AreOrdered =
        layers-AreOrdered (suc (length nodes)) unscheduled (start-Inv nodes distinct) tt
