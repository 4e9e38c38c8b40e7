-- ===== src/Workstreams/Fallout/Reach.antt =====
-- `dependentsOf` finds exactly what waits for the failed branch, however indirectly.
use mathlib.Core.List.{Memᴰ}
use mathlib.Core.Bool.{false≢true}
use text.Mathlib.TextEquality.{eq_iff}
use text.Mathlib.TextPositions.{eq_refl}
use cherry_on_top.Base.{
  ℕ, zero, suc, ◌≤◌, ◌<◌, ◌≡◌, ◌≢◌, refl, ◌∙◌, ap, ◌↔◌, inl, inr, String, Bool, true, false, not,
  ◌&&◌, ◌||◌, List, [], ◌∷◌, map, length, filter, includes, sort, arith, str_eq, str_eq-eq, any,
  add, Bool-cases, length-filter-le, includes-sort, includes-add, includes-filter,
}
use cherry_on_top.Workstreams.Graph.{WorkstreamNode, ids, waits_of, normalize}
use cherry_on_top.Workstreams.Graph.Laws.{includes-ids-waiter}
use cherry_on_top.Workstreams.Scheduler.{is_remaining}
use cherry_on_top.Workstreams.Scheduler.Rounds.{left_over}
use cherry_on_top.Workstreams.Fallout.{sweep, rounds, dependents_of}

-- what cannot proceed when the branch `failed_id` fails
pub data Falls (nodes : List WorkstreamNode) (failed_id : String) : String → Type 0 where
  failed : Falls nodes failed_id failed_id
  waits :
      {x p : String}
      → includes (waits_of nodes x) p ≡ true
      → Falls nodes failed_id p
      → Falls nodes failed_id x

-- a node with a fallen prerequisite is in `fallen`
abbrev IsClosed : List WorkstreamNode → List String → Type 0
IsClosed nodes fallen =
    (x p : String)
    → includes (waits_of nodes x) p ≡ true
    → includes fallen p ≡ true
    → includes fallen x ≡ true

any_at :
    (p : String → Bool) (xs : List String) (x : String)
    → includes xs x ≡ true
    → p x ≡ true
    → any p xs ≡ true
any_at p [] x m h = absurd (false≢true m)
any_at p (y ∷ ys) x m h = ground (arith, any_at p ys x, eq_iff y x)

of_any :
    (p : String → Bool) (xs : List String)
    → any p xs ≡ true
    → (x : String) × ((includes xs x ≡ true) × (p x ≡ true))
of_any p [] h = absurd (false≢true h)
of_any p (y ∷ ys) h = elim (Bool-cases (p y)) [
  | inl holds ↦ (y, (ground (arith, eq_refl y), holds))
  | inr fails ↦ let (x, (m, f)) = of_any p ys (ground arith) in (x, (ground arith, f))
]

left_over_mono :
    (f g : List String) (ns : List WorkstreamNode)
    → ((x : String) → includes f x ≡ true → includes g x ≡ true)
    → left_over g ns ≤ left_over f ns
left_over_mono f g [] h = omega arith
left_over_mono f g (n ∷ ns) h = ground (arith, left_over_mono f g ns h, h n.id)

left_over-lt :
    (f g : List String) (n : WorkstreamNode) {ns : List WorkstreamNode}
    → ((x : String) → includes f x ≡ true → includes g x ≡ true)
    → includes f n.id ≡ false
    → includes g n.id ≡ true
    → Memᴰ n ns
    → left_over g ns < left_over f ns
left_over-lt f g n mono before after (Memᴰ.head {xs = ns} e) =
    let here : left_over g (n ∷ ns) < left_over f (n ∷ ns) =
      ground (arith, left_over_mono f g ns mono) in
    rw (← e) here
left_over-lt f g n mono before after (Memᴰ.tail {x = m} inside) =
    ground (arith, left_over-lt f g n mono before after inside, mono m.id)

module _ (nodes : List WorkstreamNode) where
  abbrev is_hit : List String → WorkstreamNode → Bool
  is_hit fallen node =
      not (includes fallen node.id) && any (λ id. includes fallen id) (waits_of nodes node.id)

  sweep_mono :
      (rest : List WorkstreamNode) (f : List String) (g : Bool) (x : String)
      → includes f x ≡ true
      → includes (sweep nodes rest f g).0 x ≡ true
  unfolding sweep
  sweep_mono [] f g x m = m
  sweep_mono (n ∷ rest) f g x m = sweep_mono rest _ _ x (ground (arith, includes-add f n.id x))

  -- a pass that adds nothing finds nothing to add
  sweep-still :
      (rest : List WorkstreamNode) (f : List String) (g : Bool)
      → (sweep nodes rest f g).1 ≡ false
      → ((sweep nodes rest f g).0 ≡ f)
        × ((g ≡ false)
            × ((x p : String)
                → includes (ids rest) x ≡ true
                → includes (waits_of nodes x) p ≡ true
                → includes f p ≡ true
                → includes f x ≡ true))
  unfolding sweep
  sweep-still [] f g h = (refl, (h, λ x p m. absurd (false≢true m)))
  sweep-still (n ∷ rest) f g h = elim (Bool-cases (is_hit f n)) [
    | inl hit ↦
        let (same, (still, closed)) =
          sweep-still rest (add f n.id) (g || true) (rw (hit, sweep) at h) in
        absurd (ground arith)
    | inr missed ↦
        let (same, (still, closed)) = sweep-still rest f (g || false) (rw (missed, sweep) at h) in
        rw (missed, sweep)
          (
            same,
            (
              ground arith,
              λ x p m w i. elim (Bool-cases (str_eq n.id x)) [
                | inr other ↦ closed x p (ground arith) w i
                | inl here ↦
                    let w_n : includes (waits_of nodes n.id) p ≡ true =
                      ap (λ y. includes (waits_of nodes y) p) (str_eq-eq n.id x here) ∙ w in
                    ground (
                      arith,
                      any_at (λ id. includes f id) (waits_of nodes n.id) p w_n i,
                      eq_iff n.id x,
                    )
              ],
            ),
          )
  ]

  -- a pass that adds something leaves less
  sweep-grows :
      (rest : List WorkstreamNode) (f : List String)
      → ((n : WorkstreamNode) → Memᴰ n rest → Memᴰ n nodes)
      → (sweep nodes rest f false).1 ≡ true
      → left_over (sweep nodes rest f false).0 nodes < left_over f nodes
  unfolding sweep
  sweep-grows [] f sub h = absurd (false≢true h)
  sweep-grows (n ∷ rest) f sub h = elim (Bool-cases (is_hit f n)) [
    | inl hit ↦
        rw (hit, sweep)
          (omega (
            arith,
            left_over_mono (add f n.id) (sweep nodes rest (add f n.id) true).0 nodes
                (sweep_mono rest (add f n.id) true),
            left_over-lt f (add f n.id) n (λ x m. ground (arith, includes-add f n.id x))
                (ground arith) (ground (arith, includes-add f n.id n.id, eq_refl n.id))
                (sub n (Memᴰ.head refl)),
          ))
    | inr missed ↦
        rw (missed, sweep)
          (sweep-grows rest f (λ m i. sub m (Memᴰ.tail i)) (rw (missed, sweep) at h))
  ]

  rounds_mono :
      (k : ℕ) (f : List String) (x : String)
      → includes f x ≡ true
      → includes (rounds nodes k f) x ≡ true
  unfolding rounds
  rounds_mono zero f x m = m
  rounds_mono (suc k) f x m =
      ground (arith, sweep_mono nodes f false x m, rounds_mono k (sweep nodes nodes f false).0 x)

  none_left-IsClosed : (f : List String) → left_over f nodes ≡ 0 → IsClosed nodes f
  none_left-IsClosed f h x p w i = all_fallen nodes h (includes-ids-waiter nodes x p w)
    where
      all_fallen :
          (ns : List WorkstreamNode)
          → left_over f ns ≡ 0
          → includes (ids ns) x ≡ true
          → includes f x ≡ true
      all_fallen [] e m = absurd (false≢true m)
      all_fallen (n ∷ ns) e m = ground (arith, all_fallen ns, eq_iff n.id x)

  -- as many rounds as there are nodes are enough
  rounds-IsClosed :
      (k : ℕ) (f : List String) → left_over f nodes ≤ k → IsClosed nodes (rounds nodes k f)
  unfolding rounds
  rounds-IsClosed zero f h = none_left-IsClosed f (omega (arith, h))
  rounds-IsClosed (suc k) f h = elim (Bool-cases (sweep nodes nodes f false).1) [
    | inl grew ↦
        rw (grew, rounds)
          (rounds-IsClosed k (sweep nodes nodes f false).0
            (omega (arith, h, sweep-grows nodes f (λ n m. m) grew)))
    | inr still ↦
        let (same, (_, closed)) = sweep-still nodes f false still in
        rw (still, same, rounds) (λ x p w i. closed x p (includes-ids-waiter nodes x p w) w i)
  ]

  module _ (failed_id : String) where
    abbrev AllFall : List String → Type 0
    AllFall f = (x : String) → includes f x ≡ true → Falls nodes failed_id x

    sweep-AllFall :
        (rest : List WorkstreamNode) (f : List String) (g : Bool)
        → AllFall f
        → AllFall (sweep nodes rest f g).0
    unfolding sweep
    sweep-AllFall [] f g a = a
    sweep-AllFall (n ∷ rest) f g a = elim (Bool-cases (is_hit f n)) [
      | inr missed ↦ rw (missed, sweep) (sweep-AllFall rest f (g || false) a)
      | inl hit ↦
          let (p, (w, i)) = of_any (λ id. includes f id) (waits_of nodes n.id) (ground arith) in
          rw (hit, sweep)
            (sweep-AllFall rest (add f n.id) (g || true) (λ x m. elim (Bool-cases (str_eq n.id x)) [
              | inl same ↦ rw (← str_eq-eq n.id x same) (Falls.waits w (a p i))
              | inr other ↦ a x (ground (arith, includes-add f n.id x))
            ]))
    ]

    rounds-AllFall : (k : ℕ) (f : List String) → AllFall f → AllFall (rounds nodes k f)
    unfolding rounds
    rounds-AllFall zero f a = a
    rounds-AllFall (suc k) f a = elim (Bool-cases (sweep nodes nodes f false).1) [
      | inl grew ↦ rw (grew, rounds) (rounds-AllFall k _ (sweep-AllFall nodes f false a))
      | inr still ↦ rw (still, rounds) (sweep-AllFall nodes f false a)
    ]

    closed_has_all :
        (f : List String)
        → IsClosed nodes f
        → includes f failed_id ≡ true
        → (x : String) → Falls nodes failed_id x
        → includes f x ≡ true
    closed_has_all f closed start x Falls.failed = start
    closed_has_all f closed start x (Falls.waits {p = p} w fall) =
        closed x p w (closed_has_all f closed start p fall)

left_over-le : (f : List String) (ns : List WorkstreamNode) → left_over f ns ≤ length ns
left_over-le f ns = length-filter-le (is_remaining f) ns

-- The dependents of a branch are exactly the other branches that wait for it, directly
-- or through branches that wait for it: none that must stop is missed, and none that
-- could go on is stopped.
pub dependents_of_iff :
    (nodes : List WorkstreamNode) (failed_id x : String)
    → (includes (dependents_of nodes failed_id) x ≡ true)
      ↔ (Falls (map normalize nodes) failed_id x × (x ≢ failed_id))
unfolding dependents_of
dependents_of_iff nodes failed_id x = (sound, complete)
  where
    normalized : List WorkstreamNode
    normalized = map normalize nodes

    all_fallen : List String
    all_fallen = rounds normalized (length normalized) (failed_id ∷ [])

    found :
        includes (sort (filter (λ id. not (str_eq id failed_id)) all_fallen)) x
        ≡ (includes all_fallen x && not (str_eq x failed_id))
    found =
        includes-sort (filter (λ id. not (str_eq id failed_id)) all_fallen) x
        ∙ includes-filter (λ id. not (str_eq id failed_id)) all_fallen x

    sound :
        includes (sort (filter (λ id. not (str_eq id failed_id)) all_fallen)) x ≡ true
        → Falls normalized failed_id x × (x ≢ failed_id)
    sound m = (
      rounds-AllFall normalized failed_id (length normalized) (failed_id ∷ [])
          (λ y i. elim (Bool-cases (str_eq failed_id y)) [
            | inl same ↦ rw (← str_eq-eq failed_id y same) Falls.failed
            | inr other ↦ absurd (ground arith)
          ])
          x (ground (arith, found)),
      λ e. ground (arith, found, eq_iff x failed_id),
    )

    complete :
        Falls normalized failed_id x × (x ≢ failed_id)
        → includes (sort (filter (λ id. not (str_eq id failed_id)) all_fallen)) x ≡ true
    complete (fall, ne) =
        let inside : includes all_fallen x ≡ true =
          closed_has_all normalized failed_id all_fallen
            (rounds-IsClosed normalized (length normalized) (failed_id ∷ [])
              (left_over-le (failed_id ∷ []) normalized))
            (rounds_mono normalized (length normalized) (failed_id ∷ []) failed_id
              (ground (arith, eq_refl failed_id)))
            x fall in
        ground (arith, found, inside, eq_iff x failed_id)
