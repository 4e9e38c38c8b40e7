-- ===== src/Workstreams/Scheduler/Rounds.antt =====
-- The loop of `planWorkstreams` ends with every node scheduled, each exactly once.
use mathlib.Core.Bool.{false≢true}
use text.Mathlib.TextEquality.{eq_iff}
use text.Mathlib.TextPositions.{eq_refl}
use cherry_on_top.Base.{
  ℕ, ◌+◌, ◌≤◌, ◌<◌, ◌≡◌, refl, ◌∙◌, ap, inl, inr, String, Bool, true, false, ◌||◌, List, [], ◌∷◌,
  ◌++◌, length, filter, includes, add, arith, occurrences, occurrences-append, includes-append,
  includes-add, All, All-append, Option-cases, length-append,
}
use cherry_on_top.Workstreams.Graph.{WorkstreamNode, ids}
use cherry_on_top.Workstreams.Scheduler.{blocker, pick, add_all, singletons, is_remaining}

ids-append : (ns ms : List WorkstreamNode) → ids (ns ++ ms) ≡ ids ns ++ ids ms
ids-append [] ms = refl
ids-append (n ∷ ns) ms = ap (λ is. n.id ∷ is) (ids-append ns ms)

-- the nodes that are not scheduled yet
abbrev pub left_over : List String → List WorkstreamNode → ℕ
left_over scheduled nodes = length (filter (is_remaining scheduled) nodes)

left_over-append :
    (x : String) (s : List String) (nodes : List WorkstreamNode)
    → includes s x ≡ false
    → left_over (s ++ x ∷ []) nodes + occurrences x (ids nodes) ≡ left_over s nodes
left_over-append x s [] h = omega arith
left_over-append x s (n ∷ ns) h = ground (
  arith,
  left_over-append x s ns h,
  includes-append s (x ∷ []) n.id,
  eq_iff n.id x,
  eq_iff x n.id,
)

-- what `add` does to the two counts
left_over-add :
    (x : String) (s : List String) (nodes : List WorkstreamNode)
    → occurrences x (ids nodes) ≡ 1
    → length (add s x) + left_over (add s x) nodes ≡ length s + left_over s nodes
left_over-add x s nodes h = ground (arith, left_over-append x s nodes, length-append s (x ∷ []))

pub includes-add_all :
    (xs s : List String) (a : String) → includes (add_all s xs) a ≡ (includes s a || includes xs a)
unfolding add_all
includes-add_all [] s a = ground arith
includes-add_all (x ∷ xs) s a = ground (arith, includes-add_all xs (add s x) a, includes-add s x a)

length-add_all-le : (xs s : List String) → length s ≤ length (add_all s xs)
unfolding add_all
length-add_all-le [] s = omega arith
length-add_all-le (x ∷ xs) s =
    ground (arith, length-add_all-le xs (add s x), length-append s (x ∷ []))

pub length-add_all-lt :
    (x : String) (xs s : List String)
    → includes s x ≡ false
    → length s < length (add_all s (x ∷ xs))
unfolding add_all
length-add_all-lt x xs s h =
    ground (arith, length-add_all-le xs (add s x), length-append s (x ∷ []))

pub left_over-add_all :
    (xs s : List String) (nodes : List WorkstreamNode)
    → ((x : String) → includes xs x ≡ true → occurrences x (ids nodes) ≡ 1)
    → length (add_all s xs) + left_over (add_all s xs) nodes ≡ length s + left_over s nodes
unfolding add_all
left_over-add_all [] s nodes h = refl
left_over-add_all (x ∷ xs) s nodes h =
    left_over-add_all xs (add s x) nodes (λ y m. h y (ground arith))
    ∙ left_over-add x s nodes (h x (ground (arith, eq_refl x)))

abbrev pub flat : List (List String) → List String
flat [] = []
flat (g ∷ gs) = g ++ flat gs

pub occurrences-flat_append :
    (x : String) (gs hs : List (List String))
    → occurrences x (flat (gs ++ hs)) ≡ occurrences x (flat gs) + occurrences x (flat hs)
occurrences-flat_append x [] hs = omega arith
occurrences-flat_append x (g ∷ gs) hs = omega (
  arith,
  occurrences-flat_append x gs hs,
  occurrences-append x g (flat (gs ++ hs)),
  occurrences-append x g (flat gs),
)

pub flat-singletons : (xs : List String) → flat (singletons xs) ≡ xs
flat-singletons [] = refl
flat-singletons (x ∷ xs) = ap (λ ys. x ∷ ys) (flat-singletons xs)

-- a test on ids that all nodes of a list pass, at an id of the list
pub at_id :
    (p : String → Bool) (ns : List WorkstreamNode) (x : String)
    → All (λ (n : WorkstreamNode). p n.id ≡ true) ns
    → includes (ids ns) x ≡ true
    → p x ≡ true
at_id p [] x h m = absurd (false≢true m)
at_id p (n ∷ ns) x (q, h) m = ground (arith, eq_iff n.id x, at_id p ns x h)

pub occurrences-filter-le :
    (p : WorkstreamNode → Bool) (x : String) (ns : List WorkstreamNode)
    → occurrences x (ids (filter p ns)) ≤ occurrences x (ids ns)
occurrences-filter-le p x [] = omega arith
occurrences-filter-le p x (n ∷ ns) = ground (arith, occurrences-filter-le p x ns)

pub occurrences-pick-le :
    (x : String) (group : List WorkstreamNode) (reasons : List String) (ready : List WorkstreamNode)
    → occurrences x (ids (pick group reasons ready).0)
      ≤ occurrences x (ids group) + occurrences x (ids ready)
unfolding pick
occurrences-pick-le x group reasons [] = omega arith
occurrences-pick-le x group reasons (n ∷ ready) = elim (Option-cases (blocker group n)) [
  | inl free ↦
      rw (free, pick)
        (omega (
          arith,
          occurrences-pick-le x (group ++ n ∷ []) reasons ready,
          ap (occurrences x) (ids-append group (n ∷ [])),
          occurrences-append x (ids group) (n.id ∷ []),
          occurrences-append x (n.id ∷ []) (ids ready),
        ))
  | inr (reason, blocked) ↦
      rw (blocked, pick)
        (omega (
          arith,
          occurrences-pick-le x group (reasons ++ reason ∷ []) ready,
          occurrences-append x (n.id ∷ []) (ids ready),
        ))
]

pub pick-All {ℓ} :
    (P : WorkstreamNode → Type ℓ) (group : List WorkstreamNode) (reasons : List String)
    (ready : List WorkstreamNode)
    → All P group
    → All P ready
    → All P (pick group reasons ready).0
unfolding pick
pick-All P group reasons [] g r = g
pick-All P group reasons (n ∷ ready) g (p, r) = elim (Option-cases (blocker group n)) [
  | inl free ↦
      rw (free, pick)
        (pick-All P (group ++ n ∷ []) reasons ready (All-append P group (n ∷ []) g (p, tt)) r)
  | inr (reason, blocked) ↦ rw (blocked, pick) (pick-All P group (reasons ++ reason ∷ []) ready g r)
]

-- a round takes the first ready node
pick_head :
    (m : WorkstreamNode) (group : List WorkstreamNode) (reasons : List String)
    (ready : List WorkstreamNode)
    → (rest : List WorkstreamNode) × ((pick (m ∷ group) reasons ready).0 ≡ m ∷ rest)
unfolding pick
pick_head m group reasons [] = (group, refl)
pick_head m group reasons (n ∷ ready) = elim (Option-cases (blocker (m ∷ group) n)) [
  | inl free ↦ rw (free, pick) (pick_head m (group ++ n ∷ []) reasons ready)
  | inr (reason, blocked) ↦ rw (blocked, pick) (pick_head m group (reasons ++ reason ∷ []) ready)
]

pub pick_first :
    (n : WorkstreamNode) (reasons : List String) (ready : List WorkstreamNode)
    → (rest : List WorkstreamNode) × ((pick [] reasons (n ∷ ready)).0 ≡ n ∷ rest)
unfolding pick blocker
pick_first n reasons ready = pick_head n [] reasons ready
