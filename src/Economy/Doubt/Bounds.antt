-- ===== src/Economy/Doubt/Bounds.antt =====
-- An observation moves a doubt towards what it saw, and never past it.
use native.Mathlib.Nat.{mul-le-mul_left}
use cherry_on_top.Base.{
  ℕ, ◌-◌, ◌*◌, ◌/◌, ◌≤◌, ◌≡◌, refl, ap, String, true, ◌||◌, List, [], ◌∷◌, includes, arith, All,
  Bool-cases, inl, inr,
}
use cherry_on_top.Economy.{
  one, UncertaintyKind, target, structural, behavioral, validation, UncertaintyState,
  UncertaintyObservation, clamp01,
}
use cherry_on_top.Economy.Doubt.{
  doubt, set_doubt, staleness, move_towards, observe, signature_of, is_counted, update_from,
  update_uncertainty,
}

scaled_le : (d w : ℕ) → w ≤ one → d * w / one ≤ d
scaled_le d w h = omega (arith, mul-le-mul_left d h)

staleness-le : (o : UncertaintyObservation) (c : ℕ) → staleness o c ≤ one
unfolding staleness
staleness-le o c = ground arith

move_towards_between :
    (lo hi c a w : ℕ)
    → lo ≤ c
    → c ≤ hi
    → lo ≤ a
    → a ≤ hi
    → hi ≤ one
    → w ≤ one
    → (lo ≤ move_towards c a w) × (move_towards c a w ≤ hi)
unfolding move_towards
move_towards_between lo hi c a w lc ch la ah h1 hw = (
  ground (arith, scaled_le (a - c) w hw, scaled_le (c - a) w hw),
  ground (arith, scaled_le (a - c) w hw, scaled_le (c - a) w hw),
)

weight_le :
    (o : UncertaintyObservation) (c : ℕ) → clamp01 o.confidence 0 * staleness o c / one ≤ one
weight_le o c =
    let scaled = scaled_le (clamp01 o.confidence 0) (staleness o c) (staleness-le o c) in
    ground (arith, scaled)

-- the kind's doubt is in the interval
abbrev IsBetween : ℕ → ℕ → ℕ → Type 0
IsBetween lo hi d = (lo ≤ d) × (d ≤ hi)

-- what the observation saw of the kind `k` is in the interval
abbrev pub SawBetween : ℕ → ℕ → UncertaintyKind → UncertaintyObservation → Type 0
SawBetween lo hi k o = o.kind ≡ k → (lo ≤ clamp01 o.after 0) × (clamp01 o.after 0 ≤ hi)

set-IsBetween :
    (lo hi : ℕ) (j k : UncertaintyKind) (u : UncertaintyState) (v : ℕ)
    → IsBetween lo hi (doubt u k)
    → (j ≡ k → IsBetween lo hi v)
    → IsBetween lo hi (doubt (set_doubt u j v) k)
set-IsBetween lo hi target target u v h g = g refl
set-IsBetween lo hi target structural u v h g = h
set-IsBetween lo hi target behavioral u v h g = h
set-IsBetween lo hi target validation u v h g = h
set-IsBetween lo hi structural target u v h g = h
set-IsBetween lo hi structural structural u v h g = g refl
set-IsBetween lo hi structural behavioral u v h g = h
set-IsBetween lo hi structural validation u v h g = h
set-IsBetween lo hi behavioral target u v h g = h
set-IsBetween lo hi behavioral structural u v h g = h
set-IsBetween lo hi behavioral behavioral u v h g = g refl
set-IsBetween lo hi behavioral validation u v h g = h
set-IsBetween lo hi validation target u v h g = h
set-IsBetween lo hi validation structural u v h g = h
set-IsBetween lo hi validation behavioral u v h g = h
set-IsBetween lo hi validation validation u v h g = g refl

observe-IsBetween :
    (lo hi : ℕ) (k : UncertaintyKind) (u : UncertaintyState) (o : UncertaintyObservation)
    → hi ≤ one
    → IsBetween lo hi (doubt u k)
    → SawBetween lo hi k o
    → IsBetween lo hi (doubt (observe u o) k)
unfolding observe
observe-IsBetween lo hi k u o h1 (lc, ch) saw =
    set-IsBetween lo hi o.kind k u _ (lc, ch)
      (λ same.
        let (la, ah) = saw same in
        let current : doubt u o.kind ≡ doubt u k = ap (doubt u) same in
        move_towards_between lo hi (doubt u o.kind) (clamp01 o.after 0)
          (clamp01 o.confidence 0 * staleness o (doubt u o.kind) / one) (omega (arith, lc, current))
          (omega (arith, ch, current)) la ah h1 (weight_le o (doubt u o.kind)))

update_from-IsBetween :
    (lo hi : ℕ) (k : UncertaintyKind) (counted seen : List String) (u : UncertaintyState)
    (os : List UncertaintyObservation)
    → hi ≤ one
    → IsBetween lo hi (doubt u k)
    → All (SawBetween lo hi k) os
    → IsBetween lo hi (doubt (update_from counted seen u os) k)
unfolding update_from
update_from-IsBetween lo hi k counted seen u [] h1 b saw = b
update_from-IsBetween lo hi k counted seen u (o ∷ os) h1 b (s, saw) =
    elim (Bool-cases (is_counted counted o || includes seen (signature_of o))) [
      | inl known ↦
          rw (known, update_from) (update_from-IsBetween lo hi k counted seen u os h1 b saw)
      | inr new ↦
          rw (new, update_from)
            (update_from-IsBetween lo hi k counted (signature_of o ∷ seen) (observe u o) os h1
              (observe-IsBetween lo hi k u o h1 b s) saw)
    ]

-- Where a doubt, and all that the observations saw of it, lie in an interval below one, the
-- doubt stays in it, whatever was counted before: evidence never moves a doubt past what it
-- saw, so observations that all lower it never raise it.
pub update_uncertainty_between :
    (lo hi : ℕ) (k : UncertaintyKind) (u : UncertaintyState) (os : List UncertaintyObservation)
    (counted : List String)
    → hi ≤ one
    → (lo ≤ doubt u k) × (doubt u k ≤ hi)
    → All (SawBetween lo hi k) os
    → (lo ≤ doubt (update_uncertainty u os counted) k)
      × (doubt (update_uncertainty u os counted) k ≤ hi)
unfolding update_uncertainty
update_uncertainty_between lo hi k u os counted h1 b saw =
    update_from-IsBetween lo hi k counted [] u os h1 b saw

-- observations behind which all the evidence was counted change nothing
pub update_uncertainty_counted :
    (u : UncertaintyState) (os : List UncertaintyObservation) (counted : List String)
    → All (λ o. is_counted counted o ≡ true) os
    → update_uncertainty u os counted ≡ u
unfolding update_uncertainty update_from
update_uncertainty_counted u [] counted h = refl
update_uncertainty_counted u (o ∷ os) counted (e, h) =
    rw (e, update_from) (update_uncertainty_counted u os counted h)
