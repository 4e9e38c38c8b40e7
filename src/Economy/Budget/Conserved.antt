-- ===== src/Economy/Budget/Conserved.antt =====
-- No token is lost, and none is handed out twice.
use native.Mathlib.Nat.{mul-div-le, le_of_mul-le-mul_left, mul_comm}
use cherry_on_top.Base.{
  ℕ, ◌+◌, ◌-◌, ◌*◌, ◌/◌, ◌≤◌, ◌<◌, ◌≡◌, refl, ap, min, true, ◌&&◌, List, ltb, arith, Bool-cases,
  inl, inr,
}
use cherry_on_top.Economy.{EconomicState}
use cherry_on_top.Economy.Action.{ActionCandidate}
use cherry_on_top.Economy.Utility.{UtilityWeights}
use cherry_on_top.Economy.Budget.{
  Shares, Claims, sum, zip_with, capped, extra, wanting, share_out, claims_of, declared_overhead,
  allocate_budget, allocation_total, no_shares,
}

-- five parts of a division fit in the whole
parts_le :
    (v p q1 q2 q3 q4 q5 x1 x2 x3 x4 x5 : ℕ)
    → 0 < v
    → v * q1 ≤ p * x1
    → v * q2 ≤ p * x2
    → v * q3 ≤ p * x3
    → v * q4 ≤ p * x4
    → v * q5 ≤ p * x5
    → x1 + x2 + x3 + x4 + x5 ≡ v
    → q1 + q2 + q3 + q4 + q5 ≤ p
parts_le v p q1 q2 q3 q4 q5 x1 x2 x3 x4 x5 h h1 h2 h3 h4 h5 e =
    le_of_mul-le-mul_left (omega (arith, h1, h2, h3, h4, h5, ap (λ n. p * n) e, mul_comm v p)) h

-- the shares of a total by value come to no more than it
shares_le :
    (p : ℕ) (value : Shares)
    → 0 < sum value
    → sum (zip_with (λ d v. p * v / sum value) value value) ≤ p
shares_le p value h =
    let v = sum value in
    parts_le v p _ _ _ _ _ value.context value.exploration value.evidence value.validation
      value.recovery_reserve h (mul-div-le _ _) (mul-div-le _ _) (mul-div-le _ _) (mul-div-le _ _)
      (mul-div-le _ _) refl

first_le :
    (pool : ℕ) (claims : Claims)
    → 0 < sum claims.value
    → sum (zip_with (capped pool (sum claims.value)) claims.demand claims.value) ≤ pool
unfolding capped
first_le pool claims h = omega (arith, shares_le pool claims.value h)

extra_le :
    (surplus : ℕ) (wants wanted : Shares)
    → 0 < sum wanted
    → sum (zip_with (extra surplus (sum wanted)) wants wanted) ≤ surplus
unfolding extra
extra_le surplus wants wanted h = omega (arith, shares_le surplus wanted h)

positive : (n : ℕ) → ltb 0 n ≡ true → 0 < n
positive n h = ground arith

both_positive : (n m : ℕ) → (ltb 0 n && ltb 0 m) ≡ true → 0 < m
both_positive n m h = ground arith

rest_le :
    (pool : ℕ) (a b : Shares)
    → sum a ≤ pool
    → sum b ≤ pool - sum a
    → sum (zip_with (λ a b. a + b) a b) ≤ pool
rest_le pool a b h k = omega (arith, h, k)

share_out_le : (pool : ℕ) (claims : Claims) → sum (share_out pool claims) ≤ pool
unfolding share_out
share_out_le pool claims = elim (Bool-cases (ltb 0 (sum claims.value))) [
  | inr nothing ↦ rw nothing (omega arith)
  | inl valued ↦
      let total = sum claims.value in
      let first = zip_with (capped pool total) claims.demand claims.value in
      let wants = zip_with (λ d a. d - a) claims.demand first in
      let wanted = zip_with wanting wants claims.value in
      let surplus = pool - sum first in
      let paid = first_le pool claims (positive (sum claims.value) valued) in
      elim (Bool-cases (ltb 0 surplus && ltb 0 (sum wanted))) [
        | inr none_left ↦ rw valued (rw none_left paid)
        | inl left ↦ rw valued (
            rw left (
              rest_le pool first (zip_with (extra surplus (sum wanted)) wants wanted) paid
                (extra_le surplus wants wanted (both_positive surplus (sum wanted) left))))
      ]
]

-- bucket by bucket
abbrev pub AreWithin : Shares → Shares → Type 0
AreWithin a d =
    (a.context ≤ d.context)
    × ((a.exploration ≤ d.exploration)
        × ((a.evidence ≤ d.evidence)
            × ((a.validation ≤ d.validation) × (a.recovery_reserve ≤ d.recovery_reserve))))

share_out-AreWithin : (pool : ℕ) (claims : Claims) → AreWithin (share_out pool claims) claims.demand
unfolding share_out capped extra
share_out-AreWithin pool claims =
    (ground arith, (ground arith, (ground arith, (ground arith, ground arith))))

-- The parts of an allocation add up to what remains of the budget; deciding costs no more than
-- the optimizer has left; and no bucket gets more than the allowed opportunities with a positive
-- score ask of it.
pub allocate_conserves :
    (s : EconomicState) (opportunities : List ActionCandidate) (w : UtilityWeights)
    → let a = allocate_budget s opportunities w in
      (allocation_total a ≡ s.resources.remaining_tokens)
      × ((a.orchestration
            ≤ s.resources.optimization_tokens - s.resources.optimization_consumed_tokens)
          × AreWithin a.shares
              (claims_of s w
                (record { demand = no_shares; value = no_shares })
                opportunities).demand)
unfolding allocate_budget allocation_total
allocate_conserves s opportunities w =
    let claims = claims_of s w (record { demand = no_shares; value = no_shares }) opportunities in
    let remaining = s.resources.remaining_tokens in
    elim (Bool-cases (ltb 0 remaining)) [
      | inr spent ↦
          rw (spent, allocate_budget)
            (
              ground arith,
              (
                omega arith,
                (omega arith, (omega arith, (omega arith, (omega arith, omega arith)))),
              ),
            )
      | inl left ↦
          let optimization_left =
            s.resources.optimization_tokens - s.resources.optimization_consumed_tokens in
          let orchestration =
            min remaining (min optimization_left (declared_overhead opportunities)) in
          rw (left, allocate_budget)
            (
              omega (arith, share_out_le (remaining - orchestration) claims),
              (omega arith, share_out-AreWithin (remaining - orchestration) claims),
            )
    ]
