-- ===== src/Economy/Budget.antt =====
-- The allowances of a run: allocateBudget of src/decision/budget.ts. A bucket that no opportunity
-- funds has no demand and no value; the value of one is a difference of the utility's amounts.
pub mod Conserved
use cherry_on_top.Base.{
  ℕ, ◌+◌, ◌-◌, ◌*◌, ◌/◌, min, String, Bool, true, false, ◌&&◌, Option, none, some, List, [], ◌∷◌,
  if◌then◌else◌, ltb,
}
use text.Mathlib.Text.{starts_with}
use cherry_on_top.Economy.{EconomicState}
use cherry_on_top.Economy.Action.{
  ActionKind, acquire_evidence, explore, validate, reuse_evidence, recover, ActionCandidate,
}
use cherry_on_top.Economy.Utility.{UtilityWeights, is_positive, evaluate_action_utility}

pub data SpendBucket : Type 0 where
  context exploration evidence validation recovery_reserve : SpendBucket

-- a number for each bucket
pub record Shares : Type 0 where
  pub context : ℕ
  pub exploration : ℕ
  pub evidence : ℕ
  pub validation : ℕ
  pub recovery_reserve : ℕ

pub record BudgetAllocation : Type 0 where
  pub shares : Shares
  pub orchestration : ℕ
  pub unallocated : ℕ

abbrev pub no_shares : Shares
no_shares = record {
  context = 0;
  exploration = 0;
  evidence = 0;
  validation = 0;
  recovery_reserve = 0;
}

abbrev pub empty_allocation : BudgetAllocation
empty_allocation = record { shares = no_shares; orchestration = 0; unallocated = 0 }

unfoldable pub bucket_for : ActionCandidate → Option SpendBucket
bucket_for c = elim c.kind [
  | validate ↦ some validation
  | recover ↦ some recovery_reserve
  | explore ↦ some exploration
  | acquire_evidence ↦ some (if starts_with c.capability "context." then context else evidence)
  | reuse_evidence ↦ some (if starts_with c.capability "context." then context else evidence)
  | _ ↦ none
]

-- `map.set(bucket, (map.get(bucket) ?? 0) + n)`
abbrev pub add_to : SpendBucket → ℕ → Shares → Shares
add_to context n s = record s { context = s.context + n }
add_to exploration n s = record s { exploration = s.exploration + n }
add_to evidence n s = record s { evidence = s.evidence + n }
add_to validation n s = record s { validation = s.validation + n }
add_to recovery_reserve n s = record s { recovery_reserve = s.recovery_reserve + n }

abbrev pub sum : Shares → ℕ
sum s = s.context + s.exploration + s.evidence + s.validation + s.recovery_reserve

-- a function of two numbers, bucket by bucket
abbrev pub zip_with : (ℕ → ℕ → ℕ) → Shares → Shares → Shares
zip_with f a b = record {
  context = f a.context b.context;
  exploration = f a.exploration b.exploration;
  evidence = f a.evidence b.evidence;
  validation = f a.validation b.validation;
  recovery_reserve = f a.recovery_reserve b.recovery_reserve;
}

pub record Claims : Type 0 where
  pub demand : Shares
  pub value : Shares

-- the loop over the opportunities
unfoldable pub claims_of : EconomicState → UtilityWeights → Claims → List ActionCandidate → Claims
unfolding bucket_for
claims_of s w claims [] = claims
claims_of s w claims (c ∷ cs) =
    let evaluation = evaluate_action_utility c s w in
    let next : Claims = elim (bucket_for c) [
      | none ↦ claims
      | some bucket ↦
          if evaluation.allowed && is_positive evaluation.score
          then record {
            demand = add_to bucket (c.token_cost + c.coordination_cost) claims.demand;
            value = add_to bucket (evaluation.score.gain - evaluation.score.loss) claims.value;
          }
          else claims
    ] in
    claims_of s w next cs

abbrev pub declared_overhead : List ActionCandidate → ℕ
declared_overhead [] = 0
declared_overhead (c ∷ cs) = c.orchestration_cost + declared_overhead cs

-- the first pass: a share of the pool by value, at most what was asked for
unfoldable pub capped : ℕ → ℕ → ℕ → ℕ → ℕ
capped pool total demand value = min (pool * value / total) demand

-- the value of the buckets that want more
abbrev pub wanting : ℕ → ℕ → ℕ
wanting want value = if ltb 0 want then value else 0

-- the second pass: a share of the surplus by value, at most what is wanted
unfoldable pub extra : ℕ → ℕ → ℕ → ℕ → ℕ
extra surplus total want value = min want (surplus * value / total)

-- what the buckets get of the pool
unfoldable pub share_out : ℕ → Claims → Shares
unfolding capped extra
share_out pool claims =
    let total = sum claims.value in
    let first = zip_with (capped pool total) claims.demand claims.value in
    let wants = zip_with (λ d a. d - a) claims.demand first in
    let wanted = zip_with wanting wants claims.value in
    let surplus = pool - sum first in
    let more = zip_with (extra surplus (sum wanted)) wants wanted in
    if ltb 0 total
    then if ltb 0 surplus && ltb 0 (sum wanted) then zip_with (λ a b. a + b) first more else first
    else no_shares

unfoldable pub allocate_budget :
    EconomicState → List ActionCandidate → UtilityWeights → BudgetAllocation
unfolding claims_of share_out
allocate_budget s opportunities w =
    let remaining = s.resources.remaining_tokens in
    let optimization_left =
      s.resources.optimization_tokens - s.resources.optimization_consumed_tokens in
    let orchestration = min remaining (min optimization_left (declared_overhead opportunities)) in
    let claims = claims_of s w (record { demand = no_shares; value = no_shares }) opportunities in
    let shares = share_out (remaining - orchestration) claims in
    if ltb 0 remaining
    then record {
      shares = shares;
      orchestration = orchestration;
      unallocated = remaining - (sum shares + orchestration);
    }
    else empty_allocation

unfoldable pub allocation_total : BudgetAllocation → ℕ
allocation_total a = sum a.shares + a.orchestration + a.unallocated
