-- ===== src/Delegation/Bounds.antt =====
-- How far authority can spread: what children are given, and the size and the spending of every
-- organization that grows from one grant.
use native.Mathlib.Nat.{div-mul-le_self}
use cherry_on_top.Base.{
  ℕ, zero, suc, ◌+◌, ◌-◌, ◌*◌, ◌/◌, ◌≤◌, ◌≡◌, refl, max, min, true, false, Option, none, some, List,
  [], ◌∷◌, ◌==◌, false, replicate, arith, filter-includes_self, length, ap,
}
use cherry_on_top.Authority.{Authority}
use cherry_on_top.Delegation.{child_authority, min_agent_budget_usd, allocate_child_authority}

abbrev pub sum : List ℕ → ℕ
sum [] = 0
sum (x ∷ xs) = x + sum xs

sum-replicate : (n x : ℕ) → sum (replicate n x) ≡ x * n
sum-replicate zero x = omega arith
sum-replicate (suc n) x = omega (arith, sum-replicate n x)

length-replicate {ℓ} : {A : Type ℓ} (n : ℕ) (x : A) → length (replicate n x) ≡ n
length-replicate zero x = refl
length-replicate (suc n) x = ap suc (length-replicate n x)

pub mul_mono : (a b c : ℕ) → a ≤ b → a * c ≤ b * c
mul_mono a b c h = grind arith

-- A child's share of the parent's budget and of its allowance, when no person approved more: with
-- `k` siblings, `k + 1` times the child's budget fits in the parent's, and the `k` siblings with
-- all the agents that their allowances let them create fit in the parent's allowance.
pub child_authority_shares :
    (parent : Authority) (k : ℕ)
    → 1 ≤ k
    → k ≤ parent.max_child_count
    → ((child_authority parent k none).budget_usd * (k + 1) ≤ parent.budget_usd)
      × (k + (child_authority parent k none).max_child_count * k ≤ parent.max_child_count)
unfolding child_authority
child_authority_shares parent k h m =
    let one : max 1 k ≡ k = omega arith in
    rw one (
      omega (
        arith,
        mul_mono (min parent.budget_usd (min parent.budget_usd (parent.budget_usd / (k + 1))))
            (parent.budget_usd / (k + 1)) (k + 1) (omega arith),
        div-mul-le_self parent.budget_usd (k + 1),
      ),
      omega (
        arith,
        mul_mono
            (min parent.max_child_count
              (min parent.max_child_count ((parent.max_child_count - k) / k)))
            ((parent.max_child_count - k) / k) k (omega arith),
        div-mul-le_self (parent.max_child_count - k) k,
      ),
    )

-- The same share of the allowance, whatever budget a person approved.
pub child_authority_allowance :
    (parent : Authority) (k : ℕ) (approved : Option ℕ)
    → 1 ≤ k
    → k ≤ parent.max_child_count
    → k + (child_authority parent k approved).max_child_count * k ≤ parent.max_child_count
unfolding child_authority
child_authority_allowance parent k none h m = (child_authority_shares parent k h m).1
child_authority_allowance parent k (some a) h m = (child_authority_shares parent k h m).1

-- What is not divided: a child has its parent's tools and no larger allowance, and it may delegate
-- only if its parent may, its allowance is positive and its budget pays for two agents. This holds
-- also when a person approved a budget.
pub child_authority_limits :
    (parent : Authority) (k : ℕ) (approved : Option ℕ)
    → ((child_authority parent k approved).tools ≡ parent.tools)
      × ((child_authority parent k approved).max_child_count ≤ parent.max_child_count)
      × ((child_authority parent k approved).spawn_children ≡ true
          → (parent.spawn_children ≡ true)
            × (1 ≤ (child_authority parent k approved).max_child_count)
            × (min_agent_budget_usd * 2 ≤ (child_authority parent k approved).budget_usd))
unfolding child_authority
child_authority_limits parent k none =
    (filter-includes_self parent.tools, omega arith, λ h. ground arith)
child_authority_limits parent k (some a) =
    (filter-includes_self parent.tools, omega arith, λ h. ground arith)

-- An approved budget is not divided: every sibling holds all of it, whatever their number and
-- whatever the parent holds.
pub child_authority_approved :
    (parent : Authority) (k approved : ℕ)
    → (child_authority parent k (some approved)).budget_usd ≡ approved
unfolding child_authority
child_authority_approved parent k approved = omega arith

-- With `n` children each gets the same, what they get and what the parent keeps is the parent's
-- budget, the parent keeps at least the reserve that its budget covers, and without children it
-- keeps everything.
pub allocate_child_authority_lem :
    (parent : Authority) (n reserve : ℕ)
    → let a = allocate_child_authority parent n reserve in
      (length a.child_budgets_usd ≡ n)
      × (sum a.child_budgets_usd ≡ a.total_allocated_usd)
      × (a.total_allocated_usd + a.remaining_parent_budget_usd ≡ parent.budget_usd)
      × (min parent.budget_usd reserve ≤ a.remaining_parent_budget_usd)
unfolding allocate_child_authority
allocate_child_authority_lem parent zero reserve = (refl, omega arith, omega arith, omega arith)
allocate_child_authority_lem parent (suc n) reserve =
    let each = (parent.budget_usd - min parent.budget_usd reserve) / suc n in
    let fits = div-mul-le_self (parent.budget_usd - min parent.budget_usd reserve) (suc n) in
    let some_children : (suc n == 0) ≡ false = ground arith in
    rw some_children
      (length-replicate (suc n) each, sum-replicate (suc n) each, omega arith, omega arith)
