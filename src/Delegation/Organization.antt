-- ===== src/Delegation/Organization.antt =====
-- Every organization that can grow from one grant, by repeated use of `childAuthority` of
-- src/lifecycle/delegate-child.ts. What the spend guard holds an agent to is its own budget, and what the
-- plan check holds a fan-out to is the allowance; both are predicates here.
use cherry_on_top.Base.{ℕ, zero, suc, ◌+◌, ◌*◌, ◌≤◌, ◌≡◌, max, true, Option, none, arith}
use cherry_on_top.Authority.{Authority}
use cherry_on_top.Authority.Envelope.{summarize_authority}
use cherry_on_top.Delegation.{child_authority}
use cherry_on_top.Delegation.Bounds.{child_authority_allowance}

-- The agents below one grant, with what each of them spends. One that delegates to `k` children may
-- have the approval of a person for a budget.
mutual
  pub data Organization : Authority → Type 0 where
    alone : {a : Authority} (own : ℕ) → Organization a
    split :
        {a : Authority} (k own : ℕ) (approved : Option ℕ)
        → Children (child_authority a k approved) k
        → Organization a

  pub data Children : Authority → ℕ → Type 0 where
    nobody : {c : Authority} → Children c zero
    child : {c : Authority} {n : ℕ} → Organization c → Children c n → Children c (suc n)

unfoldable mutual
  pub agents : {a : Authority} → Organization a → ℕ
  agents (alone own) = 1
  agents (split k own approved below) = 1 + agents_of below

  pub agents_of : {c : Authority} {n : ℕ} → Children c n → ℕ
  agents_of nobody = 0
  agents_of (child o rest) = agents o + agents_of rest

unfoldable mutual
  pub spent : {a : Authority} → Organization a → ℕ
  spent (alone own) = own
  spent (split k own approved below) = own + spent_of below

  pub spent_of : {c : Authority} {n : ℕ} → Children c n → ℕ
  spent_of nobody = 0
  spent_of (child o rest) = spent o + spent_of rest

-- how many generations there are
unfoldable mutual
  pub levels : {a : Authority} → Organization a → ℕ
  levels (alone own) = 1
  levels (split k own approved below) = 1 + levels_of below

  pub levels_of : {c : Authority} {n : ℕ} → Children c n → ℕ
  levels_of nobody = 0
  levels_of (child o rest) = max (levels o) (levels_of rest)

-- every agent that delegates may, and to no more children than its allowance
unfoldable mutual
  pub IsPlanned : {a : Authority} → Organization a → Type 0
  IsPlanned (alone own) = Unit
  IsPlanned {a} (split k own approved below) =
      (a.spawn_children ≡ true) × ((1 ≤ k) × ((k ≤ a.max_child_count) × ArePlanned below))

  pub ArePlanned : {c : Authority} {n : ℕ} → Children c n → Type 0
  ArePlanned nobody = Unit
  ArePlanned (child o rest) = IsPlanned o × ArePlanned rest

-- no agent spends more than its own budget, and no person approved more
unfoldable mutual
  pub IsFunded : {a : Authority} → Organization a → Type 0
  IsFunded {a} (alone own) = own ≤ a.budget_usd
  IsFunded {a} (split k own approved below) =
      (own ≤ a.budget_usd) × ((approved ≡ none) × AreFunded below)

  pub AreFunded : {c : Authority} {n : ℕ} → Children c n → Type 0
  AreFunded nobody = Unit
  AreFunded (child o rest) = IsFunded o × AreFunded rest

mutual
  unfolding agents agents_of IsPlanned ArePlanned

  agents_le : {a : Authority} (o : Organization a) → IsPlanned o → agents o ≤ a.max_child_count + 1
  agents_le (alone own) h = omega arith
  agents_le {a} (split k own approved below) (may, (some_children, (allowed, h))) =
      omega
        (arith, agents_of_le below h, child_authority_allowance a k approved some_children allowed)

  agents_of_le :
      {c : Authority} {n : ℕ} (os : Children c n)
      → ArePlanned os
      → agents_of os ≤ n + c.max_child_count * n
  agents_of_le nobody h = omega arith
  agents_of_le (child o rest) (p, h) = omega (arith, agents_le o p, agents_of_le rest h)

-- Where every agent that delegates may do so, to at least one child and to no more children than
-- its allowance, there are at most `max_child_count + 1` agents below a grant, and no more than the
-- one-line version of the grant says, one where it says one; also where people approved budgets.
pub agents_bounded :
    {a : Authority} (o : Organization a)
    → IsPlanned o
    → (agents o ≤ a.max_child_count + 1) × (agents o ≤ (summarize_authority a).0)
unfolding summarize_authority IsPlanned agents
agents_bounded {a} (alone own) h = (omega arith, ground arith)
agents_bounded {a} (split k own approved below) (may, (some_children, (allowed, h))) =
    let few = agents_le (split k own approved below) (may, (some_children, (allowed, h))) in
    (few, ground arith)
