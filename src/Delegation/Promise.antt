-- ===== src/Delegation/Promise.antt =====
-- What the agents below a grant can spend, beside the ceiling that a person is told before a case
-- starts: src/engines/simulate-authority.ts, and the budgets of src/lifecycle/delegate-child.ts.
use cherry_on_top.Base.{ℕ, ◌+◌, ◌*◌, ◌≤◌, max, none, arith}
use cherry_on_top.Authority.{Authority}
use cherry_on_top.Authority.Envelope.{summarize_authority}
use cherry_on_top.Delegation.{child_authority}
use cherry_on_top.Delegation.Bounds.{mul_mono, child_authority_shares}
use cherry_on_top.Delegation.Organization.{
  Organization, agents, agents_of, agents_bounded, alone, split, Children, nobody, child, spent,
  spent_of, levels, levels_of, IsPlanned, ArePlanned, IsFunded, AreFunded,
}

mul_mono_right : (a b c : ℕ) → b ≤ c → a * b ≤ a * c
mul_mono_right a b c h = grind arith

-- the children's part, where `c` is a child's budget, `k` their number and `l` their generations
below_le :
    (b c k l own below : ℕ)
    → own ≤ b
    → c * (k + 1) ≤ b
    → below ≤ c * k * l
    → own + below ≤ b * (1 + l)
below_le b c k l own below h m s =
    let fits : c * k ≤ b = omega (arith, m) in omega (arith, h, s, mul_mono (c * k) b l fits)

mutual
  unfolding spent spent_of levels levels_of IsPlanned ArePlanned IsFunded AreFunded

  spent_le :
      {a : Authority} (o : Organization a)
      → IsPlanned o
      → IsFunded o
      → spent o ≤ a.budget_usd * levels o
  spent_le (alone own) p f = omega (arith, f)
  spent_le {a} (split k own approved below) (may, (some_children, (allowed, p))) (fits, (e, f)) =
      below_le a.budget_usd (child_authority a k none).budget_usd k (levels_of below) own
        (spent_of below) fits (child_authority_shares a k some_children allowed).0
        (rw (← e) (spent_of_le below p f))

  spent_of_le :
      {c : Authority} {n : ℕ} (os : Children c n)
      → ArePlanned os
      → AreFunded os
      → spent_of os ≤ c.budget_usd * n * levels_of os
  spent_of_le nobody p f = omega arith
  spent_of_le {c} (child {n = n} o rest) (p, ps) (f, fs) =
      let m = max (levels o) (levels_of rest) in
      omega (
        arith,
        spent_le o p f,
        spent_of_le rest ps fs,
        mul_mono_right c.budget_usd (levels o) m (omega arith),
        mul_mono_right (c.budget_usd * n) (levels_of rest) m (omega arith),
      )

mutual
  unfolding agents agents_of levels levels_of

  levels_le : {a : Authority} (o : Organization a) → levels o ≤ agents o
  levels_le (alone own) = omega arith
  levels_le (split k own approved below) = omega (arith, levels_of_le below)

  levels_of_le : {c : Authority} {n : ℕ} (os : Children c n) → levels_of os ≤ agents_of os
  levels_of_le nobody = omega arith
  levels_of_le (child o rest) = omega (arith, levels_le o, levels_of_le rest)

-- Where every agent that delegates may do so, to at least one child and to no more children than
-- its allowance, where no agent spends more than its own budget, and where no person approved
-- more: all together spend at most the ceiling of the grant's one-line version once for each
-- generation of agents, of which there are at most `max_child_count + 1`.
pub spending_bounded :
    {a : Authority} (o : Organization a)
    → IsPlanned o
    → IsFunded o
    → (spent o ≤ (summarize_authority a).1 * levels o) × (levels o ≤ a.max_child_count + 1)
unfolding summarize_authority
spending_bounded {a} o p f = (spent_le o p f, omega (arith, levels_le o, (agents_bounded o p).0))
