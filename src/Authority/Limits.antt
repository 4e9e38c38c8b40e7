-- ===== src/Authority/Limits.antt =====
-- What an effective authority can and cannot do.
use text.Mathlib.TextEquality.{eq_iff}
use text.Mathlib.TextPositions.{eq_refl}
use mathlib.Core.Bool.{false≢true}
use cherry_on_top.Base.{
  ◌≤◌, Bool-cases, inl, inr, String, Bool, true, false, ◌&&◌, List, [], ◌∷◌, ◌≡◌, any, includes,
  includes-filter, filter-eq-nil, arith,
}
use cherry_on_top.Authority.{Authority, effective_authority, is_restricted, is_tool_allowed}

any-of_includes :
    (p : String → Bool) (xs : List String) (x : String)
    → includes xs x ≡ true
    → p x ≡ true
    → any p xs ≡ true
any-of_includes p [] x h q = h
any-of_includes p (y ∷ ys) x h q = ground (arith, eq_iff y x, any-of_includes p ys x)

-- every tool of the list `xs` is in `ys`, so what `xs` admits `ys` admits
any_mono :
    (p : String → Bool) (xs ys : List String)
    → ((x : String) → includes xs x ≡ true → includes ys x ≡ true)
    → any p xs ≡ true
    → any p ys ≡ true
any_mono p (x ∷ xs) ys sub h = elim (Bool-cases (p x)) [
  | inl found ↦ any-of_includes p ys x (sub x (ground (arith, eq_refl x))) found
  | inr missed ↦ any_mono p xs ys (λ y m. sub y (ground arith)) (ground arith)
]
any_mono p [] ys sub h = absurd (false≢true h)

-- whether an authority with these tools may use one, `[]` being no restriction
is_tool_allowed_mono :
    (a b : Authority) (t : String)
    → ((x : String) → includes a.tools x ≡ true → includes b.tools x ≡ true)
    → is_restricted a ≡ true
    → is_tool_allowed a t ≡ true
    → is_tool_allowed b t ≡ true
unfolding is_tool_allowed
is_tool_allowed_mono a b t sub r h = elim (Bool-cases (is_restricted b)) [
  | inl restricted ↦ rw restricted (any_mono _ a.tools b.tools sub (rw r at h))
  | inr free ↦ rw free
]

module _ (platform parent child : Authority) where
  -- The effective authority is within each of the three: the budget and the number of agents are
  -- at most each one's, and it may delegate only if each may.
  pub effective_authority_bounds :
      let e = effective_authority platform parent child in
      (e.budget_usd ≤ platform.budget_usd)
      × (e.budget_usd ≤ parent.budget_usd)
      × (e.budget_usd ≤ child.budget_usd)
      × (e.max_child_count ≤ platform.max_child_count)
      × (e.max_child_count ≤ parent.max_child_count)
      × (e.max_child_count ≤ child.max_child_count)
      × (e.spawn_children
          ≡ (platform.spawn_children && (parent.spawn_children && child.spawn_children)))
  unfolding effective_authority
  effective_authority_bounds = ground arith

  -- The tools of the effective authority are those that all three list.
  pub effective_authority-tools :
      (t : String)
      → includes (effective_authority platform parent child).tools t
        ≡ (includes child.tools t && (includes platform.tools t && includes parent.tools t))
  unfolding effective_authority
  effective_authority-tools t = includes-filter _ child.tools t

  -- While some tool is left, a tool that the effective authority allows is allowed by the
  -- platform, by the parent and by the request.
  pub effective_authority_sound :
      (t : String)
      → is_restricted (effective_authority platform parent child) ≡ true
      → is_tool_allowed (effective_authority platform parent child) t ≡ true
      → (is_tool_allowed platform t ≡ true)
        × (is_tool_allowed parent t ≡ true)
        × (is_tool_allowed child t ≡ true)
  effective_authority_sound t r h =
      let e = effective_authority platform parent child in
      let kept : (x : String)
          → includes e.tools x ≡ true
          → (includes platform.tools x ≡ true)
            × (includes parent.tools x ≡ true)
            × (includes child.tools x ≡ true) =
        λ x m. ground (arith, effective_authority-tools x) in
      (
        is_tool_allowed_mono e platform t (λ x m. (kept x m).0) r h,
        is_tool_allowed_mono e parent t (λ x m. (kept x m).1) r h,
        is_tool_allowed_mono e child t (λ x m. (kept x m).2) r h,
      )

-- When the parent grants none of the tools that the child asks for, the intersection is empty, and
-- the empty list means no restriction: the child may use every tool, also those that the parent
-- may not use.
pub effective_authority_widens :
    (platform parent child : Authority)
    → ((x : String) → includes child.tools x ≡ true → includes parent.tools x ≡ false)
    → (t : String) → is_tool_allowed (effective_authority platform parent child) t ≡ true
unfolding effective_authority is_tool_allowed
effective_authority_widens platform parent child disjoint t = rw (
    filter-eq-nil (λ tool. includes platform.tools tool && includes parent.tools tool) child.tools
      (λ x m. ground (arith, disjoint x m)))
