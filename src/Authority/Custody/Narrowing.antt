-- ===== src/Authority/Custody/Narrowing.antt =====
-- What `narrowing` reports.
use mathlib.Core.Bool.{false≢true}
use cherry_on_top.Base.{
  ◌≤◌, ◌≡◌, refl, ◌↔◌, String, true, false, not, List, [], ◌∷◌, ◌++◌, filter, includes, unique,
  arith, includes-unique, filter-eq-nil, none_of_filter-eq-nil, ltb, length, Bool-cases, inl, inr,
}
use cherry_on_top.Authority.{Authority, is_tool_allowed}
use cherry_on_top.Authority.Custody.{removed_tools, tool_losses, delegation_losses, narrowing}

abbrev Keeps : List String → List String → Type 0
Keeps ts us = (t : String) → includes ts t ≡ true → includes us t ≡ true

nil_of_length {ℓ} : {A : Type ℓ} (xs : List A) → ltb 0 (length xs) ≡ false → xs ≡ []
nil_of_length [] h = refl
nil_of_length (x ∷ xs) h = ground arith

lost_from_iff :
    (ts us : List String) → (filter (λ t. not (includes us t)) (unique ts) ≡ []) ↔ Keeps ts us
lost_from_iff ts us = (
  λ e t m. ground (arith, none_of_filter-eq-nil _ (unique ts) e t, includes-unique ts t),
  λ keeps. filter-eq-nil _ (unique ts) (λ t m. ground (arith, keeps t, includes-unique ts t)),
)

removed_tools_iff :
    (parent child : Authority) → (removed_tools parent child ≡ []) ↔ Keeps parent.tools child.tools
unfolding removed_tools
removed_tools_iff parent child = elim (Bool-cases (ltb 0 (length parent.tools))) [
  | inl listed ↦ rw listed (lost_from_iff parent.tools child.tools)
  | inr empty ↦
      rw (empty, nil_of_length parent.tools empty) (λ e t m. absurd (false≢true m), λ keeps. refl)
]

tool_losses_iff : (ts : List String) → (tool_losses ts ≡ []) ↔ (ts ≡ [])
unfolding tool_losses
tool_losses_iff [] = (λ e. refl, λ e. refl)
tool_losses_iff (t ∷ ts) = (λ e. cc, λ e. cc)

delegation_losses_iff :
    (parent child : Authority)
    → (delegation_losses parent child ≡ []) ↔ (
        (parent.spawn_children ≡ true → child.spawn_children ≡ true)
        × (parent.max_child_count ≤ child.max_child_count))
unfolding delegation_losses
delegation_losses_iff parent child = (λ e. ground arith, λ h. ground arith)

append-eq-nil {ℓ} : {A : Type ℓ} (xs ys : List A) → (xs ++ ys ≡ []) ↔ ((xs ≡ []) × (ys ≡ []))
append-eq-nil [] ys = (λ e. (refl, e), λ h. h.1)
append-eq-nil (x ∷ xs) ys = (λ e. cc, λ h. cc (h.0))

-- Nothing is reported lost exactly when the child may delegate if its parent may, has at least its
-- parent's allowance of agents, and lists every tool that its parent lists.
pub narrowing-eq-nil_iff :
    (parent child : Authority)
    → (narrowing parent child ≡ []) ↔ (
        (parent.spawn_children ≡ true → child.spawn_children ≡ true)
        × (parent.max_child_count ≤ child.max_child_count)
        × ((t : String) → includes parent.tools t ≡ true → includes child.tools t ≡ true))
unfolding narrowing
narrowing-eq-nil_iff parent child =
    let (split, unite) =
      append-eq-nil (delegation_losses parent child) (tool_losses (removed_tools parent child)) in
    let (losses, no_losses) = tool_losses_iff (removed_tools parent child) in
    let (removed, none_removed) = removed_tools_iff parent child in
    let (barred, not_barred) = delegation_losses_iff parent child in
    (
      λ e. ((barred (split e).0).0, (barred (split e).0).1, removed (losses (split e).1)),
      λ (may, count, keeps). unite (not_barred (may, count), no_losses (none_removed keeps)),
    )

-- Below a parent with no tool restriction a child that may delegate as much as the parent is
-- reported to have lost nothing, although a tool that it may not use is allowed to the parent.
pub narrowing_misses_tools :
    (parent child : Authority) (t : String)
    → parent.tools ≡ []
    → child.spawn_children ≡ parent.spawn_children
    → child.max_child_count ≡ parent.max_child_count
    → is_tool_allowed child t ≡ false
    → (narrowing parent child ≡ []) × (is_tool_allowed parent t ≡ true)
unfolding is_tool_allowed
narrowing_misses_tools parent child t none_listed spawn count denied = (
  (narrowing-eq-nil_iff parent child).1
      (λ h. rw spawn h, omega arith, λ x m. absurd (false≢true (rw none_listed at m))),
  rw none_listed,
)
