-- ===== src/Economy/Utility/Constraint.antt =====
-- What the hard constraints come to, written without the code's tests.
use mathlib.Core.Bool.{true≢false, false≢true}
use cherry_on_top.Base.{
  ◌+◌, ◌≤◌, ◌<◌, ◌≡◌, refl, sym, ◌∙◌, ◌↔◌, min, true, false, if◌then◌else◌, arith, Bool-cases, inl,
  inr, ap,
}
use cherry_on_top.Economy.{one, EconomicState}
use cherry_on_top.Economy.Action.{
  ActionKind, continue, acquire_evidence, explore, validate, reuse_evidence, parallelize, serialize,
  recover, constrain, stop, ActionCandidate, normalize_action_candidate,
}
use cherry_on_top.Economy.Utility.{
  UtilityWeights, is_free, is_recover, is_stop, is_affordable, evaluate_normal,
  evaluate_action_utility,
}

-- no hard constraint forbids it: a run that is over only stops; nothing unsafe, nothing that a
-- person has to approve; the chance of a correct result stays at the floor; what is neither free
-- nor a recovery leaves the recovery's reserve alone
pub record IsPermitted (s : EconomicState) (c : ActionCandidate) : Type 0 where
  pub stops : s.constraints.hard_stop ≡ true → c.kind ≡ stop
  pub is_safe : c.metadata.unsafe ≡ false
  pub is_approved : c.metadata.requires_approval ≡ false
  pub quality :
      s.constraints.quality_floor + min one c.quality_risk
      ≤ one + min one c.expected_quality_benefit
  pub pays :
      is_free c.kind ≡ false
      → 0 < c.token_cost + c.coordination_cost
      → c.token_cost
          + c.coordination_cost
          + (if is_recover c.kind then 0 else s.resources.recovery_reserve)
        ≤ s.resources.remaining_tokens

is_stop_iff : (k : ActionKind) → is_stop k ≡ true → k ≡ stop
is_stop_iff stop h = refl
is_stop_iff continue h = absurd (false≢true h)
is_stop_iff acquire_evidence h = absurd (false≢true h)
is_stop_iff explore h = absurd (false≢true h)
is_stop_iff validate h = absurd (false≢true h)
is_stop_iff reuse_evidence h = absurd (false≢true h)
is_stop_iff parallelize h = absurd (false≢true h)
is_stop_iff serialize h = absurd (false≢true h)
is_stop_iff recover h = absurd (false≢true h)
is_stop_iff constrain h = absurd (false≢true h)

is_stop-stop : (k : ActionKind) → k ≡ stop → is_stop k ≡ true
is_stop-stop k e = ap is_stop e

affordable_iff :
    (s : EconomicState) (c : ActionCandidate)
    → is_affordable s c ≡ true ↔ (
        is_free c.kind ≡ false
        → 0 < c.token_cost + c.coordination_cost
        → c.token_cost
            + c.coordination_cost
            + (if is_recover c.kind then 0 else s.resources.recovery_reserve)
          ≤ s.resources.remaining_tokens)
affordable_iff s c = elim (Bool-cases (is_free c.kind)) [
  | inl free ↦ (λ h f. absurd (true≢false (sym free ∙ f)), λ h. rw free refl)
  | inr paid ↦ (λ h f pos. ground arith, λ h. ground (arith, h paid))
]

-- An action is allowed exactly when no hard constraint forbids it, whatever it is expected to gain
-- and however that is weighed, where the quality floor is a share.
pub evaluate-allowed_iff :
    (s : EconomicState) (c : ActionCandidate) (w : UtilityWeights)
    → s.constraints.quality_floor ≤ one
    → (evaluate_action_utility c s w).allowed ≡ true ↔ IsPermitted s c
unfolding evaluate_action_utility evaluate_normal normalize_action_candidate
evaluate-allowed_iff s c w f1 = (
  λ h. record {
    stops = λ ended. is_stop_iff c.kind (ground arith);
    is_safe = ground arith;
    is_approved = ground arith;
    quality = ground arith;
    pays = (affordable_iff s c).0 (ground arith);
  },
  λ p.
      let stops = p.stops in
      let quality = p.quality in
      ground (arith, (affordable_iff s c).1 p.pays, p.is_safe, p.is_approved, is_stop-stop c.kind),
)
