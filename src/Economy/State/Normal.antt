-- ===== src/Economy/State/Normal.antt =====
-- Every state after an event is normal, and normalizing once is enough.
use text.Mathlib.TextEquality.{eq_iff}
use cherry_on_top.Base.{
  ◌+◌, ◌-◌, ◌≤◌, ◌≡◌, refl, String, true, List, [], ◌∷◌, includes, occurrences, arith,
}
use cherry_on_top.Economy.{one, EvidenceRef, EconomicState}
use cherry_on_top.Economy.State.{
  EconomicEvent, evidence_ids, normalize_evidence, normalize_economic_state, advance,
  apply_economic_event,
}

-- the counts of the budget add up, the parts of it fit in it, and no evidence is held twice
pub record IsNormal (s : EconomicState) : Type 0 where
  pub remaining :
      s.resources.remaining_tokens ≡ s.resources.total_token_budget - s.resources.consumed_tokens
  pub optimization_le : s.resources.optimization_tokens ≤ s.resources.total_token_budget
  pub reserve_le : s.resources.recovery_reserve ≤ s.resources.total_token_budget
  pub confidence_le : s.trajectory.orchestration_confidence ≤ one
  pub failure_le : s.trajectory.failure_pressure ≤ one
  pub floor_le : s.constraints.quality_floor ≤ one
  pub held_once : (x : String) → occurrences x (evidence_ids s.evidence) ≤ 1

pub occurrences-normalize_evidence :
    (seen : List String) (rs : List EvidenceRef) (x : String)
    → (includes seen x ≡ true → occurrences x (evidence_ids (normalize_evidence seen rs)) ≡ 0)
      × (occurrences x (evidence_ids (normalize_evidence seen rs)) ≤ 1)
unfolding normalize_evidence
occurrences-normalize_evidence seen [] x = (λ h. refl, omega arith)
occurrences-normalize_evidence seen (r ∷ rs) x = ground (
  arith,
  occurrences-normalize_evidence seen rs x,
  occurrences-normalize_evidence (r.id ∷ seen) rs x,
  eq_iff r.id x,
)

normalize-IsNormal : (s : EconomicState) → IsNormal (normalize_economic_state s)
unfolding normalize_economic_state
normalize-IsNormal s = record {
  remaining = refl;
  optimization_le = omega arith;
  reserve_le = omega arith;
  confidence_le = omega arith;
  failure_le = omega arith;
  floor_le = omega arith;
  held_once = λ x. (occurrences-normalize_evidence [] s.evidence x).1;
}

pub apply-IsNormal : (s : EconomicState) (e : EconomicEvent) → IsNormal (apply_economic_event s e)
unfolding apply_economic_event
apply-IsNormal s e = normalize-IsNormal (record (advance s e) { version = s.version + 1 })
