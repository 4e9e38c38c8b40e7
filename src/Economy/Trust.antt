-- ===== src/Economy/Trust.antt =====
-- How far a decision can be believed, and what is at stake: src/decision/trust.ts. The cube root
-- is the largest number of millionths whose cube does not exceed the product.
use cherry_on_top.Base.{
  ℕ, ◌+◌, ◌-◌, ◌*◌, ◌/◌, min, max, Bool, ◌&&◌, List, [], ◌∷◌, ◌++◌, if◌then◌else◌, ltb, leb, ◌==◌,
}
use cherry_on_top.Economy.{
  one, fact, observation, hypothesis, validation, EvidenceKind, EvidenceRef, EconomicState,
}
use cherry_on_top.Economy.Action.{ActionCandidate}
use cherry_on_top.Economy.Utility.{Score}

pub data TrustReason : Type 0 where
  consequence_resources consequence_quality consequence_irreversible : TrustReason
  low_evidence_confidence low_mechanism_confidence low_orchestration_confidence : TrustReason

pub record TrustAssessment : Type 0 where
  pub evidence_confidence : ℕ
  pub mechanism_confidence : ℕ
  pub orchestration_confidence : ℕ
  pub consequence : ℕ
  pub risk : ℕ
  pub reason_codes : List TrustReason

abbrev pub no_evidence_confidence : ℕ
no_evidence_confidence = 500000

unfoldable pub resource_consequence : ActionCandidate → EconomicState → ℕ
resource_consequence action s =
    let spend = action.token_cost + action.coordination_cost in
    let remaining = s.resources.remaining_tokens in
    if ltb 0 remaining then min one (spend * one / remaining) else if ltb 0 spend then one else 0

-- halves
abbrev pub weight : EvidenceKind → ℕ
weight validation = 4
weight fact = 3
weight observation = 2
weight hypothesis = 2

abbrev pub total_weight : List EvidenceRef → ℕ
total_weight [] = 0
total_weight (r ∷ rs) = weight r.kind + total_weight rs

abbrev pub weighted : List EvidenceRef → ℕ
weighted [] = 0
weighted (r ∷ rs) = weight r.kind * r.confidence + weighted rs

abbrev pub confidence_in : List EvidenceRef → ℕ
confidence_in [] = no_evidence_confidence
confidence_in (r ∷ rs) = min one (weighted (r ∷ rs) / total_weight (r ∷ rs))

unfoldable pub evidence_confidence_of : EconomicState → ℕ
evidence_confidence_of s = confidence_in s.evidence

-- `x ** (1 / 3)`, one binary digit after the other
unfoldable pub cube_root_from : List ℕ → ℕ → ℕ → ℕ
cube_root_from [] r x = r
cube_root_from (b ∷ bs) r x =
    let next = if leb ((r + b) * (r + b) * (r + b)) x then r + b else r in cube_root_from bs next x

abbrev pub binary_digits : List ℕ
binary_digits =
    524288 ∷ 262144 ∷ 131072 ∷ 65536 ∷ 32768 ∷ 16384 ∷ 8192 ∷ 4096 ∷ 2048 ∷ 1024 ∷ 512 ∷ 256 ∷ 128
    ∷ 64 ∷ 32 ∷ 16 ∷ 8 ∷ 4 ∷ 2 ∷ 1 ∷ []

abbrev pub cube_root : ℕ → ℕ
cube_root x = cube_root_from binary_digits 0 x

abbrev pub trust_when : Bool → TrustReason → List TrustReason
trust_when b reason = if b then reason ∷ [] else []

unfoldable pub assess_decision_trust : EconomicState → ActionCandidate → TrustAssessment
unfolding evidence_confidence_of resource_consequence cube_root_from
assess_decision_trust s action =
    let evidence = evidence_confidence_of s in
    let mechanism = min one action.confidence in
    let orchestration = min one s.trajectory.orchestration_confidence in
    let trust = min one (cube_root (evidence * mechanism * orchestration)) in
    let resource = resource_consequence action s in
    let quality = min one action.quality_risk in
    let irreversible = if action.metadata.irreversible then one else 0 in
    let consequence = max (max resource quality) irreversible in
    let weakest = min (min evidence mechanism) orchestration in
    record {
      evidence_confidence = evidence;
      mechanism_confidence = mechanism;
      orchestration_confidence = orchestration;
      consequence = consequence;
      risk = min one (consequence * (one - trust) / one);
      reason_codes =
          trust_when (leb quality resource && leb irreversible resource && ltb 0 resource)
            consequence_resources
          ++ trust_when (ltb resource quality && leb irreversible quality) consequence_quality
          ++ trust_when (ltb 0 irreversible) consequence_irreversible
          ++ trust_when (weakest == evidence && ltb evidence 500000) low_evidence_confidence
          ++ trust_when (weakest == mechanism && ltb mechanism 500000) low_mechanism_confidence
          ++ trust_when (weakest == orchestration && ltb orchestration 500000)
              low_orchestration_confidence;
    }

unfoldable pub trust_adjusted : Score → TrustAssessment → Score
trust_adjusted score trust = record {
  gain = score.gain * (one - trust.risk);
  loss = score.loss * (one - trust.risk);
}
