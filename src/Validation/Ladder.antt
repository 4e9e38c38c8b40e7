-- ===== src/Validation/Ladder.antt =====
-- The confidence that a contract demands.
use cherry_on_top.Base.{ℕ, ◌≤◌, ◌<◌, ◌≡◌, String, Option, none, some, List, arith}
use cherry_on_top.Validation.{
  v0, v2, ValidationContract, level_model, required_confidence, minimum_quality_floor, contract_for,
}

-- A contract derived from a goal demands at least 0.35 and at most 0.85, and its two fields demand
-- the same: more than a bare claim of success shows, and never more than a green check in the
-- trace shows. A larger need never demands less.
pub contract_for_bounds :
    (need : Option ℕ) (checks : List String)
    → ((level_model v0).confidence < required_confidence (contract_for need checks))
      × (minimum_quality_floor ≤ required_confidence (contract_for need checks))
      × (required_confidence (contract_for need checks) ≤ (level_model v2).confidence)
      × (required_confidence (contract_for need checks) ≡ (contract_for need checks).quality_floor)
unfolding contract_for required_confidence level_model
contract_for_bounds none checks = omega arith
contract_for_bounds (some n) checks = omega arith

-- A larger need never demands less.
pub contract_for_mono :
    (m n : ℕ) (checks checks' : List String)
    → m ≤ n
    → required_confidence (contract_for (some m) checks)
      ≤ required_confidence (contract_for (some n) checks')
unfolding contract_for required_confidence
contract_for_mono m n checks checks' h = omega arith

-- The stricter of the two fields counts: tightening either one never demands less.
pub required_confidence_mono :
    (c d : ValidationContract)
    → c.quality_floor ≤ d.quality_floor
    → d.allowed_uncertainty ≤ c.allowed_uncertainty
    → required_confidence c ≤ required_confidence d
unfolding required_confidence
required_confidence_mono c d h k = omega arith
