-- ===== src/Validation/Verdicts.antt =====
-- What a verdict of `validate` rests on, and what reaching it costs.
use mathlib.Core.Bool.{false≢true}
use cherry_on_top.Base.{
  All, none, String, map, filter, not, refl, suc, ◌++◌, ℕ, ◌≤◌, ◌<◌, ◌≡◌, inl, inr, ◌≢◌, true,
  Option, some, List, [], ◌∷◌, arith, Bool-cases, Option-cases, length, get_or, sym, ◌∙◌, leb,
  some_inj, ap,
}
use cherry_on_top.Validation.{
  Level, v0, v1, v2, v3, ObservedCheck, RequiredCheck, check_ids, passing, assess_observed,
  assess_fresh, ValidationContract, level_model, required_confidence, ValidationEvidence, FreshRun,
  LevelVerdict, assess, Climb, reach, skip, climb, conclude, unmet, validate,
  default_validation_contract, validation_levels, ground_level,
}

-- the confidence that `validate` compares with
abbrev pub demanded : Option ValidationContract → ℕ
demanded contract = required_confidence (get_or contract default_validation_contract)

module _ (evidence : ValidationEvidence) (verify : Option (Option FreshRun)) where
  -- the level recorded was assessed, and found available
  Backed : Climb → Type 0
  Backed c =
      (l : Level) (v : LevelVerdict)
      → c.best ≡ some (l, v)
      → (v ≡ assess l evidence verify) × (v.available ≡ true)

  reach-Backed :
      (c : Climb) (l : Level)
      → (assess l evidence verify).available ≡ true
      → Backed (reach c l (assess l evidence verify))
  unfolding Backed
  reach-Backed c l h m v e =
      let same : (l, assess l evidence verify) ≡ (m, v) = some_inj e in
      (
        sym (ap (λ (p : Level × LevelVerdict). p.1) same)
            ∙ ap (λ (p : Level × LevelVerdict). assess p.0 evidence verify) same,
        rw (← ap (λ (p : Level × LevelVerdict). p.1) same) h,
      )

  climb-Backed :
      (required : ℕ) (levels : List Level) (c : Climb)
      → Backed c
      → Backed (climb evidence verify required levels c)
  unfolding climb Backed
  climb-Backed required [] c b = b
  climb-Backed required (l ∷ ls) c b = elim (Bool-cases (assess l evidence verify).available) [
    | inr missing ↦ simp missing (climb-Backed required ls (skip c l (assess l evidence verify)) b)
    | inl found ↦ elim (Bool-cases (assess l evidence verify).passed) [
      | inr red ↦ simp (found, red) (reach-Backed c l found)
      | inl green ↦ elim (Bool-cases (leb required (level_model l).confidence)) [
        | inl enough ↦ simp (found, green, enough) (reach-Backed c l found)
        | inr short ↦
            simp (found, green, short)
              (climb-Backed required ls (reach c l (assess l evidence verify))
                (reach-Backed c l found))
      ]
    ]
  ]

  conclude_sound :
      (required : ℕ) (c : Climb)
      → Backed c
      → let r = conclude evidence required c in
        r.passed ≡ true
        → ((assess r.level evidence verify).passed ≡ true)
          × (required ≤ (level_model r.level).confidence)
          × (length (unmet evidence) ≡ 0)
          × (r.evidence_ids ≡ (assess r.level evidence verify).evidence_ids)
  unfolding conclude Backed
  conclude_sound required c b = elim (Option-cases c.best) [
    | inl nothing ↦ rw nothing (λ h. cc)
    | inr ((l, v), found) ↦ rw found (λ h. ground (arith, b l v found))
  ]

validate_assessed :
    (evidence : ValidationEvidence) (contract : Option ValidationContract)
    (verify : Option (Option FreshRun))
    → let r = validate evidence contract verify in
      r.passed ≡ true
      → ((assess r.level evidence verify).passed ≡ true)
        × (demanded contract ≤ (level_model r.level).confidence)
        × (length (unmet evidence) ≡ 0)
        × (r.evidence_ids ≡ (assess r.level evidence verify).evidence_ids)
unfolding validate Backed
validate_assessed evidence contract verify =
    conclude_sound evidence verify (demanded contract)
      (climb evidence verify (demanded contract) validation_levels ground_level)
      (climb-Backed evidence verify (demanded contract) validation_levels ground_level
        (λ l v e. cc))

-- what supports a level, with the ids that cite it: the run's claim; an artifact or another durable
-- outcome; at least one observed check that passed, whatever the others did; a fresh run that passed
pub Supports : Level → ValidationEvidence → Option (Option FreshRun) → List String → Type 0
Supports v0 evidence verify cited =
    (evidence.claimed_success ≡ true) × (cited ≡ "claim:run-reported-success" ∷ [])
Supports v1 evidence verify cited =
    (0 < length cited) × (cited ≡ evidence.artifact_ids ++ evidence.durable_outcome_ids)
Supports v2 evidence verify cited =
    (0 < length cited)
    × (cited
        ≡ map (λ (c : ObservedCheck). c.id)
            (filter (λ (c : ObservedCheck). c.passed) evidence.observed_checks))
Supports v3 evidence verify cited =
    (run : FreshRun) × ((verify ≡ some (some run))
      × ((run.passed ≡ true) × (cited ≡ run.evidence_id ∷ [])))

length-check_ids : (checks : List ObservedCheck) → length (check_ids checks) ≡ length checks
length-check_ids [] = refl
length-check_ids (c ∷ cs) = ap suc (length-check_ids cs)

assess-Supports :
    (l : Level) (evidence : ValidationEvidence) (verify : Option (Option FreshRun))
    → (assess l evidence verify).passed ≡ true
    → Supports l evidence verify (assess l evidence verify).evidence_ids
unfolding assess assess_observed assess_fresh Supports
assess-Supports v0 evidence verify h = ground arith
assess-Supports v1 evidence verify h = ground arith
assess-Supports v2 evidence verify h =
    ground (arith, length-check_ids (passing evidence.observed_checks))
assess-Supports v3 evidence none h = absurd (false≢true h)
assess-Supports v3 evidence (some none) h = absurd (false≢true h)
assess-Supports v3 evidence (some (some run)) h = (run, (refl, (h, refl)))

none_unmet :
    (checks : List RequiredCheck)
    → length (filter (λ (c : RequiredCheck). not c.met) checks) ≡ 0
    → All (λ (c : RequiredCheck). c.met ≡ true) checks
none_unmet [] h = tt
none_unmet (c ∷ cs) h = (ground arith, none_unmet cs (ground arith))

-- A result that passed names a level that the evidence itself supports: the run's claim, a durable
-- outcome, at least one observed check that passed (others may have failed), or a fresh run that
-- passed; it cites just these; the demanded confidence does not exceed the level's; and every named
-- check is met.
pub validate_sound :
    (evidence : ValidationEvidence) (contract : Option ValidationContract)
    (verify : Option (Option FreshRun))
    → let r = validate evidence contract verify in
      r.passed ≡ true
      → Supports r.level evidence verify r.evidence_ids
        × (demanded contract ≤ (level_model r.level).confidence)
        × All (λ (c : RequiredCheck). c.met ≡ true) evidence.required_checks
validate_sound evidence contract verify h =
    let (assessed, enough, met, cited) = validate_assessed evidence contract verify h in
    (
      rw cited (assess-Supports (validate evidence contract verify).level evidence verify assessed),
      enough,
      none_unmet evidence.required_checks met,
    )

-- A contract that demands more than 0.2, as the default one and every contract derived from a goal
-- does, is never met by the run's own claim of success.
pub validate-ne-claim :
    (evidence : ValidationEvidence) (contract : Option ValidationContract)
    (verify : Option (Option FreshRun))
    → (level_model v0).confidence < demanded contract
    → (validate evidence contract verify).passed ≡ true
    → (validate evidence contract verify).level ≢ v0
validate-ne-claim evidence contract verify h p e =
    let enough = (validate_assessed evidence contract verify p).1 in
    absurd (omega (arith, ap (λ l. (level_model l).confidence) e))
