-- ===== src/Validation/Cost.antt =====
-- What an evidence costs, and which evidence ends the climb.
use cherry_on_top.Base.{
  ℕ, ◌≤◌, ◌<◌, ◌≡◌, refl, ◌⊎◌, inl, inr, ◌≢◌, true, false, Option, List, [], ◌∷◌, arith, sym, ◌∙◌,
  Bool-cases, length, length-filter-le, leb, ap,
}
use cherry_on_top.Validation.{
  Level, v0, v1, v2, v3, ValidationContract, level_model, ValidationEvidence, FreshRun,
  LevelVerdict, assess, assess_observed, Climb, reach, skip, climb, conclude, validate,
  validation_levels, ground_level, passing, unmet, ObservedCheck,
}
use cherry_on_top.Validation.Verdicts.{demanded}

module _ (evidence : ValidationEvidence) (verify : Option (Option FreshRun)) (required : ℕ) where
  -- One round of the loop: it goes on past the level, or ends there by a failure or by being enough.
  climb_step {ℓ} :
      (P : Climb → Type ℓ) (l : Level) (ls : List Level) (c : Climb)
      → let v = assess l evidence verify in
        P (climb evidence verify required ls (skip c l v))
        → (v.available ≡ true
            → (v.passed ≡ false) ⊎ (required ≤ (level_model l).confidence)
            → P (reach c l v))
        → P (climb evidence verify required ls (reach c l v))
        → P (climb evidence verify required (l ∷ ls) c)
  unfolding climb
  climb_step P l ls c past stop further = elim (Bool-cases (assess l evidence verify).available) [
    | inr missing ↦ simp missing past
    | inl found ↦ elim (Bool-cases (assess l evidence verify).passed) [
      | inr red ↦ simp (found, red) (stop found (inl red))
      | inl green ↦ elim (Bool-cases (leb required (level_model l).confidence)) [
        | inl enough ↦ simp (found, green, enough) (stop found (inr (ground arith)))
        | inr short ↦ simp (found, green, short) further
      ]
    ]
  ]

  -- where the level is there and is enough, or failed, the climb ends
  climb_stop :
      (l : Level) (ls : List Level) (c : Climb)
      → let v = assess l evidence verify in
        v.available ≡ true
        → (v.passed ≡ false) ⊎ (required ≤ (level_model l).confidence)
        → climb evidence verify required (l ∷ ls) c ≡ reach c l v
  unfolding climb
  climb_stop l ls c found (inl red) = simp (found, red)
  climb_stop l ls c found (inr enough) = elim (Bool-cases (assess l evidence verify).passed) [
    | inr red ↦ simp (found, red)
    | inl green ↦
        let reached : leb required (level_model l).confidence ≡ true = ground arith in
        simp (found, green, reached)
  ]

-- the levels below `V3` cost nothing, and the two lowest cannot fail
free_levels :
    (evidence : ValidationEvidence) (verify : Option (Option FreshRun))
    → ((assess v0 evidence verify).tokens ≡ 0)
      × ((assess v1 evidence verify).tokens ≡ 0)
      × ((assess v2 evidence verify).tokens ≡ 0)
unfolding assess assess_observed
free_levels evidence verify = ground arith

claims_pass :
    (evidence : ValidationEvidence) (verify : Option (Option FreshRun))
    → ((assess v0 evidence verify).available ≡ (assess v0 evidence verify).passed)
      × ((assess v1 evidence verify).available ≡ (assess v1 evidence verify).passed)
unfolding assess
claims_pass evidence verify = ground arith

observed_available :
    (evidence : ValidationEvidence) (verify : Option (Option FreshRun))
    → (assess v2 evidence verify).passed ≡ true
    → (assess v2 evidence verify).available ≡ true
unfolding assess assess_observed
observed_available evidence verify h = ground arith

observed_red :
    (evidence : ValidationEvidence) (verify : Option (Option FreshRun))
    → length evidence.observed_checks ≢ 0
    → length (passing evidence.observed_checks) ≡ 0
    → ((assess v2 evidence verify).available ≡ true) × ((assess v2 evidence verify).passed ≡ false)
unfolding assess assess_observed
observed_red evidence verify h k = ground arith

observed_green :
    (evidence : ValidationEvidence) (verify : Option (Option FreshRun))
    → 0 < length (passing evidence.observed_checks)
    → ((assess v2 evidence verify).available ≡ true) × ((assess v2 evidence verify).passed ≡ true)
unfolding assess assess_observed
observed_green evidence verify h =
    ground (arith, length-filter-le (λ (c : ObservedCheck). c.passed) evidence.observed_checks)

same_claims :
    (evidence : ValidationEvidence) (verify verify' : Option (Option FreshRun))
    → (assess v0 evidence verify ≡ assess v0 evidence verify')
      × (assess v1 evidence verify ≡ assess v1 evidence verify')
      × (assess v2 evidence verify ≡ assess v2 evidence verify')
unfolding assess
same_claims evidence verify verify' = (refl, refl, refl)

-- a level whose answer does not depend on `verify`
climb_congr :
    (evidence : ValidationEvidence) (verify verify' : Option (Option FreshRun)) (required : ℕ)
    (l : Level) (ls : List Level)
    → assess l evidence verify ≡ assess l evidence verify'
    → ((c : Climb) → climb evidence verify required ls c ≡ climb evidence verify' required ls c)
    → (c : Climb)
    → climb evidence verify required (l ∷ ls) c ≡ climb evidence verify' required (l ∷ ls) c
unfolding climb
climb_congr evidence verify verify' required l ls same rest c = simp (same, rest)

-- a level that costs nothing
climb_free :
    (evidence : ValidationEvidence) (verify : Option (Option FreshRun)) (required : ℕ) (l : Level)
    (ls : List Level)
    → (assess l evidence verify).tokens ≡ 0
    → ((c : Climb) → c.tokens ≡ 0 → (climb evidence verify required ls c).tokens ≡ 0)
    → (c : Climb) → c.tokens ≡ 0
    → (climb evidence verify required (l ∷ ls) c).tokens ≡ 0
climb_free evidence verify required l ls costless rest c h =
    climb_step evidence verify required (λ c. c.tokens ≡ 0) l ls c
      (rest (skip c l (assess l evidence verify)) h) (λ found stop. omega arith)
      (rest (reach c l (assess l evidence verify)) (omega arith))

conclude-tokens :
    (evidence : ValidationEvidence) (required : ℕ) (c : Climb)
    → (conclude evidence required c).tokens ≡ c.tokens
unfolding conclude
conclude-tokens evidence required c = ground arith

conclude_fails :
    (evidence : ValidationEvidence) (required : ℕ) (c : Climb) (l : Level) (v : LevelVerdict)
    → (v.passed ≡ false) ⊎ ((level_model l).confidence < required)
    → (conclude evidence required (reach c l v)).passed ≡ false
unfolding conclude
conclude_fails evidence required c l v h = ground arith

confidence-le-certain : (l : Level) → (level_model l).confidence ≤ 100
unfolding level_model
confidence-le-certain v0 = omega arith
confidence-le-certain v1 = omega arith
confidence-le-certain v2 = omega arith
confidence-le-certain v3 = omega arith

conclude_passes :
    (evidence : ValidationEvidence) (required : ℕ) (c : Climb) (l : Level) (v : LevelVerdict)
    → v.passed ≡ true
    → required ≤ (level_model l).confidence
    → length (unmet evidence) ≡ 0
    → (conclude evidence required (reach c l v)).passed ≡ true
unfolding conclude
conclude_passes evidence required c l v green enough met = ground (arith, confidence-le-certain l)

module _ (evidence : ValidationEvidence) (contract : Option ValidationContract) where
  -- When a check passed in the run's own trace and the contract demands no more than that shows,
  -- no token is spent on validation and the verdict is the same whatever a fresh run would say.
  pub validate_observed :
      (verify verify' : Option (Option FreshRun))
      → (assess v2 evidence verify).passed ≡ true
      → demanded contract ≤ (level_model v2).confidence
      → (validate evidence contract verify ≡ validate evidence contract verify')
        × ((validate evidence contract verify).tokens ≡ 0)
  unfolding validate
  validate_observed verify verify' green h =
      let required = demanded contract in
      let (same0, same1, same2) = same_claims evidence verify verify' in
      let (free0, free1, free2) = free_levels evidence verify in
      let ends =
        λ (w : Option (Option FreshRun)) (g : (assess v2 evidence w).passed ≡ true) (c : Climb).
          climb_stop evidence w required v2 (v3 ∷ []) c (observed_available evidence w g) (inr h) in
      let agree = λ (c : Climb).
        ends verify green c ∙ ap (reach c v2) same2 ∙ sym (ends verify' (rw same2 at green) c) in
      (
        ap (conclude evidence required) (
            climb_congr evidence verify verify' required v0 (v1 ∷ v2 ∷ v3 ∷ []) same0
              (climb_congr evidence verify verify' required v1 (v2 ∷ v3 ∷ []) same1 agree)
              ground_level),
        conclude-tokens evidence required
              (climb evidence verify required validation_levels ground_level)
            ∙ climb_free evidence verify required v0 (v1 ∷ v2 ∷ v3 ∷ []) free0
                (climb_free evidence verify required v1 (v2 ∷ v3 ∷ []) free1
                  (λ c z. rw (ends verify green c) (omega arith)))
                ground_level refl,
      )

  -- When checks ran in the trace and all of them failed, a contract that demands more than a
  -- durable outcome shows is not met, whatever a fresh run would say.
  pub validate_red :
      (verify : Option (Option FreshRun))
      → length evidence.observed_checks ≢ 0
      → length (passing evidence.observed_checks) ≡ 0
      → (level_model v1).confidence < demanded contract
      → (validate evidence contract verify).passed ≡ false
  unfolding validate level_model
  validate_red verify some_ran none_passed h =
      let required = demanded contract in
      let Fails = λ (c : Climb). (conclude evidence required c).passed ≡ false in
      let (ran, red) = observed_red evidence verify some_ran none_passed in
      let at_observed = λ (c : Climb).
        let ends = climb_stop evidence verify required v2 (v3 ∷ []) c ran (inl red) in
        let fails : Fails (climb evidence verify required (v2 ∷ v3 ∷ []) c) =
          rw ends (conclude_fails evidence required c v2 (assess v2 evidence verify) (inl red)) in
        fails in
      let low = λ (c : Climb) (l : Level) (small : (level_model l).confidence ≤ 50).
        conclude_fails evidence required c l (assess l evidence verify) (inr (omega arith)) in
      let at_artifact = λ (c : Climb).
        climb_step evidence verify required Fails v1 (v2 ∷ v3 ∷ []) c
          (at_observed (skip c v1 (assess v1 evidence verify)))
          (λ found stop. low c v1 (omega arith))
          (at_observed (reach c v1 (assess v1 evidence verify))) in
      climb_step evidence verify required Fails v0 (v1 ∷ v2 ∷ v3 ∷ []) ground_level
        (at_artifact (skip ground_level v0 (assess v0 evidence verify)))
        (λ found stop. low ground_level v0 (omega arith))
        (at_artifact (reach ground_level v0 (assess v0 evidence verify)))

  -- When some check passed in the run's own trace, the contract demands no more than that shows and
  -- every named check is met, the result passes, however many other checks failed in the trace.
  pub validate_mixed :
      (verify : Option (Option FreshRun))
      → 0 < length (passing evidence.observed_checks)
      → demanded contract ≤ (level_model v2).confidence
      → length (unmet evidence) ≡ 0
      → (validate evidence contract verify).passed ≡ true
  unfolding validate
  validate_mixed verify some_passed h met =
      let required = demanded contract in
      let Passes = λ (c : Climb). (conclude evidence required c).passed ≡ true in
      let (ran, green) = observed_green evidence verify some_passed in
      let (claim, artifact) = claims_pass evidence verify in
      let at_observed = λ (c : Climb).
        let ends = climb_stop evidence verify required v2 (v3 ∷ []) c ran (inr h) in
        let passes : Passes (climb evidence verify required (v2 ∷ v3 ∷ []) c) =
          rw ends
            (conclude_passes evidence required c v2 (assess v2 evidence verify) green h met) in
        passes in
      let at_artifact = λ (c : Climb).
        climb_step evidence verify required Passes v1 (v2 ∷ v3 ∷ []) c
          (at_observed (skip c v1 (assess v1 evidence verify)))
          (stops required c v1 (assess v1 evidence verify) artifact met)
          (at_observed (reach c v1 (assess v1 evidence verify))) in
      climb_step evidence verify required Passes v0 (v1 ∷ v2 ∷ v3 ∷ []) ground_level
        (at_artifact (skip ground_level v0 (assess v0 evidence verify)))
        (stops required ground_level v0 (assess v0 evidence verify) claim met)
        (at_artifact (reach ground_level v0 (assess v0 evidence verify)))
    where
      stops :
          (required : ℕ) (c : Climb) (l : Level) (v : LevelVerdict)
          → v.available ≡ v.passed
          → length (unmet evidence) ≡ 0
          → v.available ≡ true
          → (v.passed ≡ false) ⊎ (required ≤ (level_model l).confidence)
          → (conclude evidence required (reach c l v)).passed ≡ true
      stops required c l v same met found (inl red) = cc
      stops required c l v same met found (inr enough) =
          conclude_passes evidence required c l v (sym same ∙ found) enough met
