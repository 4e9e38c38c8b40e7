-- ===== src/Economy/Choice/Allowed.antt =====
-- What is chosen is permitted, and worth its cost unless it waits or stops.
use mathlib.Core.Bool.{true≢false, false≢true}
use native.Mathlib.Nat.{mul-le-mul_right}
use cherry_on_top.Base.{
  ℕ, ◌-◌, ◌≤◌, ◌≡◌, refl, sym, ◌∙◌, String, true, List, [], ◌∷◌, ◌++◌, ◌⊎◌, arith, All, All-filter,
  All-filter_self, All-zip, Bool-cases, inl, inr, ap,
}
use cherry_on_top.Economy.{one, EconomicState}
use cherry_on_top.Economy.State.{EconomicEvent, replay}
use cherry_on_top.Economy.Action.{
  ActionKind, continue, acquire_evidence, explore, validate, reuse_evidence, parallelize, serialize,
  recover, constrain, stop, ActionCandidate, normalize_action_candidate,
}
use cherry_on_top.Economy.Utility.{UtilityWeights, Score, is_positive, evaluate_action_utility}
use cherry_on_top.Economy.State.Runs.{is_end, replay-ended}
use cherry_on_top.Economy.Utility.Constraint.{IsPermitted, evaluate-allowed_iff}
use cherry_on_top.Economy.Trust.{TrustAssessment, trust_adjusted}
use cherry_on_top.Economy.Choice.{
  DecisionReason, Ranked, precedes, tie_epsilon, insert_ranked, sort_ranked, price, price_all,
  is_allowed, is_continue, continue_among, continue_action, stop_action, fall_back, decide_ranked,
  choose_economic_action,
}

module _ {κ} (P : Ranked → Type κ) (tolerance : ℕ) where
  All-insert_ranked :
      (a : Ranked) (bs : List Ranked) → P a → All P bs → All P (insert_ranked tolerance a bs)
  All-insert_ranked a [] p h = (p, h)
  All-insert_ranked a (b ∷ bs) p (q, h) = elim (Bool-cases (precedes tolerance b a)) [
    | inl later ↦ rw later (q, All-insert_ranked a bs p h)
    | inr earlier ↦ rw earlier (p, (q, h))
  ]

  All-sort_ranked : (bs : List Ranked) → All P bs → All P (sort_ranked tolerance bs)
  unfolding sort_ranked
  All-sort_ranked [] h = h
  All-sort_ranked (b ∷ bs) (p, h) =
      All-insert_ranked b (sort_ranked tolerance bs) p (All-sort_ranked bs h)

module _ {κ} (P : Ranked → Type κ) where
  continue_among-All : (d : Ranked) (rs : List Ranked) → P d → All P rs → P (continue_among d rs)
  continue_among-All d [] p h = p
  continue_among-All d (r ∷ rs) p (q, h) = elim (Bool-cases (is_continue r.candidate.kind)) [
    | inl found ↦ rw found q
    | inr other ↦ rw other (continue_among-All d rs p h)
  ]

is_continue_among :
    (d : Ranked) (rs : List Ranked)
    → is_continue d.candidate.kind ≡ true
    → is_continue (continue_among d rs).candidate.kind ≡ true
is_continue_among d [] h = h
is_continue_among d (r ∷ rs) h = elim (Bool-cases (is_continue r.candidate.kind)) [
  | inl found ↦ rw found found
  | inr other ↦ rw other (is_continue_among d rs h)
]

-- a candidate with its own evaluation, discounted for the risk of the decision
record IsPriced (s : EconomicState) (w : UtilityWeights) (r : Ranked) : Type 0 where
  evaluated : r.evaluation ≡ evaluate_action_utility r.candidate s w
  adjusted : r.score ≡ trust_adjusted r.evaluation.score r.trust

price-IsPriced :
    (s : EconomicState) (w : UtilityWeights) (c : ActionCandidate) → IsPriced s w (price s w c)
unfolding price
price-IsPriced s w c = record { evaluated = refl; adjusted = refl }

All-price_all :
    (s : EconomicState) (w : UtilityWeights) (cs : List ActionCandidate)
    → All (IsPriced s w) (price_all s w cs)
All-price_all s w [] = tt
All-price_all s w (c ∷ cs) =
    (price-IsPriced s w (normalize_action_candidate c), All-price_all s w cs)

-- a score is not worth more for being doubted
trust_adjusted-positive :
    (x : Score) (t : TrustAssessment)
    → is_positive (trust_adjusted x t) ≡ true
    → is_positive x ≡ true
unfolding trust_adjusted
trust_adjusted-positive x t h = elim (Bool-cases (is_positive x)) [
  | inl gains ↦ gains
  | inr worthless ↦
      let le : x.gain ≤ x.loss = ground arith in ground (arith, mul-le-mul_right (one - t.risk) le)
]

-- what a decision may take
record IsTaken (s : EconomicState) (w : UtilityWeights) (c : ActionCandidate) : Type 0 where
  allowed : (evaluate_action_utility c s w).allowed ≡ true
  worth :
      (is_positive (evaluate_action_utility c s w).score ≡ true)
      ⊎ ((c.kind ≡ continue) ⊎ (c.kind ≡ stop))

is_continue_iff : (k : ActionKind) → is_continue k ≡ true → k ≡ continue
is_continue_iff continue h = refl
is_continue_iff acquire_evidence h = absurd (false≢true h)
is_continue_iff explore h = absurd (false≢true h)
is_continue_iff validate h = absurd (false≢true h)
is_continue_iff reuse_evidence h = absurd (false≢true h)
is_continue_iff parallelize h = absurd (false≢true h)
is_continue_iff serialize h = absurd (false≢true h)
is_continue_iff recover h = absurd (false≢true h)
is_continue_iff constrain h = absurd (false≢true h)
is_continue_iff stop h = absurd (false≢true h)

-- stopping is always permitted
stop_action-allowed :
    (s : EconomicState) (w : UtilityWeights)
    → s.constraints.quality_floor ≤ one
    → (evaluate_action_utility stop_action s w).allowed ≡ true
stop_action-allowed s w f1 = (evaluate-allowed_iff s stop_action w f1).1 (record {
  stops = λ h. refl;
  is_safe = refl;
  is_approved = refl;
  quality = omega (arith, f1);
  pays = λ paid. absurd (true≢false paid);
})

module _ (s : EconomicState) (w : UtilityWeights) (id : String) (rejections : List DecisionReason)
    (f1 : s.constraints.quality_floor ≤ one) where
  fall_back-IsTaken :
      (allowed : List Ranked)
      → All (IsPriced s w) allowed
      → IsTaken s w (fall_back s w id rejections allowed).action
  unfolding fall_back price
  fall_back-IsTaken allowed priced =
      let default = price s w continue_action in
      let chosen = continue_among default allowed in
      let p =
        continue_among-All (IsPriced s w) default allowed (price-IsPriced s w continue_action)
          priced in
      elim (Bool-cases chosen.evaluation.allowed) [
        | inl may ↦
            rw (may, fall_back)
              (record {
                allowed = sym (ap (λ e. e.allowed) p.evaluated) ∙ may;
                worth = inr (
                    inl (
                      is_continue_iff chosen.candidate.kind
                        (is_continue_among default allowed refl)));
              })
        | inr forbidden ↦
            rw (forbidden, fall_back)
              (record { allowed = stop_action-allowed s w f1; worth = inr (inr refl) })
      ]

  decide_ranked-IsTaken :
      (allowed ranked : List Ranked)
      → All (IsPriced s w) allowed
      → All (λ r. IsPriced s w r × (r.evaluation.allowed ≡ true)) ranked
      → IsTaken s w (decide_ranked s w id rejections allowed ranked).action
  unfolding decide_ranked
  decide_ranked-IsTaken allowed [] h k = fall_back-IsTaken allowed h
  decide_ranked-IsTaken allowed (best ∷ others) h ((p, may), k) =
      elim (Bool-cases (is_positive best.score)) [
        | inl positive ↦
            rw (positive, decide_ranked)
              (record {
                allowed = sym (ap (λ e. e.allowed) p.evaluated) ∙ may;
                worth = inl (
                    trust_adjusted-positive _ best.trust (
                      sym (
                        ap is_positive p.adjusted
                        ∙ ap (λ e. is_positive (trust_adjusted e.score best.trust)) p.evaluated)
                      ∙ positive));
              })
        | inr worthless ↦ rw (worthless, decide_ranked) (fall_back-IsTaken allowed h)
      ]

choose-IsTaken :
    (s : EconomicState) (candidates : List ActionCandidate) (w : UtilityWeights) (id : String)
    → s.constraints.quality_floor ≤ one
    → IsTaken s w (choose_economic_action s candidates w id).action
unfolding choose_economic_action
choose-IsTaken s candidates w id f1 =
    let priced = All-price_all s w candidates in
    let kept = All-filter (IsPriced s w) is_allowed (price_all s w candidates) priced in
    decide_ranked-IsTaken s w id _ f1 _ _ kept (
      All-sort_ranked (λ r. IsPriced s w r × (r.evaluation.allowed ≡ true)) (tie_epsilon s) _
        (All-zip _ _ _ kept (All-filter_self is_allowed (price_all s w candidates))))

-- Whatever candidates there are, no hard constraint forbids the chosen action: a run that has
-- ended only stops; the action is neither unsafe nor in need of an approval; the chance of a
-- correct result stays at the floor; and what it costs is left, besides the reserve if it is not a
-- recovery, unless it is to go on, to stop, to constrain or to serialize, which are not charged
-- against the budget. It is worth more than it costs unless it is to go on or to stop. All this
-- where the quality floor is a share.
pub choose-IsPermitted :
    (s : EconomicState) (candidates : List ActionCandidate) (w : UtilityWeights) (id : String)
    → s.constraints.quality_floor ≤ one
    → let action = (choose_economic_action s candidates w id).action in
      IsPermitted s action
      × ((is_positive (evaluate_action_utility action s w).score ≡ true)
          ⊎ ((action.kind ≡ continue) ⊎ (action.kind ≡ stop)))
choose-IsPermitted s candidates w id f1 =
    let taken = choose-IsTaken s candidates w id f1 in
    (
      (evaluate-allowed_iff s (choose_economic_action s candidates w id).action w f1).0
          taken.allowed,
      taken.worth,
    )

-- Once a task has ended, completed or failed, whatever events come before and after that, and
-- whatever candidates there are, the only thing that is chosen is to stop.
pub ended_stops :
    (s : EconomicState) (before : List EconomicEvent) (end : EconomicEvent)
    (after : List EconomicEvent) (candidates : List ActionCandidate) (w : UtilityWeights)
    (id : String)
    → is_end end ≡ true
    → (choose_economic_action (replay s (before ++ end ∷ after)) candidates w id).action.kind ≡ stop
ended_stops s before end after candidates w id h =
    let over = replay-ended s before end after h in
    (choose-IsPermitted (replay s (before ++ end ∷ after)) candidates w id over.0).0.stops over.1
