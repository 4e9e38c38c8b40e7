-- ===== src/Economy/Choice/Execution/Veto.antt =====
-- The market only vetoes: when a fan-out is authorized.
use mathlib.Core.Bool.{true≢false, false≢true}
use cherry_on_top.Base.{
  ℕ, ◌+◌, ◌-◌, ◌*◌, ◌≤◌, ◌<◌, ◌≡◌, ◌≢◌, All, refl, ap, sym, ◌∙◌, ◌↔◌, String, Bool, true, false,
  any, List, [], ◌∷◌, ◌++◌, arith, Bool-cases, inl, inr,
}
use cherry_on_top.Delegation.Decision.{
  low, delegate, DecideExecutionInput, decide_execution, score_delegation, default_economics_input,
  Entry, signal, terms, score, no_score, reason_no_spawn_authority, reason_single_unit_of_work,
  reason_no_agent_allowance, budgets, DecideExecutionResult,
}
use cherry_on_top.Economy.{one, EconomicState}
use cherry_on_top.Delegation.Decision.Outcomes.{decide_execution_iff}
use cherry_on_top.Economy.Action.{parallelize, stop, normalize_action_candidate}
use cherry_on_top.Economy.Utility.{is_stop, UtilityWeights, evaluate_action_utility}
use cherry_on_top.Economy.Utility.Constraint.{IsPermitted, evaluate-allowed_iff}
use cherry_on_top.Economy.Path.{DecisionEstimate, score_in, threshold_in, is_single_unit}
use cherry_on_top.Economy.Choice.Execution.{
  risk_penalty_in, delegate_candidate, ExecutionAuthorizationInput, is_unauthorized,
  is_without_agents, is_escalate, market, authorize_execution,
}

market-delegates_iff :
    (input : ExecutionAuthorizationInput) (id : String)
    → (market input id).outcome ≡ delegate ↔ (
        (evaluate_action_utility
          (delegate_candidate input.economics input.dispatch input.planned_child_count)
          input.state
          input.weights).allowed
        ≡ true)
unfolding market
market-delegates_iff input id = ground arith

market-never_escalates :
    (input : ExecutionAuthorizationInput) (id : String)
    → is_escalate (market input id).outcome ≡ false
unfolding market
market-never_escalates input id = ground arith

authorize-delegates_iff :
    (input : ExecutionAuthorizationInput) (id : String)
    → (authorize_execution input id).outcome ≡ delegate ↔ (
        (input.economics.outcome ≡ delegate)
        × (((any is_unauthorized input.economics.breakdown ≡ false)
              × ((any is_without_agents input.economics.breakdown ≡ false)
                  × (any is_single_unit input.economics.breakdown ≡ false)))
            × ((market input id).outcome ≡ delegate)))
unfolding authorize_execution
authorize-delegates_iff input id = ground arith

abbrev is_signal : Entry → Bool
is_signal (signal name n) = true
is_signal _ = false

abbrev scored : DecideExecutionInput → List Entry
scored exec =
    terms (default_economics_input exec.complexity)
    ∷ score (score_delegation (default_economics_input exec.complexity)).score
    ∷ []

delegated-breakdown :
    (exec : DecideExecutionInput)
    → (decide_execution exec).outcome ≡ delegate
    → (decide_execution exec).breakdown ≡ exec.signals ++ scored exec
unfolding decide_execution score_delegation default_economics_input
delegated-breakdown exec h = ground arith

-- signals name no reason, no term and no score
signals_read :
    (signals es : List Entry)
    → All (λ e. is_signal e ≡ true) signals
    → (any is_unauthorized (signals ++ es) ≡ any is_unauthorized es)
      × ((any is_without_agents (signals ++ es) ≡ any is_without_agents es)
          × ((any is_single_unit (signals ++ es) ≡ any is_single_unit es)
              × ((score_in (signals ++ es) ≡ score_in es)
                  × ((threshold_in (signals ++ es) ≡ threshold_in es)
                      × (risk_penalty_in (signals ++ es) ≡ risk_penalty_in es)))))
signals_read [] es h = (refl, (refl, (refl, (refl, (refl, refl)))))
signals_read (signal name n ∷ ss) es (k, h) = signals_read ss es h
signals_read (terms t ∷ ss) es (k, h) = absurd (false≢true k)
signals_read (score x ∷ ss) es (k, h) = absurd (false≢true k)
signals_read (no_score ∷ ss) es (k, h) = absurd (false≢true k)
signals_read (reason_no_spawn_authority ∷ ss) es (k, h) = absurd (false≢true k)
signals_read (reason_single_unit_of_work ∷ ss) es (k, h) = absurd (false≢true k)
signals_read (reason_no_agent_allowance ∷ ss) es (k, h) = absurd (false≢true k)
signals_read (budgets a b ∷ ss) es (k, h) = absurd (false≢true k)

-- what the run can pay for: the plan and the synthesis, with the reserve kept
abbrev pub IsFunded : EconomicState → DecisionEstimate → Type 0
IsFunded s dispatch =
    (s.constraints.hard_stop ≡ false)
    × (0 < dispatch.tokens
        → dispatch.tokens * 2 + s.resources.recovery_reserve ≤ s.resources.remaining_tokens)

quality_kept :
    (exec : DecideExecutionInput)
    → exec.complexity ≢ low
    → let t = default_economics_input exec.complexity in
      let x = (score_delegation t).score in t.risk_penalty ≤ x.value - (x.taken + t.threshold)
unfolding score_delegation default_economics_input
quality_kept exec h = ground arith

IsPermitted-IsFunded_iff :
    (economics : DecideExecutionResult) (dispatch : DecisionEstimate) (k : ℕ) (s : EconomicState)
    → s.constraints.quality_floor ≤ one
    → risk_penalty_in economics.breakdown
      ≤ (score_in economics.breakdown).value
        - ((score_in economics.breakdown).taken + threshold_in economics.breakdown)
    → IsPermitted s (delegate_candidate economics dispatch k) ↔ IsFunded s dispatch
unfolding delegate_candidate normalize_action_candidate
IsPermitted-IsFunded_iff economics dispatch k s f1 kept = (
  λ p.
      let stops = p.stops in
      let pays = p.pays refl in (not_stop s stops, λ pos. ground (arith, pays)),
  λ (going, pays). record {
    stops = λ ended. absurd (true≢false (sym ended ∙ going));
    is_safe = refl;
    is_approved = refl;
    quality = omega (arith, f1, kept);
    pays = λ paid pos. ground (arith, pays);
  },
)
  where
    not_stop :
        (s : EconomicState)
        → (s.constraints.hard_stop ≡ true → parallelize ≡ stop)
        → s.constraints.hard_stop ≡ false
    not_stop s h = elim (Bool-cases s.constraints.hard_stop) [
      | inl over ↦ absurd (false≢true (ap is_stop (h over)))
      | inr going ↦ going
    ]

-- what the economics say of a node, read where they say to delegate
delegated_read :
    (exec : DecideExecutionInput)
    → All (λ e. is_signal e ≡ true) exec.signals
    → (decide_execution exec).outcome ≡ delegate
    → let breakdown = (decide_execution exec).breakdown in
      ((any is_unauthorized breakdown ≡ false)
        × ((any is_without_agents breakdown ≡ false) × (any is_single_unit breakdown ≡ false)))
      × (risk_penalty_in breakdown
          ≤ (score_in breakdown).value - ((score_in breakdown).taken + threshold_in breakdown))
delegated_read exec plain h =
    let (_, (_, worth)) = ((decide_execution_iff exec).0.0 h).0 in
    let (a, (b, (c, (d, (e, f))))) = signals_read exec.signals (scored exec) plain in
    rw (delegated-breakdown exec h) (rw (d, e, f) ((a, (b, c)), quality_kept exec worth))

-- Where the economics of a node are decideExecution's, and its signals are numbers, a fan-out is
-- authorized exactly when they say to delegate, the run has not ended, and what remains of its
-- tokens pays for the plan and the synthesis without the reserve for recovery. The quality floor
-- never stands in the way, where it is a share.
pub authorize-IsFunded_iff :
    (exec : DecideExecutionInput) (s : EconomicState) (dispatch : DecisionEstimate) (k : ℕ)
    (w : UtilityWeights) (id : String)
    → s.constraints.quality_floor ≤ one
    → All (λ e. is_signal e ≡ true) exec.signals
    → ((authorize_execution
          (record {
            state = s;
            economics = decide_execution exec;
            dispatch = dispatch;
            planned_child_count = k;
            weights = w;
          })
          id).outcome
        ≡ delegate)
      ↔ (((decide_execution exec).outcome ≡ delegate) × IsFunded s dispatch)
authorize-IsFunded_iff exec s dispatch k w id f1 plain =
    let input : ExecutionAuthorizationInput = record {
      state = s;
      economics = decide_execution exec;
      dispatch = dispatch;
      planned_child_count = k;
      weights = w;
    } in
    let candidate = delegate_candidate input.economics dispatch k in
    let whole = authorize-delegates_iff input id in
    let vetoed = market-delegates_iff input id in
    let allowed = evaluate-allowed_iff s candidate w f1 in
    (
      λ h.
          let (said, (_, free)) = whole.0 h in
          (
            said,
            (IsPermitted-IsFunded_iff input.economics dispatch k s f1
                  (delegated_read exec plain said).1).0
                (allowed.0 (vetoed.0 free)),
          ),
      λ (said, funded).
          let (silent, kept) = delegated_read exec plain said in
          whole.1 (
            said,
            (
              silent,
              vetoed.1 (
                  allowed.1
                    ((IsPermitted-IsFunded_iff input.economics dispatch k s f1 kept).1 funded)),
            ),
          ),
    )
