-- ===== src/Examples/Splitting.antt =====
-- A fan-out, on concrete pieces.
use text.Mathlib.TextEquality.{eq_iff}
use text.Mathlib.TextLemmas.{append_cancel_left, append-eq-nil_iff}
use mathlib.Core.Bool.{false≢true}
use cherry_on_top.Authority.{is_read_only}
use cherry_on_top.Delegation.PlanCheck.{
  DelegationValidationInput, DelegationSubgoal, validate_delegation_plan,
}
use cherry_on_top.Delegation.PlanCheck.Sound.{IsFundable}
use cherry_on_top.Delegation.PlanCheck.Sound
use cherry_on_top.Delegation.Integration.{
  ChildReport, Parsed, merge, touches, reported_of, decide_integration,
}
use cherry_on_top.Delegation.Integration.Agreement.{IsConclusive, Agrees}
use cherry_on_top.Delegation.Integration.Agreement
use cherry_on_top.Base.{
  map, sym, ap, zero, suc, ◌≢◌, str_append, All, Bool, some, ℕ, ◌≡◌, ◌↔◌, ◌<◌, refl, String, true,
  false, not, none, List, [], ◌∷◌, arith, includes, occurrences, length, str_eq,
}
use cherry_on_top.Workstreams.Graph.{WorkstreamNode, ids, prepare, normalize}
use cherry_on_top.Workstreams.Graph.Laws.{IsDistinct, IsDistinct-cons}
use cherry_on_top.Workstreams.Scheduler.{plan_workstreams, schedule}
use cherry_on_top.Delegation.FanOut.{
  DelegationResult, Children, DelegateInput, delegate_to_children, workstream_nodes_for,
}
use cherry_on_top.Delegation.FanOut.Calls.{created_goals, started_children, awaited_children}
use cherry_on_top.Delegation.FanOut.Complete.{handled, pieces}
use cherry_on_top.Delegation.FanOut.Complete
use cherry_on_top.Delegation.FanOut.Success
use cherry_on_top.Delegation.FanOut.Planned
use cherry_on_top.Delegation.FanOut.Subgoals
use cherry_on_top.Delegation.FanOut.Subgoals.{delegate_subgoals, goal_named, names}

abbrev piece : String → List String → WorkstreamNode
piece id needs = record {
  id = id;
  input_dependencies = needs;
  information_dependencies = [];
  output_dependencies = [];
  validation_dependencies = [];
  write_paths = [];
}

abbrev two : List WorkstreamNode
two = piece "1" ("0" ∷ []) ∷ piece "0" [] ∷ []

-- b waits for a
abbrev three : List WorkstreamNode
three = piece "2" ("1" ∷ []) ∷ two

two-IsDistinct : IsDistinct two
two-IsDistinct =
    IsDistinct-cons (piece "1" ("0" ∷ [])) (piece "0" [] ∷ []) refl
      (IsDistinct-cons (piece "0" []) [] refl (λ x. omega arith))

three-IsDistinct : IsDistinct three
three-IsDistinct = IsDistinct-cons (piece "2" ("1" ∷ [])) two refl two-IsDistinct

-- the child of piece 1 fails
abbrev family : Children
family = record {
  goal_of = λ id. id;
  child_of = λ id. id;
  succeeds = λ child. not (str_eq child "1");
}

abbrev request : DelegateInput
request = record { parent_id = "p"; approved_budget_usd = none }

delegate_once_example :
    let s = (delegate_to_children family request 0 three true).running in
    ((x : String) → handled x s ≡ occurrences x (ids three))
    × (created_goals s.calls ≡ map family.goal_of (pieces s.results))
    × (started_children s.calls ≡ map family.child_of (pieces s.results))
    × (awaited_children s.calls ≡ map family.child_of (pieces s.results))
delegate_once_example = Complete.delegate_once family three request three-IsDistinct

delegate_succeeds_iff_example :
    ((delegate_to_children family request 0 three true).succeeded ≡ true) ↔ (
      (0 < length three)
      × ((x : String) → includes (ids three) x ≡ true → family.succeeds (family.child_of x) ≡ true))
delegate_succeeds_iff_example = Success.delegate_succeeds_iff family three request three-IsDistinct

planned_never_cancelled_example :
    (delegate_to_children family request 0
      (workstream_nodes_for (λ goal. []) (λ goal. false) (("0", "read a") ∷ ("1", "write b") ∷ []))
      true).running.cancelled
    ≡ []
planned_never_cancelled_example =
    Planned.planned_never_cancelled (λ goal. []) (λ goal. false)
      (("0", "read a") ∷ ("1", "write b") ∷ []) family request

abbrev no_anchors : String → List String
no_anchors goal = []

-- an index as so many strokes
strokes : ℕ → String
strokes zero = ""
strokes (suc n) = str_append "|" (strokes n)

strokes-ne-nil : (n : ℕ) → strokes (suc n) ≢ ""
unfolding strokes
strokes-ne-nil n e =
    let same : str_eq "|" "" ≡ true = (eq_iff "|" "").1 (append-eq-nil_iff.0 e).0 in
    absurd (false≢true same)

strokes_inj : (i j : ℕ) → strokes i ≡ strokes j → i ≡ j
unfolding strokes
strokes_inj zero zero e = refl
strokes_inj zero (suc j) e = absurd (strokes-ne-nil j (sym e))
strokes_inj (suc i) zero e = absurd (strokes-ne-nil i e)
strokes_inj (suc i) (suc j) e =
    ap suc (strokes_inj i j (append_cancel_left "|" (strokes i) (strokes j) e))

abbrev parent : DelegationValidationInput
parent = record {
  goal = "move a and print b";
  authority = record {
    tools = [];
    budget_usd = 9000000;
    spawn_children = true;
    max_child_count = 4;
  };
  write_scope = some ("src" ∷ []);
}

abbrev subgoals : List DelegationSubgoal
subgoals =
    record { id = "0"; goal = "move a"; write_paths = "src/a.ts" ∷ []; dependencies = [] }
    ∷ record { id = "1"; goal = "print b"; write_paths = "src/b.ts" ∷ []; dependencies = "0" ∷ [] }
    ∷ []

-- the text as its only word
abbrev single_word : String → List String
single_word text = text ∷ []

abbrev no_parts : String → List String
no_parts goal = []

abbrev some_decimal : ℕ → String
some_decimal n = "n"

abbrev never : String → Bool
never path = false

plan_valid :
    (validate_delegation_plan single_word no_parts some_decimal never parent subgoals).valid ≡ true
unfolding validate_delegation_plan is_read_only plan_workstreams prepare normalize schedule
plan_valid = refl

valid-IsFundable_example : IsFundable single_word no_parts some_decimal never parent subgoals
valid-IsFundable_example =
    Sound.valid-IsFundable single_word no_parts some_decimal never parent subgoals plan_valid

abbrev is_space : String → Bool
is_space goal = str_eq goal " "

abbrev handed_back : List String
handed_back = "move a" ∷ " " ∷ "print b" ∷ []

abbrev delegated : DelegationResult
delegated =
    delegate_subgoals no_anchors never is_space single_word no_parts strokes never (λ id. id)
      (λ child. false) request 0 "move a and print b" (some parent.authority) handed_back

not_declined : delegated.not_delegatable ≡ false
unfolding delegate_subgoals delegate_to_children validate_delegation_plan is_read_only
    plan_workstreams prepare normalize schedule strokes
not_declined = refl

subgoals_all_started_example :
    let goals =
      Subgoals.numbered no_anchors never is_space single_word no_parts strokes never 0
        ("move a" ∷ "print b" ∷ []) in
    (ps : List String) × ((created_goals delegated.running.calls ≡ map (goal_named goals) ps)
      × (started_children delegated.running.calls ≡ map (λ id. id) ps)
      × ((x : String) → occurrences x ps ≡ occurrences x (names goals))
      × (map (goal_named goals) (names goals) ≡ "move a" ∷ "print b" ∷ []))
subgoals_all_started_example =
    Subgoals.subgoals_all_started no_anchors never is_space single_word no_parts strokes never
      strokes_inj (λ id. id) (λ child. false) request "move a and print b" (some parent.authority)
      handed_back not_declined

abbrev report : String → ChildReport
report goal = record { goal = goal; report = goal; succeeded = true }

-- each report's text is the file that it changed
abbrev parse : String → Bool → Parsed
parse text succeeded = record {
  envelope = record {
    status = "success";
    summary = "done";
    findings = [];
    changed_files = text ∷ [];
    uncertainties = [];
    confidence = 80;
  };
  prose = "done";
  structured = true;
}

abbrev reports : List ChildReport
reports = report "a" ∷ report "b" ∷ []

abbrev merged_text : String
merged_text = "## a"

reports_merged : decide_integration parse never (λ text. merged_text) reports ≡ merge merged_text
unfolding decide_integration
reports_merged = refl

merge_needs_agreement_example :
    All IsConclusive (reported_of parse never (λ text. merged_text) reports)
    × Agrees (touches (reported_of parse never (λ text. merged_text) reports))
merge_needs_agreement_example =
    Agreement.merge_needs_agreement parse never (λ text. merged_text) reports merged_text
      reports_merged
