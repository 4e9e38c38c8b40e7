-- ===== src/Delegation/PlanCheck.antt =====
-- Is a plan worth creating children for: src/decision/delegation-validator.ts. The words of a text,
-- the deliverables that a goal enumerates, the decimal text of a number, and whether a path ends with
-- a slash, which the code reads with regular expressions and string functions, are parameters. A
-- similarity is a number of millionths.
pub mod Sound
use text.Mathlib.Text.{starts_with}
use cherry_on_top.Base.{
  ℕ, ◌+◌, ◌-◌, ◌*◌, ◌/◌, max, String, Bool, true, false, not, ◌&&◌, ◌||◌, Option, none, some, List,
  [], ◌∷◌, ◌++◌, if◌then◌else◌, ltb, leb, ◌==◌, length, filter, any, all, includes, unique, sort,
  join, str_append, str_eq,
}
use cherry_on_top.Economy.{one}
use cherry_on_top.Authority.{Authority, is_read_only}
use cherry_on_top.Workstreams.Graph.{WorkstreamNode}
use cherry_on_top.Workstreams.Scheduler.{plan_workstreams}

pub record DelegationSubgoal : Type 0 where
  pub id : String
  pub goal : String
  pub write_paths : List String
  pub dependencies : List String

pub record DelegationValidationResult : Type 0 where
  pub valid : Bool
  pub coverage : ℕ
  pub distinctness : ℕ
  pub scope_safe : Bool
  pub dependency_safe : Bool
  pub conflict_free : Bool
  pub reasons : List String

pub record DelegationValidationInput : Type 0 where
  pub goal : String
  pub authority : Authority
  pub write_scope : Option (List String)

abbrev pub clone_similarity : ℕ
clone_similarity = 800000

abbrev pub min_coverage : ℕ
min_coverage = 999000

abbrev pub empty_plan_result : DelegationValidationResult
empty_plan_result = record {
  valid = false;
  coverage = 0;
  distinctness = 0;
  scope_safe = true;
  dependency_safe = true;
  conflict_free = true;
  reasons = "empty_plan" ∷ [];
}

abbrev pub subgoal_ids : List DelegationSubgoal → List String
subgoal_ids [] = []
subgoal_ids (g ∷ gs) = g.id ∷ subgoal_ids gs

abbrev pub all_writes : List DelegationSubgoal → List String
all_writes [] = []
all_writes (g ∷ gs) = g.write_paths ++ all_writes gs

-- `workstreamNodes`
abbrev pub plan_nodes : List DelegationSubgoal → List WorkstreamNode
plan_nodes [] = []
plan_nodes (g ∷ gs) =
    record {
      id = g.id;
      input_dependencies = g.dependencies;
      information_dependencies = [];
      output_dependencies = [];
      validation_dependencies = [];
      write_paths = g.write_paths;
    }
    ∷ plan_nodes gs

-- a reason for each dependency of a subgoal that is itself or unknown
abbrev pub bad_dependencies : List String → String → List String → List String
bad_dependencies known id [] = []
bad_dependencies known id (d ∷ ds) =
    let rest = bad_dependencies known id ds in
    if str_eq d id
    then str_append "self_dependency:" id ∷ rest
    else if not (includes known d)
    then str_append "unknown_dependency:" (str_append id (str_append "->" d)) ∷ rest
    else rest

abbrev pub all_bad_dependencies : List String → List DelegationSubgoal → List String
all_bad_dependencies known [] = []
all_bad_dependencies known (g ∷ gs) =
    bad_dependencies known g.id g.dependencies ++ all_bad_dependencies known gs

abbrev pub reason_if : Bool → String → List String
reason_if b reason = if b then reason ∷ [] else []

module _ (words : String → List String) (parent_deliverables : String → List String)
    (decimal : ℕ → String) (ends_with_slash : String → Bool) where
  unfoldable pub similarity : String → String → ℕ
  similarity a b =
      let left = unique (words a) in
      let right = unique (words b) in
      let shared = length (filter (λ word. includes right word) left) in
      let union = length (unique (left ++ right)) in
      if length left == 0 || length right == 0
      then 0
      else if union == 0
      then 0
      else shared * one / union

  -- the pairs with the first subgoal
  abbrev pub similarities : DelegationSubgoal → List DelegationSubgoal → List ℕ
  similarities g [] = []
  similarities g (h ∷ hs) = similarity g.goal h.goal ∷ similarities g hs

  abbrev pub pair_similarities : List DelegationSubgoal → List ℕ
  pair_similarities [] = []
  pair_similarities (g ∷ gs) = similarities g gs ++ pair_similarities gs

  abbrev pub worst : List ℕ → ℕ
  worst [] = 0
  worst (n ∷ ns) = max n (worst ns)

  abbrev pub clones : List ℕ → List String
  clones [] = []
  clones (n ∷ ns) = reason_if (leb clone_similarity n) "duplicate_or_clone_subgoal" ++ clones ns

  unfoldable pub coverage_of : String → List DelegationSubgoal → ℕ
  coverage_of goal subgoals =
      let deliverables = parent_deliverables goal in
      let covered =
        filter
          (λ part. any (λ (g : DelegationSubgoal). leb 250000 (similarity part g.goal)) subgoals)
          deliverables in
      if length deliverables == 0 then one else length covered * one / length deliverables

  abbrev pub is_inside : List String → String → Bool
  is_inside scopes path =
      any
        (λ scope.
          str_eq path scope
          || starts_with path (if ends_with_slash scope then scope else str_append scope "/"))
        scopes

  -- the written paths outside the parent's scope, where it has one
  unfoldable pub escaping : Option (List String) → List String → List String
  escaping none writes = []
  escaping (some []) writes = []
  escaping (some (s ∷ ss)) writes = filter (λ path. not (is_inside (s ∷ ss) path)) writes

  unfoldable pub validate_delegation_plan :
      DelegationValidationInput → List DelegationSubgoal → DelegationValidationResult
  unfolding similarity coverage_of escaping
  validate_delegation_plan parent subgoals =
      let count = length subgoals in
      let pairs = pair_similarities subgoals in
      let distinctness = one - worst pairs in
      let coverage = coverage_of parent.goal subgoals in
      let writes = all_writes subgoals in
      let beyond = is_read_only parent.authority && ltb 0 (length writes) in
      let escaped = escaping parent.write_scope writes in
      let barred = not parent.authority.spawn_children in
      let too_many = ltb parent.authority.max_child_count count in
      let scope_safe = not beyond && length escaped == 0 && not barred && not too_many in
      let known = unique (subgoal_ids subgoals) in
      let repeated = not (length known == count) in
      let bad = all_bad_dependencies known subgoals in
      let reported = (plan_workstreams (plan_nodes subgoals) none).serialization_reasons in
      let cyclic = any (λ reason. starts_with reason "dependency_cycle") reported in
      let dependency_safe = not repeated && length bad == 0 && not cyclic in
      let conflict_free =
        length (filter (λ reason. starts_with reason "write_conflict:") reported) == 0 in
      let valid =
        ltb (one - clone_similarity) distinctness
        && leb min_coverage coverage
        && scope_safe
        && dependency_safe
        && ltb 1 count in
      if count == 0 then empty_plan_result else record {
        valid = valid;
        coverage = (coverage + 50) / 100;
        distinctness = (distinctness + 50) / 100;
        scope_safe = scope_safe;
        dependency_safe = dependency_safe;
        conflict_free = conflict_free;
        reasons = unique (
            reason_if (count == 1) "single_child_plan_is_not_a_split"
            ++ clones pairs
            ++ reason_if (ltb coverage min_coverage) "incomplete_coverage"
            ++ reason_if beyond "child_writes_beyond_read_only_parent"
            ++ reason_if (ltb 0 (length escaped))
                (str_append "child_scope_exceeds_parent:" (join "," (sort (unique escaped))))
            ++ reason_if barred "parent_may_not_spawn_children"
            ++ reason_if too_many (
                str_append "plan_exceeds_agent_allowance:" (
                  str_append (decimal count)
                    (str_append ">" (decimal parent.authority.max_child_count))))
            ++ reason_if repeated "duplicate_subgoal_id"
            ++ bad
            ++ reason_if cyclic "dependency_cycle"
            ++ reason_if (not conflict_free) (
                if dependency_safe
                then "write_overlap_serialized"
                else "unserializable_write_conflict")
            ++ (if valid then "plan_valid" else "plan_rejected") ∷ []);
      }
