-- ===== src/Delegation/PlanCheck/Sound.antt =====
-- What a plan that is worth funding promises.
use text.Mathlib.TextEquality.{eq_iff}
use cherry_on_top.Base.{
  ℕ, ◌+◌, ◌≤◌, ◌<◌, ◌≡◌, refl, sym, ◌∙◌, ap, String, Bool, true, not, ◌&&◌, some, List, [], ◌∷◌,
  ◌++◌, length, filter, all, includes, includes-append, occurrences, add, unique, unique_from,
  length-append, arith, Bool-cases, inl, inr, All, str_eq,
}
use cherry_on_top.Authority.{is_read_only}
use cherry_on_top.Workstreams.Graph.{ids}
use cherry_on_top.Workstreams.Graph.Laws.{IsDistinct}
use cherry_on_top.Delegation.PlanCheck.{
  DelegationSubgoal, DelegationValidationInput, clone_similarity, subgoal_ids, all_writes,
  plan_nodes, bad_dependencies, all_bad_dependencies, pair_similarities, worst, is_inside, escaping,
  validate_delegation_plan,
}

length-unique_from-le :
    (seen xs : List String) → length (unique_from seen xs) ≤ length seen + length xs
length-unique_from-le seen [] = omega arith
length-unique_from-le seen (y ∷ ys) =
    ground (arith, length-unique_from-le (add seen y) ys, length-append seen (y ∷ []))

-- where nothing was dropped, nothing stood twice
unique_from_all :
    (seen xs : List String) (x : String)
    → length (unique_from seen xs) ≡ length seen + length xs
    → (includes seen x ≡ true → occurrences x xs ≡ 0) × (occurrences x xs ≤ 1)
unique_from_all seen [] x h = (λ m. refl, omega arith)
unique_from_all seen (y ∷ ys) x h = elim (Bool-cases (includes seen y)) [
  | inl held ↦ absurd (ground (arith, h, held, length-unique_from-le seen ys))
  | inr new ↦ ground (
    arith,
    new,
    unique_from_all (seen ++ y ∷ []) ys x (ground (arith, h, new, length-append seen (y ∷ []))),
    includes-append seen (y ∷ []) x,
    eq_iff y x,
  )
]

ids-plan_nodes : (gs : List DelegationSubgoal) → ids (plan_nodes gs) ≡ subgoal_ids gs
ids-plan_nodes [] = refl
ids-plan_nodes (g ∷ gs) = ap (λ is. g.id ∷ is) (ids-plan_nodes gs)

length-subgoal_ids : (gs : List DelegationSubgoal) → length (subgoal_ids gs) ≡ length gs
length-subgoal_ids [] = refl
length-subgoal_ids (g ∷ gs) = omega (arith, length-subgoal_ids gs)

-- each is another subgoal
abbrev pub AreKnown : List String → DelegationSubgoal → Type 0
AreKnown known g = all (λ d. includes known d && not (str_eq d g.id)) g.dependencies ≡ true

no_bad :
    (known : List String) (id : String) (ds : List String)
    → length (bad_dependencies known id ds) ≡ 0
    → all (λ d. includes known d && not (str_eq d id)) ds ≡ true
no_bad known id [] h = refl
no_bad known id (d ∷ ds) h = ground (arith, h, no_bad known id ds)

All-known :
    (known : List String) (gs : List DelegationSubgoal)
    → length (all_bad_dependencies known gs) ≡ 0
    → All (AreKnown known) gs
All-known known [] h = tt
All-known known (g ∷ gs) h =
    let total =
      length-append (bad_dependencies known g.id g.dependencies) (all_bad_dependencies known gs) in
    (
      no_bad known g.id g.dependencies (omega (arith, h, total)),
      All-known known gs (omega (arith, h, total)),
    )

none_escape :
    (p : String → Bool) (xs : List String)
    → length (filter (λ x. not (p x)) xs) ≡ 0
    → all p xs ≡ true
none_escape p [] h = refl
none_escape p (x ∷ xs) h = ground (arith, h, none_escape p xs)

module _ (words : String → List String) (parent_deliverables : String → List String)
    (decimal : ℕ → String) (ends_with_slash : String → Bool) (parent : DelegationValidationInput)
    (subgoals : List DelegationSubgoal) where
  -- a plan whose pieces are distinct jobs that the parent may hand out
  pub record IsFundable : Type 0 where
    pub distinct : IsDistinct (plan_nodes subgoals)
    pub split : 2 ≤ length subgoals
    pub within_allowance : length subgoals ≤ parent.authority.max_child_count
    pub spawns : parent.authority.spawn_children ≡ true
    pub reads_only : is_read_only parent.authority ≡ true → length (all_writes subgoals) ≡ 0
    pub inside :
        (scope : String) (scopes : List String)
        → parent.write_scope ≡ some (scope ∷ scopes)
        → all
            (is_inside words parent_deliverables decimal ends_with_slash (scope ∷ scopes))
            (all_writes subgoals)
          ≡ true
    pub depends : All (AreKnown (unique (subgoal_ids subgoals))) subgoals
    pub unlike :
        worst words parent_deliverables decimal ends_with_slash
          (pair_similarities words parent_deliverables decimal ends_with_slash subgoals)
        < clone_similarity

  abbrev verdict : Bool
  verdict =
      (validate_delegation_plan words parent_deliverables decimal ends_with_slash parent
        subgoals).valid

  -- the tests that a valid plan passed
  passed :
      verdict ≡ true
      → ((length (unique (subgoal_ids subgoals)) ≡ length subgoals)
          × (length (all_bad_dependencies (unique (subgoal_ids subgoals)) subgoals) ≡ 0))
        × (((length (
                  escaping words parent_deliverables decimal ends_with_slash parent.write_scope
                    (all_writes subgoals))
                ≡ 0)
              × (is_read_only parent.authority ≡ true → length (all_writes subgoals) ≡ 0))
            × ((parent.authority.spawn_children ≡ true)
                × ((length subgoals ≤ parent.authority.max_child_count)
                    × ((2 ≤ length subgoals)
                        × (worst words parent_deliverables decimal ends_with_slash (
                              pair_similarities words parent_deliverables decimal ends_with_slash
                                subgoals)
                            < clone_similarity)))))
  unfolding validate_delegation_plan
  passed h = (
    (ground arith, ground arith),
    ((ground arith, ground arith), (ground arith, (ground arith, (ground arith, ground arith)))),
  )

  -- A plan that is found valid has at least two pieces with distinct ids, no more than the parent
  -- may have agents; the parent may delegate, and writes if a piece does; every write lies in the
  -- parent's scope, where it has one; every dependency is another piece; and no two goals are as
  -- similar as clones.
  pub valid-IsFundable : verdict ≡ true → IsFundable
  unfolding escaping
  valid-IsFundable h =
      let ((once, known), ((kept, quiet), (spawns, (allowed, (split, unlike))))) = passed h in
      record {
        distinct = λ x. omega (
          arith,
          (unique_from_all [] (subgoal_ids subgoals) x
              (omega (arith, once, length-subgoal_ids subgoals))).1,
          ap (occurrences x) (ids-plan_nodes subgoals),
        );
        split = split;
        within_allowance = allowed;
        spawns = spawns;
        reads_only = quiet;
        inside = λ scope scopes has.
            none_escape
              (is_inside words parent_deliverables decimal ends_with_slash (scope ∷ scopes))
              (all_writes subgoals)
              (sym (
                  ap
                    (λ w. length (
                      escaping words parent_deliverables decimal ends_with_slash w
                        (all_writes subgoals)))
                    has)
                ∙ kept);
        depends = All-known (unique (subgoal_ids subgoals)) subgoals known;
        unlike = unlike;
      }
