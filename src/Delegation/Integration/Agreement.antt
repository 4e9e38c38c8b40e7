-- ===== src/Delegation/Integration/Agreement.antt =====
-- What a merge without a model rests on.
use mathlib.Core.Bool.{true≢false, false≢true}
use cherry_on_top.Base.{
  ◌≤◌, ◌≡◌, refl, sym, ◌∙◌, ap, String, Bool, true, false, not, none, List, [], ◌∷◌, ltb, arith,
  Bool-cases, Option-cases, inl, inr, All, All-map, All-zip, str_eq, str_eq-eq, str_eq_refl,
}
use cherry_on_top.Delegation.Integration.{
  ChildReport, Parsed, Reported, IntegrationDecision, merge, confident, find_report, touches,
  last_goal, contested, needs_judgement, reported_of, integrate, decide_integration,
}

find_report-none :
    (p : Reported → Bool) (rs : List Reported) → find_report p rs ≡ none → All (λ r. p r ≡ false) rs
find_report-none p [] h = tt
find_report-none p (r ∷ rs) h = elim (Bool-cases (p r)) [
  | inl found ↦ absurd (ground (arith, h, found))
  | inr other ↦ (other, find_report-none p rs (ground (arith, h, other)))
]

-- another change of the file has the goal
abbrev pub IsSame : String → String → String × String → Type 0
IsSame file goal t = str_eq t.0 file ≡ true → t.1 ≡ goal

-- every file that a named goal changed is changed by that goal alone from then on
abbrev pub Agrees : List (String × String) → Type 0
Agrees [] = Unit
Agrees ((file, goal) ∷ rest) = (str_eq goal "" ≡ false → All (IsSame file goal) rest) × Agrees rest

module _ (seen : List (String × String)) (file goal : String) (rest : List (String × String))
    (h : contested seen ((file, goal) ∷ rest) ≡ none) where
  later_none : contested ((file, goal) ∷ seen) rest ≡ none
  unfolding contested
  later_none = ground (arith, h)

  undisputed : str_eq (last_goal seen file) "" ≡ false → last_goal seen file ≡ goal
  unfolding contested
  undisputed named = str_eq-eq (last_goal seen file) goal (ground (arith, h, named))

contested-IsSame :
    (seen ts : List (String × String)) (file goal : String)
    → contested seen ts ≡ none
    → last_goal seen file ≡ goal
    → str_eq goal "" ≡ false
    → All (IsSame file goal) ts
contested-IsSame seen [] file goal h e named = tt
contested-IsSame seen ((f, g) ∷ rest) file goal h e named = elim (Bool-cases (str_eq f file)) [
  | inr other ↦ (
    λ same. absurd (true≢false (sym same ∙ other)),
    contested-IsSame ((f, g) ∷ seen) rest file goal (later_none seen f g rest h) (rw other e) named,
  )
  | inl same ↦
      let at : last_goal seen f ≡ goal = ap (last_goal seen) (str_eq-eq f file same) ∙ e in
      let known : str_eq (last_goal seen f) "" ≡ false = ap (λ x. str_eq x "") at ∙ named in
      let agreed : g ≡ goal = sym (undisputed seen f g rest h known) ∙ at in
      (
        λ there. agreed,
        contested-IsSame ((f, g) ∷ seen) rest file goal (later_none seen f g rest h)
            (rw same agreed) named,
      )
]

contested-Agrees : (seen ts : List (String × String)) → contested seen ts ≡ none → Agrees ts
contested-Agrees seen [] h = tt
contested-Agrees seen ((f, g) ∷ rest) h =
    let later = later_none seen f g rest h in
    (
      λ named. contested-IsSame ((f, g) ∷ seen) rest f g later (rw (str_eq_refl f) refl) named,
      contested-Agrees ((f, g) ∷ seen) rest later,
    )

-- a report with an envelope that says that the work is done, and believes it
abbrev pub IsConclusive : Reported → Type 0
IsConclusive r =
    (r.parsed.structured ≡ true)
    × ((r.parsed.envelope.status ≡ "success") × (confident ≤ r.parsed.envelope.confidence))

needs_judgement-none :
    (rs : List Reported) → needs_judgement rs ≡ none → All IsConclusive rs × Agrees (touches rs)
unfolding needs_judgement
needs_judgement-none rs h = elim (Option-cases (find_report (λ r. not r.parsed.structured) rs)) [
  | inr (r, found) ↦ absurd (ground (arith, h, found))
  | inl prose ↦
      elim (Option-cases (find_report (λ r. not (str_eq r.parsed.envelope.status "success")) rs)) [
        | inr (r, found) ↦ absurd (ground (arith, h, prose, found))
        | inl done ↦
            elim (Option-cases (find_report (λ r. ltb r.parsed.envelope.confidence confident) rs)) [
              | inr (r, found) ↦ absurd (ground (arith, h, prose, done, found))
              | inl sure ↦ elim (Option-cases (contested [] (touches rs))) [
                | inr (file, found) ↦ absurd (ground (arith, h, prose, done, sure, found))
                | inl agreed ↦ (
                  All-map _ IsConclusive
                      (λ r (p, (q, c)). (
                        ground (arith, p),
                        (
                          str_eq-eq r.parsed.envelope.status "success" (ground (arith, q)),
                          ground (arith, c),
                        ),
                      ))
                      rs
                      (All-zip _ _ rs (find_report-none (λ r. not r.parsed.structured) rs prose) (
                        All-zip _ _ rs
                          (find_report-none (λ r. not (str_eq r.parsed.envelope.status "success"))
                            rs done)
                          (find_report-none (λ r. ltb r.parsed.envelope.confidence confident) rs
                            sure))),
                  contested-Agrees [] (touches rs) agreed,
                )
              ]
            ]
      ]
]

abbrev is_merge : IntegrationDecision → Bool
is_merge (merge text) = true
is_merge _ = false

merged :
    (parse : String → Bool → Parsed) (is_blank : String → Bool) (trim : String → String)
    (rs : List Reported) (text : String)
    → integrate parse is_blank trim rs ≡ merge text
    → All IsConclusive rs × Agrees (touches rs)
unfolding integrate
merged parse is_blank trim [] text h = absurd (false≢true (ap is_merge h))
merged parse is_blank trim (r ∷ []) text h = absurd (false≢true (ap is_merge h))
merged parse is_blank trim (r ∷ s ∷ rest) text h =
    elim (Option-cases (needs_judgement (r ∷ s ∷ rest))) [
      | inl quiet ↦ needs_judgement-none (r ∷ s ∷ rest) quiet
      | inr (reason, judged) ↦
          let asked : is_merge (integrate parse is_blank trim (r ∷ s ∷ rest)) ≡ false =
            rw (judged, integrate) refl in
          absurd (true≢false (sym (ap is_merge h) ∙ asked))
    ]

module _ (parse : String → Bool → Parsed) (is_blank : String → Bool) (trim : String → String) where
  -- Reports are merged without a model only where each of them has an envelope that says success
  -- with at least half confidence, and no file was changed by two children with different goals,
  -- where the earlier one's goal is not empty.
  pub merge_needs_agreement :
      (children : List ChildReport) (text : String)
      → decide_integration parse is_blank trim children ≡ merge text
      → All IsConclusive (reported_of parse is_blank trim children)
        × Agrees (touches (reported_of parse is_blank trim children))
  unfolding decide_integration
  merge_needs_agreement children text h =
      merged parse is_blank trim (reported_of parse is_blank trim children) text h
