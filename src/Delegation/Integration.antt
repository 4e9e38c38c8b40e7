-- ===== src/Delegation/Integration.antt =====
-- Whether combining the children's answers needs a model: src/intelligence/integrate-results.ts.
-- What the envelope of a report says (parseResultEnvelope), whether a text is blank, and a text
-- without its outer white space are parameters. A confidence is a number of hundredths.
pub mod Agreement
use cherry_on_top.Base.{
  ℕ, String, Bool, true, false, not, ◌&&◌, Option, none, some, List, [], ◌∷◌, ◌++◌, map,
  if◌then◌else◌, ltb, ◌==◌, length, filter, str_eq, str_append, join,
}

pub record ChildReport : Type 0 where
  pub goal : String
  pub report : String
  pub succeeded : Bool

pub record AgentResultEnvelope : Type 0 where
  pub status : String
  pub summary : String
  pub findings : List String
  pub changed_files : List String
  pub uncertainties : List String
  pub confidence : ℕ

pub record Parsed : Type 0 where
  pub envelope : AgentResultEnvelope
  pub prose : String
  pub structured : Bool

pub record Reported : Type 0 where
  pub report : ChildReport
  pub parsed : Parsed

pub data JudgementReason : Type 0 where
  in_prose : String → JudgementReason
  incomplete : String → String → JudgementReason
  unsure : String → JudgementReason
  changed_by_several : String → JudgementReason

pub data IntegrationDecision : Type 0 where
  nothing : IntegrationDecision
  return_child : String → IntegrationDecision
  merge : String → IntegrationDecision
  synthesize : List ChildReport → JudgementReason → IntegrationDecision

abbrev pub confident : ℕ
confident = 50

abbrev bullet_lines : List String → List String
bullet_lines [] = "" ∷ []
bullet_lines (x ∷ xs) = str_append "- " x ∷ bullet_lines xs

abbrev pub bullets : String → List String → List String
bullets label [] = []
bullets label (x ∷ xs) = str_append label ":" ∷ bullet_lines (x ∷ xs)

abbrev pub sections : List Reported → List String
sections [] = []
sections (r ∷ rs) =
    (str_append "## " r.report.goal ∷ "" ∷ r.parsed.envelope.summary ∷ "" ∷ [])
    ++ bullets "Findings" r.parsed.envelope.findings
    ++ bullets "Changed" r.parsed.envelope.changed_files
    ++ bullets "Not verified" r.parsed.envelope.uncertainties
    ++ sections rs

-- `reported.find`
abbrev pub find_report : (Reported → Bool) → List Reported → Option Reported
find_report p [] = none
find_report p (r ∷ rs) = let rest = find_report p rs in if p r then some r else rest

-- the files with the goal that changed each, in the order of the loops
abbrev pub touches_of : String → List String → List (String × String)
touches_of goal [] = []
touches_of goal (file ∷ files) = (file, goal) ∷ touches_of goal files

abbrev pub touches : List Reported → List (String × String)
touches [] = []
touches (r ∷ rs) = touches_of r.report.goal r.parsed.envelope.changed_files ++ touches rs

-- `seen.get(file)`, of the entries with the last one first
abbrev pub last_goal : List (String × String) → String → String
last_goal [] file = ""
last_goal ((f, goal) ∷ rest) file =
    let older = last_goal rest file in if str_eq f file then goal else older

-- the first file that a different goal changed before
unfoldable pub contested : List (String × String) → List (String × String) → Option String
contested seen [] = none
contested seen ((file, goal) ∷ rest) =
    let other = last_goal seen file in
    let later = contested ((file, goal) ∷ seen) rest in
    if not (str_eq other "") && not (str_eq other goal) then some file else later

unfoldable pub needs_judgement : List Reported → Option JudgementReason
unfolding contested
needs_judgement reported = elim (find_report (λ r. not r.parsed.structured) reported) [
  | some r ↦ some (in_prose r.report.goal)
  | none ↦ elim (find_report (λ r. not (str_eq r.parsed.envelope.status "success")) reported) [
    | some r ↦ some (incomplete r.report.goal r.parsed.envelope.status)
    | none ↦ elim (find_report (λ r. ltb r.parsed.envelope.confidence confident) reported) [
      | some r ↦ some (unsure r.report.goal)
      | none ↦ elim (contested [] (touches reported)) [
        | some file ↦ some (changed_by_several file)
        | none ↦ none
      ]
    ]
  ]
]

abbrev pub without_envelopes : List Reported → List ChildReport
without_envelopes [] = []
without_envelopes (r ∷ rs) = record r.report { report = r.parsed.prose } ∷ without_envelopes rs

module _ (parse : String → Bool → Parsed) (is_blank : String → Bool) (trim : String → String) where
  abbrev pub reported_of : List ChildReport → List Reported
  reported_of children =
      map (λ (c : ChildReport). record { report = c; parsed = parse c.report c.succeeded })
        (filter (λ (c : ChildReport). not (is_blank c.report)) children)

  unfoldable pub integrate : List Reported → IntegrationDecision
  unfolding needs_judgement
  integrate [] = nothing
  integrate (r ∷ []) = return_child r.parsed.prose
  integrate (r ∷ s ∷ rest) = elim (needs_judgement (r ∷ s ∷ rest)) [
    | some reason ↦ synthesize (without_envelopes (r ∷ s ∷ rest)) reason
    | none ↦ merge (trim (join "\n" (sections (r ∷ s ∷ rest))))
  ]

  unfoldable pub decide_integration : List ChildReport → IntegrationDecision
  unfolding integrate
  decide_integration children = integrate (reported_of children)
