-- ===== src/Economy/State/Redelivery.antt =====
-- The same evidence delivered again changes nothing but the version.
use mathlib.Core.Bool.{true≢false, false≢true}
use mathlib.Core.List.{append-nil, append_assoc}
use text.Mathlib.TextEquality.{eq_iff}
use cherry_on_top.Base.{
  ℕ, ◌+◌, ◌≤◌, ◌≡◌, refl, sym, ◌∙◌, ap, min, String, true, false, ◌||◌, Option, List, [], ◌∷◌, ◌++◌,
  ltb, length, includes, occurrences, includes_iff-occurrences, occurrences-append, add,
  unique_from, All, unique, arith, Bool-cases, inl, inr, str_eq_refl, str_eq-eq,
}
use cherry_on_top.Economy.{EvidenceRef, UncertaintyObservation, EconomicState}
use cherry_on_top.Economy.State.{
  EconomicEvent, evidence_acquired, evidence_ids, normal_ref, normalize_evidence, fresh_evidence,
  advance, normalize_economic_state, apply_economic_event,
}

normal_ref_idem : (r : EvidenceRef) → normal_ref (normal_ref r) ≡ normal_ref r
normal_ref_idem r = ap (λ c. record (normal_ref r) { confidence = c }) (omega arith)

-- normalizing again keeps everything
normalize_evidence_again :
    (seen : List String) (rs : List EvidenceRef)
    → normalize_evidence seen (normalize_evidence seen rs) ≡ normalize_evidence seen rs
unfolding normalize_evidence
normalize_evidence_again seen [] = refl
normalize_evidence_again seen (r ∷ rs) = elim (Bool-cases (includes seen r.id)) [
  | inl known ↦ rw (known, normalize_evidence) (normalize_evidence_again seen rs)
  | inr new ↦
      rw (new, normalize_evidence)
        (rw (new, normalize_evidence)
          (rw (normal_ref_idem r)
            (ap (λ xs. normal_ref r ∷ xs) (normalize_evidence_again (r.id ∷ seen) rs))))
]

-- what is held after normalizing is what was there
includes-normalize_evidence :
    (seen : List String) (rs : List EvidenceRef) (x : String)
    → (includes seen x || includes (evidence_ids (normalize_evidence seen rs)) x)
      ≡ (includes seen x || includes (evidence_ids rs) x)
unfolding normalize_evidence
includes-normalize_evidence seen [] x = refl
includes-normalize_evidence seen (r ∷ rs) x = ground (
  arith,
  includes-normalize_evidence seen rs x,
  includes-normalize_evidence (r.id ∷ seen) rs x,
  eq_iff r.id x,
)

unique_from-occurrences :
    (seen xs : List String)
    → ((x : String) → occurrences x seen ≤ 1)
    → (x : String) → occurrences x (unique_from seen xs) ≤ 1
unique_from-occurrences seen [] h = h
unique_from-occurrences seen (y ∷ ys) h = unique_from-occurrences (add seen y) ys (λ x.
    ground
      (arith, h x, includes_iff-occurrences y seen, occurrences-append x seen (y ∷ []), eq_iff y x))

unique_from_distinct :
    (seen xs : List String)
    → ((x : String) → occurrences x (seen ++ xs) ≤ 1)
    → unique_from seen xs ≡ seen ++ xs
unique_from_distinct seen [] h = sym (append-nil seen)
unique_from_distinct seen (y ∷ ys) h =
    let unseen : includes seen y ≡ false = ground (
      arith,
      h y,
      includes_iff-occurrences y seen,
      occurrences-append y seen (y ∷ ys),
      str_eq_refl y,
    ) in
    rw unseen (
      unique_from_distinct (seen ++ y ∷ []) ys (λ x. rw (append_assoc seen (y ∷ []) ys) (h x))
      ∙ append_assoc seen (y ∷ []) ys)

unique_again : (xs : List String) → unique (unique xs) ≡ unique xs
unique_again xs =
    unique_from_distinct [] (unique xs) (unique_from-occurrences [] xs (λ x. omega arith))

min_twice : (a b : ℕ) → min a (min a b) ≡ min a b
min_twice a b = omega arith

normalize_again :
    (s : EconomicState)
    → normalize_economic_state (normalize_economic_state s) ≡ normalize_economic_state s
unfolding normalize_economic_state
normalize_again s = simp (min_twice, normalize_evidence_again [] s.evidence, unique_again)

fresh_evidence_held :
    (s : EconomicState) (refs : List EvidenceRef)
    → All (λ r. includes (evidence_ids s.evidence) r.id ≡ true) refs
    → fresh_evidence s refs ≡ []
fresh_evidence_held s [] h = refl
fresh_evidence_held s (r ∷ rs) (held, h) = rw held (fresh_evidence_held s rs h)

includes-evidence_ids-append :
    (rs ts : List EvidenceRef) (x : String)
    → includes (evidence_ids (rs ++ ts)) x
      ≡ (includes (evidence_ids rs) x || includes (evidence_ids ts) x)
includes-evidence_ids-append [] ts x = refl
includes-evidence_ids-append (r ∷ rs) ts x = ground (arith, includes-evidence_ids-append rs ts x)

-- what was not held was fresh
held_or_fresh :
    (s : EconomicState) (refs : List EvidenceRef) (x : String)
    → includes (evidence_ids refs) x ≡ true
    → (includes (evidence_ids s.evidence) x || includes (evidence_ids (fresh_evidence s refs)) x)
      ≡ true
held_or_fresh s [] x h = absurd (false≢true h)
held_or_fresh s (r ∷ rs) x h = elim (Bool-cases (includes (evidence_ids s.evidence) r.id)) [
  | inl held ↦ rw held (
      ground
        (arith, held_or_fresh s rs x, str_eq-eq r.id x, ap (includes (evidence_ids s.evidence))))
  | inr new ↦ rw new (ground (arith, held_or_fresh s rs x))
]

none_fresh :
    (s : EconomicState) (refs : List EvidenceRef)
    → ltb 0 (length (fresh_evidence s refs)) ≡ false
    → fresh_evidence s refs ≡ []
none_fresh s refs h = length_zero (fresh_evidence s refs) h
  where
    length_zero : (rs : List EvidenceRef) → ltb 0 (length rs) ≡ false → rs ≡ []
    length_zero [] h = refl
    length_zero (r ∷ rs) h = absurd (true≢false (ground (arith, h)))

held_when_none :
    (s : EconomicState) (refs : List EvidenceRef) (x : String)
    → fresh_evidence s refs ≡ []
    → includes (evidence_ids refs) x ≡ true
    → includes (evidence_ids s.evidence) x ≡ true
held_when_none s refs x nothing h = ground (
  arith,
  sym (ap (λ ys. includes (evidence_ids s.evidence) x || includes (evidence_ids ys) x) nothing)
      ∙ held_or_fresh s refs x h,
)

-- after an event all its evidence is held
held_after :
    (s : EconomicState) (refs : List EvidenceRef) (cost : Option ℕ)
    (observations : List UncertaintyObservation) (gain : Option ℕ) (x : String)
    → includes (evidence_ids refs) x ≡ true
    → includes
        (evidence_ids
          (apply_economic_event s (evidence_acquired refs cost observations gain)).evidence)
        x
      ≡ true
unfolding apply_economic_event advance normalize_economic_state
held_after s refs cost observations gain x h =
    elim (Bool-cases (ltb 0 (length (fresh_evidence s refs)))) [
      | inl new ↦ rw new (
          includes-normalize_evidence [] (s.evidence ++ fresh_evidence s refs) x
          ∙ includes-evidence_ids-append s.evidence (fresh_evidence s refs) x
          ∙ held_or_fresh s refs x h)
      | inr old ↦ rw old (
          includes-normalize_evidence [] s.evidence x
          ∙ held_when_none s refs x (none_fresh s refs old) h)
    ]

All-held :
    (ids : List String) (refs : List EvidenceRef)
    → ((x : String) → includes (evidence_ids refs) x ≡ true → includes ids x ≡ true)
    → All (λ r. includes ids r.id ≡ true) refs
All-held ids [] h = tt
All-held ids (r ∷ rs) h =
    (h r.id (ground (arith, str_eq_refl r.id)), All-held ids rs (λ x k. h x (ground (arith, k))))

apply_again :
    (s : EconomicState) (e : EconomicEvent)
    → normalize_economic_state (apply_economic_event s e) ≡ apply_economic_event s e
unfolding apply_economic_event
apply_again s e = normalize_again (record (advance s e) { version = s.version + 1 })

abbrev at_version : ℕ → EconomicState → EconomicState
at_version n s = record s { version = n }

normalize_next :
    (s : EconomicState)
    → normalize_economic_state (record s { version = s.version + 1 })
      ≡ record (normalize_economic_state s) { version = s.version + 1 }
unfolding normalize_economic_state
normalize_next s = refl

-- evidence that is held changes nothing but the version
apply_held :
    (s : EconomicState) (refs : List EvidenceRef) (cost : Option ℕ)
    (observations : List UncertaintyObservation) (gain : Option ℕ)
    → normalize_economic_state s ≡ s
    → fresh_evidence s refs ≡ []
    → apply_economic_event s (evidence_acquired refs cost observations gain)
      ≡ record s { version = s.version + 1 }
unfolding apply_economic_event advance
apply_held s refs cost observations gain normal nothing =
    rw nothing (normalize_next s ∙ ap (at_version (s.version + 1)) normal)

-- The same evidence delivered twice, with the same or other costs and observations, charges and
-- changes nothing the second time: only the version counts it.
pub redelivery_idempotent :
    (s : EconomicState) (refs : List EvidenceRef) (cost cost_again : Option ℕ)
    (observations again : List UncertaintyObservation) (gain gain_again : Option ℕ)
    → let held = apply_economic_event s (evidence_acquired refs cost observations gain) in
      apply_economic_event held (evidence_acquired refs cost_again again gain_again)
      ≡ record held { version = held.version + 1 }
redelivery_idempotent s refs cost cost_again observations again gain gain_again =
    let held = apply_economic_event s (evidence_acquired refs cost observations gain) in
    apply_held held refs cost_again again gain_again
      (apply_again s (evidence_acquired refs cost observations gain))
      (fresh_evidence_held held refs
        (All-held (evidence_ids held.evidence) refs (held_after s refs cost observations gain)))
