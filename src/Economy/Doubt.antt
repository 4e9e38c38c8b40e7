-- ===== src/Economy/Doubt.antt =====
-- Four doubts, and how an observation moves one: src/decision/uncertainty.ts.
pub mod Bounds
use cherry_on_top.Base.{
  ℕ, ◌+◌, ◌-◌, ◌*◌, ◌/◌, min, String, Bool, true, false, not, ◌&&◌, ◌||◌, Option, none, some, List,
  [], ◌∷◌, if◌then◌else◌, ltb, leb, length, all, includes, sort, unique, str_append, join,
}
use cherry_on_top.Economy.{
  one, UncertaintyKind, target, structural, behavioral, validation, UncertaintyState,
  UncertaintyObservation, clamp01,
}

-- `state[kind]`
abbrev pub doubt : UncertaintyState → UncertaintyKind → ℕ
doubt u target = u.target
doubt u structural = u.structural
doubt u behavioral = u.behavioral
doubt u validation = u.validation

-- `state[kind] = value`
abbrev pub set_doubt : UncertaintyState → UncertaintyKind → ℕ → UncertaintyState
set_doubt u target v = record u { target = v }
set_doubt u structural v = record u { structural = v }
set_doubt u behavioral v = record u { behavioral = v }
set_doubt u validation v = record u { validation = v }

abbrev kind_name : UncertaintyKind → String
kind_name target = "target"
kind_name structural = "structural"
kind_name behavioral = "behavioral"
kind_name validation = "validation"

unfoldable pub signature_of : UncertaintyObservation → String
signature_of o =
    str_append (kind_name o.kind) (str_append "#" (join "," (sort (unique o.source_evidence_ids))))

unfoldable pub staleness : UncertaintyObservation → ℕ → ℕ
staleness o current = elim o.before [
  | none ↦ one
  | some before ↦ let b = min one before in one - ((b - current) + (current - b))
]

-- `current + (after - current) * weight`, clamped
unfoldable pub move_towards : ℕ → ℕ → ℕ → ℕ
move_towards current after weight = min one (
    if leb current after
    then current + (after - current) * weight / one
    else current - (current - after) * weight / one)

unfoldable pub observe : UncertaintyState → UncertaintyObservation → UncertaintyState
unfolding staleness move_towards
observe next o =
    let current = doubt next o.kind in
    let weight = clamp01 o.confidence 0 * staleness o current / one in
    set_doubt next o.kind (move_towards current (clamp01 o.after 0) weight)

-- whether all the evidence behind it was counted before
abbrev pub is_counted : List String → UncertaintyObservation → Bool
is_counted counted o =
    ltb 0 (length o.source_evidence_ids) && all (λ id. includes counted id) o.source_evidence_ids

-- the loop of `updateUncertainty`
unfoldable pub update_from :
    List String → List String → UncertaintyState → List UncertaintyObservation → UncertaintyState
unfolding signature_of observe
update_from counted seen next [] = next
update_from counted seen next (o ∷ os) =
    let skipped = update_from counted seen next os in
    let applied = update_from counted (signature_of o ∷ seen) (observe next o) os in
    if is_counted counted o || includes seen (signature_of o) then skipped else applied

unfoldable pub update_uncertainty :
    UncertaintyState → List UncertaintyObservation → List String → UncertaintyState
unfolding update_from
update_uncertainty current observations already_counted =
    update_from already_counted [] current observations
