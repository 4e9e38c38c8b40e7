-- ===== src/Examples/Log.antt =====
-- The hash chain, on concrete logs.
use mathlib.Core.Bool.{false≢true}
use cherry_on_top.Base.{
  ◌≡◌, ◌≢◌, refl, ap, String, false, Option, none, some, [], ◌∷◌, if◌then◌else◌, str_eq, str_append,
  get_or, Bool-cases, inl, inr,
}
use cherry_on_top.EventLog.{EventRecord, Row, hashed_text, hash_event, verify_from, verify_chain}
use cherry_on_top.EventLog.Chain as Chain
use cherry_on_top.EventLog.Chain.{passed, broken_at}
use cherry_on_top.EventLog.Appended as Appended
use cherry_on_top.EventLog.Appended.{append_all}

-- in place of sha256: it has no collision, and is never empty
abbrev tagged : String → String
tagged s = if str_eq s "" then "empty" else s

tagged_filled : (s : String) → str_eq (tagged s) "" ≡ false
tagged_filled s = elim (Bool-cases (str_eq s "")) [
  | inl empty ↦ rw empty refl
  | inr filled ↦ rw filled filled
]

abbrev text_of : Option String → String
text_of payload = get_or payload "null"

abbrev event : String → EventRecord String
event kind = record { node_id = "n"; kind = kind; payload = none; created_at = "t" }

abbrev old_row : Row String
old_row = record { id = 1; content = event "old"; prev_hash = none; hash = none }

abbrev first_hash : String
first_hash = "\0n\0a\0null\0t"

abbrev first : Row String
first = record { id = 2; content = event "a"; prev_hash = none; hash = some first_hash }

abbrev second : Row String
second = record {
  id = 3;
  content = event "b";
  prev_hash = some first_hash;
  hash = some (str_append first_hash "\0n\0b\0null\0t");
}

log_verifies : verify_chain tagged text_of (old_row ∷ first ∷ second ∷ []) ≡ passed 2 1
unfolding verify_chain verify_from hash_event hashed_text
log_verifies = refl

appended_passed_example :
    verify_chain tagged text_of
      (append_all tagged text_of (old_row ∷ []) ((2, event "a") ∷ (3, event "b") ∷ []))
    ≡ passed 2 1
appended_passed_example =
    Appended.appended_passed tagged text_of (old_row ∷ []) ((2, event "a") ∷ (3, event "b") ∷ [])
      tagged_filled (refl, tt)

edited_differs :
    hash_event tagged text_of none (event "z") ≢ hash_event tagged text_of none (event "a")
unfolding hash_event hashed_text
edited_differs e = false≢true (ap (λ s. str_eq s first_hash) e)

edit_broken_example :
    verify_chain tagged text_of (old_row ∷ record first { content = event "z" } ∷ second ∷ [])
    ≡ broken_at 2 0 1
edit_broken_example =
    Chain.edit_broken tagged text_of (old_row ∷ []) (second ∷ []) first (event "z")
      (ap (λ v. v.ok) log_verifies) refl edited_differs

hash_differs : first.hash ≢ first.prev_hash
hash_differs e = cc

removal_broken_example : verify_chain tagged text_of (old_row ∷ second ∷ []) ≡ broken_at 3 0 1
removal_broken_example =
    Chain.removal_broken tagged text_of (old_row ∷ []) [] first second (ap (λ v. v.ok) log_verifies)
      refl refl hash_differs
