-- ===== src/EventLog/Chain.antt =====
-- What the hash chain of the log shows.
use mathlib.Core.Bool.{false≢true}
use text.Mathlib.TextEquality.{eq_iff}
use cherry_on_top.Base.{
  ℕ, suc, ◌+◌, ◌≡◌, ◌≢◌, refl, sym, ◌∙◌, ap, String, Bool, true, false, not, ◌||◌, Option, none,
  some, List, [], ◌∷◌, ◌++◌, if◌then◌else◌, arith, some_inj, Bool-cases, inl, inr,
}
use cherry_on_top.EventLog.{
  EventRecord, Row, ChainVerdict, is_same, is_unchained, hash_event, verify_from, verify_chain,
}

is_same-eq : (a b : Option String) → is_same a b ≡ true → a ≡ b
is_same-eq none none h = refl
is_same-eq none (some t) h = absurd (false≢true h)
is_same-eq (some s) none h = absurd (false≢true h)
is_same-eq (some s) (some t) h = ap some ((eq_iff s t).0 h)

-- the verdict on a log whose row `id` is the first that is not in order
abbrev pub broken_at : ℕ → ℕ → ℕ → ChainVerdict
broken_at id checked unchained = record {
  ok = false;
  checked = checked;
  broken_at_id = some id;
  unchained = unchained;
}

abbrev pub passed : ℕ → ℕ → ChainVerdict
passed checked unchained = record {
  ok = true;
  checked = checked;
  broken_at_id = none;
  unchained = unchained;
}

broken_at_counts :
    (id : ℕ) {c c' u u' : ℕ} → c ≡ c' → u ≡ u' → broken_at id c u ≡ broken_at id c' u'
broken_at_counts id e f = cc

module _ {P : Type 0} (digest : String → String) (stringify : Option P → String) where
  abbrev pub chain_head : Option String → List (Row P) → Option String
  chain_head prev [] = prev
  chain_head prev (row ∷ rows) = chain_head (if is_unchained row.hash then prev else row.hash) rows

  abbrev pub mismatch : Option String → Row P → Bool
  mismatch prev row =
      not (is_same (some (hash_event digest stringify prev row.content)) row.hash)
      || not (is_same row.prev_hash prev)

  abbrev pub chained_count : List (Row P) → ℕ
  chained_count [] = 0
  chained_count (row ∷ rows) =
      let rest = chained_count rows in if is_unchained row.hash then rest else suc rest

  abbrev pub unchained_count : List (Row P) → ℕ
  unchained_count [] = 0
  unchained_count (row ∷ rows) =
      let rest = unchained_count rows in if is_unchained row.hash then suc rest else rest

  pub verify_counts :
      (prev : Option String) (rows : List (Row P)) {c c' u u' : ℕ}
      → c ≡ c'
      → u ≡ u'
      → verify_from digest stringify prev c u rows ≡ verify_from digest stringify prev c' u' rows
  verify_counts prev rows e f = cc

  -- rows that pass hand the rows after them the hash of the last chained one
  verify_from-append :
      (prev : Option String) (checked unchained : ℕ) (rows more : List (Row P))
      → (verify_from digest stringify prev checked unchained (rows ++ more)).ok ≡ true
      → (other : List (Row P))
      → verify_from digest stringify prev checked unchained (rows ++ other)
        ≡ verify_from digest stringify
            (chain_head prev rows)
            (checked + chained_count rows)
            (unchained + unchained_count rows)
            other
  unfolding verify_from
  verify_from-append prev checked unchained [] more h other =
      verify_counts prev other (omega arith) (omega arith)
  verify_from-append prev checked unchained (row ∷ rows) more h other =
      elim (Bool-cases (is_unchained row.hash)) [
        | inl old ↦
            rw (old, verify_from)
              (verify_from-append prev checked (suc unchained) rows more
                  (rw (old, verify_from) at h) other
                ∙ verify_counts (chain_head prev rows) other (omega arith) (omega arith))
        | inr new ↦ elim (Bool-cases (mismatch prev row)) [
          | inl broken ↦ absurd (false≢true (rw (new, broken, verify_from) at h))
          | inr sound ↦
              rw (new, sound, verify_from)
                (verify_from-append row.hash (suc checked) unchained rows more
                    (rw (new, sound, verify_from) at h) other
                  ∙ verify_counts (chain_head row.hash rows) other (omega arith) (omega arith))
        ]
      ]

  verify_mismatch :
      (prev : Option String) (c u : ℕ) (row : Row P) (rows : List (Row P))
      → is_unchained row.hash ≡ false
      → mismatch prev row ≡ true
      → verify_from digest stringify prev c u (row ∷ rows) ≡ broken_at row.id c u
  unfolding verify_from
  verify_mismatch prev c u row rows new broken = rw (new, broken, verify_from) refl

  -- a chained row that passes is in order
  verify_sound :
      (prev : Option String) (c u : ℕ) (row : Row P) (rows : List (Row P))
      → is_unchained row.hash ≡ false
      → (verify_from digest stringify prev c u (row ∷ rows)).ok ≡ true
      → (mismatch prev row ≡ false)
        × ((verify_from digest stringify row.hash (suc c) u rows).ok ≡ true)
  unfolding verify_from
  verify_sound prev c u row rows new h = elim (Bool-cases (mismatch prev row)) [
    | inl broken ↦ absurd (false≢true (rw (new, broken, verify_from) at h))
    | inr sound ↦ (sound, rw (new, sound, verify_from) at h)
  ]

  mismatch-false :
      (prev : Option String) (row : Row P)
      → mismatch prev row ≡ false
      → (some (hash_event digest stringify prev row.content) ≡ row.hash) × (row.prev_hash ≡ prev)
  mismatch-false prev row h =
      (is_same-eq _ row.hash (ground (arith, h)), is_same-eq row.prev_hash prev (ground (arith, h)))

  mismatch_edited :
      (prev : Option String) (row : Row P) (edited : EventRecord P)
      → mismatch prev row ≡ false
      → hash_event digest stringify row.prev_hash edited
        ≢ hash_event digest stringify row.prev_hash row.content
      → mismatch prev (record row { content = edited }) ≡ true
  mismatch_edited prev row edited sound differs =
      let edited_row : Row P = record row { content = edited } in
      elim (Bool-cases (mismatch prev edited_row)) [
        | inl found ↦ found
        | inr missed ↦
            let (here, at_prev) = mismatch-false prev row sound in
            let (there, _) = mismatch-false prev edited_row missed in
            absurd (
              differs (
                ap (λ p. hash_event digest stringify p edited) at_prev
                ∙ (some_inj (there ∙ sym here)
                    ∙ ap (λ p. hash_event digest stringify p row.content) (sym at_prev))))
      ]

  -- Where one chained row of a log that verifies is edited, and its new content does not
  -- have the digest of the old one, the log no longer verifies: that row is reported, after
  -- all rows before it were counted as they are.
  pub edit_broken :
      (before after : List (Row P)) (row : Row P) (edited : EventRecord P)
      → (verify_chain digest stringify (before ++ row ∷ after)).ok ≡ true
      → is_unchained row.hash ≡ false
      → hash_event digest stringify row.prev_hash edited
        ≢ hash_event digest stringify row.prev_hash row.content
      → verify_chain digest stringify (before ++ record row { content = edited } ∷ after)
        ≡ broken_at row.id (chained_count before) (unchained_count before)
  unfolding verify_chain
  edit_broken before after row edited h new differs =
      let whole = verify_from-append none 0 0 before (row ∷ after) h (row ∷ after) in
      let head = chain_head none before in
      let (sound, _) =
        verify_sound head (0 + chained_count before) (0 + unchained_count before) row after new
          (sym (ap (λ (v : ChainVerdict). v.ok) whole) ∙ h) in
      verify_from-append none 0 0 before (row ∷ after) h (record row { content = edited } ∷ after)
      ∙ (verify_mismatch head (0 + chained_count before) (0 + unchained_count before)
            (record row { content = edited }) after new
            (mismatch_edited head row edited sound differs)
          ∙ broken_at_counts row.id (omega arith) (omega arith))

  -- Where a chained row that does not repeat its predecessor's hash is taken out from
  -- before another chained row of a log that verifies, that other row is reported.
  pub removal_broken :
      (before after : List (Row P)) (row next : Row P)
      → (verify_chain digest stringify (before ++ row ∷ next ∷ after)).ok ≡ true
      → is_unchained row.hash ≡ false
      → is_unchained next.hash ≡ false
      → row.hash ≢ row.prev_hash
      → verify_chain digest stringify (before ++ next ∷ after)
        ≡ broken_at next.id (chained_count before) (unchained_count before)
  unfolding verify_chain
  removal_broken before after row next h new new_next differs =
      let whole = verify_from-append none 0 0 before (row ∷ next ∷ after) h (row ∷ next ∷ after) in
      let head = chain_head none before in
      let (sound, later) =
        verify_sound head (0 + chained_count before) (0 + unchained_count before) row (next ∷ after)
          new (sym (ap (λ (v : ChainVerdict). v.ok) whole) ∙ h) in
      let (sound_next, _) = verify_sound row.hash _ _ next after new_next later in
      verify_from-append none 0 0 before (row ∷ next ∷ after) h (next ∷ after)
      ∙ (verify_mismatch head (0 + chained_count before) (0 + unchained_count before) next after
            new_next (removed head row next sound sound_next differs)
          ∙ broken_at_counts next.id (omega arith) (omega arith))
    where
      removed :
          (head : Option String) (row next : Row P)
          → mismatch head row ≡ false
          → mismatch row.hash next ≡ false
          → row.hash ≢ row.prev_hash
          → mismatch head next ≡ true
      removed head row next sound sound_next differs = elim (Bool-cases (mismatch head next)) [
        | inl found ↦ found
        | inr missed ↦ absurd (
            differs (
              sym (mismatch-false row.hash next sound_next).1
              ∙ ((mismatch-false head next missed).1 ∙ sym (mismatch-false head row sound).1)))
      ]
