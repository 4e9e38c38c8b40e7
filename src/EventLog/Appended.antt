-- ===== src/EventLog/Appended.antt =====
-- A log that was only ever appended to verifies.
use text.Mathlib.TextPositions.{eq_refl}
use cherry_on_top.Base.{
  ℕ, suc, ◌+◌, ◌≡◌, refl, sym, ◌∙◌, ap, String, true, false, Option, none, some, List, [], ◌∷◌,
  ◌++◌, str_eq, length, arith, All,
}
use cherry_on_top.EventLog.Chain.{mismatch, passed, verify_counts}
use cherry_on_top.EventLog.{
  EventRecord, Row, is_same, is_unchained, hashed_text, hash_event, head_hash, append_event,
  verify_from, verify_chain,
}

is_same_refl : (h : Option String) → is_same h h ≡ true
is_same_refl none = refl
is_same_refl (some h) = eq_refl h

module _ {P : Type 0} (digest : String → String) (stringify : Option P → String) where
  -- appends the records in turn, each under the id that the database gives it
  abbrev pub append_all : List (Row P) → List (ℕ × EventRecord P) → List (Row P)
  append_all db [] = db
  append_all db ((id, record_) ∷ rest) =
      append_all (append_event digest stringify db id record_) rest

  -- a log of old rows and of rows that were appended to it
  record Chained (c u : ℕ) (db : List (Row P)) : Type 0 where
    verified :
        (more : List (Row P))
        → verify_chain digest stringify (db ++ more)
          ≡ verify_from digest stringify (head_hash digest stringify db) c u more

  append_snoc :
      (db : List (Row P)) (row : Row P) (more : List (Row P))
      → (db ++ row ∷ []) ++ more ≡ db ++ row ∷ more
  append_snoc [] row more = refl
  append_snoc (r ∷ db) row more = ap (λ rows. r ∷ rows) (append_snoc db row more)

  head_hash_snoc :
      (db : List (Row P)) (row : Row P) → head_hash digest stringify (db ++ row ∷ []) ≡ row.hash
  unfolding head_hash
  head_hash_snoc [] row = refl
  head_hash_snoc (r ∷ []) row = refl
  head_hash_snoc (r ∷ s ∷ db) row = head_hash_snoc (s ∷ db) row

  verify_match :
      (prev : Option String) (c u : ℕ) (row : Row P) (rows : List (Row P))
      → is_unchained row.hash ≡ false
      → mismatch digest stringify prev row ≡ false
      → verify_from digest stringify prev c u (row ∷ rows)
        ≡ verify_from digest stringify row.hash (suc c) u rows
  unfolding verify_from
  verify_match prev c u row rows new sound = rw (new, sound, verify_from) refl

  new_row : List (Row P) → ℕ → EventRecord P → Row P
  new_row db id content = record {
    id = id;
    content = content;
    prev_hash = head_hash digest stringify db;
    hash = some (hash_event digest stringify (head_hash digest stringify db) content);
  }

  is_filled :
      (prev : Option String) (content : EventRecord P)
      → ((s : String) → str_eq (digest s) "" ≡ false)
      → is_unchained (some (hash_event digest stringify prev content)) ≡ false
  unfolding hash_event
  is_filled prev content filled = filled (hashed_text digest stringify prev content)

  new_row-match :
      (db : List (Row P)) (id : ℕ) (content : EventRecord P)
      → mismatch digest stringify (head_hash digest stringify db) (new_row db id content) ≡ false
  unfolding new_row
  new_row-match db id content = ground (
    arith,
    is_same_refl (some (hash_event digest stringify (head_hash digest stringify db) content)),
    is_same_refl (head_hash digest stringify db),
  )

  Chained-append :
      (c u : ℕ) (db : List (Row P)) (id : ℕ) (content : EventRecord P)
      → ((s : String) → str_eq (digest s) "" ≡ false)
      → Chained c u db
      → Chained (suc c) u (append_event digest stringify db id content)
  unfolding append_event new_row
  Chained-append c u db id content filled inv = record {
    verified = λ more.
        let row = new_row db id content in
        rw (append_snoc db row more, head_hash_snoc db row)
          (inv.verified (row ∷ more)
            ∙ verify_match (head_hash digest stringify db) c u row more
                (is_filled (head_hash digest stringify db) content filled)
                (new_row-match db id content));
  }

  Chained-append_all :
      (c u : ℕ) (db : List (Row P)) (records : List (ℕ × EventRecord P))
      → ((s : String) → str_eq (digest s) "" ≡ false)
      → Chained c u db
      → Chained (c + length records) u (append_all db records)
  Chained-append_all c u db [] filled inv = record {
    verified = λ more. inv.verified more ∙ verify_counts digest stringify _ more (omega arith) refl;
  }
  Chained-append_all c u db ((id, content) ∷ records) filled inv =
      let rest =
        Chained-append_all (suc c) u (append_event digest stringify db id content) records filled
          (Chained-append c u db id content filled inv) in
      record {
        verified =
            λ more. rest.verified more ∙ verify_counts digest stringify _ more (omega arith) refl;
      }

  -- rows that were written before there were hashes
  old_verified :
      (u : ℕ) (old more : List (Row P))
      → All (λ (row : Row P). row.hash ≡ none) old
      → verify_from digest stringify none 0 u (old ++ more)
        ≡ verify_from digest stringify none 0 (u + length old) more
  unfolding verify_from
  old_verified u [] more h = verify_counts digest stringify none more refl (omega arith)
  old_verified u (row ∷ old) more (e, h) =
      rw (e, verify_from)
        (old_verified (suc u) old more h
          ∙ verify_counts digest stringify none more refl (omega arith))

  old_head :
      (old : List (Row P))
      → All (λ (row : Row P). row.hash ≡ none) old
      → head_hash digest stringify old ≡ none
  unfolding head_hash
  old_head [] h = refl
  old_head (row ∷ []) (e, h) = e
  old_head (row ∷ next ∷ old) (e, h) = old_head (next ∷ old) h

  append_nil : (db : List (Row P)) → db ++ [] ≡ db
  append_nil [] = refl
  append_nil (row ∷ db) = ap (λ rows. row ∷ rows) (append_nil db)

  -- A log of rows from before there were hashes, and of any records appended to it, verifies
  -- when no digest is empty: each record is checked, and each old row is counted.
  pub appended_passed :
      (old : List (Row P)) (records : List (ℕ × EventRecord P))
      → ((s : String) → str_eq (digest s) "" ≡ false)
      → All (λ (row : Row P). row.hash ≡ none) old
      → verify_chain digest stringify (append_all old records)
        ≡ passed (length records) (length old)
  unfolding verify_chain verify_from
  appended_passed old records filled h =
      let start : Chained 0 (length old) old = record {
        verified = λ more.
            rw (old_head old h, verify_chain)
              (old_verified 0 old more h
                ∙ verify_counts digest stringify none more refl (omega arith));
      } in
      let inv = Chained-append_all 0 (length old) old records filled start in
      sym (ap (verify_chain digest stringify) (append_nil (append_all old records)))
      ∙ (inv.verified []
          ∙ verify_counts digest stringify (head_hash digest stringify (append_all old records)) []
              (omega arith) refl)
