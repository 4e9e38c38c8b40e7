-- ===== src/EventLog.antt =====
-- The append-only log of events, and its hash chain: src/db/queries/events.ts. The table is the
-- list of its rows in the order of their ids. The digest (`sha256` in hex, of the texts that
-- `update` was given, one after the other) and the text of a payload (`JSON.stringify`) are
-- parameters, and so is the id that the database gives a row.
pub mod Chain
pub mod Appended
use cherry_on_top.Base.{
  ℕ, zero, suc, String, Bool, true, false, not, ◌&&◌, ◌||◌, Option, none, some, List, [], ◌∷◌, ◌++◌,
  if◌then◌else◌, ltb, filter, str_eq, str_append, includes, get_or, reverse, take,
}

-- the payload `null` or `undefined` is `none`
pub record EventRecord (P : Type 0) : Type 0 where
  pub node_id : String
  pub kind : String
  pub payload : Option P
  pub created_at : String

pub record Row (P : Type 0) : Type 0 where
  pub id : ℕ
  pub content : EventRecord P
  pub prev_hash : Option String
  pub hash : Option String

pub record ChainVerdict : Type 0 where
  pub ok : Bool
  pub checked : ℕ
  pub broken_at_id : Option ℕ
  pub unchained : ℕ

-- `===` of texts or `null`
abbrev pub is_same : Option String → Option String → Bool
is_same none none = true
is_same (some s) (some t) = str_eq s t
is_same _ _ = false

-- `!row.hash`
abbrev pub is_unchained : Option String → Bool
is_unchained none = true
is_unchained (some h) = str_eq h ""

module _ {P : Type 0} (digest : String → String) (stringify : Option P → String) where
  unfoldable pub hashed_text : Option String → EventRecord P → String
  hashed_text prev_hash record_ = str_append (get_or prev_hash "") (
      str_append "\0" (
        str_append record_.node_id (
          str_append "\0" (
            str_append record_.kind (
              str_append "\0"
                (str_append (stringify record_.payload) (str_append "\0" record_.created_at)))))))

  unfoldable pub hash_event : Option String → EventRecord P → String
  unfolding hashed_text
  hash_event prev_hash record_ = digest (hashed_text prev_hash record_)

  -- the last row's hash
  unfoldable pub head_hash : List (Row P) → Option String
  head_hash [] = none
  head_hash (row ∷ []) = row.hash
  head_hash (row ∷ next ∷ rows) = head_hash (next ∷ rows)

  unfoldable pub append_event : List (Row P) → ℕ → EventRecord P → List (Row P)
  unfolding hash_event head_hash
  append_event db id record_ =
      let prev_hash = head_hash db in
      db
      ++ record {
        id = id;
        content = record_;
        prev_hash = prev_hash;
        hash = some (hash_event prev_hash record_);
      }
        ∷ []

  -- the loop of `verifyChain`
  unfoldable pub verify_from : Option String → ℕ → ℕ → List (Row P) → ChainVerdict
  unfolding hash_event
  verify_from prev_hash checked unchained [] = record {
    ok = true;
    checked = checked;
    broken_at_id = none;
    unchained = unchained;
  }
  verify_from prev_hash checked unchained (row ∷ rows) =
      let skipped = verify_from prev_hash checked (suc unchained) rows in
      let next = verify_from row.hash (suc checked) unchained rows in
      if is_unchained row.hash
      then skipped
      else if not (is_same (some (hash_event prev_hash row.content)) row.hash)
          || not (is_same row.prev_hash prev_hash)
      then record {
        ok = false;
        checked = checked;
        broken_at_id = some row.id;
        unchained = unchained;
      }
      else next

  unfoldable pub verify_chain : List (Row P) → ChainVerdict
  unfolding verify_from
  verify_chain rows = verify_from none 0 0 rows

module _ {P : Type 0} where
  unfoldable pub list_events_for_node : List (Row P) → String → List (Row P)
  list_events_for_node db node_id = filter (λ (row : Row P). str_eq row.content.node_id node_id) db

  unfoldable pub list_events_for_nodes : List (Row P) → List String → List (Row P)
  list_events_for_nodes db [] = []
  list_events_for_nodes db (id ∷ ids) =
      filter (λ (row : Row P). includes (id ∷ ids) row.content.node_id) db

  abbrev is_before : Option ℕ → Row P → Bool
  is_before none row = true
  is_before (some id) row = ltb row.id id

  -- the query reads the rows from the newest, and the caller gets the oldest first
  unfoldable pub list_recent_events : List (Row P) → ℕ → Option ℕ → List (Row P)
  list_recent_events db limit before = reverse (take limit (reverse (filter (is_before before) db)))
