-- ===== src/Restart.antt =====
-- After a restart of the daemon: recoverNodes and resumeNode of src/lifecycle/rehydrate.ts,
-- strandOrphanedNodes of src/lifecycle/orphans.ts, resumesFreely and createAndRun of
-- src/lifecycle/node-actor-manager.ts, and the queries of src/db/queries that they use. A table is the
-- list of its rows. `loads` is what the state machine's library makes of a snapshot: the state that it
-- restores, or `none` where it throws. The events are those of EventLog, without their hashes.
pub mod Rows
pub mod Settled
pub mod Approvals
use cherry_on_top.Base.{
  String, Bool, true, false, not, ◌&&◌, ◌||◌, Option, none, some, List, [], ◌∷◌, ◌++◌, map,
  if◌then◌else◌, filter, includes, str_eq, is_some,
}

pub record NodeRow (S : Type 0) : Type 0 where
  pub id : String
  pub parent_id : Option String
  pub goal : String
  pub state : String
  pub snapshot : Option S
  pub updated_at : String

pub record CommitmentRow : Type 0 where
  pub id : String
  pub owner : String
  pub status : String
  pub updated_at : String

pub record ApprovalRow : Type 0 where
  pub id : String
  pub node_id : String
  pub reason : String
  pub status : String
  pub resolved_at : Option String

pub data LogPayload : Type 0 where
  outcome : Bool → LogPayload
  interruption : LogPayload
  transition : String → LogPayload

pub record LogEntry : Type 0 where
  pub node_id : String
  pub kind : String
  pub payload : LogPayload
  pub created_at : String

-- the tables, the actors in memory, and the nodes whose jobs in the cluster were released
pub record Db (S : Type 0) : Type 0 where
  pub nodes : List (NodeRow S)
  pub commitments : List CommitmentRow
  pub approvals : List ApprovalRow
  pub log : List LogEntry
  pub actors : List String
  pub released : List String

pub record RecoverySummary : Type 0 where
  pub resumed : List String
  pub interrupted : List String
  pub stranded : List String

abbrev pub terminal : List String
terminal = "COMPLETE" ∷ "FAILED" ∷ "CANCELLED" ∷ []

abbrev pub not_stranded : List String
not_stranded = "COMPLETE" ∷ "FAILED" ∷ "CANCELLED" ∷ "INTERRUPTED" ∷ []

abbrev pub resumes_freely : String → Bool
resumes_freely state = includes ("WAIT_APPROVAL" ∷ "CREATED" ∷ []) state

abbrev pub update_commitment_status :
    List CommitmentRow → String → String → String → List CommitmentRow
update_commitment_status rows id status now =
    map
      (λ (r : CommitmentRow).
        if str_eq r.id id then record r { status = status; updated_at = now } else r)
      rows

abbrev pub list_commitments_for_node : List CommitmentRow → String → List CommitmentRow
list_commitments_for_node rows owner = filter (λ (r : CommitmentRow). str_eq r.owner owner) rows

abbrev pub get_pending_approval : List ApprovalRow → String → Option ApprovalRow
get_pending_approval [] node_id = none
get_pending_approval (r ∷ rs) node_id =
    let rest = get_pending_approval rs node_id in
    if str_eq r.node_id node_id && str_eq r.status "pending" then some r else rest

abbrev pub resolved : String → String → ApprovalRow → ApprovalRow
resolved status now r = record r { status = status; resolved_at = some now }

abbrev pub resolve_approval : List ApprovalRow → String → String → String → List ApprovalRow
resolve_approval [] id status now = []
resolve_approval (r ∷ rs) id status now =
    (if str_eq r.id id then resolved status now r else r) ∷ resolve_approval rs id status now

abbrev entry : String → String → LogPayload → String → LogEntry
entry node_id kind payload now = record {
  node_id = node_id;
  kind = kind;
  payload = payload;
  created_at = now;
}

abbrev pub fail_commitments : List CommitmentRow → List CommitmentRow → String → List CommitmentRow
fail_commitments rows [] now = rows
fail_commitments rows (c ∷ cs) now =
    fail_commitments (update_commitment_status rows c.id "failed" now) cs now

abbrev pub cancel_pending : List ApprovalRow → String → String → List ApprovalRow
cancel_pending rows node_id now = elim (get_pending_approval rows node_id) [
  | none ↦ rows
  | some pending ↦ resolve_approval rows pending.id "cancelled" now
]

module _ {S : Type 0} where
  abbrev pub at_state : String → String → NodeRow S → NodeRow S
  at_state state now r = record r { state = state; updated_at = now }

  -- the update of the rows with the id
  abbrev pub update_rows : (NodeRow S → NodeRow S) → String → List (NodeRow S) → List (NodeRow S)
  update_rows f id [] = []
  update_rows f id (r ∷ rs) = (if str_eq r.id id then f r else r) ∷ update_rows f id rs

  abbrev pub update_node_state : Db S → String → String → String → Db S
  update_node_state db id state now = record db {
    nodes = update_rows (at_state state now) id db.nodes;
  }

  abbrev pub set_node_snapshot : Db S → String → Option S → Db S
  set_node_snapshot db id snapshot = record db {
    nodes = update_rows (λ r. record r { snapshot = snapshot }) id db.nodes;
  }

  abbrev pub append_event : Db S → LogEntry → Db S
  append_event db e = record db { log = db.log ++ e ∷ [] }

  -- `createAndRun` with a snapshot that the library restores to the state: the first notification
  -- writes the row's state and snapshot again
  abbrev pub create_and_run : Db S → String → S → String → String → Db S
  create_and_run db id snapshot state now =
      let written = set_node_snapshot (update_node_state db id state now) id (some snapshot) in
      let logged = append_event written (entry id "state.transition" (transition state) now) in
      record logged { actors = logged.actors ++ id ∷ [] }

  unfoldable pub interrupt : Db S → String → String → Db S
  interrupt db id now =
      let parked = update_node_state db id "INTERRUPTED" now in
      let said = append_event parked (entry id "node.interrupted" interruption now) in
      let moved = append_event said (entry id "state.transition" (transition "INTERRUPTED") now) in
      record moved { released = moved.released ++ id ∷ [] }

  unfoldable pub strand : Db S → String → String → Db S
  strand db id now =
      let failed = update_node_state db id "FAILED" now in
      let said = append_event failed (entry id "step.outcome" (outcome false) now) in
      let moved = append_event said (entry id "state.transition" (transition "FAILED") now) in
      record moved {
        commitments =
            fail_commitments moved.commitments (list_commitments_for_node moved.commitments id) now;
        approvals = cancel_pending moved.approvals id now;
        released = moved.released ++ id ∷ [];
      }

  abbrev pub is_stranded : NodeRow S → Bool
  is_stranded r = not (includes not_stranded r.state) && not (is_some r.snapshot)

  abbrev pub row_ids : List (NodeRow S) → List String
  row_ids [] = []
  row_ids (r ∷ rs) = r.id ∷ row_ids rs

  unfoldable pub strand_all : Db S → List (NodeRow S) → String → Db S
  strand_all db [] now = db
  strand_all db (r ∷ rs) now = strand_all (strand db r.id now) rs now

  unfoldable pub strand_orphaned_nodes : Db S → String → Db S × List String
  unfolding strand_all
  strand_orphaned_nodes db now =
      let stranded = filter is_stranded db.nodes in (strand_all db stranded now, row_ids stranded)

  module _ (loads : S → Option String) where
    -- one round of the loop of `recoverNodes`
    unfoldable pub recover_node :
        Db S → RecoverySummary → NodeRow S → String → Db S × RecoverySummary
    recover_node db summary node now =
        let parked : Db S × RecoverySummary = (
          interrupt db node.id now,
          record summary { interrupted = summary.interrupted ++ node.id ∷ [] },
        ) in
        elim node.snapshot [
          | none ↦ (db, summary)
          | some snapshot ↦
              if includes terminal node.state || str_eq node.state "INTERRUPTED"
              then (db, summary)
              else if resumes_freely node.state
              then elim (loads snapshot) [
                | some state ↦ (
                  create_and_run db node.id snapshot state now,
                  record summary { resumed = summary.resumed ++ node.id ∷ [] },
                )
                | none ↦ parked
              ]
              else parked
        ]

    unfoldable pub recover_all :
        Db S → RecoverySummary → List (NodeRow S) → String → Db S × RecoverySummary
    recover_all db summary [] now = (db, summary)
    recover_all db summary (r ∷ rs) now =
        let (next, counted) = recover_node db summary r now in recover_all next counted rs now

    unfoldable pub recover_nodes : Db S → String → Db S × RecoverySummary
    unfolding recover_all strand_orphaned_nodes
    recover_nodes db now =
        let empty : RecoverySummary = record { resumed = []; interrupted = []; stranded = [] } in
        let (recovered, summary) = recover_all db empty db.nodes now in
        let (swept, stranded) = strand_orphaned_nodes recovered now in
        (swept, record summary { stranded = stranded })
