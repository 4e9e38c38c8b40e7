-- ===== src/Examples/Restarts.antt =====
-- A restart of the daemon, on concrete tables.
use cherry_on_top.Base.{
  ◌≡◌, refl, String, true, false, Option, none, some, [], ◌∷◌, arith, includes, str_eq, All,
  Bool-cases, str_eq-eq, inl, inr,
}
use cherry_on_top.Restart.{
  NodeRow, ApprovalRow, Db, recover_nodes, recover_all, recover_node, interrupt, strand, strand_all,
  strand_orphaned_nodes,
}
use cherry_on_top.Restart.Settled.{is_settled}
use cherry_on_top.Restart.Settled
use cherry_on_top.Restart.Approvals.{IsKeyed, approvals_of}
use cherry_on_top.Restart.Approvals

abbrev row : String → String → Option String → NodeRow String
row id state snapshot = record {
  id = id;
  parent_id = none;
  goal = "fix it";
  state = state;
  snapshot = snapshot;
  updated_at = "t0";
}

abbrev asked : String → String → ApprovalRow
asked id node_id = record {
  id = id;
  node_id = node_id;
  reason = "budget";
  status = "pending";
  resolved_at = none;
}

-- a waits for a person, b was at work, c ran before there were snapshots, d is over
abbrev before : Db String
before = record {
  nodes =
      row "a" "WAIT_APPROVAL" (some "WAIT_APPROVAL")
      ∷ row "b" "SELF_EXECUTE" (some "SELF_EXECUTE")
      ∷ row "c" "DELEGATE" none
      ∷ row "d" "COMPLETE" none
      ∷ [];
  commitments = [];
  approvals = asked "1" "c" ∷ asked "2" "a" ∷ [];
  log = [];
  actors = [];
  released = [];
}

recovered :
    (recover_nodes some before "t1").1
    ≡ (record { resumed = "a" ∷ []; interrupted = "b" ∷ []; stranded = "c" ∷ [] })
unfolding recover_nodes recover_all recover_node interrupt strand strand_all strand_orphaned_nodes
recovered = refl

recover_settles_example :
    All
      (λ r. is_settled (recover_nodes some before "t1").0.actors r ≡ true)
      (recover_nodes some before "t1").0.nodes
recover_settles_example =
    Settled.recover_settles some before "t1" (refl, (refl, (refl, (refl, tt))))

asked-IsKeyed : IsKeyed before.approvals
asked-IsKeyed y = elim (Bool-cases (str_eq "1" y)) [
  | inl same ↦ rw (← str_eq-eq "1" y same) (omega arith)
  | inr other ↦ ground (arith, other)
]

not_stranded : includes (recover_nodes some before "t1").1.stranded "a" ≡ false
unfolding recover_nodes recover_all recover_node interrupt strand strand_all strand_orphaned_nodes
not_stranded = refl

recover_keeps_approvals_example :
    approvals_of "a" (recover_nodes some before "t1").0.approvals
    ≡ approvals_of "a" before.approvals
recover_keeps_approvals_example =
    Approvals.recover_keeps_approvals some before "t1" "a" asked-IsKeyed not_stranded
