-- ===== src/Restart/Approvals.antt =====
-- A restart keeps what people were asked.
use text.Mathlib.TextEquality.{eq_iff}
use cherry_on_top.Base.{
  ◌≤◌, ◌<◌, ◌≡◌, refl, sym, ◌∙◌, ap, String, Bool, true, false, ◌&&◌, ◌||◌, Option, some, some_inj,
  List, [], ◌∷◌, if◌then◌else◌, filter, includes, occurrences, str_eq, str_eq-eq, arith, Bool-cases,
  Option-cases, inl, inr, All,
}
use cherry_on_top.Restart.{
  NodeRow, ApprovalRow, Db, RecoverySummary, terminal, resumes_freely, get_pending_approval,
  resolve_approval, cancel_pending, interrupt, strand, is_stranded, row_ids, strand_all,
  strand_orphaned_nodes, recover_node, recover_all, recover_nodes,
}

abbrev pub approval_ids : List ApprovalRow → List String
approval_ids [] = []
approval_ids (r ∷ rs) = r.id ∷ approval_ids rs

abbrev pub approvals_of : String → List ApprovalRow → List ApprovalRow
approvals_of x rows = filter (λ (r : ApprovalRow). str_eq r.node_id x) rows

abbrev pub IsKeyed : List ApprovalRow → Type 0
IsKeyed rows = (y : String) → occurrences y (approval_ids rows) ≤ 1

IsKeyed-tail : (r : ApprovalRow) (rs : List ApprovalRow) → IsKeyed (r ∷ rs) → IsKeyed rs
IsKeyed-tail r rs k y = ground (arith, k y)

-- the rows with the id of a row are of its node
abbrev IsOf : String → ApprovalRow → ApprovalRow → Type 0
IsOf node_id p r = str_eq r.id p.id ≡ true → str_eq r.node_id node_id ≡ true

none_same :
    (p : ApprovalRow) (rs : List ApprovalRow) (node_id : String)
    → occurrences p.id (approval_ids rs) ≡ 0
    → All (IsOf node_id p) rs
none_same p [] node_id h = tt
none_same p (r ∷ rs) node_id h =
    (λ same. absurd (ground (arith, h, same)), none_same p rs node_id (ground (arith, h)))

module _ (r : ApprovalRow) (rs : List ApprovalRow) (node_id : String) (p : ApprovalRow)
    (h : get_pending_approval (r ∷ rs) node_id ≡ some p) where
  abbrev is_match : Bool
  is_match = str_eq r.node_id node_id && str_eq r.status "pending"

  pending_head : is_match ≡ true → str_eq r.id p.id ≡ true
  pending_head found =
      let here : get_pending_approval (r ∷ rs) node_id ≡ some r = rw found refl in
      (eq_iff r.id p.id).1 (ap (λ (a : ApprovalRow). a.id) (some_inj (sym here ∙ h)))

  pending_later : is_match ≡ false → get_pending_approval rs node_id ≡ some p
  pending_later other =
      let there : get_pending_approval (r ∷ rs) node_id ≡ get_pending_approval rs node_id =
        rw other refl in
      sym there ∙ h

pending_there :
    (rows : List ApprovalRow) (node_id : String) (p : ApprovalRow)
    → get_pending_approval rows node_id ≡ some p
    → 0 < occurrences p.id (approval_ids rows)
pending_there [] node_id p h = absurd (ground (arith, h))
pending_there (r ∷ rs) node_id p h =
    elim (Bool-cases (str_eq r.node_id node_id && str_eq r.status "pending")) [
      | inl found ↦ ground (arith, pending_head r rs node_id p h found)
      | inr other ↦
          ground (arith, pending_there rs node_id p (pending_later r rs node_id p h other))
    ]

pending_IsOf :
    (rows : List ApprovalRow) (node_id : String) (p : ApprovalRow)
    → IsKeyed rows
    → get_pending_approval rows node_id ≡ some p
    → All (IsOf node_id p) rows
pending_IsOf [] node_id p k h = tt
pending_IsOf (r ∷ rs) node_id p k h =
    elim (Bool-cases (str_eq r.node_id node_id && str_eq r.status "pending")) [
      | inl found ↦ (
        λ same. ground (arith, found),
        none_same p rs node_id (ground (arith, k p.id, pending_head r rs node_id p h found)),
      )
      | inr other ↦
          let later = pending_later r rs node_id p h other in
          (
            λ same. absurd (ground (arith, same, k p.id, pending_there rs node_id p later)),
            pending_IsOf rs node_id p (IsKeyed-tail r rs k) later,
          )
    ]

-- resolving rows of another node leaves the approvals of a node as they are
resolve_other :
    (rows : List ApprovalRow) (p : ApprovalRow) (node_id x status now : String)
    → All (IsOf node_id p) rows
    → str_eq node_id x ≡ false
    → approvals_of x (resolve_approval rows p.id status now) ≡ approvals_of x rows
resolve_other [] p node_id x status now h other = refl
resolve_other (r ∷ rs) p node_id x status now (e, h) other = elim (Bool-cases (str_eq r.id p.id)) [
  | inr unlike ↦ rw unlike (
      ap (λ ys. if str_eq r.node_id x then r ∷ ys else ys)
        (resolve_other rs p node_id x status now h other))
  | inl same ↦
      let elsewhere : str_eq r.node_id x ≡ false =
        ap (λ n. str_eq n x) (str_eq-eq r.node_id node_id (e same)) ∙ other in
      rw same (rw elsewhere (resolve_other rs p node_id x status now h other))
]

ids-resolve :
    (rows : List ApprovalRow) (id status now : String)
    → approval_ids (resolve_approval rows id status now) ≡ approval_ids rows
ids-resolve [] id status now = refl
ids-resolve (r ∷ rs) id status now = elim (Bool-cases (str_eq r.id id)) [
  | inl same ↦ rw same (ap (λ ys. r.id ∷ ys) (ids-resolve rs id status now))
  | inr other ↦ rw other (ap (λ ys. r.id ∷ ys) (ids-resolve rs id status now))
]

cancel_pending_lem :
    (rows : List ApprovalRow) (node_id x now : String)
    → IsKeyed rows
    → IsKeyed (cancel_pending rows node_id now)
      × (str_eq node_id x ≡ false
          → approvals_of x (cancel_pending rows node_id now) ≡ approvals_of x rows)
cancel_pending_lem rows node_id x now k = elim (Option-cases (get_pending_approval rows node_id)) [
  | inl nothing ↦ rw (nothing, cancel_pending) (k, λ other. refl)
  | inr (p, found) ↦
      rw (found, cancel_pending)
        (
          λ y. rw (ids-resolve rows p.id "cancelled" now) (k y),
          resolve_other rows p node_id x "cancelled" now (pending_IsOf rows node_id p k found),
        )
]

module _ {S : Type 0} where
  strand_all-approvals :
      (db : Db S) (rest : List (NodeRow S)) (now x : String)
      → IsKeyed db.approvals
      → includes (row_ids rest) x ≡ false
      → approvals_of x (strand_all db rest now).approvals ≡ approvals_of x db.approvals
  unfolding strand_all strand
  strand_all-approvals db [] now x k h = refl
  strand_all-approvals db (n ∷ rest) now x k h =
      let (keyed, kept) = cancel_pending_lem db.approvals n.id x now k in
      strand_all-approvals (strand db n.id now) rest now x keyed (ground (arith, h))
      ∙ kept (ground (arith, h))

  module _ (loads : S → Option String) where
    recover_node-approvals :
        (db : Db S) (summary : RecoverySummary) (n : NodeRow S) (now : String)
        → (recover_node loads db summary n now).0.approvals ≡ db.approvals
    unfolding recover_node interrupt
    recover_node-approvals db summary n now = elim (Option-cases n.snapshot) [
      | inl nothing ↦ rw (nothing, recover_node) refl
      | inr (snapshot, has) ↦
          elim (Bool-cases (includes terminal n.state || str_eq n.state "INTERRUPTED")) [
            | inl over ↦ rw (has, over, recover_node) refl
            | inr working ↦ elim (Bool-cases (resumes_freely n.state)) [
              | inr busy ↦ rw (has, working, busy, recover_node) refl
              | inl free ↦ elim (Option-cases (loads snapshot)) [
                | inl broken ↦ rw (has, working, free, broken, recover_node) refl
                | inr (state, ok) ↦ rw (has, working, free, ok, recover_node) refl
              ]
            ]
          ]
    ]

    recover_all-approvals :
        (db : Db S) (summary : RecoverySummary) (rest : List (NodeRow S)) (now : String)
        → (recover_all loads db summary rest now).0.approvals ≡ db.approvals
    unfolding recover_all
    recover_all-approvals db summary [] now = refl
    recover_all-approvals db summary (n ∷ rest) now =
        let (next, counted) = recover_node loads db summary n now in
        recover_all-approvals next counted rest now ∙ recover_node-approvals db summary n now

    -- A restart leaves all the approvals of a node as they were, unless it reports the node as
    -- stranded, where the approvals have distinct ids.
    pub recover_keeps_approvals :
        (db : Db S) (now x : String)
        → IsKeyed db.approvals
        → includes (recover_nodes loads db now).1.stranded x ≡ false
        → approvals_of x (recover_nodes loads db now).0.approvals ≡ approvals_of x db.approvals
    unfolding recover_nodes strand_orphaned_nodes
    recover_keeps_approvals db now x k h =
        let empty : RecoverySummary = record { resumed = []; interrupted = []; stranded = [] } in
        let recovered = (recover_all loads db empty db.nodes now).0 in
        let same = recover_all-approvals db empty db.nodes now in
        strand_all-approvals recovered (filter is_stranded recovered.nodes) now x (rw same k) h
        ∙ ap (approvals_of x) same
