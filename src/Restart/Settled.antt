-- ===== src/Restart/Settled.antt =====
-- No node is left running without an actor.
use mathlib.Core.Bool.{true≢false}
use text.Mathlib.TextEquality.{eq_iff}
use cherry_on_top.Base.{
  ◌≡◌, refl, sym, ◌∙◌, ap, ◌⊎◌, String, Bool, true, false, not, ◌&&◌, ◌||◌, Option, none, some,
  List, [], ◌∷◌, ◌++◌, filter, includes, includes-append, str_eq, str_eq-eq, is_some, arith,
  Bool-cases, Option-cases, inl, inr, All, All-map, All-of_mem, All-mem,
}
use cherry_on_top.Restart.{
  NodeRow, Db, RecoverySummary, terminal, not_stranded, resumes_freely, at_state, create_and_run,
  interrupt, strand, is_stranded, strand_all, strand_orphaned_nodes, recover_node, recover_all,
  recover_nodes,
}
use cherry_on_top.Restart.Rows.{
  All-update_rows, Pending, All-Pending_self, All-Pending_nil, Pending-miss, Pending-skip,
  Memᴰ-filter,
}

module _ {S : Type 0} where
  -- ended, parked for a person, or waiting with an actor that can be told
  abbrev pub is_settled : List String → NodeRow S → Bool
  is_settled actors r =
      includes not_stranded r.state || (resumes_freely r.state && includes actors r.id)

  -- settled, or without a snapshot to go on from
  abbrev is_kept : List String → NodeRow S → Bool
  is_kept actors r = is_settled actors r || not (is_some r.snapshot)

  Settled : List String → NodeRow S → Type 0
  Settled actors r = is_settled actors r ≡ true

  Kept : List String → NodeRow S → Type 0
  Kept actors r = is_kept actors r ≡ true

  strand-All :
      (db : Db S) (n : NodeRow S) (rest : List (NodeRow S)) (now : String)
      → All (Pending (Settled db.actors) (n ∷ rest)) db.nodes
      → All (Pending (Settled db.actors) rest) (strand db n.id now).nodes
  unfolding strand Settled
  strand-All db n rest now h =
      All-update_rows (Pending (Settled db.actors) (n ∷ rest)) (Pending (Settled db.actors) rest)
        (at_state "FAILED" now) n.id (λ q p same. inl refl)
        (Pending-miss (Settled db.actors) n rest) db.nodes h

  strand_all-All :
      (db : Db S) (rest : List (NodeRow S)) (now : String)
      → All (Pending (Settled db.actors) rest) db.nodes
      → All (Settled (strand_all db rest now).actors) (strand_all db rest now).nodes
  unfolding strand_all strand
  strand_all-All db [] now h = All-Pending_nil (Settled db.actors) db.nodes h
  strand_all-All db (n ∷ rest) now h =
      strand_all-All (strand db n.id now) rest now (strand-All db n rest now h)

  Settled-or_stranded :
      (actors : List String) (q : NodeRow S)
      → Kept actors q
      → is_stranded q ≡ false
      → Settled actors q
  unfolding Kept Settled
  Settled-or_stranded actors q k h = ground (arith, k, h)

  strand_orphaned_nodes-All :
      (db : Db S) (now : String)
      → All (Kept db.actors) db.nodes
      → All (Settled (strand_orphaned_nodes db now).0.actors) (strand_orphaned_nodes db now).0.nodes
  unfolding strand_orphaned_nodes
  strand_orphaned_nodes-All db now h = strand_all-All db (filter is_stranded db.nodes) now (
      All-of_mem _ db.nodes (λ q m. elim (Bool-cases (is_stranded q)) [
        | inl alone ↦ inr (Memᴰ-filter is_stranded q db.nodes m alone)
        | inr other ↦
            inl (Settled-or_stranded db.actors q (All-mem (Kept db.actors) db.nodes h q m) other)
      ]))

  Kept-actors :
      (actors more : List String) (q : NodeRow S) → Kept actors q → Kept (actors ++ more) q
  unfolding Kept
  Kept-actors actors more q k = ground (arith, k, includes-append actors more q.id)

  module _ (loads : S → Option String) where
    -- a snapshot loads as the row's own state, where it loads at all
    abbrev pub is_faithful : NodeRow S → Bool
    is_faithful r = elim r.snapshot [
      | none ↦ true
      | some snapshot ↦ elim (loads snapshot) [ none ↦ true | some state ↦ str_eq state r.state ]
    ]

    interrupt-All :
        (db : Db S) (n : NodeRow S) (rest : List (NodeRow S)) (now : String)
        → All (Pending (Kept db.actors) (n ∷ rest)) db.nodes
        → All (Pending (Kept db.actors) rest) (interrupt db n.id now).nodes
    unfolding interrupt Kept
    interrupt-All db n rest now h =
        All-update_rows (Pending (Kept db.actors) (n ∷ rest)) (Pending (Kept db.actors) rest)
          (at_state "INTERRUPTED" now) n.id (λ q p same. inl refl)
          (Pending-miss (Kept db.actors) n rest) db.nodes h

    Pending-actors :
        (actors more : List String) (rest : List (NodeRow S)) (q : NodeRow S)
        → Pending (Kept actors) rest q
        → Pending (Kept (actors ++ more)) rest q
    Pending-actors actors more rest q (inl k) = inl (Kept-actors actors more q k)
    Pending-actors actors more rest q (inr m) = inr m

    -- between the two writes of a restored row
    abbrev Written : List String → List (NodeRow S) → String → String → NodeRow S → Type 0
    Written actors rest id state q =
        (Pending (Kept actors) rest q × (str_eq q.id id ≡ false))
        ⊎ ((str_eq q.id id ≡ true) × (q.state ≡ state))

    resting :
        (actors : List String) (q n : NodeRow S) (snapshot : S)
        → resumes_freely q.state ≡ true
        → str_eq q.id n.id ≡ true
        → Kept (actors ++ n.id ∷ []) (record q { snapshot = some snapshot })
    unfolding Kept
    resting actors q n snapshot free same = ground (
      arith,
      free,
      same,
      includes-append actors (n.id ∷ []) q.id,
      eq_iff q.id n.id,
      eq_iff n.id q.id,
    )

    create_and_run-All :
        (db : Db S) (n : NodeRow S) (rest : List (NodeRow S)) (snapshot : S) (state now : String)
        → resumes_freely state ≡ true
        → All (Pending (Kept db.actors) (n ∷ rest)) db.nodes
        → All
            (Pending (Kept (db.actors ++ n.id ∷ [])) rest)
            (create_and_run db n.id snapshot state now).nodes
    create_and_run-All db n rest snapshot state now free h =
        let first =
          All-update_rows (Pending (Kept db.actors) (n ∷ rest)) (Written db.actors rest n.id state)
            (at_state state now) n.id (λ q p same. inr (same, refl))
            (λ q p other. inl (Pending-miss (Kept db.actors) n rest q p other, other)) db.nodes h in
        All-update_rows (Written db.actors rest n.id state)
          (Pending (Kept (db.actors ++ n.id ∷ [])) rest)
          (λ q. record q { snapshot = some snapshot }) n.id
          (λ q w same. elim w [
            | inl (p, other) ↦ absurd (true≢false (sym same ∙ other))
            | inr (same_id, at) ↦
                inl (resting db.actors q n snapshot (ap resumes_freely at ∙ free) same)
          ])
          (λ q w other. elim w [
            | inl (p, _) ↦ Pending-actors db.actors (n.id ∷ []) rest q p
            | inr (same, at) ↦ absurd (true≢false (sym same ∙ other))
          ])
          _ first

    Kept-without_snapshot :
        (actors : List String) (n : NodeRow S) → n.snapshot ≡ none → Kept actors n
    unfolding Kept
    Kept-without_snapshot actors n nothing = ground (arith, nothing)

    Kept-over :
        (actors : List String) (n : NodeRow S)
        → (includes terminal n.state || str_eq n.state "INTERRUPTED") ≡ true
        → Kept actors n
    unfolding Kept
    Kept-over actors n over =
        ground (arith, over, eq_iff n.state "INTERRUPTED", eq_iff "INTERRUPTED" n.state)

    free_state :
        (n : NodeRow S) (snapshot : S) (state : String)
        → n.snapshot ≡ some snapshot
        → loads snapshot ≡ some state
        → is_faithful n ≡ true
        → resumes_freely n.state ≡ true
        → resumes_freely state ≡ true
    free_state n snapshot state has ok faithful free =
        ap resumes_freely (str_eq-eq state n.state (ground (arith, has, ok, faithful))) ∙ free

    recover_node-All :
        (db : Db S) (summary : RecoverySummary) (n : NodeRow S) (rest : List (NodeRow S))
        (now : String)
        → is_faithful n ≡ true
        → All (Pending (Kept db.actors) (n ∷ rest)) db.nodes
        → let next = (recover_node loads db summary n now).0 in
          All (Pending (Kept next.actors) rest) next.nodes
    unfolding recover_node interrupt
    recover_node-All db summary n rest now faithful h =
        let skip : Kept db.actors n → All (Pending (Kept db.actors) rest) db.nodes = λ k.
          All-map (Pending (Kept db.actors) (n ∷ rest)) (Pending (Kept db.actors) rest)
            (λ q p. Pending-skip (Kept db.actors) n rest q k p) db.nodes h in
        elim (Option-cases n.snapshot) [
          | inl nothing ↦
              rw (nothing, recover_node) (skip (Kept-without_snapshot db.actors n nothing))
          | inr (snapshot, has) ↦
              elim (Bool-cases (includes terminal n.state || str_eq n.state "INTERRUPTED")) [
                | inl over ↦ rw (has, over, recover_node) (skip (Kept-over db.actors n over))
                | inr working ↦ elim (Bool-cases (resumes_freely n.state)) [
                  | inr busy ↦ rw (has, working, busy, recover_node) (interrupt-All db n rest now h)
                  | inl free ↦ elim (Option-cases (loads snapshot)) [
                    | inl broken ↦
                        rw (has, working, free, broken, recover_node)
                          (interrupt-All db n rest now h)
                    | inr (state, ok) ↦
                        rw (has, working, free, ok, recover_node)
                          (create_and_run-All db n rest snapshot state now
                            (free_state n snapshot state has ok faithful free) h)
                  ]
                ]
              ]
        ]

    recover_all-All :
        (db : Db S) (summary : RecoverySummary) (rest : List (NodeRow S)) (now : String)
        → All (λ r. is_faithful r ≡ true) rest
        → All (Pending (Kept db.actors) rest) db.nodes
        → let next = (recover_all loads db summary rest now).0 in All (Kept next.actors) next.nodes
    unfolding recover_all
    recover_all-All db summary [] now f h = All-Pending_nil (Kept db.actors) db.nodes h
    recover_all-All db summary (n ∷ rest) now (e, f) h =
        let (next, counted) = recover_node loads db summary n now in
        recover_all-All next counted rest now f (recover_node-All db summary n rest now e h)

    -- After a restart every node has ended, waits for a person as interrupted, or waits in a state
    -- that costs nothing and has an actor: where each snapshot that loads at all loads as the state
    -- of its row, no node is shown as busy with nothing about to happen.
    pub recover_settles :
        (db : Db S) (now : String)
        → All (λ r. is_faithful r ≡ true) db.nodes
        → let next = (recover_nodes loads db now).0 in
          All (λ r. is_settled next.actors r ≡ true) next.nodes
    unfolding recover_nodes Settled
    recover_settles db now f =
        let empty : RecoverySummary = record { resumed = []; interrupted = []; stranded = [] } in
        strand_orphaned_nodes-All (recover_all loads db empty db.nodes now).0 now
          (recover_all-All db empty db.nodes now f (All-Pending_self (Kept db.actors) db.nodes))
