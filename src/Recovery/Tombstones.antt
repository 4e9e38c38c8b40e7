-- ===== src/Recovery/Tombstones.antt =====
-- A disproven belief stays disproven.
use text.Mathlib.TextEquality.{eq_iff}
use cherry_on_top.Base.{
  ℕ, ◌≡◌, refl, ◌∙◌, String, true, false, not, ◌||◌, List, [], ◌∷◌, ◌++◌, filter, includes,
  includes-append, includes-sort, includes-unique, includes-filter, sort, unique, arith,
}
use cherry_on_top.Economy.{EvidenceRef}
use cherry_on_top.Economy.State.{evidence_ids}
use cherry_on_top.Recovery.{
  RecoveryTombstone, RecoveryEvaluation, is_retained, already_dead, partition_evidence,
  tombstone_for,
}

dead_not_kept :
    (dead : List String) (evidence : List EvidenceRef) (x : String)
    → includes dead x ≡ true
    → includes (evidence_ids (filter (is_retained dead) evidence)) x ≡ false
dead_not_kept dead [] x h = refl
dead_not_kept dead (r ∷ rs) x h = ground (arith, dead_not_kept dead rs x h, eq_iff r.id x)

-- Once a tombstone is kept, nothing that it invalidated is inherited: neither what the
-- evaluation dropped nor a hypothesis that the caller named is retained by the tombstone, or
-- by any later partition of evidence that honours it.
pub tombstone_honoured :
    (id signature : String) (evaluation : RecoveryEvaluation) (tokens : ℕ) (named : List String)
    (tombstones : List RecoveryTombstone) (evidence : List EvidenceRef) (x : String)
    → (includes evaluation.invalidated_evidence_ids x || includes named x) ≡ true
    → (includes (tombstone_for id evaluation signature tokens named).retained_evidence_ids x
        ≡ false)
      × (includes
            (evidence_ids
              (partition_evidence evidence
                (tombstone_for id evaluation signature tokens named ∷ tombstones)).0)
            x
          ≡ false)
unfolding tombstone_for partition_evidence already_dead
tombstone_honoured id signature evaluation tokens named tombstones evidence x h =
    let invalidated = sort (unique (evaluation.invalidated_evidence_ids ++ unique named)) in
    let dead : includes invalidated x ≡ true =
      includes-sort (unique (evaluation.invalidated_evidence_ids ++ unique named)) x
      ∙ (includes-unique (evaluation.invalidated_evidence_ids ++ unique named) x
          ∙ ground (
            arith,
            includes-append evaluation.invalidated_evidence_ids (unique named) x,
            includes-unique named x,
          )) in
    (
      includes-filter (λ e. not (includes invalidated e)) evaluation.retained_evidence_ids x
          ∙ ground (arith, dead),
      dead_not_kept (invalidated ++ already_dead tombstones) evidence x
          (includes-append invalidated (already_dead tombstones) x ∙ ground (arith, dead)),
    )
