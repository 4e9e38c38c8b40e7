-- ===== src/Recovery.antt =====
-- What a retry inherits, and what it must not: src/recovery/engine.ts (partitionEvidence and
-- tombstoneFor) and src/recovery/types.ts.
pub mod Tombstones
use cherry_on_top.Base.{
  ℕ, String, Bool, true, false, not, ◌&&◌, List, [], ◌∷◌, ◌++◌, if◌then◌else◌, filter, includes,
  sort, unique,
}
use cherry_on_top.Economy.{EvidenceKind, hypothesis, EvidenceRef}

pub record RecoveryTombstone : Type 0 where
  pub id : String
  pub hypothesis_ids : List String
  pub retained_evidence_ids : List String
  pub invalidated_evidence_ids : List String
  pub failure_signature : String
  pub tokens_spent : ℕ

abbrev pub survives : EvidenceKind → Bool
survives hypothesis = false
survives _ = true

unfoldable pub already_dead : List RecoveryTombstone → List String
already_dead [] = []
already_dead (t ∷ ts) = t.invalidated_evidence_ids ++ already_dead ts

abbrev pub is_retained : List String → EvidenceRef → Bool
is_retained dead r = survives r.kind && not (includes dead r.id)

-- the retained and the invalidated references, in their order
unfoldable pub partition_evidence :
    List EvidenceRef → List RecoveryTombstone → List EvidenceRef × List EvidenceRef
unfolding already_dead
partition_evidence evidence tombstones =
    let dead = already_dead tombstones in
    (filter (is_retained dead) evidence, filter (λ r. not (is_retained dead r)) evidence)

-- the part of a `RecoveryEvaluation` that `tombstoneFor` reads
pub record RecoveryEvaluation : Type 0 where
  pub retained_evidence_ids : List String
  pub invalidated_evidence_ids : List String

abbrev or_else : List String → List String → List String
or_else [] others = others
or_else (x ∷ xs) others = x ∷ xs

unfoldable pub tombstone_for :
    String → RecoveryEvaluation → String → ℕ → List String → RecoveryTombstone
tombstone_for id evaluation failure_signature tokens_spent hypothesis_ids =
    let named = unique hypothesis_ids in
    let invalidated = sort (unique (evaluation.invalidated_evidence_ids ++ named)) in
    record {
      id = id;
      hypothesis_ids = or_else named evaluation.invalidated_evidence_ids;
      retained_evidence_ids =
          filter (λ e. not (includes invalidated e)) evaluation.retained_evidence_ids;
      invalidated_evidence_ids = invalidated;
      failure_signature = failure_signature;
      tokens_spent = tokens_spent;
    }
