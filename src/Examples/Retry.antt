-- ===== src/Examples/Retry.antt =====
-- Tombstones, on concrete evidence.
use cherry_on_top.Base.{◌≡◌, refl, false, List, [], ◌∷◌, includes, none}
use cherry_on_top.Economy.{EvidenceRef, fact, hypothesis}
use cherry_on_top.Economy.State.{evidence_ids}
use cherry_on_top.Recovery.{
  RecoveryTombstone, RecoveryEvaluation, already_dead, partition_evidence, tombstone_for,
}
use cherry_on_top.Recovery.Tombstones as Tombstones

abbrev evaluation : RecoveryEvaluation
evaluation = record { retained_evidence_ids = "f" ∷ "g" ∷ []; invalidated_evidence_ids = "h" ∷ [] }

abbrev seen : List EvidenceRef
seen =
    record {
      id = "f";
      kind = fact;
      source = "read";
      confidence = 90;
      repository_revision = none;
      token_cost = none;
    }
    ∷ record {
      id = "g";
      kind = fact;
      source = "read";
      confidence = 90;
      repository_revision = none;
      token_cost = none;
    }
    ∷ record {
      id = "h";
      kind = hypothesis;
      source = "run";
      confidence = 50;
      repository_revision = none;
      token_cost = none;
    }
    ∷ []

abbrev tombstone : RecoveryTombstone
tombstone = tombstone_for "t" evaluation "timeout" 100 ("g" ∷ [])

inherited : evidence_ids (partition_evidence seen (tombstone ∷ [])).0 ≡ "f" ∷ []
unfolding partition_evidence already_dead tombstone_for
inherited = refl

tombstone_honoured_example :
    (includes tombstone.retained_evidence_ids "g" ≡ false)
    × (includes (evidence_ids (partition_evidence seen (tombstone ∷ [])).0) "g" ≡ false)
tombstone_honoured_example =
    Tombstones.tombstone_honoured "t" "timeout" evaluation 100 ("g" ∷ []) [] seen "g" refl
