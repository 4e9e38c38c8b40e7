-- ===== src/Economy.antt =====
-- What a run knows, doubts and has spent: the types of src/decision/state.ts. A share of [0,1]
-- is counted in millionths, and a division rounds down. A share that a caller gives is `none`
-- where it is not a finite number, and 0 where it is negative; a quantity is `none` where it is
-- absent, not finite or negative.
pub mod Doubt
pub mod State
pub mod Action
pub mod Utility
pub mod Trust
pub mod Choice
pub mod Path
pub mod Budget
use cherry_on_top.Base.{ℕ, String, Bool, Option, none, some, List, min, get_or}

abbrev pub one : ℕ
one = 1000000

pub data EvidenceKind : Type 0 where
  fact observation hypothesis validation : EvidenceKind

pub record EvidenceRef : Type 0 where
  pub id : String
  pub kind : EvidenceKind
  pub source : String
  pub confidence : ℕ
  pub repository_revision : Option String
  pub token_cost : Option ℕ

pub data UncertaintyKind : Type 0 where
  target structural behavioral validation : UncertaintyKind

pub record UncertaintyState : Type 0 where
  pub target : ℕ
  pub structural : ℕ
  pub behavioral : ℕ
  pub validation : ℕ

pub record UncertaintyObservation : Type 0 where
  pub kind : UncertaintyKind
  pub before : Option ℕ
  pub after : Option ℕ
  pub source_evidence_ids : List String
  pub confidence : Option ℕ

pub record ResourceState : Type 0 where
  pub total_token_budget : ℕ
  pub consumed_tokens : ℕ
  pub remaining_tokens : ℕ
  pub optimization_tokens : ℕ
  pub optimization_consumed_tokens : ℕ
  pub recovery_reserve : ℕ
  pub latency_budget_ms : Option ℕ

pub record TrajectoryState : Type 0 where
  pub progress : ℕ
  pub information_gain : ℕ
  pub exploration_pressure : ℕ
  pub failure_pressure : ℕ
  pub state_similarity : ℕ
  pub orchestration_confidence : ℕ

pub data ValidationStatus : Type 0 where
  unknown pending passed failed : ValidationStatus

pub record ValidationState : Type 0 where
  pub required : Bool
  pub confidence : ℕ
  pub status : ValidationStatus

pub record Constraints : Type 0 where
  pub quality_floor : ℕ
  pub hard_stop : Bool

pub record EconomicState : Type 0 where
  pub version : ℕ
  pub goal : String
  pub repository : Option String
  pub repository_revision : Option String
  pub evidence : List EvidenceRef
  pub uncertainty : UncertaintyState
  pub resources : ResourceState
  pub trajectory : TrajectoryState
  pub validation : ValidationState
  pub constraints : Constraints
  pub available_capabilities : List String

-- `clamp01(value, fallback)`
abbrev pub clamp01 : Option ℕ → ℕ → ℕ
clamp01 none fallback = fallback
clamp01 (some value) fallback = min one value

-- `nonNegative(value, fallback)`
abbrev pub non_negative : Option ℕ → ℕ → ℕ
non_negative value fallback = get_or value fallback
