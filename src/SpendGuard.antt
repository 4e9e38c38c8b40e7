-- ===== src/SpendGuard.antt =====
-- When to stop paying for a task: src/efficiency/spend-guard.ts. Money is in millionths of a
-- dollar, signals and shares are in hundredths. A number that is not finite is `none`, and a
-- negative one, which the code reads as 0, is 0 here. The share of the cap is compared by
-- multiplying, where the code divides.
pub mod Escalation
use cherry_on_top.Base.{
  ℕ, zero, suc, ◌+◌, ◌*◌, ◌/◌, min, Bool, true, false, ◌&&◌, Option, none, some, if◌then◌else◌, ltb,
  leb, get_or,
}

pub data GuardState : Type 0 where
  green : GuardState
  amber : GuardState
  red : GuardState
  stop : GuardState

-- the sentences, with the numbers that they show
pub data Reason : Type 0 where
  spend_cap_reached : ℕ → ℕ → Reason
  turn_cap_reached : ℕ → ℕ → Reason
  searching : ℕ → ℕ → Reason
  repeating : ℕ → ℕ → Reason
  share_gone : ℕ → Reason
  turns_used : ℕ → ℕ → Reason
  past_target : ℕ → Reason

pub record SpendGuardState : Type 0 where
  pub state : GuardState
  pub spent_usd : ℕ
  pub spend_cap_usd : ℕ
  pub reason : Option Reason
  pub hard : Bool

pub record SpendGuardInput : Type 0 where
  pub spent_usd : Option ℕ
  pub spend_cap_usd : Option ℕ
  pub turns : Option ℕ
  pub soft_turn_target : Option ℕ
  pub hard_turn_cap : Option ℕ
  pub exploration_signal : Option ℕ
  pub progress_signal : Option ℕ
  pub repeated_failure_signal : Option ℕ

abbrev pub red_share : ℕ
red_share = 85

abbrev pub amber_share : ℕ
amber_share = 60

abbrev pub stall_spend_share : ℕ
stall_spend_share = 50

abbrev pub stall_progress : ℕ
stall_progress = 10

abbrev pub stall_exploration : ℕ
stall_exploration = 80

abbrev pub stall_repeated_failure : ℕ
stall_repeated_failure = 50

abbrev pub finite : Option ℕ → ℕ
finite value = get_or value 0

abbrev pub clamp01 : Option ℕ → ℕ
clamp01 value = min 100 (get_or value 50)

abbrev pub repeated_of : Option ℕ → ℕ
repeated_of none = 0
repeated_of (some value) = clamp01 (some value)

-- `share >= threshold`, which is false where there is no cap
abbrev pub share_at_least : ℕ → ℕ → ℕ → Bool
share_at_least spent cap threshold = ltb 0 cap && leb (cap * threshold) (spent * 100)

-- `Math.round(share * 100)`
percent_of : ℕ → ℕ → ℕ
percent_of spent cap = (spent * 200 + cap) / (cap * 2)

-- the values that the guard reads
pub record Reading : Type 0 where
  pub spent : ℕ
  pub cap : ℕ
  pub turns : ℕ
  pub target : ℕ
  pub hard_cap : ℕ
  pub exploration : ℕ
  pub progress : ℕ
  pub repeated : ℕ

unfoldable pub reading_of : SpendGuardInput → Reading
reading_of input = record {
  spent = finite input.spent_usd;
  cap = finite input.spend_cap_usd;
  turns = finite input.turns;
  target = finite input.soft_turn_target;
  hard_cap = finite input.hard_turn_cap;
  exploration = clamp01 input.exploration_signal;
  progress = clamp01 input.progress_signal;
  repeated = repeated_of input.repeated_failure_signal;
}

unfoldable pub is_stalled : Reading → Bool
is_stalled r =
    share_at_least r.spent r.cap stall_spend_share
    && (ltb 0 r.target && (leb r.target r.turns && leb r.progress stall_progress))

abbrev pub verdict : Reading → GuardState → Option Reason → Bool → SpendGuardState
verdict r state reason hard = record {
  state = state;
  spent_usd = r.spent;
  spend_cap_usd = r.cap;
  reason = reason;
  hard = hard;
}

-- the warnings, where nothing stops the task
unfoldable pub warn : Reading → SpendGuardState
unfolding percent_of
warn r =
    if share_at_least r.spent r.cap red_share
    then verdict r red (some (share_gone (percent_of r.spent r.cap))) false
    else if ltb 0 r.hard_cap && leb (r.hard_cap * red_share) (r.turns * 100)
    then verdict r red (some (turns_used r.turns r.hard_cap)) false
    else if share_at_least r.spent r.cap amber_share
    then verdict r amber (some (share_gone (percent_of r.spent r.cap))) false
    else if ltb 0 r.target && ltb r.target r.turns
    then verdict r amber (some (past_target r.target)) false
    else verdict r green none false

unfoldable pub judge : Reading → SpendGuardState
unfolding is_stalled warn
judge r =
    if ltb 0 r.cap && leb r.cap r.spent
    then verdict r stop (some (spend_cap_reached r.spent r.cap)) true
    else if ltb 0 r.hard_cap && leb r.hard_cap r.turns
    then verdict r stop (some (turn_cap_reached r.turns r.hard_cap)) true
    else if is_stalled r && leb stall_exploration r.exploration
    then verdict r stop (some (searching r.turns r.spent)) false
    else if is_stalled r && leb stall_repeated_failure r.repeated
    then verdict r stop (some (repeating r.turns r.spent)) false
    else warn r

unfoldable pub evaluate_spend_guard : SpendGuardInput → SpendGuardState
unfolding judge reading_of
evaluate_spend_guard input = judge (reading_of input)
