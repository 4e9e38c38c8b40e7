-- ===== src/SpendGuard/Escalation.antt =====
-- The guard only tightens as money and turns are spent, and stops hard only when one is gone.
use cherry_on_top.Base.{
  ℕ, ◌*◌, ◌≤◌, ◌<◌, ◌≡◌, ◌≢◌, ◌⊎◌, ◌↔◌, Bool, true, ◌&&◌, ◌||◌, some, if◌then◌else◌, ltb, leb,
  arith,
}
use cherry_on_top.SpendGuard.{
  GuardState, green, amber, red, stop, SpendGuardInput, Reading, is_stalled, warn, judge,
  reading_of, evaluate_spend_guard, finite, share_at_least,
}

abbrev pub severity : GuardState → ℕ
severity green = 0
severity amber = 1
severity red = 2
severity stop = 3

abbrev pub spending : SpendGuardInput → ℕ → ℕ → SpendGuardInput
spending input spent turns = record input { spent_usd = some spent; turns = some turns }

stops : Reading → Bool
unfolding is_stalled
stops r =
    (ltb 0 r.cap && leb r.cap r.spent)
    || ((ltb 0 r.hard_cap && leb r.hard_cap r.turns)
        || (is_stalled r && (leb 80 r.exploration || leb 50 r.repeated)))

is_red : Reading → Bool
is_red r =
    share_at_least r.spent r.cap 85 || (ltb 0 r.hard_cap && leb (r.hard_cap * 85) (r.turns * 100))

is_amber : Reading → Bool
is_amber r = share_at_least r.spent r.cap 60 || (ltb 0 r.target && ltb r.target r.turns)

abbrev rank : Bool → Bool → Bool → ℕ
rank s r a = if s then 3 else if r then 2 else if a then 1 else 0

severity-judge : (r : Reading) → severity (judge r).state ≡ rank (stops r) (is_red r) (is_amber r)
unfolding judge warn stops is_red is_amber
severity-judge r = ground arith

abbrev Implies : Bool → Bool → Type 0
Implies a b = a ≡ true → b ≡ true

rank_mono :
    (s r a s' r' a' : Bool)
    → Implies s s'
    → Implies r r'
    → Implies a a'
    → rank s r a ≤ rank s' r' a'
rank_mono s r a s' r' a' f g h = ground arith

module _ (r : Reading) (spent turns : ℕ) (h : r.spent ≤ spent) (k : r.turns ≤ turns) where
  later : Reading
  later = record r { spent = spent; turns = turns }

  is_stalled_mono : Implies (is_stalled r) (is_stalled later)
  unfolding is_stalled later
  is_stalled_mono e = ground arith

  stops_mono : Implies (stops r) (stops later)
  unfolding stops later
  stops_mono e = ground (arith, is_stalled_mono)

  is_red_mono : Implies (is_red r) (is_red later)
  unfolding is_red later
  is_red_mono e = ground arith

  is_amber_mono : Implies (is_amber r) (is_amber later)
  unfolding is_amber later
  is_amber_mono e = ground arith

  judge_mono : severity (judge r).state ≤ severity (judge later).state
  judge_mono =
      rw (severity-judge r, severity-judge later)
        (rank_mono (stops r) (is_red r) (is_amber r) (stops later) (is_red later) (is_amber later)
          stops_mono is_red_mono is_amber_mono)

-- With all else equal, a task that has spent at least as much money and at least as many
-- turns is in a state that is at least as severe.
pub guard_mono :
    (input : SpendGuardInput) (spent turns spent' turns' : ℕ)
    → spent ≤ spent'
    → turns ≤ turns'
    → severity (evaluate_spend_guard (spending input spent turns)).state
      ≤ severity (evaluate_spend_guard (spending input spent' turns')).state
unfolding evaluate_spend_guard reading_of later
guard_mono input spent turns spent' turns' h k =
    judge_mono (reading_of (spending input spent turns)) spent' turns' h k

-- The guard stops hard exactly when there is a spend cap and all of it is spent, or there is
-- a cap on turns and all of them are used.
pub guard-hard_iff :
    (input : SpendGuardInput)
    → ((evaluate_spend_guard input).hard ≡ true) ↔ (
        ((0 < finite input.spend_cap_usd) × (finite input.spend_cap_usd ≤ finite input.spent_usd))
        ⊎ ((0 < finite input.hard_turn_cap) × (finite input.hard_turn_cap ≤ finite input.turns)))
unfolding evaluate_spend_guard judge warn is_stalled reading_of
guard-hard_iff input = ground arith

-- Where no spend is measured against a cap and no cap on turns is set, the guard never stops
-- a task, whatever its trajectory shows.
pub guard_unmeasured :
    (input : SpendGuardInput)
    → finite input.spend_cap_usd ≡ 0
    → finite input.hard_turn_cap ≡ 0
    → (evaluate_spend_guard input).state ≢ stop
unfolding evaluate_spend_guard judge warn is_stalled reading_of
guard_unmeasured input h k e = ground arith
