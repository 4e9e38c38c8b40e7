-- ===== src/Examples/Grants.antt =====
-- Authorities, chains of custody and delegation, on concrete inputs.
use text.Mathlib.TextEquality.{eq_iff}
use cherry_on_top.Base.{
  ◌+◌, ◌*◌, ◌≤◌, ◌≡◌, refl, ◌↔◌, true, false, none, some, List, [], ◌∷◌, arith, String, includes,
}
use cherry_on_top.Authority.{
  Authority, effective_authority, is_restricted, is_tool_allowed, is_read_only, tool_matches, usd,
}
use cherry_on_top.Authority.Limits
use cherry_on_top.Authority.Custody.{NodeLike, no_delegation, tools_lost, narrowing, by_id, path_of}
use cherry_on_top.Authority.Custody.Laws
use cherry_on_top.Authority.Custody.Laws.{last?, Linked, IsDistinct}
use cherry_on_top.Authority.Custody.Narrowing
use cherry_on_top.Delegation.{child_authority}
use cherry_on_top.Delegation.Organization
use cherry_on_top.Delegation.Promise
use cherry_on_top.Authority.Envelope.{summarize_authority}
use cherry_on_top.Delegation.Organization.{
  Organization, alone, split, nobody, child, agents, spent, levels, IsPlanned, ArePlanned, IsFunded,
  AreFunded,
}

abbrev root : Authority
root = record {
  tools = "Read" ∷ "Edit" ∷ [];
  spawn_children = true;
  max_child_count = 5;
  budget_usd = 25 * usd;
}

abbrev reader : Authority
reader = record {
  tools = "Read" ∷ "mcp__github" ∷ [];
  spawn_children = false;
  max_child_count = 0;
  budget_usd = usd;
}

abbrev shell : Authority
shell = record reader { tools = "Bash" ∷ [] }

abbrev anything : Authority
anything = record reader { tools = [] }

reader_tools :
    (is_tool_allowed reader "mcp__github__list" ≡ true)
    × (is_tool_allowed reader "Bash" ≡ false)
    × (is_read_only reader ≡ true)
    × (is_read_only root ≡ false)
unfolding is_tool_allowed tool_matches is_read_only
reader_tools = (refl, refl, refl, refl)

effective_authority_sound_example :
    (is_tool_allowed root "Read" ≡ true)
    × (is_tool_allowed root "Read" ≡ true)
    × (is_tool_allowed reader "Read" ≡ true)
unfolding effective_authority is_restricted is_tool_allowed tool_matches
effective_authority_sound_example =
    Limits.effective_authority_sound root root reader "Read" refl refl

root-shell_disjoint : (x : String) → includes shell.tools x ≡ true → includes root.tools x ≡ false
root-shell_disjoint x h =
    let same : ◌≡◌ {A = String} "Bash" x = (eq_iff "Bash" x).0 (ground arith) in rw (← same) refl

effective_authority_widens_example :
    is_tool_allowed (effective_authority root root shell) "Write" ≡ true
effective_authority_widens_example =
    Limits.effective_authority_widens root root shell root-shell_disjoint "Write"

abbrev family : List NodeLike
family =
    record { id = "a"; parent_id = none; goal = "ship"; authority = root }
    ∷ record { id = "b"; parent_id = some "a"; goal = "test"; authority = reader }
    ∷ record { id = "c"; parent_id = some "d"; goal = "loop"; authority = reader }
    ∷ record { id = "d"; parent_id = some "c"; goal = "loop"; authority = reader }
    ∷ []

narrowing_test : narrowing root reader ≡ no_delegation ∷ tools_lost ("Edit" ∷ []) ∷ []
unfolding narrowing
narrowing_test = refl

path_of_lem_example :
    (p : List NodeLike) × (path_of family "c" ≡ some p)
    × (last? p ≡ by_id family "c")
    × Linked family p
    × IsDistinct p
path_of_lem_example = Laws.path_of_lem family "c"

narrowing-eq-nil_iff_example : (narrowing root root ≡ []) ↔ (
    (root.spawn_children ≡ true → root.spawn_children ≡ true)
    × (root.max_child_count ≤ root.max_child_count)
    × ((t : String) → includes root.tools t ≡ true → includes root.tools t ≡ true))
narrowing-eq-nil_iff_example = Narrowing.narrowing-eq-nil_iff root root

abbrev worker : Organization (child_authority root 2 none)
worker = alone usd

abbrev firm : Organization root
firm = split 2 usd none (child worker (child worker nobody))

firm-IsPlanned : IsPlanned firm
unfolding IsPlanned ArePlanned
firm-IsPlanned = (refl, (omega arith, (omega arith, (tt, (tt, tt)))))

firm-IsFunded : IsFunded firm
unfolding IsFunded AreFunded child_authority
firm-IsFunded = (omega arith, (refl, (omega arith, (omega arith, tt))))

agents_bounded_example :
    (agents firm ≤ root.max_child_count + 1) × (agents firm ≤ (summarize_authority root).0)
agents_bounded_example = Organization.agents_bounded firm firm-IsPlanned

spending_bounded_example :
    (spent firm ≤ (summarize_authority root).1 * levels firm)
    × (levels firm ≤ root.max_child_count + 1)
spending_bounded_example = Promise.spending_bounded firm firm-IsPlanned firm-IsFunded
