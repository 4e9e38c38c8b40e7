-- ===== src/Authority/Custody.antt =====
-- src/engines/custody.ts: the path authority took to reach a node.
pub mod Laws
pub mod Narrowing
use cherry_on_top.Base.{
  ℕ, zero, suc, String, Bool, true, false, not, ◌&&◌, ◌||◌, Option, none, some, List, [], ◌∷◌, ◌++◌,
  if◌then◌else◌, filter, includes, str_eq, unique, ltb, length,
}
use cherry_on_top.Authority.{Authority}

-- What a hop lost, one constructor for each sentence of `narrowing`.
pub data Loss : Type 0 where
  no_delegation : Loss
  fewer_agents : (may : ℕ) → (not_more : ℕ) → Loss
  tools_lost : List String → Loss

pub record NodeLike : Type 0 where
  pub id : String
  pub parent_id : Option String
  pub goal : String
  pub authority : Authority

pub record CustodyHop : Type 0 where
  pub node_id : String
  pub goal : String
  pub authority : Authority
  pub narrowed : List Loss

removed_tools : Authority → Authority → List String
removed_tools parent child =
    if ltb 0 (length parent.tools)
    then filter (λ t. not (includes child.tools t)) (unique parent.tools)
    else []

tool_losses : List String → List Loss
tool_losses [] = []
tool_losses (t ∷ ts) = tools_lost (t ∷ ts) ∷ []

delegation_losses : Authority → Authority → List Loss
delegation_losses parent child =
    if parent.spawn_children && not child.spawn_children
    then no_delegation ∷ []
    else if ltb child.max_child_count parent.max_child_count
    then fewer_agents child.max_child_count parent.max_child_count ∷ []
    else []

unfoldable pub narrowing : Authority → Authority → List Loss
unfolding removed_tools tool_losses delegation_losses
narrowing parent child = delegation_losses parent child ++ tool_losses (removed_tools parent child)

-- `byId.get(id)`: of two nodes with one id the later one is in the map
unfoldable pub by_id : List NodeLike → String → Option NodeLike
by_id [] id = none
by_id (n ∷ ns) id = elim (by_id ns id) [
  | some later ↦ some later
  | none ↦ if str_eq n.id id then some n else none
]

-- `current.parentId ? byId.get(current.parentId) : undefined`; the empty text counts as no parent
unfoldable pub parent_of : List NodeLike → NodeLike → Option NodeLike
unfolding by_id
parent_of nodes n = elim n.parent_id [
  | none ↦ none
  | some p ↦ if str_eq p "" then none else by_id nodes p
]

-- The `while` loop of `chainOf`; `path` has the topmost node first. `none`: out of fuel.
unfoldable pub climb :
    ℕ → List NodeLike → List String → List NodeLike → Option NodeLike → Option (List NodeLike)
climb zero nodes seen path current = none
climb (suc fuel) nodes seen path none = some path
climb (suc fuel) nodes seen path (some n) =
    let higher = climb fuel nodes (n.id ∷ seen) (n ∷ path) (parent_of nodes n) in
    if includes seen n.id then some path else higher

hop : List Loss → NodeLike → CustodyHop
hop lost n = record { node_id = n.id; goal = n.goal; authority = n.authority; narrowed = lost }

-- the hops below `above`
hops_below : NodeLike → List NodeLike → List CustodyHop
unfolding hop
hops_below above [] = []
hops_below above (n ∷ ns) = hop (narrowing above.authority n.authority) n ∷ hops_below n ns

hops : List NodeLike → List CustodyHop
unfolding hops_below
hops [] = []
hops (n ∷ ns) = hop [] n ∷ hops_below n ns

unfoldable pub path_of : List NodeLike → String → Option (List NodeLike)
unfolding climb by_id
path_of nodes node_id = climb (suc (length nodes)) nodes [] [] (by_id nodes node_id)

-- `chainOf`: the hops, from the person's first grant to the node
unfoldable pub chain_of : List NodeLike → String → Option (List CustodyHop)
unfolding path_of hops
chain_of nodes node_id = elim (path_of nodes node_id) [ none ↦ none | some path ↦ some (hops path) ]
