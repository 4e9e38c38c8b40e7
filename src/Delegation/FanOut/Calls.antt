-- ===== src/Delegation/FanOut/Calls.antt =====
-- What a fan-out calls for the pieces of a group.
use mathlib.Core.List.{append-nil}
use cherry_on_top.Base.{ℕ, ◌≡◌, refl, ap, String, List, [], ◌∷◌, ◌++◌, map}
use cherry_on_top.Delegation.FanOut.{
  Call, create_child_node, record_commitment, record_envelope, start_child, wait_for_child,
  Children, DelegateInput, starts,
}

-- the goals of the calls of createChildNode
abbrev pub created_goals : List Call → List String
created_goals [] = []
created_goals (create_child_node parent goal siblings approved ∷ rest) = goal ∷ created_goals rest
created_goals (record_commitment child goal ∷ rest) = created_goals rest
created_goals (record_envelope child goal budget ∷ rest) = created_goals rest
created_goals (start_child child goal ∷ rest) = created_goals rest
created_goals (wait_for_child child ∷ rest) = created_goals rest

-- the children of the calls of startChild
abbrev pub started_children : List Call → List String
started_children [] = []
started_children (create_child_node parent goal siblings approved ∷ rest) = started_children rest
started_children (record_commitment child goal ∷ rest) = started_children rest
started_children (record_envelope child goal budget ∷ rest) = started_children rest
started_children (start_child child goal ∷ rest) = child ∷ started_children rest
started_children (wait_for_child child ∷ rest) = started_children rest

-- the children of the calls of waitForChild
abbrev pub awaited_children : List Call → List String
awaited_children [] = []
awaited_children (create_child_node parent goal siblings approved ∷ rest) = awaited_children rest
awaited_children (record_commitment child goal ∷ rest) = awaited_children rest
awaited_children (record_envelope child goal budget ∷ rest) = awaited_children rest
awaited_children (start_child child goal ∷ rest) = awaited_children rest
awaited_children (wait_for_child child ∷ rest) = child ∷ awaited_children rest

pub created_goals-append :
    (xs ys : List Call) → created_goals (xs ++ ys) ≡ created_goals xs ++ created_goals ys
created_goals-append [] ys = refl
created_goals-append (create_child_node parent goal siblings approved ∷ xs) ys =
    ap (λ goals. goal ∷ goals) (created_goals-append xs ys)
created_goals-append (record_commitment child goal ∷ xs) ys = created_goals-append xs ys
created_goals-append (record_envelope child goal budget ∷ xs) ys = created_goals-append xs ys
created_goals-append (start_child child goal ∷ xs) ys = created_goals-append xs ys
created_goals-append (wait_for_child child ∷ xs) ys = created_goals-append xs ys

pub started_children-append :
    (xs ys : List Call) → started_children (xs ++ ys) ≡ started_children xs ++ started_children ys
started_children-append [] ys = refl
started_children-append (create_child_node parent goal siblings approved ∷ xs) ys =
    started_children-append xs ys
started_children-append (record_commitment child goal ∷ xs) ys = started_children-append xs ys
started_children-append (record_envelope child goal budget ∷ xs) ys = started_children-append xs ys
started_children-append (start_child child goal ∷ xs) ys =
    ap (λ children. child ∷ children) (started_children-append xs ys)
started_children-append (wait_for_child child ∷ xs) ys = started_children-append xs ys

pub awaited_children-append :
    (xs ys : List Call) → awaited_children (xs ++ ys) ≡ awaited_children xs ++ awaited_children ys
awaited_children-append [] ys = refl
awaited_children-append (create_child_node parent goal siblings approved ∷ xs) ys =
    awaited_children-append xs ys
awaited_children-append (record_commitment child goal ∷ xs) ys = awaited_children-append xs ys
awaited_children-append (record_envelope child goal budget ∷ xs) ys = awaited_children-append xs ys
awaited_children-append (start_child child goal ∷ xs) ys = awaited_children-append xs ys
awaited_children-append (wait_for_child child ∷ xs) ys =
    ap (λ children. child ∷ children) (awaited_children-append xs ys)

pub map-append :
    (f : String → String) (xs ys : List String) → map f (xs ++ ys) ≡ map f xs ++ map f ys
map-append f [] ys = refl
map-append f (x ∷ xs) ys = ap (λ zs. f x ∷ zs) (map-append f xs ys)

module _ (c : Children) (input : DelegateInput) (siblings : ℕ) where
  starts_lem :
      (ids : List String)
      → (created_goals (starts c input siblings ids) ≡ map c.goal_of ids)
        × (started_children (starts c input siblings ids) ≡ map c.child_of ids)
        × (awaited_children (starts c input siblings ids) ≡ [])
  starts_lem [] = (refl, refl, refl)
  starts_lem (id ∷ rest) =
      let (created, began, waited) = starts_lem rest in
      (
        ap (λ goals. c.goal_of id ∷ goals) created,
        ap (λ children. c.child_of id ∷ children) began,
        waited,
      )

  abbrev pub waits : List String → List Call
  waits ids = map (λ id. wait_for_child (c.child_of id)) ids

  waits_lem :
      (ids : List String)
      → (created_goals (waits ids) ≡ [])
        × (started_children (waits ids) ≡ [])
        × (awaited_children (waits ids) ≡ map c.child_of ids)
  waits_lem [] = (refl, refl, refl)
  waits_lem (id ∷ rest) =
      let (created, began, waited) = waits_lem rest in
      (created, began, ap (λ children. c.child_of id ∷ children) waited)

  -- the calls of one group
  pub group_calls_lem :
      (ids : List String)
      → (created_goals (starts c input siblings ids ++ waits ids) ≡ map c.goal_of ids)
        × (started_children (starts c input siblings ids ++ waits ids) ≡ map c.child_of ids)
        × (awaited_children (starts c input siblings ids ++ waits ids) ≡ map c.child_of ids)
  group_calls_lem ids =
      let (created, began, waited) = starts_lem ids in
      let (none_created, none_began, all_waited) = waits_lem ids in
      (
        rw (created_goals-append (starts c input siblings ids) (waits ids), created, none_created)
            (append-nil (map c.goal_of ids)),
        rw (started_children-append (starts c input siblings ids) (waits ids), began, none_began)
            (append-nil (map c.child_of ids)),
        rw (awaited_children-append (starts c input siblings ids) (waits ids), waited, all_waited)
            refl,
      )
