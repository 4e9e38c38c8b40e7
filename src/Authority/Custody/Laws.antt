-- ===== src/Authority/Custody/Laws.antt =====
-- The chain of custody ends, and each hop is granted by the hop above it.
use text.Mathlib.TextPositions.{eq_refl}
use cherry_on_top.Base.{
  ℕ, zero, suc, ◌≤◌, ◌<◌, ◌≡◌, refl, String, false, not, Option, none, some, List, [], ◌∷◌, filter,
  includes, str_eq, length, length-filter-le, arith, Option-cases, Bool-cases, inl, inr, ap, sym,
  some_inj,
}
use cherry_on_top.Authority.Custody.{NodeLike, by_id, parent_of, climb, path_of}

-- the nodes whose id the loop has not met
unseen : List String → List NodeLike → ℕ
unseen seen nodes = length (filter (λ n. not (includes seen n.id)) nodes)

unseen_le :
    (seen : List String) (i : String) (nodes : List NodeLike)
    → unseen (i ∷ seen) nodes ≤ unseen seen nodes
unfolding unseen
unseen_le seen i [] = omega arith
unseen_le seen i (n ∷ ns) = ground (arith, unseen_le seen i ns)

-- a node that the map holds and the loop has not met lowers the number of the unmet ones
unseen-by_id :
    (seen : List String) (id : String) (nodes : List NodeLike) (n : NodeLike)
    → by_id nodes id ≡ some n
    → includes seen n.id ≡ false
    → unseen (n.id ∷ seen) nodes < unseen seen nodes
unfolding unseen by_id
unseen-by_id seen id [] n f h = cc
unseen-by_id seen id (m ∷ ms) n f h = elim (Option-cases (by_id ms id)) [
  | inl absent ↦ ground (arith, rw absent at f, unseen_le seen n.id ms, eq_refl n.id)
  | inr (k, later) ↦ ground (arith, rw later at f, unseen-by_id seen id ms n)
]

parent_of_found :
    (nodes : List NodeLike) (n m : NodeLike)
    → parent_of nodes n ≡ some m
    → (id : String) × (by_id nodes id ≡ some m)
unfolding parent_of
parent_of_found nodes n m e = elim (Option-cases n.parent_id) [
  | inl top ↦ cc (rw top at e)
  | inr (p, below) ↦ elim (Bool-cases (str_eq p "")) [
    | inl empty ↦ cc (rw (below, empty) at e)
    | inr named ↦ (p, ground arith)
  ]
]

-- what the map answered for some id
IsFound : List NodeLike → Option NodeLike → Type 0
IsFound nodes current =
    (n : NodeLike) → current ≡ some n → (id : String) × (by_id nodes id ≡ some n)

climb_total :
    (fuel : ℕ) (nodes : List NodeLike) (seen : List String) (path : List NodeLike)
    (current : Option NodeLike)
    → IsFound nodes current
    → unseen seen nodes < fuel
    → (p : List NodeLike) × (climb fuel nodes seen path current ≡ some p)
unfolding climb IsFound
climb_total zero nodes seen path current found h = elim h [ ]
climb_total (suc fuel) nodes seen path none found h = (path, refl)
climb_total (suc fuel) nodes seen path (some n) found h = elim (Bool-cases (includes seen n.id)) [
  | inl met ↦ (path, rw met)
  | inr fresh ↦
      let (id, held) = found n refl in
      rw fresh (
        climb_total fuel nodes (n.id ∷ seen) (n ∷ path) (parent_of nodes n)
          (parent_of_found nodes n) (omega (arith, unseen-by_id seen id nodes n held fresh)))
]

-- each node of the path is the parent of the next
abbrev pub Linked : List NodeLike → List NodeLike → Type 0
Linked nodes [] = Unit
Linked nodes (a ∷ []) = Unit
Linked nodes (a ∷ b ∷ rest) = (parent_of nodes b ≡ some a) × Linked nodes (b ∷ rest)

abbrev ids : List NodeLike → List String
ids [] = []
ids (n ∷ ns) = n.id ∷ ids ns

-- no id stands twice
abbrev pub IsDistinct : List NodeLike → Type 0
IsDistinct [] = Unit
IsDistinct (n ∷ ns) = (includes (ids ns) n.id ≡ false) × IsDistinct ns

abbrev pub last? : List NodeLike → Option NodeLike
last? [] = none
last? (n ∷ []) = some n
last? (n ∷ m ∷ ns) = last? (m ∷ ns)

-- the node that the loop looks at next is the parent of the topmost one
abbrev IsNext : List NodeLike → Option NodeLike → List NodeLike → Type 0
IsNext nodes current [] = Unit
IsNext nodes current (b ∷ rest) = parent_of nodes b ≡ current

Linked-cons :
    (nodes : List NodeLike) (n : NodeLike) (path : List NodeLike)
    → IsNext nodes (some n) path
    → Linked nodes path
    → Linked nodes (n ∷ path)
Linked-cons nodes n [] up l = tt
Linked-cons nodes n (b ∷ rest) up l = (up, l)

climb-Linked :
    (fuel : ℕ) (nodes : List NodeLike) (path : List NodeLike) (current : Option NodeLike)
    (p : List NodeLike)
    → climb fuel nodes (ids path) path current ≡ some p
    → IsNext nodes current path
    → Linked nodes path
    → IsDistinct path
    → Linked nodes p × IsDistinct p
unfolding climb
climb-Linked zero nodes path current p e up l d = cc
climb-Linked (suc fuel) nodes path none p e up l d =
    let same : path ≡ p = some_inj e in rw (← same) (l, d)
climb-Linked (suc fuel) nodes path (some n) p e up l d =
    elim (Bool-cases (includes (ids path) n.id)) [
      | inl met ↦ let same : path ≡ p = some_inj (rw met at e) in rw (← same) (l, d)
      | inr fresh ↦
          climb-Linked fuel nodes (n ∷ path) (parent_of nodes n) p (rw fresh at e) refl
            (Linked-cons nodes n path up l) (fresh, d)
    ]

climb-last? :
    (fuel : ℕ) (nodes : List NodeLike) (seen : List String) (n : NodeLike) (path : List NodeLike)
    (current : Option NodeLike) (p : List NodeLike)
    → climb fuel nodes seen (n ∷ path) current ≡ some p
    → last? p ≡ last? (n ∷ path)
unfolding climb
climb-last? zero nodes seen n path current p e = cc
climb-last? (suc fuel) nodes seen n path none p e = ap last? (sym (some_inj e))
climb-last? (suc fuel) nodes seen n path (some m) p e = elim (Bool-cases (includes seen m.id)) [
  | inl met ↦ ap last? (sym (some_inj (rw met at e)))
  | inr fresh ↦
      climb-last? fuel nodes (m.id ∷ seen) m (n ∷ path) (parent_of nodes m) p (rw fresh at e)
]

path_of-last? :
    (fuel : ℕ) (nodes : List NodeLike) (current : Option NodeLike) (p : List NodeLike)
    → climb fuel nodes [] [] current ≡ some p
    → last? p ≡ current
unfolding climb
path_of-last? zero nodes current p e = cc
path_of-last? (suc fuel) nodes none p e = ap last? (sym (some_inj e))
path_of-last? (suc fuel) nodes (some n) p e =
    climb-last? fuel nodes (n.id ∷ []) n [] (parent_of nodes n) p e

-- For every set of nodes and every id the walk ends, also over a cycle of parents. The path that it
-- gives ends at the node asked for, each node on it is the parent of the next, and no id is on it
-- twice.
pub path_of_lem :
    (nodes : List NodeLike) (id : String)
    → (p : List NodeLike) × (path_of nodes id ≡ some p)
      × (last? p ≡ by_id nodes id)
      × Linked nodes p
      × IsDistinct p
unfolding path_of unseen IsFound
path_of_lem nodes id =
    let (p, e) =
      climb_total (suc (length nodes)) nodes [] [] (by_id nodes id) (λ n f. (id, f))
        (omega (arith, length-filter-le (λ n. not (includes [] n.id)) nodes)) in
    let (linked, distinct) =
      climb-Linked (suc (length nodes)) nodes [] (by_id nodes id) p e tt tt tt in
    (p, e, path_of-last? (suc (length nodes)) nodes (by_id nodes id) p e, linked, distinct)
