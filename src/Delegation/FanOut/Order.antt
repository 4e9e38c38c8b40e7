-- ===== src/Delegation/FanOut/Order.antt =====
-- What is doomed after a group: the dependents of the pieces that failed in it, besides what was.
use text.Mathlib.TextEquality.{eq_iff}
use cherry_on_top.Base.{
  ◌≡◌, refl, ap, String, Bool, false, not, ◌&&◌, ◌||◌, List, [], ◌∷◌, ◌++◌, includes, arith,
  Bool-cases, inl, inr, str_eq, str_append,
}
use cherry_on_top.Workstreams.Graph.{WorkstreamNode}
use cherry_on_top.Workstreams.Fallout.{dependents_of}
use cherry_on_top.Delegation.FanOut.{
  ChildResult, is_doomed, doom, Children, DelegateInput, doom_failed,
}

is_doomed-append :
    (d : List (String × String)) (x y reason : String)
    → is_doomed (d ++ (y, reason) ∷ []) x ≡ (is_doomed d x || str_eq y x)
is_doomed-append [] x y reason = ground arith
is_doomed-append ((p, r) ∷ d) x y reason = ground (arith, is_doomed-append d x y reason)

is_doomed-doom :
    (reason : String) (d : List (String × String)) (ys : List String) (x : String)
    → is_doomed (doom reason d ys) x ≡ (is_doomed d x || includes ys x)
is_doomed-doom reason d [] x = ground arith
is_doomed-doom reason d (y ∷ ys) x = elim (Bool-cases (is_doomed d y)) [
  | inl doomed ↦
      rw doomed (ground (arith, is_doomed-doom reason d ys x, eq_iff y x, ap (is_doomed d)))
  | inr free ↦ rw free (
      ground
        (arith, is_doomed-doom reason (d ++ (y, reason) ∷ []) ys x, is_doomed-append d x y reason))
]

-- whether a result that failed takes the piece down
abbrev pub fells : List WorkstreamNode → List ChildResult → String → Bool
fells nodes [] x = false
fells nodes (r ∷ rs) x =
    (not r.succeeded && includes (dependents_of nodes r.piece) x) || fells nodes rs x

pub fells-append :
    (nodes : List WorkstreamNode) (rs ts : List ChildResult) (x : String)
    → fells nodes (rs ++ ts) x ≡ (fells nodes rs x || fells nodes ts x)
fells-append nodes [] ts x = refl
fells-append nodes (r ∷ rs) ts x = ground (arith, fells-append nodes rs ts x)

module _ (c : Children) (nodes : List WorkstreamNode) (input : DelegateInput) where
  pub is_doomed-doom_failed :
      (d : List (String × String)) (rs : List ChildResult) (x : String)
      → is_doomed (doom_failed c nodes d rs) x ≡ (is_doomed d x || fells nodes rs x)
  is_doomed-doom_failed d [] x = ground arith
  is_doomed-doom_failed d (r ∷ rs) x = elim (Bool-cases r.succeeded) [
    | inl good ↦ rw good (is_doomed-doom_failed d rs x)
    | inr bad ↦ rw bad (
        ground (
          arith,
          is_doomed-doom_failed
              (doom (str_append "depends on the failed piece: " r.goal) d
                (dependents_of nodes r.piece))
              rs x,
          is_doomed-doom (str_append "depends on the failed piece: " r.goal) d
              (dependents_of nodes r.piece) x,
        ))
  ]
