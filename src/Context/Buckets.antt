-- ===== src/Context/Buckets.antt =====
-- A reference stands in one bucket of the frontier at most.
use text.Mathlib.TextEquality.{eq_iff}
use cherry_on_top.Base.{
  ◌≡◌, refl, ◌∙◌, String, false, not, ◌&&◌, ◌||◌, List, [], ◌∷◌, ◌++◌, includes, includes-append,
  arith,
}
use cherry_on_top.Context.{
  ContextRef, KnowledgeFrontier, FrontierUpdate, empty_frontier, key_of, keys, without, unseen,
  add_refs, update_frontier,
}

includes-keys-append :
    (rs ss : List ContextRef) (k : String)
    → includes (keys (rs ++ ss)) k ≡ (includes (keys rs) k || includes (keys ss) k)
unfolding keys
includes-keys-append [] ss k = refl
includes-keys-append (r ∷ rs) ss k = ground (arith, includes-keys-append rs ss k)

includes-keys-without :
    (rs : List ContextRef) (remove : List String) (k : String)
    → includes (keys (without rs remove)) k ≡ (includes (keys rs) k && not (includes remove k))
unfolding keys without
includes-keys-without [] remove k = refl
includes-keys-without (r ∷ rs) remove k =
    ground (arith, includes-keys-without rs remove k, eq_iff (key_of r) k)

includes-keys-unseen :
    (seen : List String) (rs : List ContextRef) (k : String)
    → (includes seen k || includes (keys (unseen seen rs)) k)
      ≡ (includes seen k || includes (keys rs) k)
unfolding keys unseen
includes-keys-unseen seen [] k = refl
includes-keys-unseen seen (r ∷ rs) k = ground (
  arith,
  includes-keys-unseen seen rs k,
  includes-keys-unseen (key_of r ∷ seen) rs k,
  eq_iff (key_of r) k,
)

includes-keys-add_refs :
    (rs incoming : List ContextRef) (k : String)
    → includes (keys (add_refs rs incoming)) k
      ≡ (includes (keys rs) k || includes (keys incoming) k)
unfolding add_refs
includes-keys-add_refs rs incoming k =
    includes-keys-append rs (unseen (keys rs) incoming) k
    ∙ includes-keys-unseen (keys rs) incoming k

-- no key is in two buckets
abbrev pub AreDisjoint : KnowledgeFrontier → Type 0
AreDisjoint f =
    (k : String)
    → ((includes (keys f.known) k && includes (keys f.unnecessary) k) ≡ false)
      × ((includes (keys f.unknown) k
            && (includes (keys f.known) k || includes (keys f.unnecessary) k))
          ≡ false)

update-AreDisjoint :
    (f : KnowledgeFrontier) (u : FrontierUpdate) → AreDisjoint f → AreDisjoint (update_frontier f u)
unfolding update_frontier
update-AreDisjoint f u d k =
    let known = without (add_refs f.known u.learned) (keys u.ruled_out) in
    let unnecessary = add_refs (without f.unnecessary (keys u.learned)) u.ruled_out in
    ground (
      arith,
      d k,
      includes-keys-without (add_refs f.known u.learned) (keys u.ruled_out) k,
      includes-keys-add_refs f.known u.learned k,
      includes-keys-add_refs (without f.unnecessary (keys u.learned)) u.ruled_out k,
      includes-keys-without f.unnecessary (keys u.learned) k,
      includes-keys-without (add_refs f.unknown u.raised) (keys known ++ keys unnecessary) k,
      includes-append (keys known) (keys unnecessary) k,
    )

abbrev pub update_all : KnowledgeFrontier → List FrontierUpdate → KnowledgeFrontier
update_all f [] = f
update_all f (u ∷ us) = update_all (update_frontier f u) us

update_all-AreDisjoint :
    (f : KnowledgeFrontier) (us : List FrontierUpdate)
    → AreDisjoint f
    → AreDisjoint (update_all f us)
update_all-AreDisjoint f [] d = d
update_all-AreDisjoint f (u ∷ us) d =
    update_all-AreDisjoint (update_frontier f u) us (update-AreDisjoint f u d)

-- After any updates of the empty frontier, no reference (its id with its content) is both
-- known and ruled out, and none that is known or ruled out is still to be found out.
pub frontier_disjoint : (us : List FrontierUpdate) → AreDisjoint (update_all empty_frontier us)
unfolding keys
frontier_disjoint us = update_all-AreDisjoint empty_frontier us (λ k. (refl, refl))
