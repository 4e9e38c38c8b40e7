-- ===== src/Context.antt =====
-- What is known, unknown and ruled out: src/context/frontier.ts; and what changed between two
-- projections of context: src/context/delta.ts. A `Map` by id keeps the last reference of an id,
-- in the place of its first.
pub mod Buckets
use cherry_on_top.Base.{
  ℕ, zero, suc, ◌+◌, String, Bool, true, false, not, ◌&&◌, ◌||◌, Option, none, some, List, [], ◌∷◌,
  ◌++◌, map, if◌then◌else◌, str_eq, str_append, join, filter, includes, length, is_some,
}

pub record ContextRef : Type 0 where
  pub semantic_id : String
  pub version : ℕ
  pub content_hash : String

pub record KnowledgeFrontier : Type 0 where
  pub known : List ContextRef
  pub unknown : List ContextRef
  pub unnecessary : List ContextRef

abbrev pub empty_frontier : KnowledgeFrontier
empty_frontier = record { known = []; unknown = []; unnecessary = [] }

unfoldable pub key_of : ContextRef → String
key_of r = str_append r.semantic_id (str_append "\0" r.content_hash)

unfoldable pub keys : List ContextRef → List String
unfolding key_of
keys [] = []
keys (r ∷ rs) = key_of r ∷ keys rs

unfoldable pub without : List ContextRef → List String → List ContextRef
unfolding key_of
without refs remove = filter (λ r. not (includes remove (key_of r))) refs

-- the references whose keys are not seen yet, each key once
unfoldable pub unseen : List String → List ContextRef → List ContextRef
unfolding key_of
unseen seen [] = []
unseen seen (r ∷ rs) =
    let skipped = unseen seen rs in
    let kept = unseen (key_of r ∷ seen) rs in if includes seen (key_of r) then skipped else r ∷ kept

unfoldable pub add_refs : List ContextRef → List ContextRef → List ContextRef
unfolding unseen keys
add_refs refs incoming = refs ++ unseen (keys refs) incoming

pub record FrontierUpdate : Type 0 where
  pub learned : List ContextRef
  pub raised : List ContextRef
  pub ruled_out : List ContextRef

unfoldable pub update_frontier : KnowledgeFrontier → FrontierUpdate → KnowledgeFrontier
unfolding without add_refs keys
update_frontier frontier update =
    let known = without (add_refs frontier.known update.learned) (keys update.ruled_out) in
    let unnecessary =
      add_refs (without frontier.unnecessary (keys update.learned)) update.ruled_out in
    record {
      known = known;
      unknown = without (add_refs frontier.unknown update.raised) (keys known ++ keys unnecessary);
      unnecessary = unnecessary;
    }

unfoldable pub is_closed : KnowledgeFrontier → Bool
is_closed frontier = elim frontier.unknown [ [] ↦ true | r ∷ rs ↦ false ]

-- what is settled, and what was ever considered: the two numbers that `closure` divides
unfoldable pub closure : KnowledgeFrontier → ℕ × ℕ
closure frontier =
    let settled = length frontier.known + length frontier.unnecessary in
    let total = settled + length frontier.unknown in
    elim total [ zero ↦ (1, 1) | suc n ↦ (settled, suc n) ]

pub record ContextDelta : Type 0 where
  pub added : List ContextRef
  pub removed : List ContextRef
  pub changed : List (ContextRef × ContextRef)
  pub unchanged : List ContextRef

abbrev pub empty_delta : ContextDelta
empty_delta = record { added = []; removed = []; changed = []; unchanged = [] }

unfoldable pub delta_size : ContextDelta → ℕ
delta_size delta = length delta.added + length delta.removed + length delta.changed

unfoldable pub is_no_op : ContextDelta → Bool
unfolding delta_size
is_no_op delta = elim (delta_size delta) [ zero ↦ true | suc n ↦ false ]

-- `map.get(id)`
unfoldable pub ref_of : List ContextRef → String → Option ContextRef
ref_of [] id = none
ref_of (r ∷ rs) id =
    let later = ref_of rs id in
    if is_some later then later else if str_eq r.semantic_id id then some r else none

-- `map.set(ref.semanticId, ref)` for each reference
unfoldable pub set_ref : ContextRef → List ContextRef → List ContextRef
set_ref r [] = r ∷ []
set_ref r (s ∷ rs) =
    let rest = set_ref r rs in if str_eq s.semantic_id r.semantic_id then r ∷ rs else s ∷ rest

unfoldable pub index_from : List ContextRef → List ContextRef → List ContextRef
unfolding set_ref
index_from entries [] = entries
index_from entries (r ∷ rs) = index_from (set_ref r entries) rs

-- the first loop of `diffProjections`
unfoldable pub compare_with : List ContextRef → ContextDelta → List ContextRef → ContextDelta
unfolding ref_of
compare_with before delta [] = delta
compare_with before delta (r ∷ rs) = elim (ref_of before r.semantic_id) [
  | none ↦ compare_with before (record delta { added = delta.added ++ r ∷ [] }) rs
  | some previous ↦
      compare_with before
        (if not (str_eq previous.content_hash r.content_hash)
          then record delta { changed = delta.changed ++ (previous, r) ∷ [] }
          else record delta { unchanged = delta.unchanged ++ r ∷ [] })
        rs
]

unfoldable pub diff_projections : List ContextRef → List ContextRef → ContextDelta
unfolding index_from compare_with ref_of
diff_projections before after =
    let before_by_id = index_from [] before in
    let after_by_id = index_from [] after in
    let delta = compare_with before_by_id empty_delta after_by_id in
    record delta {
      removed =
          filter (λ (r : ContextRef). not (is_some (ref_of after_by_id r.semantic_id)))
            before_by_id;
    }

abbrev changed_line : ContextRef × ContextRef → String
changed_line (from, to) =
    str_append "  changed: "
      (str_append to.semantic_id " — re-read it, what you were told is out of date")

unfoldable pub render_delta : ContextDelta → String
unfolding is_no_op
render_delta delta =
    if is_no_op delta
    then ""
    else join "\n" (
        "Context changes since your last message:"
        ∷ (map changed_line delta.changed
            ++ (map (λ (r : ContextRef). str_append "  added: " r.semantic_id) delta.added
                ++ map (λ (r : ContextRef). str_append "  no longer relevant: " r.semantic_id)
                    delta.removed)))
