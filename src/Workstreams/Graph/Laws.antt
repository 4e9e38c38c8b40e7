-- ===== src/Workstreams/Graph/Laws.antt =====
-- Sorting and normalising keep the nodes; the meaning of an edge and of a conflict.
use mathlib.Core.List.{Memᴰ}
use mathlib.Core.List.Memᴰ
use mathlib.Core.Bool.{false≢true}
use text.Mathlib.TextEquality.{eq_iff}
use text.Mathlib.TextPositions.{eq_refl}
use cherry_on_top.Base.{
  suc, ◌≤◌, ◌<◌, ◌≡◌, refl, sym, ◌∙◌, ap, ◌≢◌, String, true, false, none, List, [], ◌∷◌, map,
  length, filter, includes, arith, occurrences, includes_iff-occurrences, includes-unique,
  includes-filter,
}
use cherry_on_top.Workstreams.Graph.{
  WorkstreamNode, ids, edges, is_required, prerequisites, normalize, waits_of, overlap,
  conflict_between, insert_node, sort_nodes, prepare,
}

occurrences-insert_node :
    (x : String) (n : WorkstreamNode) (ms : List WorkstreamNode)
    → occurrences x (ids (insert_node n ms)) ≡ occurrences x (ids (n ∷ ms))
unfolding insert_node
occurrences-insert_node x n [] = refl
occurrences-insert_node x n (m ∷ ms) = ground (arith, occurrences-insert_node x n ms)

pub occurrences-sort_nodes :
    (x : String) (ns : List WorkstreamNode)
    → occurrences x (ids (sort_nodes ns)) ≡ occurrences x (ids ns)
unfolding sort_nodes
occurrences-sort_nodes x [] = refl
occurrences-sort_nodes x (n ∷ ns) =
    ground (arith, occurrences-sort_nodes x ns, occurrences-insert_node x n (sort_nodes ns))

ids-normalize : (ns : List WorkstreamNode) → ids (map normalize ns) ≡ ids ns
unfolding normalize
ids-normalize [] = refl
ids-normalize (n ∷ ns) = ap (λ is. n.id ∷ is) (ids-normalize ns)

-- the plan's nodes have the ids that the caller gave, each as often
pub occurrences-prepare :
    (x : String) (ns : List WorkstreamNode)
    → occurrences x (ids (prepare ns)) ≡ occurrences x (ids ns)
unfolding prepare
occurrences-prepare x ns =
    occurrences-sort_nodes x (map normalize ns) ∙ ap (occurrences x) (ids-normalize ns)

length-insert_node :
    (n : WorkstreamNode) (ms : List WorkstreamNode) → length (insert_node n ms) ≡ suc (length ms)
unfolding insert_node
length-insert_node n [] = refl
length-insert_node n (m ∷ ms) = ground (arith, length-insert_node n ms)

pub length-prepare : (ns : List WorkstreamNode) → length (prepare ns) ≡ length ns
unfolding prepare sort_nodes
length-prepare [] = refl
length-prepare (n ∷ ns) =
    length-insert_node (normalize n) (sort_nodes (map normalize ns)) ∙ ap suc (length-prepare ns)

-- no two nodes have one id
abbrev pub IsDistinct : List WorkstreamNode → Type 0
IsDistinct nodes = (x : String) → occurrences x (ids nodes) ≤ 1

pub occurrences-pos_of_mem :
    {a : WorkstreamNode} {ns : List WorkstreamNode} → Memᴰ a ns → 0 < occurrences a.id (ids ns)
occurrences-pos_of_mem {a} (Memᴰ.head {xs = rest} e) = rw (← e) (ground (arith, eq_refl a.id))
occurrences-pos_of_mem (Memᴰ.tail m) = ground (arith, occurrences-pos_of_mem m)

pub includes_of_mem :
    {a : WorkstreamNode} {ns : List WorkstreamNode} → Memᴰ a ns → includes (ids ns) a.id ≡ true
includes_of_mem {a} {ns} m = (includes_iff-occurrences a.id (ids ns)).1 (occurrences-pos_of_mem m)

-- the id of the first node is not met again
head_fresh :
    {a : WorkstreamNode} (n : WorkstreamNode) (ns : List WorkstreamNode)
    → IsDistinct (n ∷ ns)
    → Memᴰ a ns
    → n.id ≢ a.id
head_fresh {a} n ns d m e =
    let again : 0 < occurrences a.id (ids ns) = occurrences-pos_of_mem m in
    let once : occurrences a.id (ids (n ∷ ns)) ≤ 1 = d a.id in ground (arith, eq_iff n.id a.id)

pub IsDistinct-tail :
    (n : WorkstreamNode) (ns : List WorkstreamNode) → IsDistinct (n ∷ ns) → IsDistinct ns
IsDistinct-tail n ns d x = ground (arith, d x)

-- a node is known by its id
pub eq_of_id :
    {a b : WorkstreamNode} (ns : List WorkstreamNode)
    → IsDistinct ns
    → Memᴰ a ns
    → Memᴰ b ns
    → a.id ≡ b.id
    → a ≡ b
eq_of_id [] d p q e = absurd (Memᴰ.not-nil p)
eq_of_id (n ∷ ns) d (Memᴰ.head p) (Memᴰ.head q) e = p ∙ sym q
eq_of_id (n ∷ ns) d (Memᴰ.head p) (Memᴰ.tail q) e =
    absurd (head_fresh n ns d q (ap (λ (m : WorkstreamNode). m.id) (sym p) ∙ e))
eq_of_id (n ∷ ns) d (Memᴰ.tail p) (Memᴰ.head q) e =
    absurd (head_fresh n ns d p (ap (λ (m : WorkstreamNode). m.id) (sym q) ∙ sym e))
eq_of_id (n ∷ ns) d (Memᴰ.tail p) (Memᴰ.tail q) e = eq_of_id ns (IsDistinct-tail n ns d) p q e

-- no conflict is found exactly when no path is written by both
pub conflict_between-none :
    (a b : WorkstreamNode)
    → conflict_between a b ≡ none
    → (path : String) → includes a.write_paths path ≡ true
    → includes b.write_paths path ≡ false
unfolding conflict_between
conflict_between-none a b e = go (overlap a b) refl
  where
    go :
        (paths : List String)
        → overlap a b ≡ paths
        → (path : String) → includes a.write_paths path ≡ true
        → includes b.write_paths path ≡ false
    go [] same path m =
        let none_shared : includes (overlap a b) path ≡ false = ap (λ ps. includes ps path) same in
        ground (arith, includes-filter (λ p. includes b.write_paths p) a.write_paths path)
    go (p ∷ ps) same path m = cc (rw (same, conflict_between) at e)

waiter_known :
    (known : List String) (id p : String) (es : List (String × String))
    → includes (prerequisites (filter (is_required known id) es)) p ≡ true
    → includes known id ≡ true
unfolding prerequisites is_required
waiter_known known id p [] h = absurd (false≢true h)
waiter_known known id p ((waiter, prerequisite) ∷ es) h =
    ground (arith, waiter_known known id p es, eq_iff waiter id)

-- only a node waits
pub includes-ids-waiter :
    (nodes : List WorkstreamNode) (x p : String)
    → includes (waits_of nodes x) p ≡ true
    → includes (ids nodes) x ≡ true
unfolding waits_of
includes-ids-waiter nodes x p h =
    waiter_known (ids nodes) x p (edges nodes) (
      sym (includes-unique (prerequisites (filter (is_required (ids nodes) x) (edges nodes))) p)
      ∙ h)

pub IsDistinct-cons :
    (n : WorkstreamNode) (ns : List WorkstreamNode)
    → includes (ids ns) n.id ≡ false
    → IsDistinct ns
    → IsDistinct (n ∷ ns)
IsDistinct-cons n ns fresh d x =
    ground (arith, d x, includes_iff-occurrences x (ids ns), eq_iff n.id x)
