-- ===== src/ExecutionGraph/Ready.antt =====
-- Ready and blocked.
use cherry_on_top.Base.{◌≡◌, ◌≢◌, ◌↔◌, String, true, false, none, List, [], ◌∷◌, all, length, arith}
use cherry_on_top.ExecutionGraph.{
  running, ExecutionNode, is_terminal, is_settled, by_id, is_ready, unfinished, block_reason,
}

settled_iff :
    (graph : List ExecutionNode) (ids : List String)
    → (all (λ id. is_settled (by_id graph id)) ids ≡ true) ↔ (length (unfinished graph ids) ≡ 0)
settled_iff graph [] = ground arith
settled_iff graph (id ∷ ids) = ground (arith, settled_iff graph ids)

-- A node that has not ended and is not running is ready exactly when it is not reported as
-- blocked; a node that has ended is neither, and a running node is not ready.
pub ready_or_blocked :
    (graph : List ExecutionNode) (node : ExecutionNode)
    → (is_terminal node.state ≡ false
        → node.state ≢ running
        → (is_ready graph node ≡ true) ↔ (block_reason graph node ≡ none))
      × ((is_terminal node.state ≡ true
            → (is_ready graph node ≡ false) × (block_reason graph node ≡ none))
          × (node.state ≡ running → is_ready graph node ≡ false))
unfolding is_ready block_reason
ready_or_blocked graph node = (
  λ h k. ground (arith, settled_iff graph node.dependencies),
  (λ h. ground arith, λ h. ground arith),
)
