-- ===== src/Iterations/Successors.antt =====
-- `collectSuccessors` of iterations.service.ts: the nodes that can be reached from one.
use digital_thread.Shared.{
  ℕ, zero, suc, String, true, false, Option, none, some, List, [], ◌∷◌, ◌++◌, length, includes,
}
use digital_thread.Flow.{FlowEdge}
use digital_thread.Engine.Activation.{targets_of}

module _ (edges : List FlowEdge) where
  -- The `while (queue.length)` loop, `none` where the fuel runs out. `visited` has the last one first.
  unfoldable pub collect_loop : ℕ → List String → List String → Option (List String)
  collect_loop fuel visited [] = some visited
  collect_loop zero visited (id ∷ queue) = none
  collect_loop (suc fuel) visited (id ∷ queue) = elim (includes visited id) [
    | true ↦ collect_loop fuel visited queue
    | false ↦ collect_loop fuel (id ∷ visited) (queue ++ targets_of id edges)
  ]

  -- Every edge is queued at most once.
  unfoldable pub collect_successors : String → Option (List String)
  collect_successors start = collect_loop (suc (length edges)) [] (start ∷ [])
