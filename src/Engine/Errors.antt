-- ===== src/Engine/Errors.antt =====
-- What a predecessor in ERROR does to a task.
use digital_thread.Shared.{
  ℕ, suc, String, ◌≡◌, refl, true, false, some, List, [], ◌∷◌, arith, eq_iff, all, any, includes,
  inl, inr, Bool-cases, if◌then◌else◌,
}
use digital_thread.Flow.{FlowNodeDef, FlowEdge}
use digital_thread.Engine.Store.{error, NodeState, Run, ok, status_in, is_error, find_state, return}
use digital_thread.Engine.Activation.{
  sources_of, is_ok, is_gateway, find_node, open_task, settle_task, consider, try_activate,
}

not_all_ok :
    (states : List NodeState) (ps : List String) (p : String)
    → includes ps p ≡ true
    → status_in states p ≡ some error
    → all (λ x. is_ok (status_in states x)) ps ≡ false
not_all_ok states [] p h e = cc
not_all_ok states (q ∷ ps) p h e = ground (arith, not_all_ok states ps p, eq_iff q p)

no_error :
    (states : List NodeState) (ps : List String)
    → all (λ x. is_ok (status_in states x)) ps ≡ true
    → any (λ x. is_error (status_in states x)) ps ≡ false
no_error states [] h = refl
no_error states (p ∷ ps) h = ground (arith, no_error states ps)

module _ (edges : List FlowEdge) where
  -- The branch of `tryActivate` that skips a node behind an ERROR is never taken: a task is opened
  -- if its predecessors are all COMPLETED or SKIPPED, and is left alone otherwise.
  pub settle_task_lem :
      (states : List NodeState) (target : FlowNodeDef) (id : String)
      → settle_task edges states target id ≡ (
          if all (λ p. is_ok (status_in states p)) (sources_of id edges)
          then open_task (find_state id states) target id
          else return tt)
  unfolding settle_task
  settle_task_lem states target id =
      elim (Bool-cases (all (λ p. is_ok (status_in states p)) (sources_of id edges))) [
        | inl every ↦ rw (every, no_error states (sources_of id edges) every)
        | inr some_not ↦ rw some_not
      ]

  -- A task with a predecessor in ERROR is neither opened nor skipped: trying to activate it does
  -- nothing at all.
  pub try_activate_error :
      (nodes : List FlowNodeDef) (fuel : ℕ) (id p : String) (target : FlowNodeDef) (r : Run)
      → find_node id nodes ≡ some target
      → is_gateway target.kind ≡ false
      → includes (sources_of id edges) p ≡ true
      → status_in r.states p ≡ some error
      → try_activate edges nodes (suc fuel) id r ≡ (ok tt, r)
  unfolding try_activate consider
  try_activate_error nodes fuel id p target r found task pred e = ground (
    arith,
    found,
    settle_task_lem r.states target id,
    not_all_ok r.states (sources_of id edges) p pred e,
  )
