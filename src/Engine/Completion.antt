-- ===== src/Engine/Completion.antt =====
-- `checkIterationComplete` of workflow-engine.service.ts: when an iteration ends, and how.
use digital_thread.Shared.{
  Bool, true, false, ◌≡◌, ◌⊎◌, ◌++◌, ◌∷◌, [], arith, some, List, if◌then◌else◌, all, any,
}
use digital_thread.Flow.{FlowNodeDef}
use digital_thread.Engine.Store.{
  IterationStatus, failed, NodeState, generate_manifest, iteration_status, M, Run, ok, emit, ◌>>◌,
  return, status_in, is_terminal, is_error,
}

unfoldable pub all_terminal : List FlowNodeDef → List NodeState → Bool
all_terminal nodes states = all (λ n. is_terminal (status_in states n.id)) nodes

unfoldable pub any_error : List FlowNodeDef → List NodeState → Bool
any_error nodes states = any (λ n. is_error (status_in states n.id)) nodes

unfoldable pub final_status : List FlowNodeDef → List NodeState → IterationStatus
final_status nodes states = if any_error nodes states then failed else IterationStatus.completed

-- The manifest service runs by itself, and its failure is logged.
abbrev pub request_manifest : IterationStatus → M (Unit {0})
request_manifest IterationStatus.completed = emit generate_manifest
request_manifest IterationStatus.draft = return tt
request_manifest IterationStatus.running = return tt
request_manifest failed = return tt

-- `prisma.iteration.update` with the final status
abbrev pub end_iteration : IterationStatus → M (Unit {0})
end_iteration st r = (ok tt, record r { status = st; completed_at = some r.now })

unfoldable pub finish : IterationStatus → M (Unit {0})
finish st = do end_iteration st; request_manifest st; emit (iteration_status st)

unfoldable pub check_iteration_complete : List FlowNodeDef → M (Unit {0})
check_iteration_complete nodes r =
    if all_terminal nodes r.states then finish (final_status nodes r.states) r else return tt r

-- It neither touches the rows nor throws.
pub check_iteration_complete_quiet :
    (nodes : List FlowNodeDef) (r : Run)
    → ((check_iteration_complete nodes r).0 ≡ ok tt)
      × ((check_iteration_complete nodes r).1.states ≡ r.states)
unfolding check_iteration_complete finish
check_iteration_complete_quiet nodes r = ground arith

-- What `checkIterationComplete` does: with every node of the workflow terminal the iteration is
-- FAILED if some node is in ERROR and COMPLETED otherwise, it ends now, the manifest is asked for
-- exactly if it is COMPLETED, and the status is broadcast last; else nothing changes.
pub check_iteration_complete_lem :
    (nodes : List FlowNodeDef) (r : Run)
    → let r' = (check_iteration_complete nodes r).1 in
      ((all_terminal nodes r.states ≡ false) × (r' ≡ r))
      ⊎ ((all_terminal nodes r.states ≡ true)
          × (any_error nodes r.states ≡ true)
          × (r'.status ≡ failed)
          × (r'.completed_at ≡ some r.now)
          × (r'.states ≡ r.states)
          × (r'.effects ≡ r.effects ++ iteration_status failed ∷ []))
      ⊎ ((all_terminal nodes r.states ≡ true)
          × (any_error nodes r.states ≡ false)
          × (r'.status ≡ IterationStatus.completed)
          × (r'.completed_at ≡ some r.now)
          × (r'.states ≡ r.states)
          × (r'.effects
              ≡ (r.effects ++ generate_manifest ∷ [])
                ++ iteration_status IterationStatus.completed ∷ []))
unfolding check_iteration_complete finish final_status
check_iteration_complete_lem nodes r = ground arith
