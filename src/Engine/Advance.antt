-- ===== src/Engine/Advance.antt =====
-- `tryActivate` and `advanceWorkflow` as a whole.
use digital_thread.Shared.{
  ℕ, zero, suc, String, ◌≡◌, refl, ◌≢◌, Bool, true, false, Option, none, some, List, arith, inl,
  inr, if◌then◌else◌, Bool-cases,
}
use digital_thread.Flow.{FlowNodeDef, FlowEdge}
use digital_thread.Engine.Store.{idle, out_of_fuel, err, M, Run, for_each, is_idle, status_in}
use digital_thread.Engine.Activation.{
  targets_of, sources_of, settle_gateway, still_running, is_gateway, find_node, settle_task,
  consider, try_activate, activation_fuel, advance_workflow,
}
use digital_thread.Engine.Completion.{check_iteration_complete, check_iteration_complete_quiet}
use digital_thread.Engine.Rows.{idle_count}
use digital_thread.Engine.Moves.{Policy, Progress, Progress-refl}
use digital_thread.Engine.Policy.{flow_policy}
use digital_thread.Engine.Outcome.{Good, return-Good, bind-Good, for_each-Good}
use digital_thread.Engine.Cascade.{idle_of_is_idle}
use digital_thread.Engine.Settle.{settle_task-Good, settle_gateway-Good}

check_iteration_complete-Good :
    (pol : Policy) (nodes : List FlowNodeDef) (b : ℕ) (r : Run)
    → Good pol b r (check_iteration_complete nodes r)
check_iteration_complete-Good pol nodes b r =
    let (fine, same) = check_iteration_complete_quiet nodes r in
    record { progress = rw same (Progress-refl pol r.states); enough = λ _ e. cc }

module _ (edges : List FlowEdge) (nodes : List FlowNodeDef) where
  abbrev pol : Policy
  pol = flow_policy edges nodes

  module _ (self : String → M (Unit {0})) (b : ℕ)
      (ih : (id : String) (r : Run) → Good pol b r (self id r)) where
    settle-Good :
        (target : FlowNodeDef) (id : String) (r : Run)
        → find_node id nodes ≡ some target
        → status_in r.states id ≡ some idle
        → still_running r.states (sources_of id edges) ≡ false
        → (kind : Bool) → is_gateway target.kind ≡ kind
        → Good pol (suc b) r (
            (if kind
                then settle_gateway edges self r.states target id
                else settle_task edges r.states target id)
              r)
    settle-Good target id r found was settled true e =
        settle_gateway-Good edges nodes self b ih r.states target id r was
          (inr (inr (refl, (target, found, e), settled)))
    settle-Good target id r found was settled false e =
        settle_task-Good edges nodes target id (suc b) r was (target, found, e)

    consider-Good :
        (o : Option FlowNodeDef) (id : String) (r : Run)
        → find_node id nodes ≡ o
        → Good pol (suc b) r (consider edges self r.states o id r)
    unfolding consider
    consider-Good none id r found = return-Good pol tt (suc b) r
    consider-Good (some target) id r found = elim (Bool-cases (is_idle (status_in r.states id))) [
      | inr busy ↦ rw (busy, consider) (return-Good pol tt (suc b) r)
      | inl was ↦ elim (Bool-cases (still_running r.states (sources_of id edges))) [
        | inl live ↦ rw (was, live, consider) (return-Good pol tt (suc b) r)
        | inr settled ↦
            rw (was, settled, consider)
              (settle-Good target id r found (idle_of_is_idle _ was) settled _ refl)
      ]
    ]

  pub try_activate-Good :
      (fuel : ℕ) (id : String) (r : Run) → Good pol fuel r (try_activate edges nodes fuel id r)
  unfolding try_activate
  try_activate-Good zero id r = record {
    progress = Progress-refl pol r.states;
    enough = λ h. absurd (omega arith);
  }
  try_activate-Good (suc fuel) id r =
      consider-Good (try_activate edges nodes fuel) fuel (try_activate-Good fuel)
        (find_node id nodes) id r refl

  pub advance_workflow-Good :
      (id : String) (r : Run)
      → Good pol (activation_fuel r.states) r (advance_workflow edges nodes id r)
  unfolding advance_workflow
  advance_workflow-Good id r =
      let b = activation_fuel r.states in
      bind-Good pol b (for_each (try_activate edges nodes b) (targets_of id edges)) _ r
        (for_each-Good pol b (try_activate edges nodes b) (targets_of id edges)
          (try_activate-Good b) r)
        (λ _ r' _. check_iteration_complete-Good pol nodes b r')

  -- Whatever the outcome, advancing a workflow leaves each node's status or takes the node from
  -- IDLE to PENDING, COMPLETED or SKIPPED, and makes no node IDLE again. A node that becomes PENDING
  -- is a task of the workflow whose predecessors are all COMPLETED or SKIPPED afterwards, and one
  -- that becomes COMPLETED is a gateway with no predecessor IDLE, PENDING or RUNNING. One that becomes
  -- SKIPPED is a gateway, or a path leads to it from a gateway that is SKIPPED afterwards. The row of a
  -- node that was not IDLE stays as it was.
  pub advance_workflow-Progress :
      (id : String) (r : Run)
      → Progress (flow_policy edges nodes) r.states (advance_workflow edges nodes id r).1.states
  advance_workflow-Progress id r = (advance_workflow-Good id r).progress

  -- Advancing a workflow ends: the fuel, one more than the IDLE rows, never runs out, whatever the
  -- graph.
  pub advance_workflow_total :
      (id : String) (r : Run) → (advance_workflow edges nodes id r).0 ≢ err out_of_fuel
  unfolding activation_fuel idle_count
  advance_workflow_total id r = (advance_workflow-Good id r).enough (omega arith)
