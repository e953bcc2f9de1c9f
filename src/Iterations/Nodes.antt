-- ===== src/Iterations/Nodes.antt =====
-- The operations on a node of iterations.service.ts: `getNodeState`, `claimNode`, `completeNode`,
-- `repair` and `setInputFile`. The nodes and edges are those of `loadIterationFlow`, the workflow
-- frozen for the iteration.
use digital_thread.Shared.{
  ℕ, suc, String, Bool, true, false, not, ◌&&◌, ◌||◌, Option, none, some, List, [], ◌∷◌, ◌==◌,
  if◌then◌else◌, is_some, truthy, any, filter,
}
use digital_thread.Shared.Assoc.{lookup, insert}
use digital_thread.Flow.{
  NodeOutputDef, FlowNodeDef, FlowEdge, NodeOutputsMap, NodeInputStatus, ResolvedFrom,
}
use digital_thread.Engine.Store.{
  NodeStatus, idle, pending, running, completed, error, skipped, NodeState, Extra, no_extra,
  not_found, bad_request, ok, err, M, ◌>>=◌, ◌>>◌, return, throw, rows, clock, find_state,
  update_row, column_or, is_idle, is_completed,
}
use digital_thread.Engine.Status.{update_node_status}
use digital_thread.Engine.Inputs.{has_files}
use digital_thread.Engine.Activation.{
  targets_of, status_or_idle, find_node, advance_workflow, put_input_statuses,
}
use digital_thread.Iterations.Status.{find_one}

unfoldable pub get_node_state : String → M NodeState
get_node_state id r = elim (find_state id r.states) [
  | none ↦ (err not_found, r)
  | some s ↦ (ok s, r)
]

abbrev pub is_pending : NodeStatus → Bool
is_pending pending = true
is_pending idle = false
is_pending running = false
is_pending completed = false
is_pending error = false
is_pending skipped = false

abbrev pub is_running : NodeStatus → Bool
is_running running = true
is_running idle = false
is_running pending = false
is_running completed = false
is_running error = false
is_running skipped = false

-- `if (!ok) throw new BadRequestException(…)`
abbrev pub require : Bool → M (Unit {0})
require true = return tt
require false = throw bad_request

abbrev pub claimed_now : ℕ → String → Extra
claimed_now now by = record no_extra { started_at = some now; claimed_by = some by }

unfoldable pub claim_node : String → String → M (Unit {0})
claim_node id by = do
  state ← get_node_state id
  require (is_pending state.status)
  now ← clock
  update_node_status id running (claimed_now now by)

-- A required output with no file; the legacy path stands for the file of `default`.
unfoldable pub is_missing : NodeOutputsMap → Bool → NodeOutputDef → Bool
is_missing outputs has_path o =
    (o.required && not (has_files (lookup o.id outputs))) && not (o.id == "default" && has_path)

unfoldable pub missing_outputs : NodeState → Option String → FlowNodeDef → List NodeOutputDef
missing_outputs state path target =
    filter
      (is_missing (column_or [] state.outputs)
        (is_some (truthy path) || is_some (truthy state.output_file_path)))
      target.outputs

abbrev pub is_empty : {A : Type 0} → List A → Bool
is_empty [] = true
is_empty (x ∷ xs) = false

abbrev pub has_outputs : NodeState → Option String → Option FlowNodeDef → Bool
has_outputs state path none = true
has_outputs state path (some target) = is_empty (missing_outputs state path target)

-- `try { await m } catch { log }`: what `m` wrote stays.
abbrev pub attempt : M (Unit {0}) → M (Unit {0})
attempt m r = (ok tt, (m r).1)

abbrev pub done_now : ℕ → Option String → Extra
done_now now path = record no_extra { completed_at = some now; output_file_path = path }

-- `setInputFile` takes a path or the ids of files.
pub data FileRef : Type 0 where
  at_path : String → FileRef
  of_files : List String → FileRef

abbrev pub input_status : FileRef → NodeInputStatus
input_status (at_path p) = record {
  provided = true;
  resolved_from = some ResolvedFrom.manual;
  file_ids = none;
  file_path = truthy (some p);
}
input_status (of_files fs) = record {
  provided = true;
  resolved_from = some ResolvedFrom.manual;
  file_ids = if is_empty fs then none else some fs;
  file_path = none;
}

unfoldable pub set_input_file : String → String → FileRef → M NodeState
set_input_file id input file = do
  state ← get_node_state id
  update_row id (
      put_input_statuses
        (insert input (input_status file) (column_or [] state.input_file_statuses)))
  get_node_state id

module _ (edges : List FlowEdge) (nodes : List FlowNodeDef) where
  -- The part of `completeNode` that may refuse.
  unfoldable pub complete_guard : String → Option String → M NodeState
  complete_guard id path = do
    find_one nodes
    state ← get_node_state id
    require (is_running state.status)
    require (has_outputs state path (find_node id nodes))
    return state

  unfoldable pub complete_node : String → Option String → M NodeState
  complete_node id path = do
    state ← complete_guard id path
    now ← clock
    update_node_status id completed (done_now now path)
    attempt (advance_workflow edges nodes id)
    get_node_state id

  -- `hasIdleSuccessor`, by the statuses read at the start
  unfoldable pub needs_repair : List NodeState → NodeState → Bool
  needs_repair states s =
      is_completed s.status
      && any (λ t. is_idle (some (status_or_idle states t))) (targets_of s.node_id edges)

  unfoldable pub repair_loop : List NodeState → List NodeState → ℕ → M ℕ
  repair_loop states [] advanced = return advanced
  repair_loop states (s ∷ ss) advanced =
      if needs_repair states s
      then advance_workflow edges nodes s.node_id >> repair_loop states ss (suc advanced)
      else repair_loop states ss advanced

  unfoldable pub repair : M ℕ
  repair = do
    find_one nodes
    states ← rows
    advanced ← repair_loop states states 0
    find_one nodes
    return advanced
