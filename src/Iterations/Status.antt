-- ===== src/Iterations/Status.antt =====
-- `reconcileIterationStatus` of iterations.service.ts, which `findOne` runs before it reads: the
-- status of the iteration is derived anew from the nodes.
use digital_thread.Shared.{
  ℕ, String, Bool, true, false, Option, none, some, List, [], ◌∷◌, if◌then◌else◌, or_else, any, all,
  map,
}
use digital_thread.Json.{Json, get_field, as_string}
use digital_thread.Normalize.Coerce.{as_array}
use digital_thread.Flow.{FlowNodeDef}
use digital_thread.Engine.Store.{
  Column, absent, malformed, parsed, idle, NodeStatus, IterationStatus, draft, failed, NodeState,
  Run, M, return, is_terminal, is_error,
}
use digital_thread.Engine.Activation.{status_or_idle}

-- The ids of the snapshot's nodes.
abbrev pub node_ids : List FlowNodeDef → List String
node_ids [] = []
node_ids (n ∷ ns) = n.id ∷ node_ids ns

-- `n.id` of a stored node, where it is a text: a value of any other type is no key of the `Map` of
-- statuses.
abbrev pub stored_id : Json → Option String
stored_id n = as_string (get_field "id" n)

-- The same of nodes whose stored ids are texts.
abbrev pub text_ids : List FlowNodeDef → List (Option String)
text_ids nodes = map some (node_ids nodes)

-- `stateByNodeId.get(n.id) ?? 'IDLE'`
abbrev pub stored_status : List NodeState → Option String → NodeStatus
stored_status states none = idle
stored_status states (some id) = status_or_idle states id

abbrev pub same_status : IterationStatus → IterationStatus → Bool
same_status draft draft = true
same_status IterationStatus.running IterationStatus.running = true
same_status IterationStatus.completed IterationStatus.completed = true
same_status failed failed = true
same_status _ _ = false

unfoldable pub derived_status : List (Option String) → List NodeState → IterationStatus
derived_status ids states =
    if all (λ id. is_terminal (some (stored_status states id))) ids
    then if any (λ id. is_error (some (stored_status states id))) ids
      then failed
      else IterationStatus.completed
    else IterationStatus.running

-- `completedAt` is cleared on the way back to RUNNING, and set once otherwise.
abbrev pub reconciled_time : IterationStatus → Option ℕ → ℕ → Option ℕ
reconciled_time IterationStatus.running t now = none
reconciled_time draft t now = or_else t (some now)
reconciled_time IterationStatus.completed t now = or_else t (some now)
reconciled_time failed t now = or_else t (some now)

abbrev pub set_status : IterationStatus → Run → Run
set_status st r = record r { status = st; completed_at = reconciled_time st r.completed_at r.now }

-- `none` stands for a snapshot that is missing, does not parse or is no array.
unfoldable pub reconcile : Option (List (Option String)) → M (Unit {0})
reconcile none r = return tt r
reconcile (some []) r = return tt r
reconcile (some (id ∷ ids)) r =
    let derived = derived_status (id ∷ ids) r.states in
    if same_status r.status derived then return tt r else return tt (set_status derived r)

abbrev pub stored_ids : Option (List Json) → Option (List (Option String))
stored_ids none = none
stored_ids (some ns) = some (map stored_id ns)

-- `reconcileIterationStatus` over the column of the snapshot, of nodes that are objects.
unfoldable pub reconcile_iteration_status : Column Json → M (Unit {0})
reconcile_iteration_status absent = reconcile none
reconcile_iteration_status malformed = reconcile none
reconcile_iteration_status (parsed v) = reconcile (stored_ids (as_array (some v)))

-- `findOne`, as far as it changes the iteration, where the stored id of each node is a text: it then
-- reads the ids that the engine has after `String(id)`.
unfoldable pub find_one : List FlowNodeDef → M (Unit {0})
find_one nodes = reconcile (some (text_ids nodes))
