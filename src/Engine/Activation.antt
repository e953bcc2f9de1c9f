-- ===== src/Engine/Activation.antt =====
-- How a completed node moves the iteration on: `advanceWorkflow`, `tryActivate` and `cascadeSkip`
-- of workflow-engine.service.ts. The nodes are those of `normalizeNodesJson`,
-- which every caller passes.
use digital_thread.Shared.{
  ℕ, zero, suc, String, Bool, true, false, not, ◌&&◌, Option, none, some, List, [], ◌∷◌, ◌++◌, ◌==◌,
  if◌then◌else◌, get_or, any, all, find, count, length, includes,
}
use digital_thread.Shared.Assoc.{insert, merge}
use digital_thread.Flow.{
  NodeKind, gateway, FlowNodeDef, FlowEdge, NodeInputStatusesMap, NodeOutputsMap,
}
use digital_thread.Engine.Store.{
  NodeStatus, idle, pending, running, completed, error, skipped, parsed, column_or, Message,
  gateway_passed, gateway_blocked, predecessor_error, cascaded_skip, NodeState, Extra, no_extra,
  Action, out_of_fuel, M, ◌>>=◌, ◌>>◌, return, throw, rows, clock, for_each, find_state, status_in,
  update_row, is_idle, is_error,
}
use digital_thread.Engine.Status.{update_node_status, add_timeline_event, put_outputs}
use digital_thread.Engine.Inputs.{resolve_predecessor_inputs}
use digital_thread.Engine.Completion.{check_iteration_complete}
use digital_thread.Engine.Gateway.{evaluate_gateway, file_inputs, files_pass, forward}

unfoldable pub targets_of : String → List FlowEdge → List String
targets_of id [] = []
targets_of id (e ∷ es) =
    let rest = targets_of id es in if e.source == id then e.target ∷ rest else rest

unfoldable pub sources_of : String → List FlowEdge → List String
sources_of id [] = []
sources_of id (e ∷ es) =
    let rest = sources_of id es in if e.target == id then e.source ∷ rest else rest

-- `stateMap[p] ?? 'IDLE'`
unfoldable pub status_or_idle : List NodeState → String → NodeStatus
status_or_idle states p = get_or (status_in states p) idle

-- `prereqStatuses`: an object, so that an edge drawn twice counts once
unfoldable pub prereq_statuses :
    List NodeState → List (String × NodeStatus) → List String → List (String × NodeStatus)
prereq_statuses states acc [] = acc
prereq_statuses states acc (p ∷ ps) =
    prereq_statuses states (insert p (status_or_idle states p) acc) ps

abbrev pub is_live : NodeStatus → Bool
is_live idle = true
is_live pending = true
is_live running = true
is_live completed = false
is_live error = false
is_live skipped = false

unfoldable pub still_running : List NodeState → List String → Bool
still_running states ps = any (λ p. is_live (status_or_idle states p)) ps

-- COMPLETED or SKIPPED.
abbrev pub is_ok : Option NodeStatus → Bool
is_ok (some completed) = true
is_ok (some skipped) = true
is_ok (some idle) = false
is_ok (some pending) = false
is_ok (some running) = false
is_ok (some error) = false
is_ok none = false

abbrev pub is_gateway : NodeKind → Bool
is_gateway gateway = true
is_gateway NodeKind.trigger = false
is_gateway NodeKind.task = false

unfoldable pub find_node : String → List FlowNodeDef → Option FlowNodeDef
find_node id nodes = find (λ n. n.id == id) nodes

abbrev pub finished_now : ℕ → Message → Extra
finished_now now message = record no_extra { completed_at = some now; log = some message }

abbrev pub passed_now : ℕ → Message → Extra
passed_now now message = record no_extra {
  started_at = some now;
  completed_at = some now;
  log = some message;
}

abbrev pub put_input_statuses : NodeInputStatusesMap → NodeState → NodeState
put_input_statuses m s = record s { input_file_statuses = parsed m }

-- An update that is made only of a map with an entry.
abbrev pub forward_outputs : String → NodeOutputsMap → M (Unit {0})
forward_outputs id [] = return tt
forward_outputs id (o ∷ os) = update_row id (put_outputs (o ∷ os))

-- `fileInputs.length ? ` — forwarded n input(s)` : ''`
abbrev pub forwarded_count : {A : Type 0} → List A → NodeOutputsMap → Option ℕ
forwarded_count [] m = none
forwarded_count (i ∷ is) m = some (length m)

abbrev pub merge_into : Option NodeState → NodeInputStatusesMap → NodeInputStatusesMap
merge_into none m = m
merge_into (some s) m = merge (column_or [] s.input_file_statuses) m

abbrev pub store_resolved : String → Option NodeState → NodeInputStatusesMap → M (Unit {0})
store_resolved id current [] = return tt
store_resolved id current (i ∷ is) =
    update_row id (put_input_statuses (merge_into current (i ∷ is)))

-- The inputs are resolved before the node becomes PENDING.
unfoldable pub open_task : Option NodeState → FlowNodeDef → String → M (Unit {0})
open_task snapshot target id = do
  current ← rows
  store_resolved id snapshot (resolve_predecessor_inputs current target)
  update_node_status id pending no_extra

-- A gateway leaves IDLE before the recursive calls, so the IDLE rows are fuel enough.
unfoldable pub activation_fuel : List NodeState → ℕ
activation_fuel states = suc (count (λ s. is_idle (some s.status)) states)

module _ (edges : List FlowEdge) where
  -- A node that is not yet visited: it is skipped if it is IDLE, and then its successors are queued.
  -- `loop` is the rest of the loop, over what is visited and the queue.
  unfoldable pub cascade_visit :
      (List String → List String → M (Unit {0}))
      → List String
      → String
      → List String
      → Bool
      → M (Unit {0})
  cascade_visit loop visited id queue true = do
    now ← clock
    update_node_status id skipped (finished_now now cascaded_skip)
    loop (id ∷ visited) (queue ++ targets_of id edges)
  cascade_visit loop visited id queue false = loop (id ∷ visited) queue

  unfoldable pub cascade_step :
      (List String → List String → M (Unit {0}))
      → List String
      → String
      → List String
      → Bool
      → M (Unit {0})
  cascade_step loop visited id queue true r = loop visited queue r
  cascade_step loop visited id queue false r =
      cascade_visit loop visited id queue (is_idle (status_in r.states id)) r

  -- The `while (queue.length)` loop of `cascadeSkip`.
  unfoldable pub cascade_loop : ℕ → List String → List String → M (Unit {0})
  cascade_loop fuel visited [] = return tt
  cascade_loop zero visited (id ∷ queue) = throw out_of_fuel
  cascade_loop (suc fuel) visited (id ∷ queue) =
      cascade_step (cascade_loop fuel) visited id queue (includes visited id)

  -- Every edge is queued at most once, so the edges are fuel enough.
  unfoldable pub cascade_skip : String → M (Unit {0})
  cascade_skip id = cascade_loop (length edges) (id ∷ []) (targets_of id edges)

  -- The end of the gateway branch; `self` is the recursive call.
  unfoldable pub conclude_gateway :
      (String → M (Unit {0})) → FlowNodeDef → String → String → Bool → NodeOutputsMap → M (Unit {0})
  conclude_gateway self target id logic true forwarded = do
    forward_outputs id forwarded
    now ← clock
    update_node_status id completed (
        passed_now now
          (gateway_passed target.name logic (forwarded_count (file_inputs target) forwarded)))
    add_timeline_event id target.name "System" Action.gateway_passed logic
    for_each self (targets_of id edges)
  conclude_gateway self target id logic false forwarded = do
    now ← clock
    update_node_status id skipped (finished_now now (gateway_blocked target.name logic))
    add_timeline_event id target.name "System" Action.gateway_blocked logic
    cascade_skip id

  -- A gateway with bound inputs looks at the files that it received.
  unfoldable pub file_gate : (String → M (Unit {0})) → FlowNodeDef → String → String → M (Unit {0})
  file_gate self target id logic = do
    current ← rows
    let resolved = resolve_predecessor_inputs current target
    let passes = files_pass logic resolved target.inputs
    update_row id (put_input_statuses resolved)
    conclude_gateway self target id logic passes
        (if passes then forward resolved [] target.inputs else [])

  unfoldable pub settle_gateway :
      (String → M (Unit {0})) → List NodeState → FlowNodeDef → String → M (Unit {0})
  settle_gateway self states target id =
      let logic = get_or target.gateway "AND" in
      elim (file_inputs target) [
        | [] ↦
            conclude_gateway self target id logic
              (evaluate_gateway target (prereq_statuses states [] (sources_of id edges))) []
        | i ∷ is ↦ file_gate self target id logic
      ]

  -- A predecessor in ERROR: skip the node and what follows it.
  unfoldable pub skip_task : String → M (Unit {0})
  skip_task id = do
    now ← clock
    update_node_status id skipped (finished_now now predecessor_error)
    cascade_skip id

  unfoldable pub settle_task : List NodeState → FlowNodeDef → String → M (Unit {0})
  settle_task states target id =
      let prereqs = sources_of id edges in
      if all (λ p. is_ok (status_in states p)) prereqs
      then if any (λ p. is_error (status_in states p)) prereqs
        then skip_task id
        else open_task (find_state id states) target id
      else return tt

  -- `tryActivate` after its reads: `states` is the snapshot that the conditions look at.
  unfoldable pub consider :
      (String → M (Unit {0})) → List NodeState → Option FlowNodeDef → String → M (Unit {0})
  consider self states none id = return tt
  consider self states (some target) id =
      if is_idle (status_in states id) && not (still_running states (sources_of id edges))
      then if is_gateway target.kind
        then settle_gateway self states target id
        else settle_task states target id
      else return tt

  module _ (nodes : List FlowNodeDef) where
    unfoldable pub try_activate : ℕ → String → M (Unit {0})
    try_activate zero id = throw out_of_fuel
    try_activate (suc fuel) id = do
      states ← rows
      consider (try_activate fuel) states (find_node id nodes) id

    unfoldable pub advance_workflow : String → M (Unit {0})
    advance_workflow id = do
      states ← rows
      for_each (try_activate (activation_fuel states)) (targets_of id edges)
      check_iteration_complete nodes
