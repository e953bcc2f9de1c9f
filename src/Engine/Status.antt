-- ===== src/Engine/Status.antt =====
-- The row operations of workflow-engine.service.ts: `initNodeStates`, `updateNodeStatus`,
-- `appendLog`, `addTimelineEvent` and `recordNodeOutput`.
use digital_thread.Shared.{
  ℕ, String, Option, none, some, List, [], ◌∷◌, ◌++◌, get_or, or_else, truthy, unique,
}
use digital_thread.Shared.Assoc.{lookup, insert}
use digital_thread.Flow.{FlowNodeDef, NodeOutputsMap, Cardinality, one, many}
use digital_thread.Engine.Store.{
  NodeStatus, idle, completed, Column, absent, malformed, parsed, column_or, Message, text, LogLine,
  NodeState, Extra, Action, TimelineEvent, record_edges, node_status_changed, node_progress,
  node_log, timeline_event, json_error, M, ◌>>=◌, ◌>>◌, return, throw, rows, clock, find_state,
  update_row, emit,
}

-- A row with the defaults of the schema.
abbrev pub idle_row : String → NodeState
idle_row id = record {
  node_id = id;
  status = idle;
  started_at = none;
  completed_at = none;
  logs = parsed [];
  outputs = absent;
  output_file_path = none;
  error_message = none;
  progress = none;
  claimed_by = none;
  input_file_statuses = absent;
  handler_name = none;
  handler_version = none;
  execution_params = none;
  provenance_agent_id = none;
  transformation_label = none;
}

-- `upsert` with an empty update: a row that is there stays.
unfoldable pub init_row : String → List NodeState → List NodeState
init_row id ss = elim (find_state id ss) [ none ↦ ss ++ idle_row id ∷ [] | some s ↦ ss ]

unfoldable pub init_states : List FlowNodeDef → List NodeState → List NodeState
init_states [] ss = ss
init_states (n ∷ ns) ss = init_states ns (init_row n.id ss)

unfoldable pub init_node_states : List FlowNodeDef → M (Unit {0})
init_node_states nodes r = return tt (record r { states = init_states nodes r.states })

-- `current?.logsJson ? JSON.parse(current.logsJson) : []`, outside a `try`
abbrev pub parse_logs : Column (List LogLine) → M (List LogLine)
parse_logs absent = return []
parse_logs malformed = throw json_error
parse_logs (parsed ls) = return ls

abbrev pub logs_of : Option NodeState → M (List LogLine)
logs_of none = return []
logs_of (some s) = parse_logs s.logs

-- The logs with one more line, or nothing to write.
unfoldable pub extend_logs : String → Option Message → M (Option (List LogLine))
extend_logs id none = return none
extend_logs id (some message) = do
  states ← rows
  logs ← logs_of (find_state id states)
  now ← clock
  return (some (logs ++ (now, message) ∷ []))

abbrev pub set_logs : Option (List LogLine) → Column (List LogLine) → Column (List LogLine)
set_logs none old = old
set_logs (some ls) old = parsed ls

-- The fields that an update writes: the status, and what `extra` holds.
unfoldable pub patch_row : NodeStatus → Extra → Option (List LogLine) → NodeState → NodeState
patch_row st e logs s = record s {
  status = st;
  started_at = or_else e.started_at s.started_at;
  completed_at = or_else e.completed_at s.completed_at;
  error_message = or_else e.error_message s.error_message;
  output_file_path = or_else (truthy e.output_file_path) s.output_file_path;
  progress = or_else e.progress s.progress;
  claimed_by = or_else (truthy e.claimed_by) s.claimed_by;
  logs = set_logs logs s.logs;
}

-- The lineage service is told of a completed node; it runs by itself, and its failure is logged.
abbrev pub request_edges : NodeStatus → String → M (Unit {0})
request_edges completed id = emit (record_edges id)
request_edges _ id = return tt

abbrev pub emit_progress : String → Option ℕ → M (Unit {0})
emit_progress id none = return tt
emit_progress id (some p) = emit (node_progress id p)

-- What follows the write: the call of the lineage service and the events.
unfoldable pub announce : String → NodeStatus → Extra → M (Unit {0})
announce id st extra = do
  request_edges st id
  emit (node_status_changed id st extra)
  emit_progress id extra.progress

unfoldable pub update_node_status : String → NodeStatus → Extra → M (Unit {0})
update_node_status id st extra = do
  logs ← extend_logs id extra.log
  update_row id (patch_row st extra logs)
  announce id st extra

abbrev pub put_logs : List LogLine → NodeState → NodeState
put_logs ls s = record s { logs = parsed ls }

unfoldable pub append_log : String → String → M (Unit {0})
append_log id message = do
  states ← rows
  logs ← logs_of (find_state id states)
  now ← clock
  update_row id (put_logs (logs ++ (now, text message) ∷ []))
  emit (node_log id (text message))

unfoldable pub add_timeline_event : String → String → String → Action → String → M (Unit {0})
add_timeline_event id label partner action detail r =
    let event : TimelineEvent = record {
      node_id = id;
      node_label = label;
      partner = partner;
      action = action;
      detail = detail;
      timestamp = r.now;
    } in
    emit (timeline_event event) (record r { timeline = r.timeline ++ event ∷ [] })

-- The map of a row that may not be there; a text that does not parse counts as empty.
abbrev pub outputs_of : Option NodeState → NodeOutputsMap
outputs_of none = []
outputs_of (some s) = column_or [] s.outputs

abbrev pub put_outputs : NodeOutputsMap → NodeState → NodeState
put_outputs m s = record s { outputs = parsed m }

unfoldable pub add_output : Cardinality → String → String → NodeOutputsMap → NodeOutputsMap
add_output many output file outputs =
    insert output (unique (get_or (lookup output outputs) [] ++ file ∷ [])) outputs
add_output one output file outputs = insert output (file ∷ []) outputs

unfoldable pub record_node_output : String → String → String → Cardinality → M NodeOutputsMap
record_node_output id output file cardinality = do
  states ← rows
  let outputs = add_output cardinality output file (outputs_of (find_state id states))
  update_row id (put_outputs outputs)
  return outputs
