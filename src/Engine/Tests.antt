-- ===== src/Engine/Tests.antt =====
-- The engine on a small workflow: `start`, the gateway `gate` behind it, and `finish`.
use digital_thread.Shared.{
  String, ◌≡◌, refl, ◌≢◌, ◌⊎◌, true, false, none, some, List, [], ◌∷◌, ◌++◌, arith, any, all, count,
  eqb, eq_iff,
}
use mathlib.Core.List.{Memᴰ}
use digital_thread.Shared.Lists.{unique, unique_from}
use digital_thread.Shared.Assoc.{lookup, insert, merge}
use digital_thread.Json
use digital_thread.Json.{get_field}
use digital_thread.Flow.{
  NodeKind, task, gateway, one, predecessor, NodeInputDef, FlowNodeDef, FlowEdge,
}
use digital_thread.Engine.Store.{
  NodeStatus, idle, pending, completed, error, IterationStatus, parsed, NodeState, Run, out_of_fuel,
  ok, err, generate_manifest, iteration_status, failed, for_each, find_state, modify_state,
  status_in, update_row,
}
use digital_thread.Engine.Status.{
  idle_row, update_node_status, announce, extend_logs, patch_row, add_timeline_event, outputs_of,
}
use digital_thread.Engine.Inputs.{
  judge, path_of, upstream_ids, resolve_source, resolve_inputs, resolve_predecessor_inputs,
}
use digital_thread.Engine.Gateway.{
  gate_type, evaluate_gateway, file_inputs, received, files_pass, forward,
}
use digital_thread.Engine.Completion.{
  all_terminal, any_error, check_iteration_complete, check_iteration_complete_lem, finish,
  final_status,
}
use digital_thread.Engine.Activation.{
  targets_of, sources_of, status_or_idle, prereq_statuses, still_running, find_node, cascade_visit,
  cascade_step, cascade_loop, cascade_skip, conclude_gateway, file_gate, settle_gateway, skip_task,
  open_task, settle_task, consider, try_activate, activation_fuel, advance_workflow,
}
use digital_thread.Engine.Moves.{Progress}
use digital_thread.Engine.Policy.{flow_policy}
use digital_thread.Engine.Advance.{advance_workflow-Progress, advance_workflow_total}
use digital_thread.Engine.Gates.{is_done, evaluate_gateway_lem}
use digital_thread.Engine.Bindings.{resolve_predecessor_inputs_lem}
use digital_thread.Engine.Errors.{try_activate_error}

unfoldable pub engine : Unit {0}
unfolding advance_workflow try_activate consider settle_task open_task skip_task settle_gateway
    file_gate conclude_gateway cascade_skip cascade_loop cascade_step cascade_visit find_node
    still_running prereq_statuses status_or_idle sources_of targets_of activation_fuel
    check_iteration_complete finish final_status all_terminal any_error evaluate_gateway gate_type
    file_inputs received files_pass forward resolve_predecessor_inputs resolve_inputs resolve_source
    upstream_ids update_node_status announce extend_logs patch_row add_timeline_event update_row
    status_in modify_state find_state for_each lookup insert merge get_field unique unique_from
engine = tt

abbrev pub node : String → NodeKind → List NodeInputDef → FlowNodeDef
node id kind inputs = record {
  id = id;
  kind = kind;
  name = id;
  description = none;
  tags = none;
  responsible_partner_id = none;
  responsible_partner_ids = [];
  group_id = none;
  gateway = none;
  inputs = inputs;
  outputs = [];
  position = Json.null;
  semantic = none;
  type_text = none;
  node_type_id = none;
  label = id;
  responsible_partner = none;
  config = none;
}

abbrev pub edge : String → String → FlowEdge
edge a b = record { source = a; target = b }

abbrev pub flow_nodes : List FlowNodeDef
flow_nodes = node "start" task [] ∷ node "gate" gateway [] ∷ node "finish" task [] ∷ []

abbrev pub flow_edges : List FlowEdge
flow_edges = edge "start" "gate" ∷ edge "gate" "finish" ∷ []

abbrev pub row : String → NodeStatus → NodeState
row id st = record (idle_row id) { status = st }

abbrev pub run_of : List NodeState → Run
run_of states = record {
  status = IterationStatus.running;
  completed_at = none;
  states = states;
  timeline = [];
  effects = [];
  now = 7;
}

abbrev pub begun : Run
begun = run_of (row "start" completed ∷ row "gate" idle ∷ row "finish" idle ∷ [])

-- The gateway passes and opens the task behind it.
advance_test :
    let r = (advance_workflow flow_edges flow_nodes "start" begun).1 in
    (status_in r.states "gate" ≡ some completed) × (status_in r.states "finish" ≡ some pending)
unfolding engine
advance_test = (refl, refl)

advance_workflow-Progress_example :
    Progress
      (flow_policy flow_edges flow_nodes)
      begun.states
      (advance_workflow flow_edges flow_nodes "start" begun).1.states
advance_workflow-Progress_example = advance_workflow-Progress flow_edges flow_nodes "start" begun

advance_workflow_total_example :
    (advance_workflow flow_edges flow_nodes "start" begun).0 ≢ err out_of_fuel
advance_workflow_total_example = advance_workflow_total flow_edges flow_nodes "start" begun

abbrev xor_gate : FlowNodeDef
xor_gate = record (node "gate" gateway []) { gateway = some "XOR" }

evaluate_gateway_lem_example :
    let passes =
      evaluate_gateway xor_gate (prereq_statuses begun.states [] ("start" ∷ "start" ∷ [])) in
    (gate_type xor_gate ≡ "OR" → passes ≡ any (is_done begun.states) ("start" ∷ "start" ∷ []))
    × (gate_type xor_gate ≡ "XOR"
        → passes ≡ eqb (count (is_done begun.states) (unique ("start" ∷ "start" ∷ []))) 1)
    × (gate_type xor_gate ≢ "OR"
        → gate_type xor_gate ≢ "XOR"
        → passes ≡ all (is_done begun.states) ("start" ∷ "start" ∷ []))
evaluate_gateway_lem_example = evaluate_gateway_lem xor_gate begun.states ("start" ∷ "start" ∷ [])

-- An edge drawn twice counts once.
xor_test :
    evaluate_gateway xor_gate (prereq_statuses begun.states [] ("start" ∷ "start" ∷ [])) ≡ true
unfolding engine
xor_test = refl

abbrev pub bound : NodeInputDef
bound = record {
  id = "drawing";
  name = "drawing";
  description = none;
  cardinality = one;
  required = true;
  file_types = [];
  mime_types = none;
  max_size_mb = none;
  source = predecessor "start" "out";
  semantic = none;
}

abbrev pub reader : FlowNodeDef
reader = node "finish" task (bound ∷ [])

abbrev delivered : List NodeState
delivered = record (row "start" completed) { outputs = parsed (("out", "file_1" ∷ []) ∷ []) } ∷ []

resolve_predecessor_inputs_lem_example :
    lookup "drawing" (resolve_predecessor_inputs delivered reader)
    ≡ some (
        judge "out"
          (lookup "out" (outputs_of (find_state "start" delivered)))
          (path_of (find_state "start" delivered)))
resolve_predecessor_inputs_lem_example =
    resolve_predecessor_inputs_lem delivered reader bound "start" "out" (tt, tt) (Memᴰ.head refl)
      refl (ground (arith, eq_iff "start" "")) (ground (arith, eq_iff "out" ""))

abbrev broken : Run
broken = run_of (row "gate" error ∷ row "finish" idle ∷ [])

try_activate_error_example : try_activate flow_edges flow_nodes 3 "finish" broken ≡ (ok tt, broken)
try_activate_error_example =
    try_activate_error flow_edges flow_nodes 2 "finish" "gate" (node "finish" task []) broken
      (unfold engine in refl) refl (unfold engine in refl) (unfold engine in refl)

check_iteration_complete_lem_example :
    let r = run_of (row "start" completed ∷ row "gate" completed ∷ row "finish" error ∷ []) in
    let r' = (check_iteration_complete flow_nodes r).1 in
    ((all_terminal flow_nodes r.states ≡ false) × (r' ≡ r))
    ⊎ ((all_terminal flow_nodes r.states ≡ true)
        × (any_error flow_nodes r.states ≡ true)
        × (r'.status ≡ failed)
        × (r'.completed_at ≡ some 7)
        × (r'.states ≡ r.states)
        × (r'.effects ≡ r.effects ++ iteration_status failed ∷ []))
    ⊎ ((all_terminal flow_nodes r.states ≡ true)
        × (any_error flow_nodes r.states ≡ false)
        × (r'.status ≡ IterationStatus.completed)
        × (r'.completed_at ≡ some 7)
        × (r'.states ≡ r.states)
        × (r'.effects
            ≡ (r.effects ++ generate_manifest ∷ [])
              ++ iteration_status IterationStatus.completed ∷ []))
check_iteration_complete_lem_example =
    check_iteration_complete_lem flow_nodes
      (run_of (row "start" completed ∷ row "gate" completed ∷ row "finish" error ∷ []))
