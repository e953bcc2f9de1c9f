-- ===== src/Iterations/Tests.antt =====
-- The operations of iterations.service.ts on the small workflow of the engine's tests.
use digital_thread.Shared.{
  String, ◌≡◌, refl, ◌≢◌, ◌⊎◌, ◌↔◌, true, false, none, some, List, [], ◌∷◌, arith, includes,
}
use digital_thread.Flow.{NodeKind, task, one, NodeOutputDef, FlowNodeDef}
use digital_thread.Engine.Store.{
  parsed, idle, pending, running, completed, error, IterationStatus, NodeState, Run, not_found,
  bad_request, ok, err, find_state, status_in,
}
use digital_thread.Engine.Activation.{find_node}
use digital_thread.Engine.Completion.{check_iteration_complete}
use digital_thread.Engine.Status.{init_node_states, init_states, init_row}
use digital_thread.Engine.Tests.{engine, node, row, run_of, flow_nodes, flow_edges}
use digital_thread.Iterations.Status.{
  derived_status, reconcile, find_one, reconcile_iteration_status,
}
use digital_thread.Json.{Json, str, num, arr, obj, cons, nil, field, end, Items}
use digital_thread.Normalize.Nodes.{node_with, normalize_all}
use digital_thread.Normalize.Tests.{normalizer, shown, same, is_blank, no_catalog}
use digital_thread.Iterations.Healing.{
  IsVerdict, reconcile_status, find_one-check_iteration_complete,
}
use digital_thread.Iterations.Nodes.{
  get_node_state, claim_node, missing_outputs, is_missing, has_outputs, complete_guard,
  complete_node,
}
use digital_thread.Iterations.Claims.{
  claim_node_lem, claim_node_once, IsDelivered, complete_node_lem, complete_node_refused,
}
use digital_thread.Iterations.Successors.{collect_loop, collect_successors}
use digital_thread.Iterations.Starts.{start_nodes, start_run}
use digital_thread.Engine.Paths.{Reaches}
use digital_thread.Iterations.Reach.{collect_successors_lem}

service : Unit {0}
unfolding engine claim_node get_node_state missing_outputs is_missing complete_guard complete_node
    find_one reconcile derived_status collect_loop collect_successors
service = tt

abbrev offered : Run
offered = run_of (row "start" pending ∷ row "gate" idle ∷ row "finish" idle ∷ [])

abbrev taken : Run
taken = (claim_node "start" "ann" offered).1

claim_node_lem_example :
    (status_in offered.states "start" ≡ some pending)
    × (status_in taken.states "start" ≡ some running)
    × ((j : String) → "start" ≢ j → find_state j taken.states ≡ find_state j offered.states)
claim_node_lem_example = claim_node_lem "start" "ann" offered taken (unfold service in refl)

claim_node_once_example : claim_node "start" "bob" taken ≡ (err bad_request, taken)
claim_node_once_example = claim_node_once "start" "ann" "bob" offered taken (unfold service in refl)

abbrev report : NodeOutputDef
report = record {
  id = "default";
  name = "report";
  description = none;
  cardinality = one;
  required = true;
  file_types = [];
  default_classification = none;
  semantic = none;
}

abbrev reporting : List FlowNodeDef
reporting =
    record (node "start" task []) { outputs = report ∷ [] }
    ∷ node "gate" NodeKind.gateway []
    ∷ node "finish" task []
    ∷ []

abbrev finished : Run
finished = (complete_node flow_edges reporting "start" (some "a.pdf") taken).1

-- Completing `start` opens `finish` behind the gateway.
complete_test :
    (status_in finished.states "start" ≡ some completed)
    × (status_in finished.states "finish" ≡ some pending)
unfolding service
complete_test = (refl, refl)

abbrev done_row : NodeState
done_row = record (row "start" completed) {
  started_at = some 7;
  completed_at = some 7;
  claimed_by = some "ann";
  output_file_path = some "a.pdf";
}

complete_node_lem_example :
    (s : NodeState) × (find_state "start" taken.states ≡ some s)
    × (s.status ≡ running)
    × ((target : FlowNodeDef)
        → find_node "start" reporting ≡ some target
        → IsDelivered s (some "a.pdf") target)
    × (find_state "start" finished.states ≡ some done_row)
    × (done_row.status ≡ completed)
complete_node_lem_example =
    complete_node_lem flow_edges reporting "start" (some "a.pdf") taken finished done_row
      (unfold service in refl)

no_report :
    (s : NodeState)
    → find_state "start" taken.states ≡ some s
    → s.status ≡ running
    → has_outputs s none (find_node "start" reporting) ≡ false
unfolding service
no_report s h k = ground arith

complete_node_refused_example :
    ((complete_node flow_edges reporting "start" none taken
        ≡ (err not_found, (find_one reporting taken).1))
      ⊎ (complete_node flow_edges reporting "start" none taken
          ≡ (err bad_request, (find_one reporting taken).1)))
    × ((find_one reporting taken).1.states ≡ taken.states)
complete_node_refused_example =
    complete_node_refused flow_edges reporting "start" none taken no_report

abbrev stale : Run
stale = record offered { status = IterationStatus.completed; completed_at = some 3 }

reconcile_status_example :
    IsVerdict
      (some "start" ∷ some "gate" ∷ [])
      stale.states
      (reconcile (some (some "start" ∷ some "gate" ∷ [])) stale).1.status
    × ((reconcile (some (some "start" ∷ some "gate" ∷ [])) stale).1.states ≡ stale.states)
reconcile_status_example = reconcile_status (some "start") (some "gate" ∷ []) stale

-- A stale COMPLETED is taken back.
reconcile_test :
    (reconcile (some (some "start" ∷ some "gate" ∷ [])) stale).1.status ≡ IterationStatus.running
unfolding service
reconcile_test = refl

abbrev ended : Run
ended = run_of (row "start" completed ∷ row "gate" completed ∷ row "finish" error ∷ [])

abbrev stored : Json → Json
stored id = obj (field "id" id end)

abbrev snapshot : Items
snapshot = cons (stored (str "start")) (cons (stored (str "finish")) nil)

abbrev normal : String → FlowNodeDef
normal id = node_with shown same is_blank no_catalog id (stored (str id))

abbrev healthy : Run
healthy = (check_iteration_complete (normal "start" ∷ normal "finish" ∷ []) ended).1

find_one-check_iteration_complete_example :
    reconcile_iteration_status (parsed (arr snapshot)) healthy ≡ (ok tt, healthy)
find_one-check_iteration_complete_example =
    find_one-check_iteration_complete shown same is_blank no_catalog (λ s. refl) snapshot
      (normal "start" ∷ normal "finish" ∷ []) ended (unfold normalizer normalize_all in refl)
      (unfold normalizer in refl) refl

-- An id that is a number is none of the keys of the states, so a completed iteration is taken back.
numeric_id_test :
    (reconcile_iteration_status (parsed (arr (cons (stored (num 7)) nil))) (record ended {
      status = IterationStatus.completed;
      states = row "7" completed ∷ [];
    })).1.status
    ≡ IterationStatus.running
unfolding service normalizer reconcile_iteration_status
numeric_id_test = refl

collect_successors_lem_example :
    (found : List String) × (collect_successors flow_edges "gate" ≡ some found)
    × ((x : String) → (includes found x ≡ true) ↔ Reaches flow_edges "gate" x)
collect_successors_lem_example = collect_successors_lem flow_edges "gate"

-- A new run of the small workflow opens its first node.
abbrev begun : Run
begun = (start_run flow_edges flow_nodes "created against v1" (run_of [])).1

start_run_test :
    (status_in begun.states "start" ≡ some pending)
    × (status_in begun.states "gate" ≡ some idle)
    × (status_in begun.states "finish" ≡ some idle)
unfolding service start_nodes start_run init_node_states init_states init_row
start_run_test = (refl, refl, refl)
