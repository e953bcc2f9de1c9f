-- ===== src/Engine/Examples.antt =====
-- Files and tasks that travel through the small workflow of the engine's tests.
use digital_thread.Shared.{
  String, ◌≡◌, refl, ◌≢◌, ◌⊎◌, true, some, List, [], ◌∷◌, arith, eq_iff, includes,
}
use mathlib.Core.List.{Memᴰ}
use digital_thread.Shared.Assoc.{lookup}
use digital_thread.Flow.{task, many, predecessor, NodeInputStatus}
use digital_thread.Engine.Store.{idle, pending, completed, skipped, Run, find_state, status_in}
use digital_thread.Engine.Status.{add_output, record_node_output}
use digital_thread.Engine.Inputs.{resolve_predecessor_inputs}
use digital_thread.Engine.Activation.{advance_workflow}
use digital_thread.Engine.Outputs.{recorded, holds, resolve_predecessor_inputs-record_node_output}
use digital_thread.Engine.Policy.{IsCut}
use digital_thread.Engine.Liveness.{advance_workflow_opens}
use digital_thread.Engine.Tests.{
  engine, node, row, run_of, flow_nodes, flow_edges, begun, bound, reader,
}

recording : Unit {0}
unfolding engine record_node_output add_output
recording = tt

abbrev uploaded : Run
uploaded = (record_node_output "start" "out" "file_2" many begun).1

resolve_predecessor_inputs-record_node_output_example :
    (bound.source ≡ predecessor "start" "out"
      → (s : NodeInputStatus) × (lookup "drawing"
            (resolve_predecessor_inputs uploaded.states reader)
          ≡ some s)
        × (s.provided ≡ true)
        × ((fs : List String) × (s.file_ids ≡ some fs)
            × ((x : String)
                → includes fs x
                  ≡ holds many "file_2" (recorded "out" (find_state "start" begun.states)) x)))
    × ((id out : String)
        → bound.source ≡ predecessor id out
        → id ≢ ""
        → out ≢ ""
        → (id ≢ "start") ⊎ (out ≢ "out")
        → lookup "drawing" (resolve_predecessor_inputs uploaded.states reader)
          ≡ lookup "drawing" (resolve_predecessor_inputs begun.states reader))
resolve_predecessor_inputs-record_node_output_example =
    resolve_predecessor_inputs-record_node_output "start" "out" "file_2" many begun uploaded
      (("out", "file_2" ∷ []) ∷ []) (unfold recording in refl) reader bound (tt, tt)
      (Memᴰ.head refl) (ground (arith, eq_iff "start" "")) (ground (arith, eq_iff "out" ""))

abbrev passed : Run
passed = run_of (row "start" completed ∷ row "gate" completed ∷ row "finish" idle ∷ [])

abbrev opened : Run
opened = (advance_workflow flow_edges flow_nodes "gate" passed).1

advance_workflow_opens_example :
    (status_in opened.states "finish" ≢ some idle)
    × (status_in passed.states "finish" ≡ some idle
        → (status_in opened.states "finish" ≡ some pending)
          ⊎ ((status_in opened.states "finish" ≡ some skipped)
              × IsCut flow_edges flow_nodes opened.states "finish"))
advance_workflow_opens_example =
    advance_workflow_opens flow_edges flow_nodes "gate" "finish" passed opened
      (unfold engine in refl) (unfold engine in Memᴰ.head refl)
      (node "finish" task [], unfold engine in refl, refl) (unfold engine in refl)
