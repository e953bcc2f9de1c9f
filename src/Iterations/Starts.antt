-- ===== src/Iterations/Starts.antt =====
-- The end of `create` in iterations.service.ts: the new iteration, over the nodes and edges of the
-- version that it is pinned to, gets its rows, its first nodes become PENDING, and it is read once.
use digital_thread.Shared.{String, not, List, map, filter, includes}
use digital_thread.Flow.{FlowNodeDef, FlowEdge}
use digital_thread.Engine.Store.{pending, no_extra, Action, M, ◌>>◌, for_each}
use digital_thread.Engine.Status.{init_node_states, update_node_status, add_timeline_event}
use digital_thread.Iterations.Status.{find_one}

-- The nodes that no edge leads to.
unfoldable pub start_nodes : List FlowEdge → List FlowNodeDef → List FlowNodeDef
start_nodes edges nodes = filter (λ n. not (includes (map (λ e. e.target) edges) n.id)) nodes

-- `detail` is the text of the event, with the display id and the number of the version.
unfoldable pub start_run : List FlowEdge → List FlowNodeDef → String → M (Unit {0})
start_run edges nodes detail = do
  init_node_states nodes
  for_each (λ n. update_node_status n pending no_extra) (map (λ n. n.id) (start_nodes edges nodes))
  add_timeline_event "system" "System" "System" Action.iteration_started detail
  find_one nodes
