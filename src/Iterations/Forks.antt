-- ===== src/Iterations/Forks.antt =====
-- `loadIterationFlow` and `restart` of iterations.service.ts: a new iteration forked from another at
-- one of its nodes. The id and the display id of the new iteration and the texts of its events are
-- parameters; so is the source, that is, its row, its run, and the workflows that it points to.
use digital_thread.Shared.{
  ℕ, String, Option, none, some, List, [], ◌∷◌, ◌++◌, if◌then◌else◌, includes, any, filter, not,
  ◌==◌,
}
use digital_thread.Flow.{FlowNodeDef, FlowEdge}
use digital_thread.Engine.Store.{
  pending, no_extra, IterationStatus, NodeState, Action, Run, Failure, not_found, bad_request,
  record_exists, out_of_fuel, Result, ok, err, M, ◌>>◌, for_each, find_state,
}
use digital_thread.Engine.Status.{idle_row, update_node_status, add_timeline_event}
use digital_thread.Engine.Activation.{sources_of, find_node, advance_workflow}
use digital_thread.Iterations.Status.{find_one}
use digital_thread.Iterations.Successors.{collect_successors}

-- A workflow with the number of its version; the row of a workflow itself has none.
pub record IterationFlow : Type 0 where
  pub nodes : List FlowNodeDef
  pub edges : List FlowEdge
  pub version_number : Option ℕ

-- The version that the iteration is pinned to, else its workflow as it is now.
unfoldable pub load_iteration_flow :
    Option IterationFlow → Option IterationFlow → Option IterationFlow
load_iteration_flow (some version) machine = some version
load_iteration_flow none (some machine) = some (record machine { version_number = none })
load_iteration_flow none none = none

-- The columns of an iteration beside its status.
pub record IterationRow : Type 0 where
  pub id : String
  pub display_id : String
  pub machine_id : String
  pub machine_name : String
  pub state_machine_version_id : Option String
  pub owner_partner_id : String
  pub product_id : Option String
  pub metadata : Option (List (String × String))
  pub classification : String
  pub parent_iteration_id : Option String
  pub restart_from_node_id : Option String

-- `remove`: `none` where the iteration is not found; all that belongs to it goes with its row.
unfoldable pub remove : String → List (IterationRow × Run) → Option (List (IterationRow × Run))
remove id table =
    if any (λ e. e.0.id == id) table then some (filter (λ e. not (e.0.id == id)) table) else none

abbrev pub fork_of : IterationRow → String → String → String → IterationRow
fork_of source id display_id from = record source {
  id = id;
  display_id = display_id;
  parent_iteration_id = some source.id;
  restart_from_node_id = some from;
}

-- A new iteration, as RUNNING.
abbrev pub fresh_run : ℕ → Run
fresh_run now = record {
  status = IterationStatus.running;
  completed_at = none;
  states = [];
  timeline = [];
  effects = [];
  now = now;
}

-- The row of a node: that of the source, or a fresh one for the reset nodes and where there is none.
unfoldable pub fork_row : List String → List NodeState → String → NodeState
fork_row reset states id = if includes reset id then idle_row id else elim (find_state id states) [
  | none ↦ idle_row id
  | some s ↦ record s { transformation_label = none }
]

-- `prisma.nodeRuntimeState.create`: the key (iterationId, nodeId) is unique.
unfoldable pub create_state : NodeState → M (Unit {0})
create_state s r = elim (find_state s.node_id r.states) [
  | none ↦ (ok tt, record r { states = r.states ++ s ∷ [] })
  | some old ↦ (err record_exists, r)
]

module _ (edges : List FlowEdge) (nodes : List FlowNodeDef) where
  -- The restart node is opened by the engine, or by hand where nothing leads to it.
  unfoldable pub activate_from : String → List String → M (Unit {0})
  activate_from from [] = update_node_status from pending no_extra
  activate_from from (p ∷ ps) = advance_workflow edges nodes p

  -- What happens in the new iteration.
  unfoldable pub fork_run : List String → List NodeState → String → String → M (Unit {0})
  fork_run reset states from detail = do
    for_each (λ n. create_state (fork_row reset states n.id)) nodes
    activate_from from (sources_of from edges)
    add_timeline_event "system" "System" "System" Action.iteration_forked detail

-- The new iteration, if its row was written, and the source after the call.
pub record Forked : Type 0 where
  pub result : Result (Unit {0})
  pub created : Option (IterationRow × Run)
  pub source : Run

abbrev pub refused : Failure → Run → Forked
refused f source = record { result = err f; created = none; source = source }

-- The event on the source's own timeline, and the reading of the new iteration.
unfoldable pub conclude_fork :
    List FlowNodeDef
    → String
    → String
    → String
    → IterationRow
    → Run
    → Result (Unit {0}) × Run
    → Forked
conclude_fork nodes from name detail row source (err f, r) = record {
  result = err f;
  created = some (row, r);
  source = source;
}
conclude_fork nodes from name detail row source (ok done, r) = record {
  result = (find_one nodes r).0;
  created = some (row, (find_one nodes r).1);
  source = (add_timeline_event from name "System" Action.fork_initiated detail source).1;
}

module _ (row : IterationRow) (source : Run) (new_id display_id : String)
    (forked_from forked_into : String) where
  unfoldable pub restart_flow : String → IterationFlow → Forked
  restart_flow from f = elim (find_node from f.nodes) [
    | none ↦ refused bad_request source
    | some n ↦ elim (collect_successors f.edges from) [
      | none ↦ refused out_of_fuel source
      | some reset ↦
          conclude_fork f.nodes from n.name forked_into (fork_of row new_id display_id from) source
            (fork_run f.edges f.nodes reset source.states from forked_from (fresh_run source.now))
    ]
  ]

  unfoldable pub restart : Option IterationFlow → Option IterationFlow → String → Forked
  restart version machine from = elim (load_iteration_flow version machine) [
    | none ↦ refused not_found source
    | some f ↦ restart_flow from f
  ]
