-- ===== src/Engine/Inputs.antt =====
-- `resolvePredecessorInputs` of workflow-engine.service.ts: which declared inputs of a node the
-- outputs of earlier nodes provide.
use digital_thread.Shared.{
  String, Bool, true, false, ◌&&◌, Option, none, some, List, [], ◌∷◌, ◌++◌, ◌==◌, if◌then◌else◌,
  get_or, truthy, non_empty, not, filter, includes,
}
use digital_thread.Shared.Assoc.{lookup, insert}
use digital_thread.Flow.{
  InputSource, manual, predecessor, datasource, NodeInputDef, FlowNodeDef, NodeInputStatus,
  NodeInputStatusesMap, ResolvedFrom,
}
use digital_thread.Engine.Store.{NodeState, find_state}
use digital_thread.Engine.Status.{outputs_of}

-- The node that a source names, if it is a PREDECESSOR source with a node id.
abbrev pub upstream_id : InputSource → Option String
upstream_id manual = none
upstream_id (predecessor node output) = truthy (some node)
upstream_id (datasource d q) = none

abbrev pub add_upstream : Option String → List String → List String
add_upstream none ids = ids
add_upstream (some id) ids = if includes ids id then ids else ids ++ id ∷ []

-- `new Set` of the upstream node ids, in the order of the inputs
unfoldable pub upstream_ids : List String → List NodeInputDef → List String
upstream_ids ids [] = ids
upstream_ids ids (i ∷ is) = upstream_ids (add_upstream (upstream_id i.source) ids) is

abbrev pub status_of_input : Bool → Option (List String) → Option String → NodeInputStatus
status_of_input provided files path = record {
  provided = provided;
  resolved_from = some ResolvedFrom.predecessor;
  file_ids = files;
  file_path = path;
}

abbrev pub path_of : Option NodeState → Option String
path_of none = none
path_of (some s) = truthy s.output_file_path

abbrev pub has_files : Option (List String) → Bool
has_files none = false
has_files (some []) = false
has_files (some (f ∷ fs)) = true

-- What the files, the legacy path and the output's name make of one bound input.
abbrev pub judge : String → Option (List String) → Option String → NodeInputStatus
judge output files none = status_of_input (has_files files) (some (get_or files [])) none
judge output files (some path) =
    if not (has_files files) && output == "default"
    then status_of_input true (some []) (some path)
    else status_of_input (has_files files) (some (get_or files [])) none

-- One round of the loop over the inputs; `none` is a `continue` that writes nothing.
unfoldable pub resolve_source : List NodeState → InputSource → Option NodeInputStatus
resolve_source states manual = none
resolve_source states (datasource d q) = none
resolve_source states (predecessor node output) =
    if non_empty node && non_empty output
    then some (
        judge output (lookup output (outputs_of (find_state node states)))
          (path_of (find_state node states)))
    else some (status_of_input false (some []) none)

abbrev pub put_status :
    String → Option NodeInputStatus → NodeInputStatusesMap → NodeInputStatusesMap
put_status id none m = m
put_status id (some s) m = insert id s m

unfoldable pub resolve_inputs :
    List NodeState → NodeInputStatusesMap → List NodeInputDef → NodeInputStatusesMap
resolve_inputs states m [] = m
resolve_inputs states m (i ∷ is) =
    resolve_inputs states (put_status i.id (resolve_source states i.source) m) is

-- The query `nodeId: { in: ids }`.
abbrev pub upstream_states : List String → List NodeState → List NodeState
upstream_states ids states = filter (λ s. includes ids s.node_id) states

-- With no upstream node at all the map is empty, also for a source that is not yet bound.
unfoldable pub resolve_predecessor_inputs : List NodeState → FlowNodeDef → NodeInputStatusesMap
resolve_predecessor_inputs states target = elim (upstream_ids [] target.inputs) [
  | [] ↦ []
  | id ∷ ids ↦ resolve_inputs (upstream_states (id ∷ ids) states) [] target.inputs
]
