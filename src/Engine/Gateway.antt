-- ===== src/Engine/Gateway.antt =====
-- `evaluateGateway` and the file gate inside `tryActivate` of workflow-engine.service.ts.
use digital_thread.Shared.{
  String, Bool, true, false, Option, none, some, List, [], ◌∷◌, ◌==◌, if◌then◌else◌, eqb, get_or,
  or_else, any, all, filter, length,
}
use digital_thread.Shared.Assoc.{lookup, insert, values}
use digital_thread.Json.{Json, get_field, as_string}
use digital_thread.Flow.{
  NodeInputDef, FlowNodeDef, NodeInputStatus, NodeInputStatusesMap, NodeOutputsMap,
}
use digital_thread.Engine.Store.{NodeStatus, is_completed}
use digital_thread.Engine.Inputs.{upstream_id}

-- `config?.gateType`; what is no text takes the `switch` to its default, as AND does
abbrev pub config_gate : Option Json → Option String
config_gate none = none
config_gate (some j) = as_string (get_field "gateType" j)

unfoldable pub gate_type : FlowNodeDef → String
gate_type node = get_or (or_else node.gateway (config_gate node.config)) "AND"

-- `evaluateGateway` on a node, over the statuses of the distinct predecessors
unfoldable pub evaluate_gateway : FlowNodeDef → List (String × NodeStatus) → Bool
evaluate_gateway node statuses =
    let vs = values statuses in
    if gate_type node == "OR"
    then any is_completed vs
    else if gate_type node == "XOR"
    then eqb (length (filter is_completed vs)) 1
    else all is_completed vs

abbrev pub is_bound : NodeInputDef → Bool
is_bound i = elim (upstream_id i.source) [ none ↦ false | some id ↦ true ]

-- `fileInputs`
unfoldable pub file_inputs : FlowNodeDef → List NodeInputDef
file_inputs node = filter is_bound node.inputs

abbrev pub is_provided : Option NodeInputStatus → Bool
is_provided none = false
is_provided (some s) = s.provided

-- `received(inputId)`
unfoldable pub received : NodeInputStatusesMap → NodeInputDef → Bool
received resolved i = is_provided (lookup i.id resolved)

-- The gate on files: OR wants one input, every other logic wants all.
unfoldable pub files_pass : String → NodeInputStatusesMap → List NodeInputDef → Bool
files_pass logic resolved inputs =
    if logic == "OR" then any (received resolved) inputs else all (received resolved) inputs

abbrev pub files_of : Option NodeInputStatus → List String
files_of none = []
files_of (some s) = get_or s.file_ids []

abbrev pub forward_one : String → List String → NodeOutputsMap → NodeOutputsMap
forward_one id [] m = m
forward_one id (f ∷ fs) m = insert id (f ∷ fs) m

-- `forwarded`: each input that received files becomes an output of the same name
unfoldable pub forward : NodeInputStatusesMap → NodeOutputsMap → List NodeInputDef → NodeOutputsMap
forward resolved m [] = m
forward resolved m (i ∷ is) =
    forward resolved (forward_one i.id (files_of (lookup i.id resolved)) m) is
