-- ===== src/Iterations/Listings.antt =====
-- The files that a node shows: `listNodeOutputs` and `listPredecessorOutputs` of
-- iterations.service.ts.
use digital_thread.Shared.{
  String, Bool, true, false, ◌&&◌, ◌||◌, Option, none, some, List, [], ◌∷◌, ◌++◌, ◌==◌,
  if◌then◌else◌, ltb, get_or, or_else, truthy, any, filter, find, includes, unique,
}
use digital_thread.Shared.Assoc.{lookup, insert, values}
use digital_thread.Flow.{
  manual, predecessor, datasource, NodeInputDef, NodeOutputDef, FlowNodeDef, NodeOutputsMap,
}
use digital_thread.Engine.Store.{NodeState, not_found, forbidden, Result, ok, err, find_state}
use digital_thread.Engine.Status.{outputs_of}
use digital_thread.Engine.Activation.{find_node}
use digital_thread.Access.Roles.{superadmin, owner, operator}
use digital_thread.Access.Scope.{User, Partner, is_responsible}
use digital_thread.Iterations.Files.{FileRecord, Workbench}

-- `Object.values(outputs).flat()`
unfoldable pub flat : List (List String) → List String
flat [] = []
flat (l ∷ ls) = l ++ flat ls

-- `slotByFile`: a file that stands in two slots counts for the last.
unfoldable pub note_slot : String → List String → List (String × String) → List (String × String)
note_slot slot [] m = m
note_slot slot (f ∷ fs) m = note_slot slot fs (insert f slot m)

unfoldable pub slots_by_file : NodeOutputsMap → List (String × String) → List (String × String)
slots_by_file [] m = m
slots_by_file (e ∷ es) m = slots_by_file es (note_slot e.0 e.1 m)

abbrev pub same_key : Option String → String → Bool
same_key none b = false
same_key (some a) b = a == b

-- `byId`: a file by its id, those of the node first.
unfoldable pub by_id : List FileRecord → List (String × FileRecord) → List (String × FileRecord)
by_id [] m = m
by_id (f ∷ fs) m = by_id fs (insert f.id f m)

unfoldable pub shown_files : String → String → List String → List FileRecord → List FileRecord
shown_files iteration id referenced files = values (
    by_id
      (filter (λ f. same_key f.iteration_id iteration && same_key f.node_source_id id) files
        ++ filter (λ f. includes referenced f.id) files)
      [])

abbrev pub slot_of : List (String × String) → FileRecord → String
slot_of slots f = get_or (or_else (lookup f.id slots) f.node_output_id) "default"

abbrev pub FilesBySlot : Type 0
FilesBySlot = List (String × List FileRecord)

unfoldable pub group_by_slot : List (String × String) → List FileRecord → FilesBySlot → FilesBySlot
group_by_slot slots [] m = m
group_by_slot slots (f ∷ fs) m =
    group_by_slot slots fs
      (insert (slot_of slots f) (get_or (lookup (slot_of slots f) m) [] ++ f ∷ []) m)

-- `sort` by falling timestamp, which is stable.
unfoldable pub place : FileRecord → List FileRecord → List FileRecord
place f [] = f ∷ []
place f (g ∷ gs) =
    let rest = place f gs in if ltb f.timestamp g.timestamp then g ∷ rest else f ∷ g ∷ gs

unfoldable pub newest_first : List FileRecord → List FileRecord
newest_first [] = []
newest_first (f ∷ fs) = place f (newest_first fs)

unfoldable pub sorted_slots : FilesBySlot → FilesBySlot
sorted_slots [] = []
sorted_slots (e ∷ es) = (e.0, newest_first e.1) ∷ sorted_slots es

-- The iteration-level scope of `listNodeOutputs`.
unfoldable pub is_involved :
    (String → Option Partner) → String → List FlowNodeDef → Option User → Bool
is_involved find_partner owner_id nodes none = true
is_involved find_partner owner_id nodes (some u) =
    let member : Bool = elim (truthy u.partner_id) [
      | none ↦ false
      | some id ↦ elim (find_partner id) [
        | none ↦ false
        | some p ↦ owner_id == p.id || any (is_responsible p) nodes
      ]
    ] in
    elim u.role [ superadmin ↦ true | owner ↦ member | operator ↦ member ]

unfoldable pub files_by_slot : String → String → Workbench → FilesBySlot
files_by_slot iteration id w =
    let outputs = outputs_of (find_state id w.run.states) in
    sorted_slots (
      group_by_slot (slots_by_file outputs [])
        (shown_files iteration id (unique (flat (values outputs))) w.files) [])

unfoldable pub list_node_outputs :
    (String → Option Partner)
    → String
    → List FlowNodeDef
    → Option User
    → String
    → String
    → Workbench
    → Result FilesBySlot
list_node_outputs find_partner owner_id nodes u iteration id w =
    if is_involved find_partner owner_id nodes u
    then ok (files_by_slot iteration id w)
    else err forbidden

-- What `listPredecessorOutputs` shows of an input.
pub record BoundInput : Type 0 where
  pub input : NodeInputDef
  pub from_node : String
  pub from_output : String
  pub upstream_node_name : Option String
  pub upstream_output_name : Option String
  pub files : List FileRecord
  pub legacy_file_path : Option String

-- `.map((id) => fileById.get(id)).filter(Boolean)`
unfoldable pub stored_files : List FileRecord → List String → List FileRecord
stored_files files [] = []
stored_files files (id ∷ ids) = elim (find (λ f. f.id == id) files) [
  | none ↦ stored_files files ids
  | some f ↦ f ∷ stored_files files ids
]

abbrev pub output_named : String → Option FlowNodeDef → Option NodeOutputDef
output_named id none = none
output_named id (some n) = find (λ o. o.id == id) n.outputs

abbrev pub name_of_node : Option FlowNodeDef → Option String
name_of_node none = none
name_of_node (some n) = some n.name

abbrev pub name_of_output : Option NodeOutputDef → Option String
name_of_output none = none
name_of_output (some o) = some o.name

abbrev pub path_of : Option NodeState → Option String
path_of none = none
path_of (some s) = s.output_file_path

abbrev pub legacy_path : List FileRecord → String → Option String → Option String
legacy_path [] output path = if output == "default" then path else none
legacy_path (f ∷ fs) output path = none

unfoldable pub bound_input :
    List FlowNodeDef → Workbench → NodeInputDef → String → String → BoundInput
bound_input nodes w i from output =
    let state = find_state from w.run.states in
    let files = stored_files w.files (get_or (lookup output (outputs_of state)) []) in
    record {
      input = i;
      from_node = from;
      from_output = output;
      upstream_node_name = name_of_node (find_node from nodes);
      upstream_output_name = name_of_output (output_named output (find_node from nodes));
      files = files;
      legacy_file_path = legacy_path files output (path_of state);
    }

unfoldable pub bound_inputs : List FlowNodeDef → Workbench → List NodeInputDef → List BoundInput
bound_inputs nodes w [] = []
bound_inputs nodes w (i ∷ is) = elim i.source [
  | manual ↦ bound_inputs nodes w is
  | datasource d q ↦ bound_inputs nodes w is
  | predecessor from output ↦ bound_input nodes w i from output ∷ bound_inputs nodes w is
]

unfoldable pub list_predecessor_outputs :
    List FlowNodeDef → String → Workbench → Result (List BoundInput)
list_predecessor_outputs nodes id w = elim (find_node id nodes) [
  | none ↦ err not_found
  | some target ↦ ok (bound_inputs nodes w target.inputs)
]
