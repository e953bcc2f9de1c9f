-- ===== src/Normalize/Nodes.antt =====
-- `normalizeResponsiblePartnerIds`, `normalizeFlowNode` and `normalizeNodesJson` of
-- backend/src/iterations/normalize-node.ts. `blank` is `!v.trim()`. The logic of a gateway that is no text
-- is read as missing. `none` stands for the error of a node without an id.
use digital_thread.Shared.{
  ℕ, suc, String, Bool, false, ◌||◌, Option, none, some, List, [], ◌∷◌, map, if◌then◌else◌, get_or,
  or_else, truthy, includes,
}
use Prim.Native.String.{◌++◌}
use digital_thread.Json.{Json, null, bool, num, str, arr, obj, end, field, get_field, as_string}
use digital_thread.Flow.{
  NodeKind, trigger, task, gateway, one, NodeInputDef, NodeOutputDef, FlowNodeDef,
}
use digital_thread.Engine.Store.{Column, absent, malformed, parsed}
use digital_thread.Normalize.Coerce.{
  is_truthy, given, as_array, field_of, kind_by_category, lowered, texts, normalize_input,
  normalize_output,
}

abbrev pub add_last : List String → String → List String
add_last [] s = s ∷ []
add_last (x ∷ xs) s = x ∷ add_last xs s

-- `push`: a text that is not blank and not there yet is added.
unfoldable pub push_id : (String → Bool) → List String → Option String → List String
push_id blank out none = out
push_id blank out (some s) = if blank s || includes out s then out else add_last out s

unfoldable pub push_all : (String → Bool) → List String → List Json → List String
push_all blank out [] = out
push_all blank out (v ∷ vs) = push_all blank (push_id blank out (as_string (some v))) vs

unfoldable pub normalize_responsible_partner_ids : (String → Bool) → Json → List String
normalize_responsible_partner_ids blank raw =
    push_id blank (push_all blank [] (get_or (as_array (get_field "responsiblePartnerIds" raw)) []))
      (as_string (get_field "responsiblePartnerId" raw))

-- `typeof v === 'object'`, of what is not null
abbrev pub as_object : Option Json → Option Json
as_object (some (arr vs)) = some (arr vs)
as_object (some (obj fs)) = some (obj fs)
as_object none = none
as_object (some null) = none
as_object (some (bool b)) = none
as_object (some (num n)) = none
as_object (some (str s)) = none

abbrev pub origin : Json
origin = obj (field "x" (num 0) (field "y" (num 0) end))

abbrev pub list_field : String → Json → List Json
list_field k raw =
    get_or (or_else (as_array (get_field k raw)) (as_array (field_of k (get_field "config" raw))))
      []

abbrev pub head : List String → Option String
head [] = none
head (x ∷ xs) = some x

-- The output of a gateway that forwards an input.
abbrev pub mirror : NodeInputDef → NodeOutputDef
mirror i = record {
  id = i.id;
  name = i.name;
  description = i.description;
  cardinality = i.cardinality;
  required = i.required;
  file_types = i.file_types;
  default_classification = none;
  semantic = none;
}

unfoldable pub final_inputs : NodeKind → List NodeInputDef → List NodeInputDef
final_inputs trigger inputs = []
final_inputs task inputs = inputs
final_inputs gateway inputs = inputs

-- `with_default` is the list of outputs, or the default output of a task that names none.
unfoldable pub with_default : NodeKind → NodeOutputDef → List NodeOutputDef → List NodeOutputDef
with_default task d [] = d ∷ []
with_default task d (o ∷ os) = o ∷ os
with_default trigger d os = os
with_default gateway d os = os

unfoldable pub final_outputs :
    NodeKind → List NodeInputDef → List NodeOutputDef → List NodeOutputDef
final_outputs gateway inputs outputs = map mirror inputs
final_outputs trigger inputs outputs = outputs
final_outputs task inputs outputs = outputs

unfoldable pub gateway_of : NodeKind → Json → Option String
gateway_of trigger raw = none
gateway_of task raw = none
gateway_of gateway raw = some (
    get_or
      (or_else (as_string (field_of "logic" (get_field "gateway" raw)))
        (as_string (field_of "gateType" (get_field "config" raw))))
      "AND")

module _ (text : Json → String) (lower : String → String) (blank : String → Bool)
    (catalog : String → Option String) where
  abbrev pub kind_of_text : Option String → Option NodeKind
  kind_of_text none = none
  kind_of_text (some s) = kind_by_category s

  abbrev pub text_of : Option Json → Option String
  text_of none = none
  text_of (some v) = if is_truthy v then some (text v) else none

  abbrev pub category_of : Option String → Option String
  category_of none = none
  category_of (some s) = catalog s

  -- By the kind, else by the legacy type, else by the catalogue.
  unfoldable pub infer_kind : Json → NodeKind
  infer_kind raw =
      get_or
        (or_else (kind_of_text (text_of (get_field "kind" raw))) (
          or_else (kind_of_text (as_string (get_field "type" raw)))
            (kind_of_text (category_of (as_string (get_field "nodeTypeId" raw))))))
        task

  unfoldable pub inputs_from : ℕ → List Json → List NodeInputDef
  inputs_from idx [] = []
  inputs_from idx (v ∷ vs) = normalize_input text lower idx v ∷ inputs_from (suc idx) vs

  unfoldable pub outputs_from : ℕ → List Json → List NodeOutputDef
  outputs_from idx [] = []
  outputs_from idx (v ∷ vs) = normalize_output text lower idx v ∷ outputs_from (suc idx) vs

  -- An empty hint counts as none.
  abbrev pub default_name : Option String → String
  default_name none = "Output"
  default_name (some e) = "Output (" ++ (e ++ ")")

  abbrev pub default_output : Json → NodeOutputDef
  default_output raw =
      let config = get_field "config" raw in
      record {
        id = "default";
        name = default_name (truthy (as_string (field_of "expectedOutput" config)));
        description = none;
        cardinality = one;
        required = false;
        file_types =
            lowered text lower (get_or (as_array (field_of "requiredFileTypes" config)) []);
        default_classification = none;
        semantic = none;
      }

  unfoldable pub node_with : String → Json → FlowNodeDef
  node_with id raw =
      let kind = infer_kind raw in
      let name = text (
        get_or (or_else (given (get_field "name" raw)) (given (get_field "label" raw))) (str id)) in
      let inputs = final_inputs kind (inputs_from 0 (list_field "inputs" raw)) in
      let partners = normalize_responsible_partner_ids blank raw in
      record {
        id = id;
        kind = kind;
        name = name;
        description = as_string (get_field "description" raw);
        tags = texts text lower (as_array (get_field "tags" raw));
        responsible_partner_id =
            or_else (head partners) (as_string (get_field "responsiblePartnerId" raw));
        responsible_partner_ids = partners;
        group_id = as_string (get_field "groupId" raw);
        gateway = gateway_of kind raw;
        inputs = inputs;
        outputs =
            final_outputs kind inputs
              (with_default kind (default_output raw) (outputs_from 0 (list_field "outputs" raw)));
        position = get_or (as_object (get_field "position" raw)) origin;
        semantic = get_field "semantic" raw;
        type_text = as_string (get_field "type" raw);
        node_type_id = as_string (get_field "nodeTypeId" raw);
        label = get_or (as_string (get_field "label" raw)) name;
        responsible_partner = as_string (get_field "responsiblePartner" raw);
        config = as_object (get_field "config" raw);
      }

  unfoldable pub normalize_flow_node : Json → Option FlowNodeDef
  normalize_flow_node raw = elim (text_of (get_field "id" raw)) [
    | none ↦ none
    | some id ↦ some (node_with id raw)
  ]

  -- All nodes, or the error of the first that has none.
  unfoldable pub normalize_all : List Json → Option (List FlowNodeDef)
  normalize_all [] = some []
  normalize_all (v ∷ vs) =
      let rest = normalize_all vs in
      elim (normalize_flow_node v) [
        | none ↦ none
        | some n ↦ elim rest [ none ↦ none | some ns ↦ some (n ∷ ns) ]
      ]

  -- Of a column; a value that is no list gives no nodes.
  unfoldable pub normalize_nodes_json : Column Json → Option (List FlowNodeDef)
  normalize_nodes_json absent = some []
  normalize_nodes_json malformed = some []
  normalize_nodes_json (parsed v) = normalize_all (get_or (as_array (some v)) [])
