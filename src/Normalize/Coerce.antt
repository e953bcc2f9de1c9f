-- ===== src/Normalize/Coerce.antt =====
-- The coercions of backend/src/iterations/normalize-node.ts below the node: classifications, kinds,
-- sources, inputs and outputs. `text` is `String(…)`, `lower` is `toLowerCase`, and `catalog` gives the
-- category of a type of node, as `NODE_CATALOG` does.
use digital_thread.Shared.{
  ℕ, suc, String, Bool, true, false, Option, none, some, List, [], map, ◌==◌, if◌then◌else◌, eqb,
  get_or, or_else, non_empty, truthy, filter, ◌||◌,
}
use Prim.Native.String.{◌++◌}
use digital_thread.Json.{Json, null, bool, num, str, arr, obj, items, get_field, as_string}
use digital_thread.Flow.{
  NodeKind, trigger, task, gateway, Cardinality, one, many, Classification, public, internal,
  partner, confidential, restricted, InputSource, manual, predecessor, datasource, NodeInputDef,
  NodeOutputDef,
}

-- Whether a value counts as true.
abbrev pub is_truthy : Json → Bool
is_truthy null = false
is_truthy (bool b) = b
is_truthy (num n) = if eqb n 0 then false else true
is_truthy (str s) = non_empty s
is_truthy (arr vs) = true
is_truthy (obj fs) = true

-- What `??` keeps.
abbrev pub given : Option Json → Option Json
given none = none
given (some null) = none
given (some (bool b)) = some (bool b)
given (some (num n)) = some (num n)
given (some (str s)) = some (str s)
given (some (arr vs)) = some (arr vs)
given (some (obj fs)) = some (obj fs)

-- `Array.isArray(v) ? v : undefined`
abbrev pub as_array : Option Json → Option (List Json)
as_array (some (arr vs)) = some (items vs)
as_array none = none
as_array (some null) = none
as_array (some (bool b)) = none
as_array (some (num n)) = none
as_array (some (str s)) = none
as_array (some (obj fs)) = none

-- `typeof v === 'number' ? v : undefined`
abbrev pub as_number : Option Json → Option ℕ
as_number (some (num n)) = some n
as_number none = none
as_number (some null) = none
as_number (some (bool b)) = none
as_number (some (str s)) = none
as_number (some (arr vs)) = none
as_number (some (obj fs)) = none

-- `v?.key`
abbrev pub field_of : String → Option Json → Option Json
field_of k none = none
field_of k (some v) = get_field k v

abbrev pub classification_of : String → Option Classification
classification_of s =
    if s == "PUBLIC"
    then some public
    else if s == "INTERNAL"
    then some internal
    else if s == "PARTNER"
    then some partner
    else if s == "CONFIDENTIAL"
    then some confidential
    else if s == "RESTRICTED"
    then some restricted
    else none

unfoldable pub normalize_classification : Option Json → Option Classification
normalize_classification raw = elim (as_string raw) [ none ↦ none | some s ↦ classification_of s ]

-- `KIND_BY_CATEGORY`
unfoldable pub kind_by_category : String → Option NodeKind
kind_by_category s =
    if s == "TRIGGER"
    then some trigger
    else if s == "GATEWAY"
    then some gateway
    else if s == "AUTOMATIC" || (s == "MANUAL" || s == "STORAGE")
    then some task
    else none

unfoldable pub normalize_cardinality : Option Json → Cardinality
normalize_cardinality raw = if get_or (as_string raw) "" == "MANY" then many else one

unfoldable pub source_by_kind : String → Json → InputSource
source_by_kind kind raw =
    if kind == "PREDECESSOR"
    then predecessor (get_or (as_string (field_of "nodeId" (get_field "from" raw))) "")
        (get_or (as_string (field_of "outputId" (get_field "from" raw))) "")
    else if kind == "DATASOURCE"
    then datasource (get_or (as_string (get_field "dataSourceId" raw)) "") (get_field "query" raw)
    else manual

-- A value without a kind, a bare text among them, is MANUAL.
unfoldable pub normalize_source : Option Json → InputSource
normalize_source none = manual
normalize_source (some raw) = elim (as_string (get_field "kind" raw)) [
  | none ↦ manual
  | some kind ↦ source_by_kind kind raw
]

-- A source that is MANUAL gives way to a `dataSourceId` beside it.
unfoldable pub with_data_source : InputSource → Option String → InputSource
with_data_source manual (some id) = datasource id none
with_data_source manual none = manual
with_data_source (predecessor n o) id = predecessor n o
with_data_source (datasource d q) id = datasource d q

module _ (text : Json → String) (lower : String → String) where
  abbrev pub id_or : String → ℕ → Json → String
  id_or prefix idx raw =
      get_or (elim (given (get_field "id" raw)) [ none ↦ none | some v ↦ some (text v) ])
        (prefix ++ text (num (suc idx)))

  abbrev pub name_or : String → Json → String
  name_or id raw =
      text
        (get_or (or_else (given (get_field "name" raw)) (given (get_field "label" raw))) (str id))

  abbrev pub lowered : List Json → List String
  lowered vs = map (λ v. lower (text v)) vs

  unfoldable pub file_types_of : Json → List String
  file_types_of raw = elim (as_array (get_field "fileTypes" raw)) [
    | none ↦ []
    | some vs ↦ filter non_empty (lowered vs)
  ]

  abbrev pub texts : Option (List Json) → Option (List String)
  texts none = none
  texts (some vs) = some (map text vs)

  abbrev pub is_required : Json → Bool
  is_required raw = is_truthy (get_or (given (get_field "required" raw)) (bool false))

  unfoldable pub normalize_input : ℕ → Json → NodeInputDef
  normalize_input idx raw =
      let id = id_or "in_" idx raw in
      record {
        id = id;
        name = name_or id raw;
        description = get_field "description" raw;
        cardinality = normalize_cardinality (get_field "cardinality" raw);
        required = is_required raw;
        file_types = file_types_of raw;
        mime_types = texts (as_array (get_field "mimeTypes" raw));
        max_size_mb = as_number (get_field "maxSizeMB" raw);
        source =
            with_data_source (normalize_source (get_field "source" raw))
              (truthy (as_string (get_field "dataSourceId" raw)));
        semantic = get_field "semantic" raw;
      }

  unfoldable pub normalize_output : ℕ → Json → NodeOutputDef
  normalize_output idx raw =
      let id = id_or "out_" idx raw in
      record {
        id = id;
        name = name_or id raw;
        description = get_field "description" raw;
        cardinality = normalize_cardinality (get_field "cardinality" raw);
        required = is_required raw;
        file_types = file_types_of raw;
        default_classification = normalize_classification (get_field "defaultClassification" raw);
        semantic = get_field "semantic" raw;
      }
