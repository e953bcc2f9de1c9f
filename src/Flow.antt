-- ===== src/Flow.antt =====
-- The generic node model, backend/src/iterations/types/flow-node.ts. A record there is a record
-- here with its fields, a missing property is `none`, and a value of type `unknown` is a `Json`.
-- The gate logic is its text, since the engine's `switch` has a default for other texts.
use digital_thread.Shared.{ℕ, Bool, String, Option, List}
use digital_thread.Json.{Json}

pub data NodeKind : Type 0 where
  trigger task gateway : NodeKind

pub data Cardinality : Type 0 where
  one many : Cardinality

pub data Classification : Type 0 where
  public internal partner confidential restricted : Classification

pub data InputSource : Type 0 where
  manual : InputSource
  predecessor : (node_id output_id : String) → InputSource
  datasource : (data_source_id : String) → Option Json → InputSource

pub record NodeInputDef : Type 0 where
  pub id : String
  pub name : String
  pub description : Option Json
  pub cardinality : Cardinality
  pub required : Bool
  pub file_types : List String
  pub mime_types : Option (List String)
  pub max_size_mb : Option ℕ
  pub source : InputSource
  pub semantic : Option Json

pub record NodeOutputDef : Type 0 where
  pub id : String
  pub name : String
  pub description : Option Json
  pub cardinality : Cardinality
  pub required : Bool
  pub file_types : List String
  pub default_classification : Option Classification
  pub semantic : Option Json

pub record FlowNodeDef : Type 0 where
  pub id : String
  pub kind : NodeKind
  pub name : String
  pub description : Option String
  pub tags : Option (List String)
  pub responsible_partner_id : Option String
  pub responsible_partner_ids : List String
  pub group_id : Option String
  pub gateway : Option String
  pub inputs : List NodeInputDef
  pub outputs : List NodeOutputDef
  pub position : Json
  pub semantic : Option Json
  pub type_text : Option String
  pub node_type_id : Option String
  pub label : String
  pub responsible_partner : Option String
  pub config : Option Json

-- The part of an edge that the engine reads (`Pick<FlowEdgeDef, 'source' | 'target' | 'label'>`;
-- nothing reads the label).
pub record FlowEdge : Type 0 where
  pub source : String
  pub target : String

pub data ResolvedFrom : Type 0 where
  manual predecessor datasource : ResolvedFrom

pub record NodeInputStatus : Type 0 where
  pub provided : Bool
  pub resolved_from : Option ResolvedFrom
  pub file_ids : Option (List String)
  pub file_path : Option String

abbrev pub NodeOutputsMap : Type 0
NodeOutputsMap = List (String × List String)

abbrev pub NodeInputStatusesMap : Type 0
NodeInputStatusesMap = List (String × NodeInputStatus)
