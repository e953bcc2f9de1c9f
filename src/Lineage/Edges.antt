-- ===== src/Lineage/Edges.antt =====
-- `recordEdgesForNode`, `rebuildForIteration` and `createEdge` of
-- backend/src/lineage/lineage.service.ts, over the tables of files and of edges. Rows are read in the
-- order of their table; the ids of new edges are a parameter.
use digital_thread.Shared.{
  ℕ, ◌+◌, String, Bool, true, false, not, ◌&&◌, ◌||◌, Option, none, some, List, [], ◌∷◌, ◌++◌, map,
  ◌==◌, if◌then◌else◌, get_or, non_empty, truthy, any, filter, includes, unique, ltb, length,
}
use digital_thread.Shared.Assoc.{values}
use digital_thread.Flow.{NodeInputStatus}
use digital_thread.Engine.Store.{absent, malformed, parsed, NodeState, find_state, is_completed}

pub data RelationType : Type 0 where
  was_derived_from was_generated_by used was_revision_of : RelationType

pub record LineageEdge : Type 0 where
  pub id : String
  pub upstream : String
  pub downstream : String
  pub relation_type : RelationType
  pub transform_info : Option String

pub record FileRow : Type 0 where
  pub id : String
  pub path : String
  pub iteration_id : Option String
  pub node_source_id : Option String

pub record Archive : Type 0 where
  pub files : List FileRow
  pub edges : List LineageEdge

-- The answer of `rebuildForIteration`.
pub record Rebuilt : Type 0 where
  pub nodes_processed : ℕ
  pub nodes_with_edges : ℕ
  pub edges_created : ℕ

abbrev pub same_relation : RelationType → RelationType → Bool
same_relation was_derived_from was_derived_from = true
same_relation was_generated_by was_generated_by = true
same_relation used used = true
same_relation was_revision_of was_revision_of = true
same_relation _ _ = false

-- `@@unique([upstreamFileId, downstreamFileId, relationType])`
abbrev pub clashes : LineageEdge → LineageEdge → Bool
clashes e f =
    e.upstream == f.upstream
    && (e.downstream == f.downstream && same_relation e.relation_type f.relation_type)

-- `prisma.lineageEdge.create`, `none` where it throws: a key that is there, or a file that is not.
unfoldable pub insert_edge : LineageEdge → Archive → Option Archive
insert_edge e a =
    if any (clashes e) a.edges
      || not (
          includes (map (λ f. f.id) a.files) e.upstream
          && includes (map (λ f. f.id) a.files) e.downstream)
    then none
    else some (record a { edges = a.edges ++ e ∷ [] })

abbrev pub ids_of : Option (List String) → List String
ids_of none = []
ids_of (some ids) = filter non_empty ids

abbrev pub path_of : Option String → List String
path_of p = elim (truthy p) [ none ↦ [] | some s ↦ s ∷ [] ]

-- `upstreamIds` and `upstreamPaths`
unfoldable pub upstream_ids : List NodeInputStatus → List String
upstream_ids [] = []
upstream_ids (v ∷ vs) = ids_of v.file_ids ++ upstream_ids vs

unfoldable pub upstream_paths : List NodeInputStatus → List String
upstream_paths [] = []
upstream_paths (v ∷ vs) = path_of v.file_path ++ upstream_paths vs

-- The files found by id or by path, each once.
unfoldable pub upstream_files : List NodeInputStatus → List FileRow → List String
upstream_files vs files = unique (
    map (λ f. f.id) (filter (λ f. includes (upstream_ids vs) f.id) files)
    ++ map (λ f. f.id) (filter (λ f. includes (upstream_paths vs) f.path) files))

abbrev pub same_key : Option String → String → Bool
same_key none b = false
same_key (some a) b = a == b

unfoldable pub downstream_files : String → String → List FileRow → List String
downstream_files iteration node files =
    map (λ f. f.id)
      (filter (λ f. same_key f.iteration_id iteration && same_key f.node_source_id node) files)

abbrev pub derived_edge : (String → String → String) → String → String → String → LineageEdge
derived_edge new_id info up down = record {
  id = new_id up down;
  upstream = up;
  downstream = down;
  relation_type = was_derived_from;
  transform_info = some info;
}

-- A create that throws is skipped. The result counts the edges made.
abbrev pub counted : Option Archive → Archive → Archive × ℕ
counted none a = (a, 0)
counted (some b) a = (b, 1)

module _ (new_id : String → String → String) (info : String) where
  unfoldable pub link : String → String → Archive → Archive × ℕ
  link up down a =
      if up == down then (a, 0) else counted (insert_edge (derived_edge new_id info up down) a) a

  -- The two nested loops, over the pairs.
  unfoldable pub link_all : List (String × String) → Archive → Archive × ℕ
  link_all [] a = (a, 0)
  link_all (p ∷ ps) a = let (b, n) = link p.0 p.1 a in let (c, m) = link_all ps b in (c, n + m)

abbrev pub pairs_with : String → List String → List (String × String)
pairs_with up downs = map (λ down. (up, down)) downs

unfoldable pub pairs : List String → List String → List (String × String)
pairs [] downs = []
pairs (up ∷ ups) downs = pairs_with up downs ++ pairs ups downs

-- `transform up` is the text of handler, version and agent.
module _ (new_id : String → String → String) (transform : NodeState → String) where
  -- `recordEdgesForNode`: `none` for an exception, of `JSON.parse`.
  unfoldable pub record_edges_for_row : String → NodeState → Archive → Option (Archive × ℕ)
  record_edges_for_row iteration s a = elim s.input_file_statuses [
    | malformed ↦ none
    | absent ↦ some (a, 0)
    | parsed inputs ↦ some (
        link_all new_id (transform s)
          (pairs (upstream_files (values inputs) a.files)
            (downstream_files iteration s.node_id a.files))
          a)
  ]

  unfoldable pub record_edges_for_node :
      String → String → List NodeState → Archive → Option (Archive × ℕ)
  record_edges_for_node iteration node states a = elim (find_state node states) [
    | none ↦ some (a, 0)
    | some s ↦ record_edges_for_row iteration s a
  ]

  -- The loop of `rebuildForIteration`, with `touchedNodes` and `totalEdges`.
  unfoldable pub rebuild : String → List NodeState → Archive → Option (Archive × ℕ × ℕ)
  rebuild iteration [] a = some (a, 0, 0)
  rebuild iteration (s ∷ ss) a = elim (record_edges_for_row iteration s a) [
    | none ↦ none
    | some (b, n) ↦ elim (rebuild iteration ss b) [
      | none ↦ none
      | some (c, touched, total) ↦ some (c, (if ltb 0 n then 1 else 0) + touched, n + total)
    ]
  ]

  unfoldable pub rebuild_for_iteration :
      String → List NodeState → Archive → Option (Archive × Rebuilt)
  rebuild_for_iteration iteration states a =
      let done = filter (λ s. is_completed s.status) states in
      elim (rebuild iteration done a) [
        | none ↦ none
        | some (b, touched, total) ↦ some (
          b,
          record {
            nodes_processed = length done;
            nodes_with_edges = touched;
            edges_created = total;
          },
        )
      ]

unfoldable pub create_edge :
    String → String → String → Option RelationType → Option String → Archive → Option Archive
create_edge id up down relation info a =
    insert_edge
      (record {
        id = id;
        upstream = up;
        downstream = down;
        relation_type = get_or relation was_derived_from;
        transform_info = info;
      })
      a
