-- ===== src/Lineage/Tests.antt =====
-- A part that is milled and measured, with the files of both steps.
use digital_thread.Shared.{
  ℕ, ◌≤◌, String, ◌≡◌, refl, ◌≢◌, ◌↔◌, Bool, true, none, some, List, [], ◌∷◌, find, any, includes,
  ◌==◌,
}
use digital_thread.Shared.Lists.{unique, unique_from}
use digital_thread.Flow.{NodeInputStatus, ResolvedFrom}
use digital_thread.Engine.Store.{completed, parsed, NodeState, find_state}
use digital_thread.Engine.Status.{idle_row}
use digital_thread.Lineage.Edges.{
  was_derived_from, LineageEdge, FileRow, Archive, insert_edge, upstream_ids, upstream_paths,
  upstream_files, downstream_files, link, link_all, pairs, record_edges_for_row,
  record_edges_for_node, rebuild, rebuild_for_iteration, create_edge,
}
use digital_thread.Lineage.Search.{
  upstream, Hit, scan, round, search_loop, search_from, found, not_found, traverse, get_upstream,
  get_downstream,
}
use digital_thread.Lineage.Walks.{Walk}
use digital_thread.Lineage.Scans.{hit_files}
use digital_thread.Lineage.Recorded.{record_edges_for_node_again}
use digital_thread.Lineage.Distances.{traverse_lem}

lineage : Unit {0}
unfolding find_state insert_edge upstream_ids upstream_paths upstream_files downstream_files link
    link_all pairs record_edges_for_row record_edges_for_node rebuild rebuild_for_iteration
    create_edge scan round search_loop search_from traverse get_upstream get_downstream unique
    unique_from
lineage = tt

abbrev file : String → String → FileRow
file id node = record { id = id; path = id; iteration_id = some "it1"; node_source_id = some node }

abbrev drawing : FileRow
drawing = file "drawing" "plan"

abbrev archive : Archive
archive = record { files = drawing ∷ file "part" "mill" ∷ file "report" "test" ∷ []; edges = [] }

abbrev provided : String → NodeInputStatus
provided id = record {
  provided = true;
  resolved_from = some ResolvedFrom.predecessor;
  file_ids = some (id ∷ []);
  file_path = none;
}

abbrev done_with : String → String → NodeState
done_with node input = record (idle_row node) {
  status = completed;
  input_file_statuses = parsed (("in", provided input) ∷ []);
}

abbrev states : List NodeState
states = done_with "mill" "drawing" ∷ done_with "test" "part" ∷ []

abbrev pair_id : String → String → String
pair_id a b = b

abbrev untold : NodeState → String
untold s = ""

abbrev edge : String → String → LineageEdge
edge a b = record {
  id = b;
  upstream = a;
  downstream = b;
  relation_type = was_derived_from;
  transform_info = some "";
}

abbrev linked : Archive
linked = record archive { edges = edge "drawing" "part" ∷ edge "part" "report" ∷ [] }

rebuilt :
    rebuild_for_iteration pair_id untold "it1" states archive
    ≡ some (linked, record { nodes_processed = 2; nodes_with_edges = 2; edges_created = 2 })
rebuilt = (unfold lineage in refl)

one_step : get_upstream "report" 1 linked ≡ found (("part", edge "part" "report") ∷ [])
one_step = (unfold lineage in refl)

both_steps :
    get_upstream "report" 5 linked
    ≡ found (("part", edge "part" "report") ∷ ("drawing", edge "drawing" "part") ∷ [])
both_steps = (unfold lineage in refl)

traverse_lem_example :
    (find (λ (f : FileRow). f.id == "report") linked.files ≡ none
      → traverse upstream "report" 5 linked ≡ not_found)
    × ((f : FileRow)
        → find (λ (f : FileRow). f.id == "report") linked.files ≡ some f
        → (hits : List Hit) × (traverse upstream "report" 5 linked ≡ found hits)
          × ((x : String)
              → (includes (hit_files hits) x ≡ true)
                ↔ ((x ≢ "report") × ((k : ℕ) × (k ≤ 5) × Walk upstream linked.edges "report" k x))))
traverse_lem_example = traverse_lem upstream "report" 5 linked

abbrev after_mill : Archive
after_mill = record archive { edges = edge "drawing" "part" ∷ [] }

record_edges_for_node_again_example :
    (after_mill.files ≡ archive.files)
    × ((g : LineageEdge → Bool) → any g archive.edges ≡ true → any g after_mill.edges ≡ true)
    × (record_edges_for_node pair_id untold "it1" "mill" states after_mill ≡ some (after_mill, 0))
record_edges_for_node_again_example =
    record_edges_for_node_again pair_id untold "it1" "mill" states archive after_mill 1
      (unfold lineage in refl)
