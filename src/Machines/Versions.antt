-- ===== src/Machines/Versions.antt =====
-- backend/src/machines/machines.service.ts over one workflow: its row, the rows of its versions and,
-- for each iteration, the number of the version that the iteration is pinned to. The database has one
-- row for a workflow and a version number, and a transaction that throws writes nothing. A column that
-- holds JSON other than a list stands with those that do not parse.
use digital_thread.Shared.{
  ℕ, suc, String, Bool, false, ◌||◌, Option, none, some, List, [], ◌∷◌, if◌then◌else◌, eqb, leb,
  get_or, is_some, any, find,
}
use digital_thread.Json.{Json}
use digital_thread.Engine.Store.{Column, parsed}

abbrev pub Elements : Type 0
Elements = Column (List Json)

-- The three columns of a graph, in the row of a workflow and in that of a version.
pub record Graph : Type 0 where
  pub nodes_json : Elements
  pub edges_json : Elements
  pub groups_json : Elements

pub record Version : Type 0 where
  pub version_number : ℕ
  pub version_label : Option String
  pub graph : Graph
  pub created_by_id : Option String

pub record Machine : Type 0 where
  pub name : String
  pub version : String
  pub description : Option String
  pub dtmi_base : Option String
  pub aas_shell_json : Option String
  pub tags : Column (List String)
  pub graph : Graph
  pub latest_version : ℕ
  pub created_by_id : Option String
  pub updated_at : ℕ

-- The columns that a body sets: nothing checks what a client sends, so `latestVersion` and the
-- columns of the graph may be among them.
pub record Patch : Type 0 where
  pub name : Option String
  pub version : Option String
  pub description : Option (Option String)
  pub dtmi_base : Option (Option String)
  pub aas_shell_json : Option (Option String)
  pub tags : Option (Column (List String))
  pub nodes_json : Option Elements
  pub edges_json : Option Elements
  pub groups_json : Option Elements
  pub latest_version : Option ℕ

-- The body of `create` and `update`, `rest` being what is neither of its lists nor `createdById`.
pub record Body : Type 0 where
  pub nodes : Option (List Json)
  pub edges : Option (List Json)
  pub groups : Option (List Json)
  pub tags : Option (List String)
  pub created_by_id : Option String
  pub rest : Patch

pub record Workflow : Type 0 where
  pub machine : Machine
  pub versions : List Version
  pub pins : List ℕ

pub data Answer : Type 0 where
  done not_found conflict : Answer

unfoldable pub find_version : ℕ → List Version → Option Version
find_version n vs = find (λ v. eqb v.version_number n) vs

unfoldable pub write_version : ℕ → (Version → Version) → List Version → List Version
write_version n f [] = []
write_version n f (v ∷ vs) =
    let rest = write_version n f vs in (if eqb v.version_number n then f v else v) ∷ rest

abbrev pub is_pinned : ℕ → List ℕ → Bool
is_pinned n pins = any (λ p. eqb p n) pins

-- `headVersionHasIterations`
unfoldable pub head_version_has_iterations : ℕ → Workflow → Bool
head_version_has_iterations n w = elim (find_version n w.versions) [
  | none ↦ false
  | some v ↦ is_pinned v.version_number w.pins
]

-- `tx.stateMachineVersion.create` and then `tx.stateMachine.update`.
unfoldable pub bump : Version → Machine → Workflow → Answer × Workflow
bump v m w =
    if is_some (find_version v.version_number w.versions)
    then (conflict, w)
    else (done, record w { machine = m; versions = v ∷ w.versions })

-- `tx.stateMachineVersion.update` and then `tx.stateMachine.update`.
unfoldable pub edit_in_place : ℕ → (Version → Version) → Machine → Workflow → Answer × Workflow
edit_in_place n f m w =
    if is_some (find_version n w.versions)
    then (done, record w { machine = m; versions = write_version n f w.versions })
    else (not_found, w)

-- `if (xs !== undefined) patch.c = JSON.stringify(xs)`
abbrev pub overwrite : {A : Type 0} → Option A → Option (Column A) → Option (Column A)
overwrite none c = c
overwrite (some xs) c = some (parsed xs)

unfoldable pub patch_of : Body → Patch
patch_of d = record d.rest {
  nodes_json = overwrite d.nodes d.rest.nodes_json;
  edges_json = overwrite d.edges d.rest.edges_json;
  groups_json = overwrite d.groups d.rest.groups_json;
  tags = overwrite d.tags d.rest.tags;
}

-- `patch.nodesJson ?? existing.nodesJson`, and so on.
unfoldable pub patch_graph : Patch → Graph → Graph
patch_graph p g = record {
  nodes_json = get_or p.nodes_json g.nodes_json;
  edges_json = get_or p.edges_json g.edges_json;
  groups_json = get_or p.groups_json g.groups_json;
}

-- `tx.stateMachine.update({ data: patch })`: what is undefined stays.
unfoldable pub save : ℕ → Patch → Machine → Machine
save now p m = record m {
  name = get_or p.name m.name;
  version = get_or p.version m.version;
  description = get_or p.description m.description;
  dtmi_base = get_or p.dtmi_base m.dtmi_base;
  aas_shell_json = get_or p.aas_shell_json m.aas_shell_json;
  tags = get_or p.tags m.tags;
  graph = patch_graph p m.graph;
  latest_version = get_or p.latest_version m.latest_version;
  updated_at = now;
}

abbrev pub graph_changed : Body → Bool
graph_changed d = is_some d.nodes || is_some d.edges || is_some d.groups

unfoldable pub update : ℕ → Body → Workflow → Answer × Workflow
update now d w =
    let m = w.machine in
    let p = patch_of d in
    let label = some (get_or p.version m.version) in
    let next = suc m.latest_version in
    if graph_changed d
    then if head_version_has_iterations m.latest_version w
      then bump
          (record {
            version_number = next;
            version_label = label;
            graph = patch_graph p m.graph;
            created_by_id = d.created_by_id;
          })
          (save now (record p { latest_version = some next }) m) w
      else edit_in_place m.latest_version
          (λ v. record v { graph = patch_graph p m.graph; version_label = label }) (save now p m) w
    else (done, record w { machine = save now p m })

unfoldable pub update_graph :
    ℕ → List Json → List Json → Option (List Json) → Option String → Workflow → Answer × Workflow
update_graph now nodes edges groups by w =
    let m = w.machine in
    let g : Graph = record {
      nodes_json = parsed nodes;
      edges_json = parsed edges;
      groups_json = get_or (overwrite groups none) m.graph.groups_json;
    } in
    let next = suc m.latest_version in
    if head_version_has_iterations m.latest_version w
    then bump
        (record {
          version_number = next;
          version_label = some m.version;
          graph = g;
          created_by_id = by;
        })
        (record m { graph = g; updated_at = now; latest_version = next }) w
    else edit_in_place m.latest_version (λ v. record v { graph = g })
        (record m { graph = g; updated_at = now }) w

abbrev pub first_graph : Body → Graph
first_graph d = record {
  nodes_json = parsed (get_or d.nodes []);
  edges_json = parsed (get_or d.edges []);
  groups_json = parsed (get_or d.groups []);
}

abbrev pub first_version : Body → Version
first_version d = record {
  version_number = 1;
  version_label = d.rest.version;
  graph = first_graph d;
  created_by_id = d.created_by_id;
}

-- `create`: the row and its first version, of a body with a name, which the table requires.
unfoldable pub create : ℕ → String → Body → Workflow
create now name d = record {
  machine = record {
    name = name;
    version = get_or d.rest.version "1.0.0";
    description = get_or d.rest.description none;
    dtmi_base = get_or d.rest.dtmi_base none;
    aas_shell_json = get_or d.rest.aas_shell_json none;
    tags = parsed (get_or d.tags []);
    graph = first_graph d;
    latest_version = 1;
    created_by_id = d.created_by_id;
    updated_at = now;
  };
  versions = first_version d ∷ [];
  pins = [];
}

-- The highest version, as `findFirst` in descending order finds it.
unfoldable pub highest : Option Version → List Version → Option Version
highest best [] = best
highest none (v ∷ vs) = highest (some v) vs
highest (some b) (v ∷ vs) =
    highest (some (if leb v.version_number b.version_number then b else v)) vs

-- An iteration starts (`create` of backend/src/iterations/iterations.service.ts): it is pinned to the
-- highest version.
unfoldable pub start_iteration : Workflow → Answer × Workflow
start_iteration w = elim (highest none w.versions) [
  | none ↦ (not_found, w)
  | some v ↦ (done, record w { pins = v.version_number ∷ w.pins })
]

-- What is done to a workflow that is there.
pub data Call : Type 0 where
  updating : ℕ → Body → Call
  updating_graph : ℕ → List Json → List Json → Option (List Json) → Option String → Call
  starting : Call

unfoldable pub answer : Call → Workflow → Answer × Workflow
answer (updating now d) w = update now d w
answer (updating_graph now nodes edges groups by) w = update_graph now nodes edges groups by w
answer starting w = start_iteration w

unfoldable pub after : List Call → Workflow → Workflow
after [] w = w
after (c ∷ cs) w = after cs (answer c w).1
