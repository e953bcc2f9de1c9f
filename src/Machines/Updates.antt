-- ===== src/Machines/Updates.antt =====
-- What a general update of a workflow makes of its row and its versions.
use digital_thread.Shared.{
  ℕ, suc, String, ◌≡◌, refl, inl, inr, false, Bool-cases, ◌&&◌, Option, none, some, List, arith,
  ◌∙◌, sym, if◌then◌else◌, get_or,
}
use digital_thread.Engine.Store.{Column, parsed}
use digital_thread.Machines.Versions.{
  Graph, Machine, Body, graph_changed, Workflow, head_version_has_iterations, patch_of, overwrite,
  patch_graph, save, update,
}
use digital_thread.Machines.Heads.{
  IsHead, IsSaved, IsSaved-along, bump-IsSaved, edit_in_place-IsSaved,
}

-- A body as the editor sends it: it sets no column that the service derives.
pub record IsPlain (d : Body) : Type 0 where
  pub no_nodes : d.rest.nodes_json ≡ none
  pub no_edges : d.rest.edges_json ≡ none
  pub no_groups : d.rest.groups_json ≡ none
  pub no_version : d.rest.latest_version ≡ none

-- A column after a save: the list of the body as JSON, or what was there.
abbrev pub column_after : {A : Type 0} → Option A → Column A → Column A
column_after none old = old
column_after (some xs) old = parsed xs

-- The tags: the list of the body, else the column that it sets, else what was there.
abbrev pub tags_after :
    Option (List String)
    → Option (Column (List String))
    → Column (List String)
    → Column (List String)
tags_after (some tags) column old = parsed tags
tags_after none (some column) old = column
tags_after none none old = old

-- The row of a workflow after a body that sets no derived column, field by field.
abbrev pub saved_body : ℕ → Body → Workflow → Machine
saved_body now d w =
    let m = w.machine in
    record {
      name = get_or d.rest.name m.name;
      version = get_or d.rest.version m.version;
      description = get_or d.rest.description m.description;
      dtmi_base = get_or d.rest.dtmi_base m.dtmi_base;
      aas_shell_json = get_or d.rest.aas_shell_json m.aas_shell_json;
      tags = tags_after d.tags d.rest.tags m.tags;
      graph = record {
        nodes_json = column_after d.nodes m.graph.nodes_json;
        edges_json = column_after d.edges m.graph.edges_json;
        groups_json = column_after d.groups m.graph.groups_json;
      };
      latest_version =
          if graph_changed d && head_version_has_iterations m.latest_version w
          then suc m.latest_version
          else m.latest_version;
      created_by_id = m.created_by_id;
      updated_at = now;
    }

overwrite-column_after :
    {A : Type 0} (o : Option A) (set : Option (Column A)) (old : Column A)
    → set ≡ none
    → get_or (overwrite o set) old ≡ column_after o old
overwrite-column_after none set old h = rw h refl
overwrite-column_after (some xs) set old h = refl

overwrite-tags_after :
    (o : Option (List String)) (set : Option (Column (List String))) (old : Column (List String))
    → get_or (overwrite o set) old ≡ tags_after o set old
overwrite-tags_after none none old = refl
overwrite-tags_after none (some c) old = refl
overwrite-tags_after (some ts) set old = refl

-- The row that `update` makes, by the patch.
unfoldable patched_row : ℕ → Body → Workflow → Machine
patched_row now d w =
    let n = w.machine.latest_version in
    record (save now (patch_of d) w.machine) {
      latest_version = if graph_changed d && head_version_has_iterations n w then suc n else n;
    }

-- It is the row described above.
patched_row-saved_body :
    (now : ℕ) (d : Body) (w : Workflow) → IsPlain d → patched_row now d w ≡ saved_body now d w
unfolding patched_row save patch_of patch_graph
patched_row-saved_body now d w p =
    let m = w.machine in
    rw
      (
        patch_graph,
        patch_of,
        overwrite-tags_after d.tags d.rest.tags m.tags,
        overwrite-column_after d.nodes d.rest.nodes_json m.graph.nodes_json p.no_nodes,
        overwrite-column_after d.edges d.rest.edges_json m.graph.edges_json p.no_edges,
        overwrite-column_after d.groups d.rest.groups_json m.graph.groups_json p.no_groups,
      )
      refl

save-IsPlain :
    (now : ℕ) (d : Body) (m : Machine)
    → IsPlain d
    → (save now (patch_of d) m).latest_version ≡ m.latest_version
unfolding save patch_of
save-IsPlain now d m p = rw p.no_version refl

save-kept :
    (now : ℕ) (d : Body) (m : Machine)
    → IsPlain d
    → save now (patch_of d) m
      ≡ record (save now (patch_of d) m) { latest_version = m.latest_version }
unfolding save patch_of
save-kept now d m p = rw p.no_version refl

-- Without a list of the graph the graph stays.
patch_graph-IsPlain :
    (d : Body) (g : Graph) → IsPlain d → graph_changed d ≡ false → patch_graph (patch_of d) g ≡ g
unfolding patch_graph patch_of
patch_graph-IsPlain d g p same = ground (arith, p.no_nodes, p.no_edges, p.no_groups)

save-IsSaved :
    (now : ℕ) (d : Body) (w : Workflow)
    → IsPlain d
    → graph_changed d ≡ false
    → IsHead w
    → IsHead (record w { machine = save now (patch_of d) w.machine })
save-IsSaved now d w p same h = record {
  row = h.row;
  found = rw (save-IsPlain now d w.machine p) h.found;
  mirrored = unfold save in (h.mirrored ∙ sym (patch_graph-IsPlain d w.machine.graph p same));
  highest_number = rw (save-IsPlain now d w.machine p) h.highest_number;
}

update-patched_row :
    (now : ℕ) (d : Body) (w : Workflow)
    → IsPlain d
    → IsHead w
    → IsSaved (patched_row now d w) (update now d w)
unfolding update patched_row save patch_of patch_graph
update-patched_row now d w p h = elim (Bool-cases (graph_changed d)) [
  | inl changed ↦ elim (Bool-cases (head_version_has_iterations w.machine.latest_version w)) [
    | inl locked ↦
        rw (changed, update, patched_row)
          (rw (locked, update, patched_row) (bump-IsSaved w _ _ h refl refl refl))
    | inr free ↦
        rw (changed, update, patched_row)
          (rw (free, update, patched_row)
            (IsSaved-along (save-kept now d w.machine p) (
              edit_in_place-IsSaved w _ _ h (λ v. refl) (save-IsPlain now d w.machine p)
                (λ v. refl))))
  ]
  | inr same ↦
      rw (same, update, patched_row)
        (IsSaved-along (save-kept now d w.machine p)
          (record { answered = refl; saved = refl; head = save-IsSaved now d w p same h }))
]

-- An update by a body that sets no derived column succeeds, where the row of the workflow mirrors the
-- highest version, and leaves such a row. Each list of the body is in its own column, any other
-- column that the body sets has its value, and the rest stays. The version number goes up by one
-- exactly if the body has a list of the graph and an iteration is pinned to the version before.
pub update-IsSaved :
    (now : ℕ) (d : Body) (w : Workflow)
    → IsPlain d
    → IsHead w
    → IsSaved (saved_body now d w) (update now d w)
update-IsSaved now d w p h =
    IsSaved-along (patched_row-saved_body now d w p) (update-patched_row now d w p h)
