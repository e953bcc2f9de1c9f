-- ===== src/Machines/Tests.antt =====
-- A workflow that is saved, started, and saved again.
use digital_thread.Json.{Json, str}
use digital_thread.Shared.{◌≡◌, refl, true, none, some, List, [], ◌∷◌}
use digital_thread.Machines.Versions.{
  Patch, Body, Workflow, done, find_version, write_version, is_pinned, head_version_has_iterations,
  bump, edit_in_place, patch_of, patch_graph, save, update, update_graph, first_version, create,
  highest, start_iteration, Call, updating, updating_graph, starting, answer, after,
}
use digital_thread.Machines.Frozen.{pinned_frozen}
use digital_thread.Machines.Heads.{IsHead, IsSaved, saved_graph, update_graph-IsSaved}
use digital_thread.Machines.Updates.{IsPlain, saved_body, update-IsSaved}
use digital_thread.Machines.Histories.{after-create}

machines_service : Unit {0}
unfolding find_version write_version head_version_has_iterations bump edit_in_place patch_of
    patch_graph save update update_graph create highest start_iteration answer after
machines_service = tt

abbrev nothing : Patch
nothing = record {
  name = none;
  version = none;
  description = none;
  dtmi_base = none;
  aas_shell_json = none;
  tags = none;
  nodes_json = none;
  edges_json = none;
  groups_json = none;
  latest_version = none;
}

abbrev body : List Json → Body
body nodes = record {
  nodes = some nodes;
  edges = none;
  groups = none;
  tags = none;
  created_by_id = some "ann";
  rest = nothing;
}

abbrev body-IsPlain : (nodes : List Json) → IsPlain (body nodes)
body-IsPlain nodes = record {
  no_nodes = refl;
  no_edges = refl;
  no_groups = refl;
  no_version = refl;
}

abbrev milling : Workflow
milling = create 1 "milling" (body (str "mill" ∷ []))

abbrev started : Workflow
started = (answer starting milling).1

abbrev later : List Call
later =
    updating 5 (body (str "mill" ∷ str "drill" ∷ []))
    ∷ updating_graph 6 [] [] none none
    ∷ starting
    ∷ []

pinned_frozen_example :
    (is_pinned 1 (after later started).pins ≡ true)
    × (find_version 1 (after later started).versions
        ≡ some (first_version (body (str "mill" ∷ []))))
pinned_frozen_example =
    pinned_frozen later started 1 (first_version (body (str "mill" ∷ [])))
      (unfold machines_service in refl) (unfold machines_service in refl)

-- The first save after the start makes a version, the second edits it.
later_test : (after later started).machine.latest_version ≡ 2
unfolding machines_service
later_test = refl

milling-IsHead : IsHead milling
unfolding machines_service
milling-IsHead = (after-create 1 "milling" (body (str "mill" ∷ [])) [] starting tt tt).0

after-create_example :
    let w = after later (create 1 "milling" (body [])) in IsHead w × ((answer starting w).0 ≡ done)
after-create_example =
    after-create 1 "milling" (body []) later starting
      (body-IsPlain (str "mill" ∷ str "drill" ∷ []), (tt, (tt, tt))) tt

update_graph-IsSaved_example :
    IsSaved (saved_graph 7 [] [] none milling) (update_graph 7 [] [] none none milling)
update_graph-IsSaved_example = update_graph-IsSaved 7 [] [] none none milling milling-IsHead

update-IsSaved_example : IsSaved (saved_body 7 (body []) milling) (update 7 (body []) milling)
update-IsSaved_example = update-IsSaved 7 (body []) milling (body-IsPlain []) milling-IsHead
