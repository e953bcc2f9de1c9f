-- ===== src/Iterations/Examples.antt =====
-- A workflow that is started, run and forked.
use digital_thread.Shared.{ℕ, String, ◌≡◌, refl, Option, none, some, List, [], ◌∷◌}
use digital_thread.Engine.Store.{
  pending, completed, NodeState, Run, Result, ok, find_state, status_in,
}
use digital_thread.Engine.Status.{init_node_states, init_states, init_row, add_output}
use digital_thread.Engine.Tests.{engine, row, run_of, flow_nodes, flow_edges}
use digital_thread.Access.Roles.{owner}
use digital_thread.Access.Scope.{User, Partner, resolve_owner_partner}
use digital_thread.Iterations.Status.{derived_status, reconcile, find_one}
use digital_thread.Iterations.Successors.{collect_loop, collect_successors}
use digital_thread.Iterations.Starts.{start_nodes, start_run}
use digital_thread.Iterations.Forks.{
  IterationFlow, load_iteration_flow, IterationRow, fork_row, create_state, activate_from, fork_run,
  Forked, conclude_fork, restart_flow, restart,
}
use digital_thread.Iterations.Creation.{
  MachineRow, LatestVersion, ProductRow, CreateInput, Created, with_component, product_for,
  create_for, create,
}
use digital_thread.Iterations.Files.{
  raw, FileRecord, Workbench, slot_or_default, adopted, adopt, agent_for, attribute, put_file,
  attach, attach_existing_output,
}
use digital_thread.Iterations.Listings.{
  flat, note_slot, slots_by_file, by_id, shown_files, group_by_slot, place, newest_first,
  sorted_slots, files_by_slot, is_involved, list_node_outputs, stored_files, bound_input,
  bound_inputs, list_predecessor_outputs,
}
use digital_thread.Iterations.Shown.{ids, IsListed}
use digital_thread.Iterations.Attached.{files_by_slot-attach_existing_output}
use digital_thread.Iterations.Beginnings.{IsCreated, create_lem}

iterations : Unit {0}
unfolding engine derived_status reconcile find_one collect_loop collect_successors
    load_iteration_flow fork_row create_state activate_from fork_run conclude_fork restart_flow
    restart init_node_states init_states init_row start_nodes start_run resolve_owner_partner
    with_component product_for create_for create
iterations = tt

abbrev flow : IterationFlow
flow = record { nodes = flow_nodes; edges = flow_edges; version_number = some 2 }

abbrev original : IterationRow
original = record {
  id = "it1";
  display_id = "line-0001";
  machine_id = "m1";
  machine_name = "Line";
  state_machine_version_id = some "v2";
  owner_partner_id = "acme";
  product_id = none;
  metadata = none;
  classification = "INTERNAL";
  parent_iteration_id = none;
  restart_from_node_id = none;
}

abbrev ended : Run
ended = run_of (row "start" completed ∷ row "gate" completed ∷ row "finish" completed ∷ [])

abbrev again : Forked
again = restart original ended "it2" "line-0002" "forked" "forked" (some flow) none "finish"

states_of : Option (IterationRow × Run) → List NodeState
states_of none = []
states_of (some (r, run)) = run.states

restart_test : again.result ≡ ok tt
restart_test = (unfold iterations in refl)

restart_statuses :
    (status_in (states_of again.created) "gate" ≡ some completed)
    × (status_in (states_of again.created) "finish" ≡ some pending)
unfolding states_of
restart_statuses = (unfold iterations in (refl, refl))

abbrev line : MachineRow
line = record { id = "m1"; name = "Line" }

abbrev latest : LatestVersion
latest = record { id = "v2"; version_number = 2; nodes = flow_nodes; edges = flow_edges }

abbrev wanted : CreateInput
wanted = record {
  metadata = [];
  classification = none;
  owner_partner_id = none;
  product_id = some "p1";
}

abbrev ann : User
ann = record { role = owner; partner_id = some "acme" }

abbrev partners : String → Option Partner
partners id = some (record { id = id; name = "Partner" })

abbrev products : String → Option ProductRow
products id = some (record { id = id; owner_partner_id = "acme"; urn = "urn:p1" })

abbrev label : String → ℕ → String
label name n = name

abbrev new_one : Created
new_one = create label label partners products 3 "it1" (some line) (some latest) 0 wanted ann

create_test : new_one.result ≡ ok tt
create_test = (unfold iterations in refl)

create_lem_example :
    (version : LatestVersion) × (some latest ≡ some version)
    × IsCreated partners products ann wanted version new_one.created
create_lem_example =
    create_lem partners products label label 3 "it1" (some line) (some latest) 0 wanted ann
      create_test

-- A raw file that is linked to an output.
abbrev raw_scan : FileRecord
raw_scan = record {
  id = "f1";
  filename = "scan.pdf";
  iteration_id = none;
  node_source_id = none;
  node_output_id = none;
  attachment_kind = raw;
  timestamp = 3;
}

abbrev bench : Workbench
bench = record { run = ended; files = raw_scan ∷ []; agents = [] }

abbrev attached : Result (Option NodeState) × Workbench
attached =
    attach_existing_output "a1" "linked" "linked" "it1" "start" "report" "f1" (some "ann") bench

listing : Unit {0}
unfolding iterations adopt agent_for attribute put_file attach attach_existing_output flat note_slot
    slots_by_file by_id shown_files group_by_slot place newest_first sorted_slots files_by_slot
    is_involved list_node_outputs stored_files bound_input bound_inputs list_predecessor_outputs
    add_output
listing = tt

listed_test :
    list_node_outputs partners "acme" flow_nodes (some ann) "it1" "start" attached.1
    ≡ ok (("report", adopted "it1" "start" "report" raw_scan ∷ []) ∷ [])
listed_test = (unfold listing in refl)

no_bindings : list_predecessor_outputs flow_nodes "finish" bench ≡ ok []
no_bindings = (unfold listing in refl)

files_by_slot-attach_existing_output_example :
    IsListed (slot_or_default "report") "f1" (files_by_slot "it1" "start" attached.1)
    × (ids attached.1.files ≡ ids bench.files)
files_by_slot-attach_existing_output_example =
    files_by_slot-attach_existing_output "a1" "linked" "linked" "it1" "start" "report" "f1"
      (some "ann") bench attached.1 (find_state "start" attached.1.run.states)
      (unfold listing in refl) (unfold listing in refl)
