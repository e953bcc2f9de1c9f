-- ===== src/Iterations/Files.antt =====
-- Files and nodes: `attachExistingOutput` of iterations.service.ts, over the run of an iteration and
-- the tables of files and of provenance agents. The nodes are those of the workflow frozen for the
-- iteration; the ids of new agents and the texts of labels and events are parameters.
use digital_thread.Shared.{
  ℕ, String, Bool, not, Option, none, some, List, [], ◌∷◌, ◌++◌, ◌==◌, if◌then◌else◌, get_or,
  is_some, truthy, find, update_first,
}
use digital_thread.Flow.{many}
use digital_thread.Engine.Store.{
  NodeState, Run, Action, not_found, Result, ok, err, find_state, modify_state,
}
use digital_thread.Engine.Status.{outputs_of, put_outputs, add_output, add_timeline_event}

pub data AttachmentKind : Type 0 where
  node raw : AttachmentKind

-- The columns of a `FileRecord` that are read or written here.
pub record FileRecord : Type 0 where
  pub id : String
  pub filename : String
  pub iteration_id : Option String
  pub node_source_id : Option String
  pub node_output_id : Option String
  pub attachment_kind : AttachmentKind
  pub timestamp : ℕ

-- A `ProvenanceAgent` of type USER with version `human`.
pub record Agent : Type 0 where
  pub id : String
  pub name : String

pub record Workbench : Type 0 where
  pub run : Run
  pub files : List FileRecord
  pub agents : List Agent

abbrev pub slot_or_default : String → String
slot_or_default output = get_or (truthy (some output)) "default"

-- A RAW file becomes one of the node.
abbrev pub adopted : String → String → String → FileRecord → FileRecord
adopted iteration id slot f = record f {
  iteration_id = some iteration;
  node_source_id = some id;
  node_output_id = some slot;
  attachment_kind = node;
}

unfoldable pub adopt : String → String → String → FileRecord → List FileRecord → List FileRecord
adopt iteration id slot f files =
    if is_some (truthy f.iteration_id)
    then files
    else update_first (λ g. g.id == f.id) (adopted iteration id slot) files

-- Find or create the agent of a user.
unfoldable pub agent_for : String → String → List Agent → String × List Agent
agent_for new_id name agents = elim (find (λ a. a.name == name) agents) [
  | some a ↦ (a.id, agents)
  | none ↦ (new_id, agents ++ record { id = new_id; name = name } ∷ [])
]

abbrev pub linked_by : String → String → NodeState → NodeState
linked_by agent label s = record s {
  provenance_agent_id = some agent;
  transformation_label = some label;
}

abbrev pub no_agent : NodeState → Bool
no_agent s = not (is_some (truthy s.provenance_agent_id))

-- The user is recorded on a row that has no agent yet.
unfoldable pub attribute :
    String → String → Option String → String → NodeState → Workbench → Workbench
attribute new_id label email id state w = elim (truthy email) [
  | none ↦ w
  | some name ↦
      if no_agent state
      then record w {
        run = record w.run {
          states =
              modify_state id (linked_by (agent_for new_id name w.agents).0 label) w.run.states;
        };
        agents = (agent_for new_id name w.agents).1;
      }
      else w
]

unfoldable pub put_file : String → String → String → Run → Run
put_file id slot file r = record r {
  states =
      modify_state id
        (put_outputs (add_output many slot file (outputs_of (find_state id r.states)))) r.states;
}

-- `attachExistingOutput` of a file and a row that are there
unfoldable pub attach :
    String
    → String
    → String
    → String
    → String
    → String
    → FileRecord
    → Option String
    → NodeState
    → Workbench
    → Workbench
attach new_id label detail iteration id slot f email state w =
    let linked = record w {
      run = put_file id slot f.id w.run;
      files = adopt iteration id slot f w.files;
    } in
    let done = attribute new_id label email id state linked in
    record done {
      run = (add_timeline_event id id (get_or email "System") Action.file_linked detail done.run).1;
    }

unfoldable pub attach_existing_output :
    String
    → String
    → String
    → String
    → String
    → String
    → String
    → Option String
    → Workbench
    → Result (Option NodeState) × Workbench
attach_existing_output new_id label detail iteration id output file email w =
    elim (find (λ f. f.id == file) w.files) [
      | none ↦ (err not_found, w)
      | some f ↦ elim (find_state id w.run.states) [
        | none ↦ (err not_found, w)
        | some s ↦
            let after =
              attach new_id label detail iteration id (slot_or_default output) f email s w in
            (ok (find_state id after.run.states), after)
      ]
    ]
