-- ===== src/Engine/Store.antt =====
-- What the engine keeps of one iteration: its row, its NodeRuntimeState rows, its timeline and, in
-- order, the calls that it makes of the event broker, the lineage and the manifest service. An
-- operation takes the run and returns it with a result; what it wrote before it threw stays.
use digital_thread.Shared.{
  ℕ, String, Bool, true, false, Option, none, some, List, [], ◌∷◌, ◌++◌, ◌==◌, if◌then◌else◌,
}
use digital_thread.Flow.{NodeOutputsMap, NodeInputStatusesMap}

pub data NodeStatus : Type 0 where
  idle pending running completed error skipped : NodeStatus

-- `Iteration.status`.
pub data IterationStatus : Type 0 where
  draft running completed failed : IterationStatus

-- A JSON text column: null or empty, a text that `JSON.parse` refuses, or a parsed value.
pub data Column (A : Type 0) : Type 0 where
  absent : Column A
  malformed : Column A
  parsed : A → Column A

-- `try { JSON.parse(c) } catch { d }`, and `d` where the column is empty
abbrev pub column_or : {A : Type 0} → A → Column A → A
column_or d absent = d
column_or d malformed = d
column_or d (parsed a) = a

-- The texts that the engine logs.
pub data Message : Type 0 where
  gateway_passed : (name logic : String) (forwarded : Option ℕ) → Message
  gateway_blocked : (name logic : String) → Message
  predecessor_error cascaded_skip : Message
  text : String → Message

abbrev pub LogLine : Type 0
LogLine = ℕ × Message

pub record NodeState : Type 0 where
  pub node_id : String
  pub status : NodeStatus
  pub started_at : Option ℕ
  pub completed_at : Option ℕ
  pub logs : Column (List LogLine)
  pub outputs : Column NodeOutputsMap
  pub output_file_path : Option String
  pub error_message : Option String
  pub progress : Option ℕ
  pub claimed_by : Option String
  pub input_file_statuses : Column NodeInputStatusesMap
  pub handler_name : Option String
  pub handler_version : Option String
  pub execution_params : Option String
  pub provenance_agent_id : Option String
  pub transformation_label : Option String

-- The `extra` argument of `updateNodeStatus`.
pub record Extra : Type 0 where
  pub started_at : Option ℕ
  pub completed_at : Option ℕ
  pub error_message : Option String
  pub output_file_path : Option String
  pub progress : Option ℕ
  pub claimed_by : Option String
  pub log : Option Message

abbrev pub no_extra : Extra
no_extra = record {
  started_at = none;
  completed_at = none;
  error_message = none;
  output_file_path = none;
  progress = none;
  claimed_by = none;
  log = none;
}

pub data Action : Type 0 where
  gateway_passed gateway_blocked iteration_started iteration_forked fork_initiated file_linked :
      Action

pub record TimelineEvent : Type 0 where
  pub node_id : String
  pub node_label : String
  pub partner : String
  pub action : Action
  pub detail : String
  pub timestamp : ℕ

-- Calls of `broker.emit`, `lineage.recordEdgesForNode` and `manifest.generateManifest`.
pub data Effect : Type 0 where
  record_edges : String → Effect
  node_status_changed : String → NodeStatus → Extra → Effect
  node_progress : String → ℕ → Effect
  node_log : String → Message → Effect
  timeline_event : TimelineEvent → Effect
  generate_manifest : Effect
  iteration_status : IterationStatus → Effect

pub record Run : Type 0 where
  pub status : IterationStatus
  pub completed_at : Option ℕ
  pub states : List NodeState
  pub timeline : List TimelineEvent
  pub effects : List Effect
  -- The reading of `new Date()`: the clock stands still inside one operation.
  pub now : ℕ

pub data Failure : Type 0 where
  not_found bad_request forbidden : Failure
  -- `prisma.update` of a row that is not there, `create` of one that is, and `JSON.parse` outside a
  -- `try`.
  record_missing record_exists json_error : Failure
  -- The model's own: a loop was given too little fuel.
  out_of_fuel : Failure

pub data Result (A : Type 0) : Type 0 where
  ok : A → Result A
  err : Failure → Result A

abbrev pub M : Type 0 → Type 0
M A = Run → Result A × Run

abbrev pub proceed : {A B : Type 0} → Result A × Run → (A → M B) → Result B × Run
proceed (ok a, r) k = k a r
proceed (err e, r) k = (err e, r)

infixl 5 ◌>>=◌ ◌>>◌
abbrev pub ◌>>=◌ : {A B : Type 0} → M A → (A → M B) → M B
◌>>=◌ m k r = proceed (m r) k

abbrev pub ◌>>◌ : {B : Type 0} → M (Unit {0}) → M B → M B
m >> k = m >>= λ _. k

abbrev pub return : {A : Type 0} → A → M A
return a r = (ok a, r)

abbrev pub throw : {A : Type 0} → Failure → M A
throw e r = (err e, r)

-- `findMany({ where: { iterationId } })`
abbrev pub rows : M (List NodeState)
rows r = (ok r.states, r)

abbrev pub clock : M ℕ
clock r = (ok r.now, r)

-- `for (const x of xs) await body(x)`
unfoldable pub for_each : {A : Type 0} → (A → M (Unit {0})) → List A → M (Unit {0})
for_each body [] = return tt
for_each body (x ∷ xs) = body x >> for_each body xs

-- A row by its key (iterationId, nodeId).
unfoldable pub find_state : String → List NodeState → Option NodeState
find_state id [] = none
find_state id (s ∷ ss) = if s.node_id == id then some s else find_state id ss

unfoldable pub modify_state : String → (NodeState → NodeState) → List NodeState → List NodeState
modify_state id f [] = []
modify_state id f (s ∷ ss) = if s.node_id == id then f s ∷ ss else s ∷ modify_state id f ss

unfoldable pub status_in : List NodeState → String → Option NodeStatus
status_in ss id = elim (find_state id ss) [ none ↦ none | some s ↦ some s.status ]

-- `prisma.nodeRuntimeState.update({ where: { iterationId_nodeId }, data })`
unfoldable pub update_row : String → (NodeState → NodeState) → M (Unit {0})
update_row id f r = elim (find_state id r.states) [
  | none ↦ (err record_missing, r)
  | some s ↦ (ok tt, record r { states = modify_state id f r.states })
]

abbrev pub emit : Effect → M (Unit {0})
emit e r = (ok tt, record r { effects = r.effects ++ e ∷ [] })

abbrev pub is_idle : Option NodeStatus → Bool
is_idle (some idle) = true
is_idle (some pending) = false
is_idle (some running) = false
is_idle (some completed) = false
is_idle (some error) = false
is_idle (some skipped) = false
is_idle none = false

abbrev pub is_completed : NodeStatus → Bool
is_completed completed = true
is_completed idle = false
is_completed pending = false
is_completed running = false
is_completed error = false
is_completed skipped = false

-- COMPLETED, SKIPPED or ERROR.
abbrev pub is_terminal : Option NodeStatus → Bool
is_terminal (some completed) = true
is_terminal (some skipped) = true
is_terminal (some error) = true
is_terminal (some idle) = false
is_terminal (some pending) = false
is_terminal (some running) = false
is_terminal none = false

abbrev pub is_error : Option NodeStatus → Bool
is_error (some error) = true
is_error (some completed) = false
is_error (some skipped) = false
is_error (some idle) = false
is_error (some pending) = false
is_error (some running) = false
is_error none = false
