-- ===== src/Iterations/Claims.antt =====
-- What claiming and completing a node guarantee.
use digital_thread.Shared.{
  String, ◌≡◌, refl, ◌≢◌, ◌⊎◌, inl, inr, sym, ◌∙◌, Bool, true, false, ◌||◌, Option, some, List, [],
  ◌∷◌, arith, Option-cases, is_some, truthy, filter, eq_iff,
}
use digital_thread.Shared.Assoc.{lookup}
use mathlib.Core.List.{Memᴰ}
use digital_thread.Flow.{NodeOutputDef, FlowNodeDef, FlowEdge}
use digital_thread.Engine.Store.{
  NodeStatus, pending, running, completed, NodeState, not_found, bad_request, Run, ok, err,
  find_state, status_in, column_or,
}
use digital_thread.Engine.Status.{update_node_status}
use digital_thread.Engine.Inputs.{has_files}
use digital_thread.Engine.Activation.{find_node, advance_workflow}
use digital_thread.Engine.Outcome.{bind-ok}
use digital_thread.Engine.Update.{update_node_status_row}
use digital_thread.Engine.Advance.{advance_workflow-Progress}
use digital_thread.Iterations.Status.{text_ids, find_one}
use digital_thread.Iterations.Healing.{reconcile_rows}
use digital_thread.Iterations.Nodes.{
  get_node_state, is_pending, is_running, claimed_now, claim_node, is_missing, missing_outputs,
  is_empty, has_outputs, complete_guard, complete_node,
}

-- A claim of a node that is not PENDING is refused, and nothing changes.
pub claim_node_refused :
    (id by : String) (r : Run)
    → status_in r.states id ≢ some pending
    → (claim_node id by r ≡ (err not_found, r)) ⊎ (claim_node id by r ≡ (err bad_request, r))
unfolding claim_node get_node_state status_in
claim_node_refused id by r h = ground arith

claim_node_pending :
    (id by : String) (r : Run)
    → status_in r.states id ≡ some pending
    → claim_node id by r ≡ update_node_status id running (claimed_now r.now by) r
unfolding claim_node get_node_state status_in
claim_node_pending id by r h = ground arith

is_pending_status : (o : Option NodeStatus) → (o ≡ some pending) ⊎ (o ≢ some pending)
is_pending_status o = ground arith

-- A claim that succeeds finds the node PENDING and makes it RUNNING, and leaves the other nodes.
pub claim_node_lem :
    (id by : String) (r r' : Run)
    → claim_node id by r ≡ (ok tt, r')
    → (status_in r.states id ≡ some pending)
      × (status_in r'.states id ≡ some running)
      × ((j : String) → id ≢ j → find_state j r'.states ≡ find_state j r.states)
claim_node_lem id by r r' h = elim (is_pending_status (status_in r.states id)) [
  | inl was ↦
      let (now, others) =
        update_node_status_row id running _ r r' (sym (claim_node_pending id by r was) ∙ h) in
      (was, now, others)
  | inr not_so ↦ elim (claim_node_refused id by r not_so) [ inl e ↦ cc | inr e ↦ cc ]
]

claim_node_busy :
    (id by : String) (r : Run) {st : NodeStatus}
    → status_in r.states id ≡ some st
    → is_pending st ≡ false
    → claim_node id by r ≡ (err bad_request, r)
unfolding claim_node get_node_state status_in
claim_node_busy id by r h k = ground arith

-- Of two claims of one node the second is refused: whoever claims second gets a bad request and
-- changes nothing.
pub claim_node_once :
    (id first second : String) (r r' : Run)
    → claim_node id first r ≡ (ok tt, r')
    → claim_node id second r' ≡ (err bad_request, r')
claim_node_once id first second r r' h =
    claim_node_busy id second r' (claim_node_lem id first r r' h).1 refl

abbrev pub has_path : NodeState → Option String → Bool
has_path state path = is_some (truthy path) || is_some (truthy state.output_file_path)

empty_filter :
    {A : Type 0} (p : A → Bool) (x : A) (xs : List A)
    → is_empty (filter p xs) ≡ true
    → Memᴰ x xs
    → p x ≡ false
empty_filter p x [] h m = elim m [ ]
empty_filter p x (y ∷ ys) h (Memᴰ.head e) = ground arith
empty_filter p x (y ∷ ys) h (Memᴰ.tail m) = empty_filter p x ys (ground arith) m

-- What the required outputs of a node must have: a recorded file, or for the output `default` the
-- path given or one recorded before.
abbrev pub IsDelivered : NodeState → Option String → FlowNodeDef → Type 0
IsDelivered state path target =
    (o : NodeOutputDef)
    → Memᴰ o target.outputs
    → o.required ≡ true
    → (has_files (lookup o.id (column_or [] state.outputs)) ≡ true)
      ⊎ ((o.id ≡ "default") × (has_path state path ≡ true))

delivered :
    (state : NodeState) (path : Option String) (target : FlowNodeDef)
    → has_outputs state path (some target) ≡ true
    → IsDelivered state path target
unfolding missing_outputs is_missing
delivered state path target h o m q =
    let kept = empty_filter _ o target.outputs h m in ground (arith, eq_iff o.id "default")

module _ (edges : List FlowEdge) (nodes : List FlowNodeDef) (id : String)
    (path : Option String) where
  complete_guard_lem :
      (r r' : Run) (s : NodeState)
      → complete_guard edges nodes id path r ≡ (ok s, r')
      → (r'.states ≡ r.states)
        × (find_state id r.states ≡ some s)
        × (s.status ≡ running)
        × (has_outputs s path (find_node id nodes) ≡ true)
  unfolding complete_guard get_node_state find_one
  complete_guard_lem r r' s h = ground (arith, reconcile_rows (some (text_ids nodes)) r)

  get_node_state-ok :
      (r r' : Run) (s : NodeState)
      → get_node_state id r ≡ (ok s, r')
      → (r' ≡ r) × (find_state id r.states ≡ some s)
  unfolding get_node_state
  get_node_state-ok r r' s h = ground arith

  completed_stays :
      (r : Run)
      → status_in r.states id ≡ some completed
      → status_in (advance_workflow edges nodes id r).1.states id ≡ some completed
  completed_stays r h = ground (arith, (advance_workflow-Progress edges nodes id r).moved id)

  status_of_found :
      (ss : List NodeState) (s : NodeState) {st : NodeStatus}
      → find_state id ss ≡ some s
      → status_in ss id ≡ some st
      → s.status ≡ st
  unfolding status_in
  status_of_found ss s h k = ground arith

  -- A completion that succeeds finds the node RUNNING with every required output delivered, and
  -- returns its row, which is COMPLETED whatever the advance of the workflow did.
  pub complete_node_lem :
      (r r' : Run) (s' : NodeState)
      → complete_node edges nodes id path r ≡ (ok s', r')
      → (s : NodeState) × (find_state id r.states ≡ some s)
        × (s.status ≡ running)
        × ((target : FlowNodeDef) → find_node id nodes ≡ some target → IsDelivered s path target)
        × (find_state id r'.states ≡ some s')
        × (s'.status ≡ completed)
  unfolding complete_node
  complete_node_lem r r' s' h =
      let (s, r1, guarded, h1) = bind-ok (complete_guard edges nodes id path) _ r h in
      let (_, r2, written, h2) = bind-ok (update_node_status id completed _) _ r1 h1 in
      let (same, found) = get_node_state-ok (advance_workflow edges nodes id r2).1 r' s' h2 in
      let (rows_same, found_s, busy, full) = complete_guard_lem r r1 s guarded in
      let done = completed_stays r2 (update_node_status_row id completed _ r1 r2 written).0 in
      (
        s,
        found_s,
        busy,
        λ target at. delivered s path target (rw at at full),
        rw same found,
        status_of_found _ s' found done,
      )

  running_of : (st : NodeStatus) → is_running st ≡ true → st ≡ running
  running_of st h = ground arith

  -- A completion of a node that has no row, is not RUNNING or lacks a required output is refused,
  -- and changes no node and does not advance the workflow: nothing is done but the reconciliation
  -- of the iteration's status.
  pub complete_node_refused :
      (r : Run)
      → ((s : NodeState)
          → find_state id r.states ≡ some s
          → s.status ≡ running
          → has_outputs s path (find_node id nodes) ≡ false)
      → ((complete_node edges nodes id path r ≡ (err not_found, (find_one nodes r).1))
          ⊎ (complete_node edges nodes id path r ≡ (err bad_request, (find_one nodes r).1)))
        × ((find_one nodes r).1.states ≡ r.states)
  unfolding complete_node complete_guard get_node_state find_one
  complete_node_refused r h = elim (Option-cases (find_state id r.states)) [
    | inl missing ↦ ground (arith, reconcile_rows (some (text_ids nodes)) r)
    | inr (s, found) ↦
        ground (arith, reconcile_rows (some (text_ids nodes)) r, running_of s.status, h s found)
  ]
