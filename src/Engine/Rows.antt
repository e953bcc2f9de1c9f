-- ===== src/Engine/Rows.antt =====
-- Lemmas on the rows of a run: what a write to one row changes, and how many rows are IDLE.
use digital_thread.Shared.{
  ℕ, ◌+◌, String, ◌≡◌, Option, none, some, List, [], ◌∷◌, arith, eq_iff, ◌==◌, if◌then◌else◌, count,
}
use digital_thread.Engine.Store.{
  NodeStatus, NodeState, find_state, modify_state, status_in, is_idle,
}

-- A write that leaves the key of the row alone.
abbrev pub KeepsId : (NodeState → NodeState) → Type 0
KeepsId f = (s : NodeState) → (f s).node_id ≡ s.node_id

abbrev pub apply_to : (NodeState → NodeState) → Option NodeState → Option NodeState
apply_to f none = none
apply_to f (some s) = some (f s)

pub find_state-modify_state :
    (id j : String) (f : NodeState → NodeState) (ss : List NodeState)
    → KeepsId f
    → find_state j (modify_state id f ss)
      ≡ (if id == j then apply_to f (find_state j ss) else find_state j ss)
unfolding find_state modify_state
find_state-modify_state id j f [] k = ground arith
find_state-modify_state id j f (s ∷ ss) k = ground (
  arith,
  k s,
  find_state-modify_state id j f ss k,
  eq_iff id j,
  eq_iff s.node_id id,
  eq_iff s.node_id j,
)

-- The key of a row that was found.
pub find_state_id :
    (id : String) (ss : List NodeState) (s : NodeState) → find_state id ss ≡ some s → s.node_id ≡ id
unfolding find_state
find_state_id id [] s h = ground arith
find_state_id id (t ∷ ss) s h = ground (arith, eq_iff t.node_id id, find_state_id id ss s)

-- The rows whose status is IDLE.
unfoldable pub idle_count : List NodeState → ℕ
idle_count ss = count (λ s. is_idle (some s.status)) ss

pub idle_count-modify_state :
    (id : String) (f : NodeState → NodeState) (ss : List NodeState) (s : NodeState)
    → find_state id ss ≡ some s
    → idle_count (modify_state id f ss) + (if is_idle (some s.status) then 1 else 0)
      ≡ idle_count ss + (if is_idle (some (f s).status) then 1 else 0)
unfolding idle_count find_state modify_state
idle_count-modify_state id f [] s h = ground arith
idle_count-modify_state id f (t ∷ ss) s h = ground (arith, idle_count-modify_state id f ss s)

-- A row that is found has a status.
pub status_in_find :
    (id : String) (ss : List NodeState) {st : NodeStatus}
    → status_in ss id ≡ some st
    → (s : NodeState) × (find_state id ss ≡ some s) × (s.status ≡ st)
unfolding status_in
status_in_find id ss h = ground arith
