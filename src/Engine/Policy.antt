-- ===== src/Engine/Policy.antt =====
-- Which nodes the engine may open, complete or skip.
use digital_thread.Shared.{
  String, ◌≡◌, ◌⊎◌, inl, inr, true, false, Option, some, List, arith, all, all_mono, any-false_mono,
}
use digital_thread.Flow.{FlowNodeDef, FlowEdge}
use digital_thread.Engine.Store.{NodeStatus, pending, completed, skipped, NodeState, status_in}
use digital_thread.Engine.Activation.{
  sources_of, status_or_idle, is_ok, is_live, is_gateway, still_running, find_node,
}
use digital_thread.Engine.Paths.{Reaches}
use digital_thread.Engine.Moves.{Moved, AllMoved, Policy}

module _ (nodes : List FlowNodeDef) where
  -- The node is in the workflow and no gateway.
  abbrev pub IsTask : String → Type 0
  IsTask j = (n : FlowNodeDef) × (find_node j nodes ≡ some n) × (is_gateway n.kind ≡ false)

  abbrev pub IsGate : String → Type 0
  IsGate j = (n : FlowNodeDef) × (find_node j nodes ≡ some n) × (is_gateway n.kind ≡ true)

module _ (edges : List FlowEdge) where
  -- All predecessors are COMPLETED or SKIPPED.
  abbrev pub IsReady : List NodeState → String → Type 0
  IsReady ss j = all (λ p. is_ok (status_in ss p)) (sources_of j edges) ≡ true

  -- No predecessor is IDLE, PENDING or RUNNING.
  abbrev pub IsSettled : List NodeState → String → Type 0
  IsSettled ss j = still_running ss (sources_of j edges) ≡ false

pub is_ok-Moved : (a b : Option NodeStatus) → Moved a b → is_ok a ≡ true → is_ok b ≡ true
is_ok-Moved a b m h = ground arith

pub skipped-Moved : (a b : Option NodeStatus) → Moved a b → a ≡ some skipped → b ≡ some skipped
skipped-Moved a b m h = ground arith

is_live-Moved :
    (ss ts : List NodeState) (p : String)
    → Moved (status_in ss p) (status_in ts p)
    → is_live (status_or_idle ss p) ≡ false
    → is_live (status_or_idle ts p) ≡ false
unfolding status_or_idle
is_live-Moved ss ts p m h = ground arith

module _ (edges : List FlowEdge) (nodes : List FlowNodeDef) where
  -- A gateway that is SKIPPED leads to the node.
  abbrev pub IsCut : List NodeState → String → Type 0
  IsCut ss j = (g : String) × IsGate nodes g × (status_in ss g ≡ some skipped) × Reaches edges g j

  -- A task is opened when all its predecessors are done, a gateway is completed when none is still
  -- to come, and what is skipped is a gateway or behind one that is skipped.
  abbrev pub Allowed : List NodeState → String → NodeStatus → Type 0
  Allowed ss j st =
      ((st ≡ skipped) × (IsGate nodes j ⊎ IsCut ss j))
      ⊎ (((st ≡ pending) × IsTask nodes j × IsReady edges ss j)
          ⊎ ((st ≡ completed) × IsGate nodes j × IsSettled edges ss j))

  -- Only a gateway is completed.
  pub Allowed-IsGate : (ss : List NodeState) (j : String) → Allowed ss j completed → IsGate nodes j
  Allowed-IsGate ss j (inl (e, cause)) = cc
  Allowed-IsGate ss j (inr (inl (e, task, ready))) = cc
  Allowed-IsGate ss j (inr (inr (e, gate, settled))) = gate

  pub Allowed-persists :
      (ss ts : List NodeState) (j : String) (st : NodeStatus)
      → AllMoved ss ts
      → Allowed ss j st
      → Allowed ts j st
  unfolding still_running
  Allowed-persists ss ts j st m (inl (e, inl gate)) = inl (e, inl gate)
  Allowed-persists ss ts j st m (inl (e, inr (g, gate, shut, path))) =
      inl (e, inr (g, gate, skipped-Moved _ _ (m g) shut, path))
  Allowed-persists ss ts j st m (inr (inl (p, task, ready))) =
      inr (inl (p, task, all_mono _ _ (λ x. is_ok-Moved _ _ (m x)) (sources_of j edges) ready))
  Allowed-persists ss ts j st m (inr (inr (c, gate, settled))) = inr (
      inr (
        c,
        gate,
        any-false_mono _ _ (λ x. is_live-Moved ss ts x (m x)) (sources_of j edges) settled,
      ))

  abbrev pub flow_policy : Policy
  flow_policy = record { Allows = Allowed; persists = Allowed-persists }
