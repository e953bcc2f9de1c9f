-- ===== src/Engine/Paths.antt =====
-- Which nodes the edges of a workflow lead to.
use digital_thread.Shared.{
  String, ◌≡◌, inl, inr, true, List, ◌++◌, arith, includes, includes-append, Bool-cases,
}
use digital_thread.Flow.{FlowEdge}
use digital_thread.Engine.Activation.{targets_of}

-- There is a path from `start`.
pub data Reaches (edges : List FlowEdge) (start : String) : String → Type 0 where
  here : Reaches edges start start
  next :
      {a : String} (b : String)
      → Reaches edges start a
      → includes (targets_of a edges) b ≡ true
      → Reaches edges start b

module _ (edges : List FlowEdge) (start : String) where
  -- Every member can be reached.
  abbrev pub AllReached : List String → Type 0
  AllReached xs = (x : String) → includes xs x ≡ true → Reaches edges start x

  pub AllReached-targets :
      (id : String) (queue : List String)
      → Reaches edges start id
      → AllReached queue
      → AllReached (queue ++ targets_of id edges)
  AllReached-targets id queue h k x e = elim (Bool-cases (includes queue x)) [
    | inl old ↦ k x old
    | inr new ↦ next x h (ground (arith, includes-append queue (targets_of id edges) x))
  ]
