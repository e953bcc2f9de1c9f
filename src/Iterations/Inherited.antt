-- ===== src/Iterations/Inherited.antt =====
-- The rows that a fork writes for the nodes of its workflow.
use digital_thread.Shared.{
  String, ◌≡◌, refl, inl, inr, sym, ◌∙◌, Bool, true, Option, none, some, List, [], ◌∷◌, ◌++◌, arith,
  eq_iff, ◌==◌, if◌then◌else◌, includes, all, Bool-cases, Option-cases, if_cases,
}
use mathlib.Core.List.{Memᴰ}
use digital_thread.Flow.{FlowNodeDef, FlowEdge}
use digital_thread.Engine.Store.{NodeState, Run, ok, for_each, find_state}
use digital_thread.Engine.Activation.{targets_of, sources_of, find_node}
use digital_thread.Engine.Rows.{find_state_id}
use digital_thread.Engine.Outcome.{bind-ok}
use digital_thread.Iterations.Status.{node_ids}
use digital_thread.Iterations.Forks.{fork_row, create_state}

pub fork_row_id :
    (reset : List String) (states : List NodeState) (id : String)
    → (fork_row reset states id).node_id ≡ id
unfolding fork_row
fork_row_id reset states id = elim (Bool-cases (includes reset id)) [
  | inl e ↦ rw (e, fork_row) refl
  | inr e ↦ elim (Option-cases (find_state id states)) [
    | inl k ↦ rw (e, k, fork_row) refl
    | inr (s, k) ↦ rw (e, k, fork_row) (find_state_id id states s k)
  ]
]

pub find_state-append :
    (id : String) (ss : List NodeState) (s : NodeState)
    → find_state id (ss ++ s ∷ []) ≡ elim (find_state id ss) [
      | some t ↦ some t
      | none ↦ if s.node_id == id then some s else none
    ]
unfolding find_state
find_state-append id [] s = ground arith
find_state-append id (t ∷ ss) s = ground (arith, find_state-append id ss s)

create_state_rows :
    (s : NodeState) (r r' : Run)
    → create_state s r ≡ (ok tt, r')
    → (find_state s.node_id r.states ≡ none) × (r'.states ≡ r.states ++ s ∷ [])
unfolding create_state
create_state_rows s r r' h = elim (Option-cases (find_state s.node_id r.states)) [
  | inl e ↦ (e, ground arith)
  | inr (t, e) ↦ absurd (ground arith)
]

module _ (row_for : String → NodeState) (named : (id : String) → (row_for id).node_id ≡ id) where
  -- What is found once a row was written for each node.
  abbrev pub row_after : List NodeState → List FlowNodeDef → String → Option NodeState
  row_after ss nodes j = elim (find_state j ss) [
    | some s ↦ some s
    | none ↦ if includes (node_ids nodes) j then some (row_for j) else none
  ]

  pub create_states_rows :
      (nodes : List FlowNodeDef) (r r' : Run)
      → for_each (λ (n : FlowNodeDef). create_state (row_for n.id)) nodes r ≡ (ok tt, r')
      → (j : String) → find_state j r'.states ≡ row_after r.states nodes j
  unfolding for_each
  create_states_rows [] r r' h j = elim (Option-cases (find_state j r.states)) [
    | inl e ↦ ground arith
    | inr (s, e) ↦ ground arith
  ]
  create_states_rows (n ∷ ns) r r' h j =
      let (a, q, first, rest) = bind-ok (create_state (row_for n.id)) _ r h in
      let (fresh, rows) = create_state_rows (row_for n.id) r q first in
      create_states_rows ns q r' rest j
      ∙ rw rows (elim (Bool-cases (n.id == j)) [
        | inl here ↦
            let same : n.id ≡ j = (eq_iff n.id j).0 here in
            ground
              (arith, find_state-append j r.states (row_for n.id), named n.id, same, eq_iff n.id j)
        | inr other ↦
            ground (arith, find_state-append j r.states (row_for n.id), named n.id, eq_iff n.id j)
      ])

pub sources-targets :
    (p t : String) (es : List FlowEdge) → Memᴰ p (sources_of t es) → Memᴰ t (targets_of p es)
unfolding sources_of targets_of
sources-targets p t [] m = elim m [ ]
sources-targets p t (e ∷ es) m = elim (Bool-cases (e.target == t)) [
  | inl to ↦ here to (rw (to, sources_of) at m) (λ k. sources-targets p t es k)
  | inr other ↦ skip (sources-targets p t es (rw (other, sources_of) at m))
]
  where
    skip : Memᴰ t (targets_of p es) → Memᴰ t (targets_of p (e ∷ es))
    skip k = if_cases (Memᴰ t) (e.source == p) _ _ (λ _. Memᴰ.tail k) (λ _. k)

    here :
        (e.target == t) ≡ true
        → Memᴰ p (e.source ∷ sources_of t es)
        → (Memᴰ p (sources_of t es) → Memᴰ t (targets_of p es))
        → Memᴰ t (targets_of p (e ∷ es))
    here to (Memᴰ.head k) ih =
        let from_p : (e.source == p) ≡ true = ground (arith, eq_iff e.source p) in
        rw (from_p, targets_of) (Memᴰ.head (sym ((eq_iff e.target t).0 to)))
    here to (Memᴰ.tail k) ih = skip (ih k)

pub find_node-node_ids :
    (id : String) (nodes : List FlowNodeDef) (n : FlowNodeDef)
    → find_node id nodes ≡ some n
    → includes (node_ids nodes) id ≡ true
unfolding find_node
find_node-node_ids id [] n h = absurd (ground arith)
find_node-node_ids id (m ∷ ns) n h = ground (arith, find_node-node_ids id ns n, eq_iff m.id id)

pub all_of_includes :
    (p : String → Bool) (xs : List String)
    → ((x : String) → includes xs x ≡ true → p x ≡ true)
    → all p xs ≡ true
all_of_includes p [] h = refl
all_of_includes p (x ∷ xs) h =
    ground (arith, h x, eq_iff x x, all_of_includes p xs (λ y m. h y (ground arith)))
