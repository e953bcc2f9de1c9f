-- ===== src/Iterations/Forked.antt =====
-- The rows of a fork: what it inherits, and that its first node can be worked on.
use digital_thread.Shared.{
  ℕ, String, ◌≡◌, refl, ◌≢◌, ◌↔◌, ◌⊎◌, inl, inr, ap, ◌∙◌, none, sym, subst, true, some, List, [],
  ◌∷◌, arith, eq_iff, ◌==◌, includes, Bool-cases, Option-cases,
}
use mathlib.Core.List.{Memᴰ}
use digital_thread.Flow.{FlowNodeDef, FlowEdge}
use digital_thread.Engine.Store.{
  idle, pending, skipped, no_extra, NodeStatus, NodeState, Run, ok, for_each, find_state, status_in,
}
use digital_thread.Engine.Status.{idle_row, add_timeline_event}
use digital_thread.Engine.Activation.{sources_of, find_node, is_ok}
use digital_thread.Engine.Moves.{Moved, AllMoved}
use digital_thread.Engine.Policy.{IsTask, IsReady, IsCut}
use digital_thread.Engine.Outcome.{bind-ok}
use digital_thread.Engine.Update.{update_node_status_row}
use digital_thread.Engine.Advance.{advance_workflow-Progress}
use digital_thread.Engine.Liveness.{advance_workflow_opens}
use digital_thread.Iterations.Status.{node_ids}
use digital_thread.Engine.Paths.{Reaches}
use digital_thread.Iterations.Forks.{fresh_run, fork_row, create_state, activate_from, fork_run}
use digital_thread.Iterations.Inherited.{
  fork_row_id, row_after, create_states_rows, sources-targets, find_node-node_ids, all_of_includes,
}

module _ (edges : List FlowEdge) (nodes : List FlowNodeDef) (from : String) (source : Run) where
  -- The node is in the workflow, no edge path leads to it from the restart node, and it is COMPLETED
  -- or SKIPPED in the source.
  abbrev pub IsKeptDone : String → Type 0
  IsKeptDone p =
      (includes (node_ids nodes) p ≡ true)
      × (Reaches edges from p → ⊥)
      × (is_ok (status_in source.states p) ≡ true)

  -- What the rows of a fork are like. First, each node that the restart node reaches, and any other
  -- without a row in the source, gets an IDLE row with nothing in it; any other gets its row in the
  -- source, with the status, the outputs and the paths of its files, less the transformation label.
  -- From there a node stays or the engine takes it out of IDLE, and rows that are not IDLE stay as
  -- they are. The restart node itself is PENDING where nothing leads to it; a task whose predecessors
  -- are all kept and done is PENDING, or it is SKIPPED behind a gateway that is SKIPPED.
  pub record IsFork (new : Run) : Type 0 where
    pub begun : List NodeState
    pub fresh :
        (j : String)
        → includes (node_ids nodes) j ≡ true
        → Reaches edges from j
        → find_state j begun ≡ some (idle_row j)
    pub missing :
        (j : String)
        → includes (node_ids nodes) j ≡ true
        → find_state j source.states ≡ none
        → find_state j begun ≡ some (idle_row j)
    pub inherited :
        (j : String) (s : NodeState)
        → includes (node_ids nodes) j ≡ true
        → (Reaches edges from j → ⊥)
        → find_state j source.states ≡ some s
        → find_state j begun ≡ some (record s { transformation_label = none })
    pub moved : AllMoved begun new.states
    pub kept :
        (j : String) → status_in begun j ≢ some idle → find_state j new.states ≡ find_state j begun
    pub first : sources_of from edges ≡ [] → status_in new.states from ≡ some pending
    pub opened :
        sources_of from edges ≢ []
        → IsTask nodes from
        → ((p : String) → includes (sources_of from edges) p ≡ true → IsKeptDone p)
        → (status_in new.states from ≡ some pending)
          ⊎ ((status_in new.states from ≡ some skipped) × IsCut edges nodes new.states from)

  pub IsFork-same : (s r : Run) → r.states ≡ s.states → IsFork s → IsFork r
  IsFork-same s r e f = record {
    begun = f.begun;
    fresh = f.fresh;
    missing = f.missing;
    inherited = f.inherited;
    moved = λ j. rw e (f.moved j);
    kept = λ j ne. rw e (f.kept j ne);
    first = λ h. rw e (f.first h);
    opened = λ h task done. rw e (f.opened h task done);
  }

  module _ (reset : List String)
      (reached : (x : String) → (includes reset x ≡ true) ↔ Reaches edges from x) (n : FlowNodeDef)
      (found : find_node from nodes ≡ some n) where
    module _ (q : Run)
        (written : (j : String)
          → find_state j q.states
            ≡ row_after
                (fork_row reset source.states)
                (fork_row_id reset source.states)
                []
                nodes
                j) where
      row_fresh :
          (j : String)
          → includes (node_ids nodes) j ≡ true
          → Reaches edges from j
          → find_state j q.states ≡ some (idle_row j)
      unfolding fork_row find_state
      row_fresh j m r = ground (arith, written j, (reached j).1 r)

      row_missing :
          (j : String)
          → includes (node_ids nodes) j ≡ true
          → find_state j source.states ≡ none
          → find_state j q.states ≡ some (idle_row j)
      unfolding fork_row find_state
      row_missing j m none_there = elim (Bool-cases (includes reset j)) [
        | inl there ↦ ground (arith, written j)
        | inr other ↦ ground (arith, written j)
      ]

      row_inherited :
          (j : String) (s : NodeState)
          → includes (node_ids nodes) j ≡ true
          → (Reaches edges from j → ⊥)
          → find_state j source.states ≡ some s
          → find_state j q.states ≡ some (record s { transformation_label = none })
      unfolding fork_row find_state
      row_inherited j s m out e = elim (Bool-cases (includes reset j)) [
        | inl bad ↦ absurd (out ((reached j).0 bad))
        | inr fine ↦ ground (arith, written j)
      ]

      status_fresh :
          (j : String)
          → includes (node_ids nodes) j ≡ true
          → Reaches edges from j
          → status_in q.states j ≡ some idle
      unfolding status_in fork_row find_state
      status_fresh j m r = ground (arith, written j, (reached j).1 r)

      status_kept :
          (j : String) (st : NodeStatus)
          → includes (node_ids nodes) j ≡ true
          → (Reaches edges from j → ⊥)
          → status_in source.states j ≡ some st
          → status_in q.states j ≡ some st
      unfolding status_in fork_row find_state
      status_kept j st m out e = elim (Bool-cases (includes reset j)) [
        | inl bad ↦ absurd (out ((reached j).0 bad))
        | inr fine ↦ ground (arith, written j)
      ]

      ready :
          ((p : String) → includes (sources_of from edges) p ≡ true → IsKeptDone p)
          → IsReady edges q.states from
      ready h =
          all_of_includes (λ p. is_ok (status_in q.states p)) (sources_of from edges)
            (λ p m.
              let (in_flow, out, done) = h p m in
              elim (Option-cases (status_in source.states p)) [
                | inl e ↦ absurd (ground arith)
                | inr (st, e) ↦ ground (arith, status_kept p st in_flow out e)
              ])

      IsFork-moved :
          (s : Run)
          → AllMoved q.states s.states
          → ((j : String)
              → status_in q.states j ≢ some idle
              → find_state j s.states ≡ find_state j q.states)
          → (sources_of from edges ≡ [] → status_in s.states from ≡ some pending)
          → (sources_of from edges ≢ []
              → IsTask nodes from
              → ((p : String) → includes (sources_of from edges) p ≡ true → IsKeptDone p)
              → (status_in s.states from ≡ some pending)
                ⊎ ((status_in s.states from ≡ some skipped) × IsCut edges nodes s.states from))
          → IsFork s
      IsFork-moved s moved kept first opened = record {
        begun = q.states;
        fresh = row_fresh;
        missing = row_missing;
        inherited = row_inherited;
        moved = moved;
        kept = kept;
        first = first;
        opened = opened;
      }

      from_idle : status_in q.states from ≡ some idle
      from_idle = status_fresh from (find_node-node_ids from nodes n found) Reaches.here

      set_moved :
          (s : Run)
          → (status_in s.states from ≡ some pending)
            × ((j : String) → from ≢ j → find_state j s.states ≡ find_state j q.states)
          → AllMoved q.states s.states
      unfolding status_in
      set_moved s (set, others) j = elim (Bool-cases (from == j)) [
        | inl same ↦
            subst (λ k. Moved (status_in q.states k) (status_in s.states k))
              ((eq_iff from j).0 same) (inr (from_idle, inl set))
        | inr other ↦ inl (ground (arith, others j, eq_iff from j))
      ]

      activated :
          (s : Run) (ps : List String)
          → sources_of from edges ≡ ps
          → activate_from edges nodes from ps q ≡ (ok tt, s)
          → IsFork s
      unfolding activate_from
      activated s [] e h =
          let set = update_node_status_row from pending no_extra q s h in
          IsFork-moved s (set_moved s set)
            (λ j ne. set.1 j (λ same. ne (ap (λ k. status_in q.states k) (sym same) ∙ from_idle)))
            (λ _. set.0) (λ ne. absurd (ne e))
      activated s (p ∷ ps) e h =
          IsFork-moved s
            (rw (ap (λ o. o.1.states) h) at ((advance_workflow-Progress edges nodes p q).moved))
            (rw (ap (λ o. o.1.states) h) at ((advance_workflow-Progress edges nodes p q).kept))
            (λ k. cc)
            (λ _ task done.
              (advance_workflow_opens edges nodes p from q s h
                  (sources-targets p from edges (rw (← e) at (Memᴰ.head {x = p} {xs = ps} refl)))
                  task (ready done)).1
                from_idle)

    -- The new run once its rows are written, its first node is active and the event is there.
    pub fork_run-IsFork :
        (detail : String) (now : ℕ) (r : Run)
        → fork_run edges nodes reset source.states from detail (fresh_run now) ≡ (ok tt, r)
        → IsFork r
    unfolding fork_run add_timeline_event
    fork_run-IsFork detail now r h =
        let (a, q, create, rest) =
          bind-ok
            (for_each (λ (m : FlowNodeDef). create_state (fork_row reset source.states m.id)) nodes)
            _ (fresh_run now) h in
        let (b, s, active, last) =
          bind-ok (activate_from edges nodes from (sources_of from edges)) _ q rest in
        let fork =
          activated q
            (create_states_rows (fork_row reset source.states) (fork_row_id reset source.states)
              nodes (fresh_run now) q create)
            s (sources_of from edges) refl active in
        IsFork-same s r (sym (ap (λ o. o.1.states) last)) fork
