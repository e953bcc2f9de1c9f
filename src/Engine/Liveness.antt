-- ===== src/Engine/Liveness.antt =====
-- Nothing that can be worked on is left waiting: a task whose predecessors are done is opened, unless
-- it lies behind a gateway that is SKIPPED.
use digital_thread.Shared.{
  ℕ, suc, String, ◌≡◌, refl, ◌≢◌, ◌⊎◌, inl, inr, ap, ◌∙◌, sym, true, false, Option, some, List, [],
  ◌∷◌, arith, count, all, all_mono, Bool-cases,
}
use mathlib.Core.List.{Memᴰ}
use digital_thread.Flow.{FlowNodeDef, FlowEdge}
use digital_thread.Engine.Store.{
  idle, pending, completed, skipped, NodeState, Run, ok, M, for_each, status_in, is_idle,
  find_state,
}
use digital_thread.Engine.Inputs.{resolve_predecessor_inputs}
use digital_thread.Engine.Activation.{
  targets_of, sources_of, status_or_idle, still_running, is_ok, store_resolved, open_task, consider,
  try_activate, activation_fuel, advance_workflow,
}
use digital_thread.Engine.Completion.{check_iteration_complete_quiet}
use digital_thread.Engine.Moves.{Progress}
use digital_thread.Engine.Policy.{
  IsTask, IsGate, IsCut, Allowed-IsGate, IsReady, is_ok-Moved, Allowed, flow_policy,
}
use digital_thread.Engine.Outcome.{for_each-Good, bind-ok}
use digital_thread.Engine.Update.{update_node_status_row}
use digital_thread.Engine.Errors.{settle_task_lem}
use digital_thread.Engine.Advance.{try_activate-Good, advance_workflow-Progress}

open_task_pending :
    (s : Option NodeState) (target : FlowNodeDef) (id : String) (r r' : Run)
    → open_task s target id r ≡ (ok tt, r')
    → status_in r'.states id ≡ some pending
unfolding open_task
open_task_pending s target id r r' h =
    let (a, q, first, last) =
      bind-ok (store_resolved id s (resolve_predecessor_inputs r.states target)) _ r h in
    (update_node_status_row id pending _ q r' last).0

-- Done predecessors are not live.
still_running_ready :
    (states : List NodeState) (ps : List String)
    → all (λ p. is_ok (status_in states p)) ps ≡ true
    → still_running states ps ≡ false
unfolding still_running status_or_idle
still_running_ready states [] h = refl
still_running_ready states (p ∷ ps) h = ground (arith, still_running_ready states ps)

module _ (edges : List FlowEdge) (nodes : List FlowNodeDef) where
  try_activate_opens :
      (fuel : ℕ) (t : String) (r r' : Run)
      → IsTask nodes t
      → IsReady edges r.states t
      → try_activate edges nodes (suc fuel) t r ≡ (ok tt, r')
      → status_in r'.states t ≢ some idle
  unfolding try_activate consider
  try_activate_opens fuel t r r' (target, found, task) ready h =
      let settled = still_running_ready r.states (sources_of t edges) ready in
      elim (Bool-cases (is_idle (status_in r.states t))) [
        | inr busy ↦ λ e. ground arith
        | inl was ↦ λ e. ground (
          arith,
          settle_task_lem edges r.states target t,
          open_task_pending (find_state t r.states) target t r r',
        )
      ]

  IsReady-Progress :
      (t : String) (r s : Run)
      → Progress (flow_policy edges nodes) r.states s.states
      → IsReady edges r.states t
      → IsReady edges s.states t
  IsReady-Progress t r s p ready =
      all_mono _ _ (λ x. is_ok-Moved _ _ (p.moved x)) (sources_of t edges) ready

  left_idle :
      (t : String) (r s : Run)
      → Progress (flow_policy edges nodes) r.states s.states
      → status_in r.states t ≢ some idle
      → status_in s.states t ≢ some idle
  left_idle t r s p ne e = ground (arith, p.moved t)

  not-IsGate : (t : String) → IsTask nodes t → ¬ IsGate nodes t
  not-IsGate t (n, found, task) (g, at, gate) = ground arith

  -- A task is skipped only behind a gateway that is SKIPPED.
  skipped-IsCut :
      (ss : List NodeState) (t : String)
      → IsTask nodes t
      → Allowed edges nodes ss t skipped
      → IsCut edges nodes ss t
  skipped-IsCut ss t task (inl (e, inl gate)) = absurd (not-IsGate t task gate)
  skipped-IsCut ss t task (inl (e, inr cut)) = cut
  skipped-IsCut ss t task (inr (inl (e, other, ready))) = cc
  skipped-IsCut ss t task (inr (inr (e, gate, settled))) = cc

  Progress-to :
      {A : Type 0} (m : M A) {a : A} {r s : Run}
      → Progress (flow_policy edges nodes) r.states (m r).1.states
      → m r ≡ (ok a, s)
      → Progress (flow_policy edges nodes) r.states s.states
  Progress-to m p e = rw (ap (λ o. o.1.states) e) at p

  for_each_opens :
      (fuel : ℕ) (t : String) (ts : List String) (r r' : Run)
      → IsTask nodes t
      → IsReady edges r.states t
      → Memᴰ t ts
      → for_each (try_activate edges nodes (suc fuel)) ts r ≡ (ok tt, r')
      → status_in r'.states t ≢ some idle
  unfolding for_each
  for_each_opens fuel t [] r r' task ready m h = elim m [ ]
  for_each_opens fuel t (x ∷ ts) r r' task ready (Memᴰ.tail m) h =
      let (a, s, first, rest) = bind-ok (try_activate edges nodes (suc fuel) x) _ r h in
      let p = (try_activate-Good edges nodes (suc fuel) x r).progress in
      for_each_opens fuel t ts s r' task
        (IsReady-Progress t r s (Progress-to (try_activate edges nodes (suc fuel) x) p first) ready)
        m rest
  for_each_opens fuel t (x ∷ ts) r r' task ready (Memᴰ.head e) h =
      let (a, s, first, rest) = bind-ok (try_activate edges nodes (suc fuel) x) _ r h in
      let opened = try_activate_opens fuel t r s task ready (rw (← e) at first) in
      let p =
        (for_each-Good (flow_policy edges nodes) (suc fuel) (try_activate edges nodes (suc fuel)) ts
          (try_activate-Good edges nodes (suc fuel)) s).progress in
      left_idle t s r' (Progress-to (for_each (try_activate edges nodes (suc fuel)) ts) p rest)
        opened

  -- Once advancing the workflow behind a node has succeeded, every task after that node whose
  -- predecessors were all COMPLETED or SKIPPED has left IDLE: if it was IDLE, it is PENDING, so that
  -- it can be claimed, or it is SKIPPED and a path leads to it from a gateway that is SKIPPED.
  pub advance_workflow_opens :
      (id t : String) (r r' : Run)
      → advance_workflow edges nodes id r ≡ (ok tt, r')
      → Memᴰ t (targets_of id edges)
      → IsTask nodes t
      → IsReady edges r.states t
      → (status_in r'.states t ≢ some idle)
        × (status_in r.states t ≡ some idle
            → (status_in r'.states t ≡ some pending)
              ⊎ ((status_in r'.states t ≡ some skipped) × IsCut edges nodes r'.states t))
  unfolding advance_workflow activation_fuel
  advance_workflow_opens id t r r' h m task ready =
      let (a, s, loop, last) =
        bind-ok
          (for_each (try_activate edges nodes (activation_fuel r.states)) (targets_of id edges)) _ r
          h in
      let same = (check_iteration_complete_quiet nodes s).1 in
      let opened =
        for_each_opens (count (λ s. is_idle (some s.status)) r.states) t (targets_of id edges) r s
          task ready m loop in
      let p =
        Progress-to (advance_workflow edges nodes id) (advance_workflow-Progress edges nodes id r)
          h in
      let left : status_in r'.states t ≢ some idle = λ e.
        opened (sym (ap (λ ss. status_in ss t) (sym (ap (λ o. o.1.states) last) ∙ same)) ∙ e) in
      (
        left,
        λ was. elim (p.moved t) [
          | inl stayed ↦ absurd (left (sym stayed ∙ was))
          | inr (_, inl to) ↦ inl to
          | inr (_, inr (inr to)) ↦
              inr (to, skipped-IsCut r'.states t task (p.allowed t skipped was to (λ e. cc)))
          | inr (_, inr (inl to)) ↦ absurd (
              not-IsGate t task
                (Allowed-IsGate edges nodes r'.states t (p.allowed t completed was to (λ e. cc))))
        ],
      )
