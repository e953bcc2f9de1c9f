-- ===== src/Engine/Settle.antt =====
-- The branches of `tryActivate` as steps that the policy of the workflow allows.
use digital_thread.Shared.{
  ℕ, suc, String, ◌≡◌, refl, ◌∙◌, sym, ap, Bool, true, false, Option, some, List, [], ◌∷◌, arith,
  ◌⊎◌, inl, inr, if◌then◌else◌, all,
}
use digital_thread.Flow.{NodeInputDef, FlowNodeDef, FlowEdge, NodeOutputsMap, NodeInputStatusesMap}
use digital_thread.Engine.Store.{
  NodeStatus, idle, pending, completed, skipped, ok, M, Run, NodeState, status_in, find_state,
  update_row, return, Action,
}
use digital_thread.Engine.Status.{update_node_status, add_timeline_event, put_outputs}
use digital_thread.Engine.Inputs.{resolve_predecessor_inputs}
use digital_thread.Engine.Activation.{
  targets_of, sources_of, forward_outputs, store_resolved, put_input_statuses, merge_into,
  conclude_gateway, file_gate, settle_gateway, is_ok, open_task, settle_task,
}
use digital_thread.Engine.Gateway.{file_inputs}
use digital_thread.Engine.Moves.{Policy}
use digital_thread.Engine.Policy.{IsTask, IsGate, Allowed-IsGate, flow_policy}
use digital_thread.Engine.Errors.{settle_task_lem}
use digital_thread.Engine.Outcome.{
  Good, Quiet, Quiet-Good, return-Good, bind-Good, bind-Good_lt, for_each-Good,
}
use digital_thread.Engine.Update.{
  update_row-Quiet, update_node_status_row, update_node_status-Good, update_node_status_lt,
  add_timeline_event-Quiet,
}
use digital_thread.Engine.Cascade.{cascade_skip-Good}

-- What a quiet operation leaves as it was.
still :
    {A : Type 0} (m : M A) {r r' : Run} {a : A} (j : String)
    → Quiet r (m r)
    → m r ≡ (ok a, r')
    → status_in r'.states j ≡ status_in r.states j
still m j q e = rw (ap (λ o. o.1.states) e) at (q.same j)

-- What a quiet operation leaves allowed.
still_allows :
    (pol : Policy) {A : Type 0} (m : M A) {r r' : Run} {a : A} (j : String) (st : NodeStatus)
    → Quiet r (m r)
    → m r ≡ (ok a, r')
    → pol.Allows r.states j st
    → pol.Allows r'.states j st
still_allows pol m {r} {r'} j st q e h =
    pol.persists r.states r'.states j st (λ i. inl (sym (still m i q e))) h

forward_outputs-Quiet :
    (id : String) (m : NodeOutputsMap) (r : Run)
    → status_in r.states id ≡ some idle
    → Quiet r (forward_outputs id m r)
forward_outputs-Quiet id [] r was = record {
  same = λ j. refl;
  as_many = refl;
  others = λ j ne. refl;
  fine = λ h. cc;
}
forward_outputs-Quiet id (o ∷ os) r was =
    update_row-Quiet id (put_outputs (o ∷ os)) r (λ s. refl) (λ s. refl) was

store_resolved-Quiet :
    (id : String) (s : Option NodeState) (m : NodeInputStatusesMap) (r : Run)
    → status_in r.states id ≡ some idle
    → Quiet r (store_resolved id s m r)
store_resolved-Quiet id s [] r was = record {
  same = λ j. refl;
  as_many = refl;
  others = λ j ne. refl;
  fine = λ h. cc;
}
store_resolved-Quiet id s (i ∷ is) r was =
    update_row-Quiet id (put_input_statuses (merge_into s (i ∷ is))) r (λ s. refl) (λ s. refl) was

file_inputs-cases :
    (target : FlowNodeDef)
    → (file_inputs target ≡ [])
      ⊎ ((i : NodeInputDef) × (is : List NodeInputDef) × (file_inputs target ≡ i ∷ is))
file_inputs-cases target = ground arith

pub if-Good :
    (pol : Policy) (test : Bool) (m n : M (Unit {0})) (b : ℕ) (r : Run)
    → (test ≡ true → Good pol b r (m r))
    → (test ≡ false → Good pol b r (n r))
    → Good pol b r ((if test then m else n) r)
if-Good pol true m n b r g h = g refl
if-Good pol false m n b r g h = h refl

module _ (edges : List FlowEdge) (nodes : List FlowNodeDef) where
  abbrev pol : Policy
  pol = flow_policy edges nodes

  open_task-Good :
      (s : Option NodeState) (target : FlowNodeDef) (id : String) (b : ℕ) (r : Run)
      → status_in r.states id ≡ some idle
      → pol.Allows r.states id pending
      → Good pol b r (open_task s target id r)
  unfolding open_task
  open_task-Good s target id b r was may =
      let m = store_resolved id s (resolve_predecessor_inputs r.states target) in
      let quiet = store_resolved-Quiet id s (resolve_predecessor_inputs r.states target) r was in
      bind-Good pol b m (λ _. update_node_status id pending _) r (Quiet-Good pol quiet)
        (λ _ r' e.
          update_node_status-Good pol id pending _ (inl refl) b r' (still m id quiet e ∙ was)
            (still_allows pol m id pending quiet e may))

  pub settle_task-Good :
      (target : FlowNodeDef) (id : String) (b : ℕ) (r : Run)
      → status_in r.states id ≡ some idle
      → IsTask nodes id
      → Good pol b r (settle_task edges r.states target id r)
  settle_task-Good target id b r was task =
      rw (ap (λ m. m r) (settle_task_lem edges r.states target id)) (
        if-Good pol (all (λ p. is_ok (status_in r.states p)) (sources_of id edges))
          (open_task (find_state id r.states) target id) (return tt) b r
          (λ ready.
            open_task-Good (find_state id r.states) target id b r was
              (inr (inl (refl, task, ready))))
          (λ _. return-Good pol tt b r))

  module _ (self : String → M (Unit {0})) (b : ℕ)
      (ih : (id : String) (r : Run) → Good pol b r (self id r)) where
    conclude_passed :
        (target : FlowNodeDef) (id logic : String) (forwarded : NodeOutputsMap) (r : Run)
        → status_in r.states id ≡ some idle
        → pol.Allows r.states id completed
        → Good pol (suc b) r (conclude_gateway edges self target id logic true forwarded r)
    unfolding conclude_gateway
    conclude_passed target id logic forwarded r was may =
        let m = forward_outputs id forwarded in
        let quiet = forward_outputs-Quiet id forwarded r was in
        bind-Good pol (suc b) m _ r (Quiet-Good pol quiet) (λ _ r' e.
          let was' = still m id quiet e ∙ was in
          bind-Good_lt pol b (update_node_status id completed _) _ r'
            (update_node_status-Good pol id completed _ (inr (inl refl)) (suc b) r' was'
              (still_allows pol m id completed quiet e may))
            (λ _ r'' e'. (
              update_node_status_lt pol id completed _ (inr (inl refl)) r' was' e',
              bind-Good pol b (add_timeline_event id target.name "System" _ logic) _ r''
                  (Quiet-Good pol (add_timeline_event-Quiet id target.name "System" _ logic r''))
                  (λ _ r3 _. for_each-Good pol b self (targets_of id edges) ih r3),
            )))

    conclude_blocked :
        (target : FlowNodeDef) (id logic : String) (forwarded : NodeOutputsMap) (r : Run)
        → status_in r.states id ≡ some idle
        → IsGate nodes id
        → Good pol (suc b) r (conclude_gateway edges self target id logic false forwarded r)
    unfolding conclude_gateway
    conclude_blocked target id logic forwarded r was gate =
        bind-Good pol (suc b) (update_node_status id skipped _) _ r
          (update_node_status-Good pol id skipped _ (inr (inr refl)) (suc b) r was
            (inl (refl, inl gate)))
          (λ _ r' e.
            let event = add_timeline_event id target.name "System" Action.gateway_blocked logic in
            let quiet = add_timeline_event-Quiet id target.name "System" _ logic r' in
            bind-Good pol (suc b) event _ r' (Quiet-Good pol quiet) (λ _ r'' k.
              cascade_skip-Good pol edges id
                (λ ss j shut path. inl (refl, inr (id, gate, shut, path))) (suc b) r''
                (still event id quiet k ∙ (update_node_status_row id skipped _ r r' e).0)))

    conclude_gateway-Good :
        (target : FlowNodeDef) (id logic : String) (passes : Bool) (forwarded : NodeOutputsMap)
        (r : Run)
        → status_in r.states id ≡ some idle
        → pol.Allows r.states id completed
        → Good pol (suc b) r (conclude_gateway edges self target id logic passes forwarded r)
    conclude_gateway-Good target id logic true forwarded r was may =
        conclude_passed target id logic forwarded r was may
    conclude_gateway-Good target id logic false forwarded r was may =
        conclude_blocked target id logic forwarded r was
          (Allowed-IsGate edges nodes r.states id may)

    file_gate-Good :
        (target : FlowNodeDef) (id logic : String) (r : Run)
        → status_in r.states id ≡ some idle
        → pol.Allows r.states id completed
        → Good pol (suc b) r (file_gate edges self target id logic r)
    unfolding file_gate
    file_gate-Good target id logic r was may =
        let write = put_input_statuses (resolve_predecessor_inputs r.states target) in
        let quiet = update_row-Quiet id write r (λ s. refl) (λ s. refl) was in
        bind-Good pol (suc b) (update_row id write) _ r (Quiet-Good pol quiet) (λ _ r' e.
          conclude_gateway-Good target id logic _ _ r'
            (still (update_row id write) id quiet e ∙ was)
            (still_allows pol (update_row id write) id completed quiet e may))

    pub settle_gateway-Good :
        (states : List NodeState) (target : FlowNodeDef) (id : String) (r : Run)
        → status_in r.states id ≡ some idle
        → pol.Allows r.states id completed
        → Good pol (suc b) r (settle_gateway edges self states target id r)
    unfolding settle_gateway
    settle_gateway-Good states target id r was may = elim (file_inputs-cases target) [
      | inl e ↦ rw (e, settle_gateway) (conclude_gateway-Good target id _ _ [] r was may)
      | inr (i, is, e) ↦ rw (e, settle_gateway) (file_gate-Good target id _ r was may)
    ]
