-- ===== src/Iterations/Healing.antt =====
-- What `findOne` makes of the status of an iteration.
use mathlib.Core.List.{Memᴰ}
use digital_thread.Shared.{
  String, ◌≡◌, refl, ap, ◌≢◌, ◌⊎◌, inl, inr, Bool, true, false, Option, none, some, List, [], ◌∷◌,
  arith, any, all, any_at, any-Memᴰ, all_at, map, is_some, Bool-cases, Option-cases,
}
use digital_thread.Json.{Json, null, bool, num, str, arr, obj, as_string, Items, items, get_field}
use digital_thread.Flow.{FlowNodeDef}
use digital_thread.Engine.Store.{
  parsed, completed, skipped, error, failed, NodeStatus, IterationStatus, running, NodeState, Run,
  ok, is_terminal, is_error,
}
use digital_thread.Engine.Activation.{status_or_idle}
use digital_thread.Engine.Completion.{
  all_terminal, any_error, final_status, finish, check_iteration_complete,
}
use digital_thread.Normalize.Nodes.{text_of, node_with, normalize_flow_node, normalize_all}
use digital_thread.Iterations.Status.{
  stored_id, text_ids, stored_status, same_status, derived_status, reconcile,
  reconcile_iteration_status,
}

same_status_refl : (st : IterationStatus) → same_status st st ≡ true
same_status_refl st = ground arith

eq_of_same_status : (a b : IterationStatus) → same_status a b ≡ true → a ≡ b
eq_of_same_status a b h = ground arith

-- Reconciling touches no row, no timeline entry and no other service, and cannot fail.
pub reconcile_rows :
    (ids : Option (List (Option String))) (r : Run)
    → ((reconcile ids r).0 ≡ ok tt) × ((reconcile ids r).1.states ≡ r.states)
unfolding reconcile
reconcile_rows none r = (refl, refl)
reconcile_rows (some []) r = (refl, refl)
reconcile_rows (some (id ∷ ids)) r = ground arith

-- A node that is done with, in one way or another.
abbrev pub IsEnded : NodeStatus → Type 0
IsEnded st = (st ≡ completed) ⊎ (st ≡ skipped) ⊎ (st ≡ error)

-- The status that the nodes call for.
pub record IsVerdict (ids : List (Option String)) (states : List NodeState) (st : IterationStatus)
    : Type 0 where
  pub if_failed :
      ((id : Option String) → Memᴰ id ids → IsEnded (stored_status states id))
      → (id : Option String) → Memᴰ id ids
      → stored_status states id ≡ error
      → st ≡ failed
  pub if_completed :
      ((id : Option String) → Memᴰ id ids → IsEnded (stored_status states id))
      → ((id : Option String) → Memᴰ id ids → stored_status states id ≢ error)
      → st ≡ IterationStatus.completed
  pub if_running :
      (id : Option String)
      → Memᴰ id ids
      → ¬ IsEnded (stored_status states id)
      → st ≡ IterationStatus.running

all_Memᴰ :
    {A : Type 0} (p : A → Bool) (xs : List A) → ((x : A) → Memᴰ x xs → p x ≡ true) → all p xs ≡ true
all_Memᴰ p [] h = refl
all_Memᴰ p (x ∷ xs) h =
    ground (arith, h x (Memᴰ.head refl), all_Memᴰ p xs (λ y m. h y (Memᴰ.tail m)))

is_terminal-IsEnded : (st : NodeStatus) → IsEnded st → is_terminal (some st) ≡ true
is_terminal-IsEnded st h = ground arith

IsEnded-is_terminal : (st : NodeStatus) → is_terminal (some st) ≡ true → IsEnded st
IsEnded-is_terminal st h = ground arith

eq_error : (st : NodeStatus) → is_error (some st) ≡ true → st ≡ error
eq_error st h = ground arith

derived_status-IsVerdict :
    (ids : List (Option String)) (states : List NodeState)
    → IsVerdict ids states (derived_status ids states)
unfolding derived_status
derived_status-IsVerdict ids states =
    let ended = λ (id : Option String). is_terminal (some (stored_status states id)) in
    let broken = λ (id : Option String). is_error (some (stored_status states id)) in
    record {
      if_failed = λ done id m e.
          rw
            (
              derived_status,
              all_Memᴰ ended ids (λ j n. is_terminal-IsEnded (stored_status states j) (done j n)),
              any_at broken m (rw e refl),
            )
            refl;
      if_completed = λ done clean. elim (Bool-cases (any broken ids)) [
        | inl some_ ↦
            let (j, n, e) = any-Memᴰ broken ids some_ in
            absurd (clean j n (eq_error (stored_status states j) e))
        | inr none_ ↦
            rw
              (
                derived_status,
                all_Memᴰ ended ids (λ j n. is_terminal-IsEnded (stored_status states j) (done j n)),
                none_,
              )
              refl
      ];
      if_running = λ id m live. elim (Bool-cases (all ended ids)) [
        | inl all_done ↦
            absurd (live (IsEnded-is_terminal (stored_status states id) (all_at ended all_done m)))
        | inr live_one ↦ rw (derived_status, live_one) refl
      ];
    }

reconcile-derived_status :
    (id : Option String) (ids : List (Option String)) (r : Run)
    → (reconcile (some (id ∷ ids)) r).1.status ≡ derived_status (id ∷ ids) r.states
unfolding reconcile
reconcile-derived_status id ids r =
    ground (arith, eq_of_same_status r.status (derived_status (id ∷ ids) r.states))

-- Whatever its status was, reconciling an iteration over a snapshot with a node leaves the status
-- that the nodes call for: FAILED if every node is COMPLETED, SKIPPED or in ERROR and some node is in
-- ERROR, COMPLETED if every node is so and none is in ERROR, and RUNNING if some node is not so. The
-- rows of the nodes stay.
pub reconcile_status :
    (id : Option String) (ids : List (Option String)) (r : Run)
    → IsVerdict (id ∷ ids) r.states (reconcile (some (id ∷ ids)) r).1.status
      × ((reconcile (some (id ∷ ids)) r).1.states ≡ r.states)
reconcile_status id ids r = (
  rw (reconcile-derived_status id ids r) (derived_status-IsVerdict (id ∷ ids) r.states),
  (reconcile_rows (some (id ∷ ids)) r).1,
)

terminal_same :
    (states : List NodeState) (nodes : List FlowNodeDef)
    → all (λ id. is_terminal (some (stored_status states id))) (text_ids nodes)
      ≡ all_terminal nodes states
unfolding status_or_idle all_terminal
terminal_same states [] = refl
terminal_same states (n ∷ ns) = ground (arith, terminal_same states ns)

error_same :
    (states : List NodeState) (nodes : List FlowNodeDef)
    → any (λ id. is_error (some (stored_status states id))) (text_ids nodes)
      ≡ any_error nodes states
unfolding status_or_idle any_error
error_same states [] = refl
error_same states (n ∷ ns) = ground (arith, error_same states ns)

derived_same :
    (states : List NodeState) (nodes : List FlowNodeDef)
    → all_terminal nodes states ≡ true
    → derived_status (text_ids nodes) states ≡ final_status nodes states
unfolding derived_status final_status
derived_same states nodes h = ground (arith, terminal_same states nodes, error_same states nodes)

derived_running :
    (states : List NodeState) (nodes : List FlowNodeDef)
    → all_terminal nodes states ≡ false
    → derived_status (text_ids nodes) states ≡ running
unfolding derived_status
derived_running states nodes h = ground (arith, terminal_same states nodes)

check_status :
    (nodes : List FlowNodeDef) (r : Run)
    → r.status ≡ running
    → (check_iteration_complete nodes r).1.status
      ≡ derived_status (text_ids nodes) (check_iteration_complete nodes r).1.states
unfolding check_iteration_complete finish
check_status nodes r h = ground (arith, derived_same r.states nodes, derived_running r.states nodes)

reconcile-check_iteration_complete :
    (nodes : List FlowNodeDef) (r : Run)
    → r.status ≡ running
    → let r' = (check_iteration_complete nodes r).1 in
      reconcile (some (text_ids nodes)) r' ≡ (ok tt, r')
unfolding reconcile
reconcile-check_iteration_complete [] r h = refl
reconcile-check_iteration_complete (n ∷ ns) r h = ground (
  arith,
  check_status (n ∷ ns) r h,
  same_status_refl (check_iteration_complete (n ∷ ns) r).1.status,
)

module _ (text : Json → String) (lower : String → String) (blank : String → Bool)
    (catalog : String → Option String) (as_is : (s : String) → text (str s) ≡ s) where
  text_of-as_string :
      (o : Option Json) (id : String)
      → is_some (as_string o) ≡ true
      → text_of text lower blank catalog o ≡ some id
      → as_string o ≡ some id
  text_of-as_string none id h k = absurd (ground arith)
  text_of-as_string (some null) id h k = absurd (ground arith)
  text_of-as_string (some (bool b)) id h k = absurd (ground arith)
  text_of-as_string (some (num n)) id h k = absurd (ground arith)
  text_of-as_string (some (arr vs)) id h k = absurd (ground arith)
  text_of-as_string (some (obj fs)) id h k = absurd (ground arith)
  text_of-as_string (some (str s)) id h k = ground (arith, as_is s)

  normalize_flow_node-id :
      (v : Json) (n : FlowNodeDef)
      → normalize_flow_node text lower blank catalog v ≡ some n
      → is_some (stored_id v) ≡ true
      → stored_id v ≡ some n.id
  unfolding normalize_flow_node node_with
  normalize_flow_node-id v n e h =
      elim (Option-cases (text_of text lower blank catalog (get_field "id" v))) [
        | inl k ↦ absurd (ground arith)
        | inr (id, k) ↦
            let same : node_with text lower blank catalog id v ≡ n = ground arith in
            rw (← ap (λ m. m.id) same) (text_of-as_string (get_field "id" v) id h k)
      ]

  -- Normalising keeps the ids that are texts.
  stored_ids-normalize_all :
      (vs : List Json) (nodes : List FlowNodeDef)
      → normalize_all text lower blank catalog vs ≡ some nodes
      → all (λ v. is_some (stored_id v)) vs ≡ true
      → map stored_id vs ≡ text_ids nodes
  unfolding normalize_all normalize_flow_node
  stored_ids-normalize_all [] nodes e h = ground arith
  stored_ids-normalize_all (v ∷ vs) nodes e h =
      elim (Option-cases (normalize_flow_node text lower blank catalog v)) [
        | inl k ↦ absurd (ground arith)
        | inr (n, k) ↦ elim (Option-cases (normalize_all text lower blank catalog vs)) [
          | inl l ↦ absurd (ground arith)
          | inr (ns, l) ↦
              let same : n ∷ ns ≡ nodes = ground arith in
              rw (← same) (
                ground (
                  arith,
                  normalize_flow_node-id v n k (ground arith),
                  stored_ids-normalize_all vs ns l (ground arith),
                ))
        ]
      ]

  -- The engine and `findOne` agree where the stored id of each node is a text, and `String(...)` keeps
  -- texts: after the engine has checked a RUNNING iteration for completion, with the normalised nodes
  -- of the snapshot, reconciling it with the stored nodes changes nothing.
  pub find_one-check_iteration_complete :
      (vs : Items) (nodes : List FlowNodeDef) (r : Run)
      → normalize_all text lower blank catalog (items vs) ≡ some nodes
      → all (λ v. is_some (stored_id v)) (items vs) ≡ true
      → r.status ≡ running
      → let r' = (check_iteration_complete nodes r).1 in
        reconcile_iteration_status (parsed (arr vs)) r' ≡ (ok tt, r')
  unfolding reconcile_iteration_status
  find_one-check_iteration_complete vs nodes r e h k =
      rw (stored_ids-normalize_all (items vs) nodes e h)
        (reconcile-check_iteration_complete nodes r k)
