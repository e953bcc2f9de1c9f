-- ===== src/Iterations/Beginnings.antt =====
-- What a new iteration is like.
use digital_thread.Shared.{
  ℕ, String, ◌≡◌, refl, ◌≢◌, ◌⊎◌, inl, inr, ap, sym, ◌∙◌, false, not, ◌&&◌, Option, none, some,
  List, [], ◌∷◌, map, arith, eq_iff, ◌==◌, if◌then◌else◌, truthy, includes, Bool-cases,
  Option-cases,
}
use digital_thread.Flow.{FlowNodeDef, FlowEdge}
use digital_thread.Engine.Store.{
  idle, pending, no_extra, NodeState, Action, Run, Result, ok, err, for_each, find_state, status_in,
}
use digital_thread.Engine.Status.{
  idle_row, init_row, init_states, init_node_states, update_node_status, add_timeline_event,
}
use digital_thread.Engine.Outcome.{bind-ok}
use digital_thread.Engine.Update.{update_node_status_row}
use digital_thread.Access.Roles.{Role, superadmin, owner, operator}
use digital_thread.Access.Scope.{User, Partner, resolve_owner_partner}
use digital_thread.Iterations.Status.{text_ids, node_ids, find_one}
use digital_thread.Iterations.Healing.{reconcile_rows}
use digital_thread.Iterations.Starts.{start_nodes, start_run}
use digital_thread.Iterations.Forks.{IterationRow, fresh_run}
use digital_thread.Iterations.Inherited.{find_state-append}
use digital_thread.Iterations.Creation.{
  MachineRow, LatestVersion, ProductRow, CreateInput, product_key, product_for, new_row, create_for,
  create,
}

status_in-init_row :
    (id j : String) (ss : List NodeState)
    → status_in (init_row id ss) j
      ≡ elim (status_in ss j) [ some st ↦ some st | none ↦ if id == j then some idle else none ]
unfolding status_in init_row
status_in-init_row id j ss = elim (Option-cases (find_state id ss)) [
  | inl e ↦ elim (Option-cases (find_state j ss)) [
    | inl k ↦ ground (arith, find_state-append j ss (idle_row id))
    | inr (s, k) ↦ ground (arith, find_state-append j ss (idle_row id))
  ]
  | inr (t, e) ↦ elim (Bool-cases (id == j)) [
    | inl same ↦ ground (arith, eq_iff id j)
    | inr other ↦ ground arith
  ]
]

status_in-init_states :
    (ns : List FlowNodeDef) (ss : List NodeState) (j : String)
    → status_in (init_states ns ss) j ≡ elim (status_in ss j) [
      | some st ↦ some st
      | none ↦ if includes (node_ids ns) j then some idle else none
    ]
unfolding init_states
status_in-init_states [] ss j = elim (Option-cases (status_in ss j)) [
  | inl e ↦ ground arith
  | inr (st, e) ↦ ground arith
]
status_in-init_states (n ∷ ns) ss j =
    status_in-init_states ns (init_row n.id ss) j ∙ ground (arith, status_in-init_row n.id j ss)

elsewhere :
    (id j : String) (ss ts : List NodeState)
    → ((k : String) → id ≢ k → find_state k ts ≡ find_state k ss)
    → (id == j) ≡ false
    → status_in ts j ≡ status_in ss j
unfolding status_in
elsewhere id j ss ts same other = rw (same j (λ e. ground (arith, eq_iff id j)), status_in) refl

-- The listed nodes become PENDING, and no other status changes.
for_each_pending :
    (ids : List String) (r r' : Run)
    → for_each (λ (n : String). update_node_status n pending no_extra) ids r ≡ (ok tt, r')
    → (j : String)
    → status_in r'.states j ≡ (if includes ids j then some pending else status_in r.states j)
unfolding for_each
for_each_pending [] r r' h j = ground arith
for_each_pending (id ∷ ids) r r' h j =
    let (a, q, first, rest) = bind-ok (update_node_status id pending no_extra) _ r h in
    let set = update_node_status_row id pending no_extra r q first in
    for_each_pending ids q r' rest j ∙ elim (Bool-cases (id == j)) [
      | inl here ↦ ground (arith, set.0, eq_iff id j)
      | inr other ↦ rw (elsewhere id j r.states q.states set.1 other) (ground arith)
    ]

includes-start_nodes :
    (edges : List FlowEdge) (nodes : List FlowNodeDef) (j : String)
    → includes (map (λ n. n.id) (start_nodes edges nodes)) j
      ≡ (includes (node_ids nodes) j && not (includes (map (λ e. e.target) edges) j))
unfolding start_nodes
includes-start_nodes edges [] j = refl
includes-start_nodes edges (n ∷ ns) j = elim (Bool-cases (n.id == j)) [
  | inl e ↦ ground (arith, includes-start_nodes edges ns j, eq_iff n.id j)
  | inr e ↦ ground (arith, includes-start_nodes edges ns j, eq_iff n.id j)
]

-- Each node of the workflow is PENDING if no edge leads to it, and IDLE otherwise.
abbrev pub IsBegun : List FlowEdge → List FlowNodeDef → Run → Type 0
IsBegun edges nodes r =
    (j : String)
    → status_in r.states j ≡ (
        if includes (node_ids nodes) j
        then if includes (map (λ (e : FlowEdge). e.target) edges) j then some idle else some pending
        else none)

start_run-IsBegun :
    (edges : List FlowEdge) (nodes : List FlowNodeDef) (detail : String) (now : ℕ) (r : Run)
    → start_run edges nodes detail (fresh_run now) ≡ (ok tt, r)
    → IsBegun edges nodes r
unfolding start_run init_node_states add_timeline_event find_one find_state status_in
start_run-IsBegun edges nodes detail now r h j =
    let q = record (fresh_run now) { states = init_states nodes [] } in
    let ids = map (λ (n : FlowNodeDef). n.id) (start_nodes edges nodes) in
    let (b, s, opened, last) =
      bind-ok (for_each (λ (n : String). update_node_status n pending no_extra) ids) _ q h in
    let kept : r.states ≡ s.states =
      sym (ap (λ o. o.1.states) last)
      ∙ (reconcile_rows (some (text_ids nodes))
          (add_timeline_event "system" "System" "System" Action.iteration_started detail s).1).1 in
    ap (λ ss. status_in ss j) kept
    ∙ (for_each_pending ids q s opened j
        ∙ ground (arith, status_in-init_states nodes [] j, includes-start_nodes edges nodes j))

module _ (find_partner : String → Option Partner) (find_product : String → Option ProductRow) where
  -- A SUPERADMIN names a registered partner as the owner; an OWNER starts for the own partner.
  abbrev pub IsOwnedFor : User → CreateInput → String → Type 0
  IsOwnedFor u i partner =
      ((u.role ≡ superadmin)
        × (i.owner_partner_id ≡ some partner)
        × ((p : Partner) × (find_partner partner ≡ some p)))
      ⊎ ((u.role ≡ owner) × (u.partner_id ≡ some partner))

  -- No product was asked for, or one of the partner is the iteration's.
  abbrev pub IsProductOf : String → CreateInput → Option String → Type 0
  IsProductOf partner i key =
      ((truthy i.product_id ≡ none) × (key ≡ none))
      ⊎ ((id : String) × (p : ProductRow) × (truthy i.product_id ≡ some id)
          × (find_product id ≡ some p)
          × (p.owner_partner_id ≡ partner)
          × (key ≡ some p.id))

  truthy_same : (o : Option String) (s : String) → truthy o ≡ some s → o ≡ some s
  truthy_same o s h = ground arith

  resolve_owner_partner-IsOwnedFor :
      (u : User) (i : CreateInput) (partner : String)
      → resolve_owner_partner find_partner i.owner_partner_id u ≡ some partner
      → IsOwnedFor u i partner
  unfolding resolve_owner_partner
  resolve_owner_partner-IsOwnedFor u i partner h = by_role u.role refl h
    where
      by_role :
          (x : Role)
          → u.role ≡ x
          → resolve_owner_partner find_partner i.owner_partner_id u ≡ some partner
          → IsOwnedFor u i partner
      by_role superadmin e h = elim (Option-cases (truthy i.owner_partner_id)) [
        | inl k ↦ absurd (ground arith)
        | inr (id, k) ↦ elim (Option-cases (find_partner id)) [
          | inl g ↦ absurd (ground arith)
          | inr (p, g) ↦
              let same : id ≡ partner = ground arith in
              inl (e, rw (← same) (truthy_same i.owner_partner_id id k), (p, rw (← same) g))
        ]
      ]
      by_role owner e h = inr (e, truthy_same u.partner_id partner (ground arith))
      by_role operator e h = absurd (ground arith)

  product_for-IsProductOf :
      (partner : String) (i : CreateInput) (product : Option ProductRow)
      → product_for find_product partner i.product_id ≡ ok product
      → IsProductOf partner i (product_key product)
  unfolding product_for
  product_for-IsProductOf partner i product h = elim (Option-cases (truthy i.product_id)) [
    | inl e ↦ inl (e, ground arith)
    | inr (id, e) ↦ elim (Option-cases (find_product id)) [
      | inl k ↦ absurd (ground arith)
      | inr (p, k) ↦
          inr (id, p, e, k, ground (arith, eq_iff p.owner_partner_id partner), ground arith)
    ]
  ]

  -- A new iteration pinned to a version, with its owner, its product and its nodes.
  abbrev pub IsCreated : User → CreateInput → LatestVersion → Option (IterationRow × Run) → Type 0
  IsCreated u i version created =
      (row : IterationRow) × (r : Run) × (created ≡ some (row, r))
      × (row.state_machine_version_id ≡ some version.id)
      × IsOwnedFor u i row.owner_partner_id
      × IsProductOf row.owner_partner_id i row.product_id
      × IsBegun version.edges version.nodes r

  module _ (display_id detail : String → ℕ → String) where
    create_for-IsCreated :
        (now : ℕ) (id : String) (machine : MachineRow) (v : LatestVersion) (count : ℕ)
        (i : CreateInput) (u : User) (partner : String)
        → IsOwnedFor u i partner
        → (create_for display_id detail find_partner find_product now id machine v count partner
            i).result
          ≡ ok tt
        → IsCreated u i v
            (create_for display_id detail find_partner find_product now id machine v count partner
              i).created
    unfolding create_for
    create_for-IsCreated now id machine v count i u partner owned h =
        by_product (product_for find_product partner i.product_id) refl h
      where
        run_ok : (o : Result (Unit {0}) × Run) → o.0 ≡ ok tt → o ≡ (ok tt, o.1)
        run_ok (a, r) e = rw e refl

        by_product :
            (o : Result (Option ProductRow))
            → product_for find_product partner i.product_id ≡ o
            → (create_for display_id detail find_partner find_product now id machine v count partner
                i).result
              ≡ ok tt
            → IsCreated u i v
                (create_for display_id detail find_partner find_product now id machine v count
                  partner i).created
        by_product (err f) k g = absurd (ground arith)
        by_product (ok product) k g =
            let row = new_row display_id detail id machine v count partner product i in
            let o =
              start_run v.edges v.nodes (detail row.display_id v.version_number) (fresh_run now) in
            rw (k, create_for)
              (
                row,
                o.1,
                refl,
                refl,
                owned,
                product_for-IsProductOf partner i product k,
                start_run-IsBegun v.edges v.nodes (detail row.display_id v.version_number) now o.1
                    (run_ok o (rw (k, create_for) at g)),
              )

    -- A creation that succeeds pins the iteration to the latest version. Its owner is the registered
    -- partner that a SUPERADMIN names, or the OWNER's own; its product, if one was asked for, is one
    -- of that partner. Exactly the nodes that no edge leads to are PENDING, all others IDLE, a
    -- TRIGGER that an edge leads to among them.
    pub create_lem :
        (now : ℕ) (id : String) (machine : Option MachineRow) (latest : Option LatestVersion)
        (count : ℕ) (i : CreateInput) (u : User)
        → let done =
            create display_id detail find_partner find_product now id machine latest count i u in
          done.result ≡ ok tt
          → (version : LatestVersion) × (latest ≡ some version) × IsCreated u i version done.created
    unfolding create
    create_lem now id none latest count i u h = cc
    create_lem now id (some machine) none count i u h =
        elim (Option-cases (resolve_owner_partner find_partner i.owner_partner_id u)) [
          | inl e ↦ absurd (ground arith)
          | inr (partner, e) ↦ absurd (ground arith)
        ]
    create_lem now id (some machine) (some v) count i u h =
        elim (Option-cases (resolve_owner_partner find_partner i.owner_partner_id u)) [
          | inl e ↦ absurd (ground arith)
          | inr (partner, e) ↦ (
            v,
            refl,
            rw (e, create)
                (create_for-IsCreated now id machine v count i u partner
                  (resolve_owner_partner-IsOwnedFor u i partner e) (rw (e, create) at h)),
          )
        ]
